-- ===== src/Bitlist/Bits.antt =====
-- Facts about one byte, checked for each of its values.
use Prim.Native.Nat.{bit_and, bit_or}
use eth2_validator.Base.{
  ℕ, zero, suc, ◌+◌, ◌<◌, ◌≡◌, ◌^◌, refl, Bool, true, false, ◌&&◌, ◌||◌, not, arith, nat_beq, ltb,
  leb,
}
use eth2_validator.Bitlist.{len8, and_not}

-- The test passes at every number below the bound.
every_below : ℕ → (ℕ → Bool) → Bool
every_below zero test = true
every_below (suc m) test = every_below m test && test m

every_below-true :
    (m : ℕ) (test : ℕ → Bool) (k : ℕ) → every_below m test ≡ true → k < m → test k ≡ true
unfolding every_below
every_below-true zero test k passed below = absurd (omega arith)
every_below-true (suc m) test k passed below = ground (arith, every_below-true m test k)

-- Whether bit `k` of the byte is set.
abbrev pub has_bit : ℕ → ℕ → Bool
has_bit x k = nat_beq (bit_and x (2 ^ k)) (2 ^ k)

same : Bool → Bool → Bool
same true b = b
same false b = not b

same_eq : (a b : Bool) → same a b ≡ true → a ≡ b
unfolding same
same_eq a b h = ground arith

and_left : (a b : Bool) → (a && b) ≡ true → a ≡ true
and_left a b h = ground arith

and_right : (a b : Bool) → (a && b) ≡ true → b ≡ true
and_right a b h = ground arith

leb_255 : (a : ℕ) → leb a 255 ≡ true → a < 256
leb_255 a h = ground arith

abbrev Table : (ℕ → ℕ → ℕ → Bool) → Type 0
Table p = every_below 256 (λ x. every_below 8 (λ k. every_below 8 (λ j. p x k j))) ≡ true

Table-sound :
    (p : ℕ → ℕ → ℕ → Bool) (x k j : ℕ) → Table p → x < 256 → k < 8 → j < 8 → p x k j ≡ true
Table-sound p x k j h hx hk hj =
    every_below-true 8 (λ j. p x k j) j
      (every_below-true 8 (λ k. every_below 8 (λ j. p x k j)) k
        (every_below-true 256 (λ x. every_below 8 (λ k. every_below 8 (λ j. p x k j))) x h hx) hk)
      hj

set_check : ℕ → ℕ → ℕ → Bool
unfolding same
set_check x k j =
    same (has_bit (bit_or x (2 ^ k)) j) (nat_beq k j || has_bit x j) && leb (bit_or x (2 ^ k)) 255

set-Table : Table set_check
unfolding every_below set_check
set-Table = refl

clear_check : ℕ → ℕ → ℕ → Bool
unfolding same
clear_check x k j =
    same (has_bit (and_not x (2 ^ k)) j) (not (nat_beq k j) && has_bit x j)
    && leb (and_not x (2 ^ k)) 255

clear-Table : Table clear_check
unfolding every_below clear_check
clear-Table = refl

-- A byte below 2 ^ (m + 1) that has bit m keeps its top bit when a lower bit is written.
top_check : ℕ → ℕ → ℕ → Bool
top_check x k j =
    not (ltb k j)
    || not (nat_beq (len8 x) (j + 1))
    || (nat_beq (len8 (bit_or x (2 ^ k))) (j + 1) && nat_beq (len8 (and_not x (2 ^ k))) (j + 1))

top-Table : Table top_check
unfolding every_below top_check len8
top-Table = refl

module _ (x k j : ℕ) (hx : x < 256) (hk : k < 8) (hj : j < 8) where
  pub bit_or_has : has_bit (bit_or x (2 ^ k)) j ≡ (nat_beq k j || has_bit x j)
  unfolding set_check
  bit_or_has = same_eq _ _ (and_left _ _ (Table-sound set_check x k j set-Table hx hk hj))

  pub bit_or_byte : bit_or x (2 ^ k) < 256
  unfolding set_check
  bit_or_byte = leb_255 _ (and_right _ _ (Table-sound set_check x k j set-Table hx hk hj))

  pub and_not_has : has_bit (and_not x (2 ^ k)) j ≡ (not (nat_beq k j) && has_bit x j)
  unfolding clear_check
  and_not_has = same_eq _ _ (and_left _ _ (Table-sound clear_check x k j clear-Table hx hk hj))

  pub and_not_byte : and_not x (2 ^ k) < 256
  unfolding clear_check
  and_not_byte = leb_255 _ (and_right _ _ (Table-sound clear_check x k j clear-Table hx hk hj))

  pub len8-bit_or : k < j → len8 x ≡ j + 1 → len8 (bit_or x (2 ^ k)) ≡ j + 1
  unfolding top_check
  len8-bit_or h e = ground (arith, Table-sound top_check x k j top-Table hx hk hj)

  pub len8-and_not : k < j → len8 x ≡ j + 1 → len8 (and_not x (2 ^ k)) ≡ j + 1
  unfolding top_check
  len8-and_not h e = ground (arith, Table-sound top_check x k j top-Table hx hk hj)

-- The byte with one bit, and the bits below it.
new_check : ℕ → ℕ → Bool
unfolding same
new_check k j =
    nat_beq (len8 (bit_or 0 (2 ^ k))) (k + 1)
    && leb (bit_or 0 (2 ^ k)) 255
    && (not (ltb j k) || same (has_bit (bit_or 0 (2 ^ k)) j) false)

new_table : every_below 8 (λ k. every_below 8 (λ j. new_check k j)) ≡ true
unfolding every_below new_check len8
new_table = refl

pub one_bit :
    (k j : ℕ)
    → k < 8
    → j < 8
    → (len8 (bit_or 0 (2 ^ k)) ≡ k + 1)
      × (bit_or 0 (2 ^ k) < 256)
      × (j < k → has_bit (bit_or 0 (2 ^ k)) j ≡ false)
unfolding new_check same
one_bit k j hk hj = ground (
  arith,
  every_below-true 8 (λ j. new_check k j) j
      (every_below-true 8 (λ k. every_below 8 (λ j. new_check k j)) k new_table hk) hj,
)

pub zero_has : (j : ℕ) → j < 8 → has_bit 0 j ≡ false
zero_has j hj = same_eq _ _ (every_below-true 8 (λ j. same (has_bit 0 j) false) j zero_table hj)
  where
    zero_table : every_below 8 (λ j. same (has_bit 0 j) false) ≡ true
    zero_table = unfold every_below same in refl
