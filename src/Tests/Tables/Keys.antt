-- ===== src/Tests/Tables/Keys.antt =====
-- Keys as lists of bytes: their order, and the tests on them.
use eth2_validator.Base.{
  ◌≡◌, ◌↔◌, inl, inr, refl, Bool, true, false, ◌||◌, List, [], ◌∷◌, arith, string_eq, Bool-cases,
  subst,
}
use eth2_validator.Base.Try.{IsEntryOf}
use eth2_validator.Bitlist.{equal}
use eth2_validator.Duty.{Bytes}
use eth2_validator.State.Keys.{lt_bytes}

pub equal_iff : (a b : Bytes) → (equal a b ≡ true) ↔ (a ≡ b)
unfolding equal
equal_iff [] [] = (λ e. refl, λ e. refl)
equal_iff [] (y ∷ b) = (λ e. cc, λ e. cc)
equal_iff (x ∷ a) [] = (λ e. cc, λ e. cc)
equal_iff (x ∷ a) (y ∷ b) = ground (arith, equal_iff a b)

pub lt_bytes_trans :
    (a b c : Bytes) → lt_bytes a b ≡ true → lt_bytes b c ≡ true → lt_bytes a c ≡ true
unfolding lt_bytes
lt_bytes_trans a [] [] p q = cc
lt_bytes_trans [] [] (z ∷ c) p q = refl
lt_bytes_trans (x ∷ a) [] (z ∷ c) p q = cc
lt_bytes_trans a (y ∷ b) [] p q = cc
lt_bytes_trans [] (y ∷ b) (z ∷ c) p q = refl
lt_bytes_trans (x ∷ a) (y ∷ b) (z ∷ c) p q = ground (arith, lt_bytes_trans a b c)

pub lt_bytes_irrefl : (a : Bytes) → lt_bytes a a ≡ false
unfolding lt_bytes
lt_bytes_irrefl [] = refl
lt_bytes_irrefl (x ∷ a) = ground (arith, lt_bytes_irrefl a)

-- The keys that pass a test.
unfoldable pub any_key : (Bytes → Bool) → List Bytes → Bool
any_key test [] = false
any_key test (k ∷ l) = test k || any_key test l

pub any_key_iff :
    (test : Bytes → Bool) (l : List Bytes)
    → (any_key test l ≡ true) ↔ ((k : Bytes) × IsEntryOf k l × (test k ≡ true))
unfolding any_key
any_key_iff test [] = (λ e. cc, λ (k, i, e). absurd i)
any_key_iff test (j ∷ l) = (
  (λ e. elim (Bool-cases (test j)) [
    | inl t ↦ (j, inl refl, t)
    | inr f ↦ let (k, i, t) = (any_key_iff test l).0 (ground (arith, e, f)) in (k, inr i, t)
  ]),
  λ (k, i, t). elim i [
    | inl same ↦ let t' : test j ≡ true = subst (λ b. test b ≡ true) same t in ground (arith, t')
    | inr i' ↦
        let t' : any_key test l ≡ true = (any_key_iff test l).1 (k, i', t) in ground (arith, t')
  ],
)
