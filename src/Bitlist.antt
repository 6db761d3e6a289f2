-- ===== src/Bitlist.antt =====
-- internal/bitlist/bitlist.go. A BitList is a list of bytes; a write in place returns the new list.
-- `Bits` is about single bytes, `Laws` about the list.
pub mod Bits
pub mod Laws
pub mod Fresh
use Prim.Native.Nat.{bit_and, bit_or, bit_xor}
use eth2_validator.Base.{
  ℕ, ◌+◌, ◌-◌, ◌*◌, ◌/◌, ◌%◌, ◌^◌, Bool, true, false, List, [], ◌∷◌, Go, ok, ◌>>=◌, or_panic, leb,
  nat_beq, if◌then◌else◌,
}
use eth2_validator.Array
use eth2_validator.Array.{length, get_elem?}

abbrev pub BitList : Type 0
BitList = List ℕ

-- `uint8(1 << (n % 8))`
abbrev pub bit : ℕ → ℕ
bit n = 2 ^ (n % 8)

-- `bits.Len8`: the number of binary digits of a byte.
unfoldable pub len8 : ℕ → ℕ
len8 x =
    if leb 128 x
    then 8
    else if leb 64 x
    then 7
    else if leb 32 x
    then 6
    else if leb 16 x
    then 5
    else if leb 8 x
    then 4
    else if leb 4 x
    then 3
    else if leb 2 x
    then 2
    else if leb 1 x
    then 1
    else 0

-- `a &^ b` on bytes.
abbrev pub and_not : ℕ → ℕ → ℕ
and_not a b = bit_and a (bit_xor b 255)

-- `b[i] = f(b[i])`, which panics out of range.
unfoldable pub modify : BitList → ℕ → (ℕ → ℕ) → Go BitList
modify b i f = or_panic (get_elem? b i) >>= λ x. ok (Array.set b i (f x))

unfoldable pub new_bitlist : ℕ → Go BitList
new_bitlist n = modify (Array.replicate (n / 8 + 1) 0) (n / 8) (λ x. bit_or x (bit n))

unfoldable pub bit_len : BitList → ℕ
bit_len b =
    let msb = len8 (Array.get_or b (length b - 1) 0) in
    if nat_beq (length b) 0 then 0 else if nat_beq msb 0 then 0 else 8 * (length b - 1) + msb - 1

unfoldable pub set_bit_at : BitList → ℕ → Bool → Go BitList
set_bit_at b index val =
    let set =
      modify b (index / 8) (λ x. if val then bit_or x (bit index) else and_not x (bit index)) in
    if leb (bit_len b) index then ok b else set

unfoldable pub bit_at : BitList → ℕ → Go Bool
bit_at b index =
    let read = or_panic (get_elem? b (index / 8)) >>= λ x.
    ok (nat_beq (bit_and x (bit index)) (bit index)) in
    if leb (bit_len b) index then ok false else read

unfoldable pub copy : BitList → BitList
copy b = b

-- `bytes.Equal`
unfoldable pub equal : BitList → BitList → Bool
equal [] [] = true
equal (x ∷ b) (y ∷ bb) = let rest = equal b bb in if nat_beq x y then rest else false
equal _ _ = false
