-- ===== src/Bitlist/Laws.antt =====
-- What the methods of BitList do, at every index.
use Prim.Native.Nat.{bit_or}
use eth2_validator.Base.{
  ℕ, zero, suc, ◌+◌, ◌-◌, ◌*◌, ◌/◌, ◌%◌, ◌^◌, ◌<◌, ◌≤◌, ◌≡◌, ap, ◌∙◌, sym, Bool, true, false, [],
  ◌∷◌, arith, ok, Returns, returns, nat_beq, leb, if◌then◌else◌,
}
use eth2_validator.Array
use eth2_validator.Array.{length}
use eth2_validator.Bitlist.{BitList, len8, and_not, modify, bit_len, set_bit_at, bit_at}
use eth2_validator.Bitlist.Bits.{
  has_bit, bit_or_has, bit_or_byte, and_not_has, and_not_byte, len8-bit_or, len8-and_not,
}

-- Every entry is a byte.
abbrev pub AreBytes : BitList → Type 0
AreBytes [] = Unit {0}
AreBytes (x ∷ b) = (x < 256) × AreBytes b

-- The bytes are bytes, and the last one has the bit that marks the length.
pub record IsBitList (b : BitList) : Type 0 where
  pub bytes : AreBytes b
  pub marked : 0 < len8 (Array.get_or b (length b - 1) 0)
  pub nonempty : 0 < length b

byte_at : (b : BitList) (i : ℕ) → AreBytes b → Array.get_or b i 0 < 256
unfolding Array.get_or
byte_at [] i h = omega arith
byte_at (x ∷ b) zero h = h.0
byte_at (x ∷ b) (suc i) h = byte_at b i h.1

pub set-AreBytes : (b : BitList) (i v : ℕ) → AreBytes b → v < 256 → AreBytes (Array.set b i v)
set-AreBytes [] i v h p = tt
set-AreBytes (x ∷ b) zero v h p = (p, h.1)
set-AreBytes (x ∷ b) (suc i) v h p = (h.0, set-AreBytes b i v h.1 p)

pub bit_len_lem :
    (b : BitList)
    → IsBitList b
    → bit_len b ≡ 8 * (length b - 1) + len8 (Array.get_or b (length b - 1) 0) - 1
unfolding bit_len
bit_len_lem b v = ground (arith, v.marked, v.nonempty)

len8-le : (x : ℕ) → len8 x ≤ 8
unfolding len8
len8-le x = ground arith

pub modify-ok :
    (b : BitList) (i : ℕ) (f : ℕ → ℕ)
    → i < length b
    → modify b i f ≡ ok (Array.set b i (f (Array.get_or b i 0)))
unfolding modify
modify-ok b i f h = rw (Array.get_elem?-get_or 0 b i h)

-- The byte that SetBitAt writes.
abbrev pub written : ℕ → ℕ → Bool → ℕ
written x k val = if val then bit_or x (2 ^ k) else and_not x (2 ^ k)

written_has :
    (x k j : ℕ) (val : Bool)
    → x < 256
    → k < 8
    → j < 8
    → has_bit (written x k val) j ≡ (if nat_beq k j then val else has_bit x j)
written_has x k j true hx hk hj = ground (arith, bit_or_has x k j hx hk hj)
written_has x k j false hx hk hj = ground (arith, and_not_has x k j hx hk hj)

written_byte : (x k : ℕ) (val : Bool) → x < 256 → k < 8 → written x k val < 256
written_byte x k true hx hk = bit_or_byte x k 0 hx hk (omega arith)
written_byte x k false hx hk = and_not_byte x k 0 hx hk (omega arith)

len8-written :
    (x k j : ℕ) (val : Bool)
    → x < 256
    → k < 8
    → j < 8
    → k < j
    → len8 x ≡ j + 1
    → len8 (written x k val) ≡ j + 1
len8-written x k j true hx hk hj h e = len8-bit_or x k j hx hk hj h e
len8-written x k j false hx hk hj h e = len8-and_not x k j hx hk hj h e

-- Below the length, BitAt reads the bit.
pub bit_at_lem :
    (b : BitList) (i : ℕ)
    → IsBitList b
    → i < bit_len b
    → bit_at b i ≡ ok (has_bit (Array.get_or b (i / 8) 0) (i % 8))
unfolding bit_at
bit_at_lem b i v h =
    let inside : i / 8 < length b =
      omega (arith, bit_len_lem b v, v.nonempty, len8-le (Array.get_or b (length b - 1) 0)) in
    let short : leb (bit_len b) i ≡ false = ground arith in
    rw (short, Array.get_elem?-get_or 0 b (i / 8) inside)

module _ (b : BitList) (i : ℕ) (val : Bool) (v : IsBitList b) (hi : i < bit_len b) where
  inside : i / 8 < length b
  inside = omega (arith, bit_len_lem b v, v.nonempty, len8-le (Array.get_or b (length b - 1) 0))

  result : BitList
  result = Array.set b (i / 8) (written (Array.get_or b (i / 8) 0) (i % 8) val)

  set_bit_at-ok : set_bit_at b i val ≡ ok result
  unfolding set_bit_at result
  set_bit_at-ok =
      let short : leb (bit_len b) i ≡ false = ground arith in
      rw (short, modify-ok b (i / 8) (λ x. written x (i % 8) val) inside)

  result-at :
      (j : ℕ)
      → Array.get_or result j 0 ≡ (
          if nat_beq (i / 8) j
          then written (Array.get_or b (i / 8) 0) (i % 8) val
          else Array.get_or b j 0)
  unfolding result
  result-at j = Array.get_or-set 0 b (i / 8) j _ inside

  length-result : length result ≡ length b
  unfolding result
  length-result = Array.length-set b (i / 8) _

  last-result : len8 (Array.get_or result (length b - 1) 0) ≡ len8 (Array.get_or b (length b - 1) 0)
  last-result =
      let x = Array.get_or b (length b - 1) 0 in
      let hx = byte_at b (length b - 1) v.bytes in
      ground (
        arith,
        result-at (length b - 1),
        bit_len_lem b v,
        v.marked,
        v.nonempty,
        len8-le x,
        len8-written x (i % 8) (len8 x - 1) val hx,
        (let p : i % 8 < 8 = omega arith in p),
      )

  result-IsBitList : IsBitList result × (bit_len result ≡ bit_len b)
  result-IsBitList =
      let n = length-result in
      let marked : 0 < len8 (Array.get_or result (length result - 1) 0) =
        rw (n, last-result) v.marked in
      let w : IsBitList result = record {
        bytes = result-AreBytes;
        marked = marked;
        nonempty = omega (arith, n, v.nonempty);
      } in
      (w, bit_len_lem result w ∙ rw (n, last-result) (sym (bit_len_lem b v)))
    where
      result-AreBytes : AreBytes result
      result-AreBytes =
          unfold result in
          set-AreBytes b (i / 8) _ v.bytes (
            written_byte (Array.get_or b (i / 8) 0) (i % 8) val (byte_at b (i / 8) v.bytes)
              (omega arith))

  -- SetBitAt below the length returns a bit list of the same length in which BitAt finds the value
  -- at that index, and at every other index below the length what it found before.
  pub set_bit_at_correct :
      Returns
        (λ r.
          IsBitList r
          × (bit_len r ≡ bit_len b)
          × ((j : ℕ) → j < bit_len b → bit_at r j ≡ (if nat_beq i j then ok val else bit_at b j)))
        (set_bit_at b i val)
  set_bit_at_correct =
      let (w, n) = result-IsBitList in
      rw set_bit_at-ok (
        returns (
          w,
          n,
          λ j hj.
              bit_at_lem result j w (omega (arith, n))
              ∙ read j
              ∙ sym (ap (λ o. if nat_beq i j then ok val else o) (bit_at_lem b j v hj)),
        ))
    where
      read :
          (j : ℕ)
          → ok (has_bit (Array.get_or result (j / 8) 0) (j % 8))
            ≡ (if nat_beq i j then ok val else ok (has_bit (Array.get_or b (j / 8) 0) (j % 8)))
      read j =
          let x = Array.get_or b (i / 8) 0 in
          ground (
            arith,
            result-at (j / 8),
            written_has x (i % 8) (j % 8) val (byte_at b (i / 8) v.bytes) (omega arith)
                (omega arith),
          )

-- SetBitAt at or past the length changes nothing, and BitAt there is false.
pub set_bit_at-past :
    (b : BitList) (i : ℕ) (val : Bool)
    → bit_len b ≤ i
    → (set_bit_at b i val ≡ ok b) × (bit_at b i ≡ ok false)
unfolding set_bit_at bit_at
set_bit_at-past b i val h = let e : leb (bit_len b) i ≡ true = ground arith in (rw e, rw e)
