-- ===== src/State/Keys.antt =====
-- The keys of the slashing indexes sort as the numbers that they are made of, and lead back to them.
use native.Mathlib.Nat.{pow-suc}
use mathlib.Core.List.{append_assoc, append-nil}
use mathlib.Core.Path.{ap₂}
use eth2_validator.Base.{
  ℕ, zero, suc, ◌*◌, ◌/◌, ◌%◌, ◌^◌, ◌<◌, ◌≡◌, ◌∙◌, sym, Bool, true, false, [], ◌∷◌, ◌++◌, arith,
  ltb, if◌then◌else◌,
}
use eth2_validator.Base.Try.{Try, value}
use eth2_validator.Duty.{Bytes}
use eth2_validator.State.Index.{big_endian, write_uint64, uint64_arg, block_from_args, IndexError}

-- The order of bytes.Compare, by which go-memdb keeps an index.
unfoldable pub lt_bytes : Bytes → Bytes → Bool
lt_bytes [] [] = false
lt_bytes [] (y ∷ b) = true
lt_bytes (x ∷ a) [] = false
lt_bytes (x ∷ a) (y ∷ b) =
    let rest = lt_bytes a b in if ltb x y then true else if ltb y x then false else rest

-- The comparison of two numbers of `n` bytes with something behind them.
pub big_endian_order :
    (n a b : ℕ) (s t : Bytes)
    → a < 256 ^ n
    → b < 256 ^ n
    → lt_bytes (big_endian n a ++ s) (big_endian n b ++ t)
      ≡ (if ltb a b then true else if ltb b a then false else lt_bytes s t)
unfolding big_endian
big_endian_order zero a b s t ha hb = ground arith
big_endian_order (suc n) a b s t ha hb =
    let p : 256 ^ suc n ≡ 256 ^ n * 256 = pow-suc 256 n in
    rw
      (
        append_assoc (big_endian n (a / 256)) (a % 256 ∷ []) s,
        append_assoc (big_endian n (b / 256)) (b % 256 ∷ []) t,
      )
      (big_endian_order n (a / 256) (b / 256) ((a % 256) ∷ s) ((b % 256) ∷ t) (omega arith)
          (omega arith)
        ∙ (unfold lt_bytes in ground arith))

-- The keys of two block proposals sort by the validator, and for one validator by the slot.
pub block_key-order :
    (v w s t : ℕ) (k l : Bytes)
    → v < 2 ^ 64
    → w < 2 ^ 64
    → s < 2 ^ 64
    → t < 2 ^ 64
    → block_from_args (uint64_arg v ∷ uint64_arg s ∷ []) ≡ value k
    → block_from_args (uint64_arg w ∷ uint64_arg t ∷ []) ≡ value l
    → lt_bytes k l ≡ (if ltb v w then true else if ltb w v then false else ltb s t)
unfolding block_from_args write_uint64
block_key-order v w s t k l hv hw hs ht e f =
    rw
      (
        sym (value_inj e),
        sym (value_inj f),
        big_endian_order 8 v w (big_endian 8 s) (big_endian 8 t) hv hw,
        slots,
      )
      (ground arith)
  where
    value_inj : {a b : Bytes} → ◌≡◌ {A = Try IndexError Bytes} (value a) (value b) → a ≡ b
    value_inj e = cc e

    slots : lt_bytes (big_endian 8 s) (big_endian 8 t) ≡ ltb s t
    slots =
        ap₂ lt_bytes (sym (append-nil (big_endian 8 s))) (sym (append-nil (big_endian 8 t)))
        ∙ big_endian_order 8 s t [] [] hs ht
        ∙ (unfold lt_bytes in ground arith)
