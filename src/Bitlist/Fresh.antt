-- ===== src/Bitlist/Fresh.antt =====
-- What NewBitlist returns.
use Prim.Native.Nat.{bit_or}
use eth2_validator.Base.{
  ℕ, zero, suc, ◌+◌, ◌-◌, ◌/◌, ◌%◌, ◌^◌, ◌<◌, ◌≡◌, refl, ap, ◌∙◌, false, arith, ok, Returns,
  returns, nat_beq, if◌then◌else◌,
}
use eth2_validator.Array
use eth2_validator.Array.{length}
use eth2_validator.Bitlist.{BitList, len8, new_bitlist, bit_len, bit_at}
use eth2_validator.Bitlist.Bits.{has_bit, one_bit, zero_has}
use eth2_validator.Bitlist.Laws.{
  AreBytes, IsBitList, bit_len_lem, bit_at_lem, modify-ok, set-AreBytes,
}

replicate-AreBytes : (n : ℕ) → AreBytes (Array.replicate n 0)
replicate-AreBytes zero = tt
replicate-AreBytes (suc n) = (omega arith, replicate-AreBytes n)

replicate-at : (n i : ℕ) → Array.get_or {A = ℕ} (Array.replicate n 0) i 0 ≡ 0
unfolding Array.get_or
replicate-at zero i = refl
replicate-at (suc n) zero = refl
replicate-at (suc n) (suc i) = replicate-at n i

module _ (n : ℕ) where
  zeros : BitList
  zeros = Array.replicate (n / 8 + 1) 0

  marker : ℕ
  marker = bit_or 0 (2 ^ (n % 8))

  fresh : BitList
  fresh = Array.set zeros (n / 8) marker

  length-zeros : length zeros ≡ n / 8 + 1
  unfolding zeros
  length-zeros = Array.length-replicate (n / 8 + 1) 0

  new_bitlist-ok : new_bitlist n ≡ ok fresh
  unfolding new_bitlist fresh marker zeros
  new_bitlist-ok =
      modify-ok (Array.replicate (n / 8 + 1) 0) (n / 8) (λ x. bit_or x (2 ^ (n % 8)))
        (omega (arith, length-zeros))
      ∙ rw (replicate-at (n / 8 + 1) (n / 8)) refl

  fresh-at : (j : ℕ) → Array.get_or fresh j 0 ≡ (if nat_beq (n / 8) j then marker else 0)
  unfolding fresh zeros
  fresh-at j = ground (
    arith,
    Array.get_or-set 0 (Array.replicate (n / 8 + 1) 0) (n / 8) j marker
        (omega (arith, length-zeros)),
    replicate-at (n / 8 + 1) j,
  )

  length-fresh : length fresh ≡ n / 8 + 1
  unfolding fresh
  length-fresh = Array.length-set zeros (n / 8) marker ∙ length-zeros

  fresh-IsBitList : IsBitList fresh × (bit_len fresh ≡ n)
  unfolding marker
  fresh-IsBitList =
      let (top, byte, _) = one_bit (n % 8) 0 (omega arith) (omega arith) in
      let last : Array.get_or fresh (length fresh - 1) 0 ≡ marker =
        ground (arith, fresh-at (length fresh - 1), length-fresh) in
      let w : IsBitList fresh = record {
        bytes =
            unfold fresh zeros in
            set-AreBytes (Array.replicate (n / 8 + 1) 0) (n / 8) marker
              (replicate-AreBytes (n / 8 + 1)) byte;
        marked = rw last (omega (arith, top));
        nonempty = omega (arith, length-fresh);
      } in
      (w, omega (arith, bit_len_lem fresh w, ap len8 last, top, length-fresh))

  -- NewBitlist returns a bit list of the asked length in which every bit is off.
  pub new_bitlist_correct :
      Returns
        (λ r. IsBitList r × (bit_len r ≡ n) × ((j : ℕ) → j < n → bit_at r j ≡ ok false))
        (new_bitlist n)
  new_bitlist_correct =
      let (w, e) = fresh-IsBitList in
      rw new_bitlist-ok
        (returns (w, e, λ j hj. bit_at_lem fresh j w (omega (arith, e)) ∙ ap ok (off j hj)))
    where
      off : (j : ℕ) → j < n → has_bit (Array.get_or fresh (j / 8) 0) (j % 8) ≡ false
      off j hj =
          unfold marker in
          ground (
            arith,
            fresh-at (j / 8),
            zero_has (j % 8) (omega arith),
            (one_bit (n % 8) (j % 8) (omega arith) (omega arith)).2,
          )
