-- ===== src/DutyLogic/Vote.antt =====
-- The aggregation bits that an attestation is sent with.
use eth2_validator.Base.{
  ℕ, ◌<◌, ◌≡◌, refl, true, ok, Returns-inv, nat_beq, ltb-false, arith, ◌∙◌, Bool-cases, ltb, ltb→lt,
  inl, inr,
}
use eth2_validator.Base.Try.{value}
use eth2_validator.Bitlist.{BitList, bit_at, bit_len}
use eth2_validator.Bitlist.Fresh.{new_bitlist_correct}
use eth2_validator.Bitlist.Laws.{IsBitList, set_bit_at_correct, set_bit_at-past}
use eth2_validator.Duty.{Attestation}
use eth2_validator.DutyLogic.{run, aggregation_bits}

module _ (job : Attestation) where
  -- The bits are as long as the committee, and the one that is on is at the committee's index, if
  -- that is below the length.
  abbrev pub IsVote : BitList → Type 0
  IsVote bits =
      IsBitList bits
      × (bit_len bits ≡ job.committee_length)
      × ((j : ℕ) → j < job.committee_length → bit_at bits j ≡ ok (nat_beq j job.committee_index))

  -- The bits of runSingleAttestation can always be made. They are a bit list as long as the committee, in
  -- which the bit at the committee's index (not at the validator's place in the committee) is on and
  -- every other is off.
  pub aggregation_bits_correct :
      (bits : BitList) × (aggregation_bits job ≡ value bits) × IsVote bits
  unfolding aggregation_bits run
  aggregation_bits_correct =
      let (b, e, (w, n, off)) = Returns-inv (new_bitlist_correct job.committee_length) in
      elim (Bool-cases (ltb job.committee_index (bit_len b))) [
        | inl h ↦
            let lt = ltb→lt job.committee_index (bit_len b) h in
            let (r, f, (w', n', at)) =
              Returns-inv (set_bit_at_correct b job.committee_index true w lt) in
            (r, rw (e, f) refl, (w', n' ∙ n, λ j hj. at j (rw n hj) ∙ ground (arith, off j hj)))
        | inr h ↦
            let (f, _) =
              set_bit_at-past b job.committee_index true
                (ltb-false job.committee_index (bit_len b) h) in
            (
              b,
              rw (e, f) refl,
              (
                w,
                n,
                λ j hj. off j hj ∙ ground (arith, n, ltb-false job.committee_index (bit_len b) h),
              ),
            )
      ]
