-- ===== src/Scheduler/Total.antt =====
-- Where the signer and the hash functions answer, Process makes a plan.
use eth2_validator.Base.{
  ℕ, zero, suc, ◌+◌, ◌/◌, ◌≡◌, ◌≢◌, refl, false, String, List, [], ◌∷◌, map, some, nat_beq, ltb,
  if◌then◌else◌, arith,
}
use eth2_validator.Base.Try.{All, IsValue, IsValue-bind}
use eth2_validator.GoMap.{Map}
use eth2_validator.DelayHeap.Nodes.{Time}
use eth2_validator.Duty.{Bytes}
use eth2_validator.Scheduler.{
  selected, is_attestator_aggregate, is_sync_committee_aggregator, attestation_duties, attestations,
  subcommittees, aggregates, committee_at, committee_slots, committees, process,
}
use eth2_validator.Scheduler.Input.{
  Spec, DomainType, Evaluation, AttesterDuty, CommitteeSyncDuty, Env, sync_committee_subnet_count,
  target_aggregators_per_sync_subcommittee, quotient, remainder, parse_uint, convert_to_int_indices,
}

-- The signer and the hash of the selection data answer, and the divisors of the configuration are
-- not 0.
pub record Answers (env : Env) (config : Spec) : Type 0 where
  pub signs :
      (d : DomainType) (epoch account : ℕ) (root : Bytes) → IsValue (env.sign d epoch account root)
  pub hashes : (slot sub_committee : ℕ) → IsValue (env.selection_data_root slot sub_committee)
  pub aggregators : config.target_aggregators_per_committee ≢ 0
  pub subnets : config.sync_committee_size / sync_committee_subnet_count ≢ 0

-- The text is a number of 32 bits.
abbrev pub IsIndex : String → Type 0
IsIndex s = (n : ℕ) × (parse_uint s ≡ some n)

abbrev pub AreIndices : CommitteeSyncDuty → Type 0
AreIndices c = All IsIndex c.validator_sync_committee_indices

quotient-IsValue : (a b : ℕ) → b ≢ 0 → IsValue (quotient a b)
unfolding quotient
quotient-IsValue a b h = let nonzero : nat_beq b 0 ≡ false = ground arith in rw nonzero (_, refl)

-- A modulus that stands in for 0 by 1 selects without a panic.
selected-IsValue :
    (env : Env) (config : Spec) (signature : Bytes) (modulo : ℕ)
    → modulo ≢ 0
    → IsValue (selected env config signature modulo)
unfolding selected remainder
selected-IsValue env config signature modulo h =
    let nonzero : nat_beq modulo 0 ≡ false = ground arith in rw nonzero (_, refl)

at_least_one : (q : ℕ) → (if nat_beq q 0 then 1 else q) ≢ 0
at_least_one q e = ground arith

one_or_more : (q : ℕ) → (if ltb q 1 then 1 else q) ≢ 0
one_or_more q e = ground arith

convert_to_int_indices-IsValue :
    (l : List String) → All IsIndex l → IsValue (convert_to_int_indices l)
unfolding convert_to_int_indices
convert_to_int_indices-IsValue [] all = ([], refl)
convert_to_int_indices-IsValue (s ∷ l) ((n, e), all) =
    rw (convert_to_int_indices, e)
      (IsValue-bind (convert_to_int_indices l) _ (convert_to_int_indices-IsValue l all)
        λ ns. (_, refl))

module _ (env : Env) (config : Spec) (A : Answers env config) (eval : Evaluation) where
  attestation_duties-IsValue :
      (a : AttesterDuty) (n : ℕ) → IsValue (attestation_duties env config eval a n)
  unfolding attestation_duties is_attestator_aggregate
  attestation_duties-IsValue a n =
      IsValue-bind
        (is_attestator_aggregate env config eval a.committee_length a.slot a.validator_index) _
        (IsValue-bind (quotient a.committee_length config.target_aggregators_per_committee) _
          (quotient-IsValue _ _ A.aggregators)
          λ q. IsValue-bind (env.sign _ _ _ _) _ (A.signs _ _ _ _) λ s.
            IsValue-bind (selected env config s _) _
              (selected-IsValue env config s _ (at_least_one q)) λ b. (_, refl))
        λ r. (_, refl)

  attestations-IsValue :
      (l : List AttesterDuty) (n : ℕ) → IsValue (attestations env config eval l n)
  unfolding attestations
  attestations-IsValue [] n = (_, refl)
  attestations-IsValue (a ∷ l) n =
      IsValue-bind (attestation_duties env config eval a n) _ (attestation_duties-IsValue a n)
        λ (duties, n').
          IsValue-bind (attestations env config eval l n') _ (attestations-IsValue l n')
            λ r. (_, refl)

  subcommittees-IsValue :
      (l : List ℕ) (m : Map ℕ (Unit {0})) → IsValue (subcommittees env config eval l m)
  unfolding subcommittees
  subcommittees-IsValue [] m = (m, refl)
  subcommittees-IsValue (i ∷ l) m =
      IsValue-bind (quotient i _) _ (quotient-IsValue i _ A.subnets) λ s. subcommittees-IsValue l _

  aggregates-IsValue :
      (slot validator : ℕ) (l : List ℕ) (n : ℕ)
      → IsValue (aggregates env config eval slot validator l n)
  unfolding aggregates is_sync_committee_aggregator
  aggregates-IsValue slot validator [] n = (_, refl)
  aggregates-IsValue slot validator (i ∷ l) n =
      IsValue-bind (is_sync_committee_aggregator env config eval i slot validator) _
        (IsValue-bind (env.selection_data_root slot i) _ (A.hashes slot i) λ root.
          IsValue-bind (env.sign _ _ _ _) _ (A.signs _ _ _ _) λ s.
            IsValue-bind (selected env config s _) _
              (selected-IsValue env config s _ (
                one_or_more (
                  config.sync_committee_size / sync_committee_subnet_count
                  / target_aggregators_per_sync_subcommittee)))
              λ b. (_, refl))
        λ (b, proof).
          IsValue-bind (aggregates env config eval slot validator l (if b then n + 1 else n)) _
            (aggregates-IsValue slot validator l _) λ r. (_, refl)

  committee_at-IsValue :
      (c : CommitteeSyncDuty) (slot n : ℕ)
      → AreIndices c
      → IsValue (committee_at env config eval c slot n)
  unfolding committee_at
  committee_at-IsValue c slot n all =
      IsValue-bind (convert_to_int_indices c.validator_sync_committee_indices) _
        (convert_to_int_indices-IsValue _ all)
        λ indices.
          IsValue-bind (subcommittees env config eval indices []) _
            (subcommittees-IsValue indices [])
            λ found.
              IsValue-bind
                (aggregates env config eval slot c.validator_index
                  (env.range (map (λ (k, _). k) found)) (n + 1))
                _ (aggregates-IsValue _ _ _ _) λ r. (_, refl)

  committee_slots-IsValue :
      (c : CommitteeSyncDuty) (count slot n : ℕ)
      → AreIndices c
      → IsValue (committee_slots env config eval c count slot n)
  unfolding committee_slots
  committee_slots-IsValue c zero slot n all = (_, refl)
  committee_slots-IsValue c (suc count) slot n all =
      IsValue-bind (committee_at env config eval c slot n) _ (committee_at-IsValue c slot n all)
        λ (duties, n').
          IsValue-bind (committee_slots env config eval c count (slot + 1) n') _
            (committee_slots-IsValue c count (slot + 1) n' all) λ r. (_, refl)

  committees-IsValue :
      (l : List CommitteeSyncDuty) (n : ℕ)
      → All AreIndices l
      → IsValue (committees env config eval l n)
  unfolding committees
  committees-IsValue [] n all = (_, refl)
  committees-IsValue (c ∷ l) n (indices, all) =
      IsValue-bind (committee_slots env config eval c _ _ n) _
        (committee_slots-IsValue c _ _ n indices)
        λ (duties, n').
          IsValue-bind (committees env config eval l n') _ (committees-IsValue l n' all)
            λ r. (_, refl)

  -- Where the signer and the hash of the selection data answer every call, the divisors of the
  -- configuration are not 0, and the indices of the sync committees are numbers of 32 bits, Process
  -- ends with a plan, without an error or a panic.
  pub process-IsValue :
      (now : Time) (n : ℕ) → All AreIndices eval.committee → IsValue (process env config eval now n)
  unfolding process
  process-IsValue now n all =
      IsValue-bind (attestations env config eval eval.attestation _) _
        (attestations-IsValue eval.attestation _)
        λ (attested, n2).
          IsValue-bind (committees env config eval eval.committee n2) _
            (committees-IsValue eval.committee n2 all) λ r. (_, refl)
