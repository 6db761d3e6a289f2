-- ===== src/Scheduler.antt =====
-- internal/scheduler/scheduler.go. `Times` has the arithmetic of time.Duration. What the scheduler
-- calls outside of the file enters as the record Env: the signing of the server, the hash functions,
-- the generator of ids, the order in which Go ranges over a map.
pub mod Input
pub mod Times
pub mod Plan
pub mod Epoch
pub mod Total
use eth2_validator.Base.{
  ℕ, zero, suc, ◌+◌, ◌-◌, ◌*◌, ◌/◌, Bool, List, [], ◌∷◌, ◌++◌, map, String, none, some, ltb, leb,
  nat_beq, if◌then◌else◌, nat_eq,
}
use eth2_validator.Base.Try.{Try, value, ◌>>=◌}
use eth2_validator.Array
use eth2_validator.GoMap
use eth2_validator.GoMap.{Map}
use eth2_validator.DelayHeap.Nodes.{Time}
use eth2_validator.Duty.{
  Bytes, Fork, phase0, altair, bellatrix, pending, unknown, Job, block_proposal, attestation,
  attestation_aggregate, sync_committee, sync_committee_aggregate, Duty, uint64_ssz,
}
use Input.{
  Spec, AttesterDuty, ProposerDuty, CommitteeSyncDuty, Evaluation, Error, Env,
  sync_committee_subnet_count, target_aggregators_per_sync_subcommittee, from_little_endian,
  quotient, remainder, convert_to_int_indices, domain_selection_proof,
  domain_sync_committee_selection_proof,
}
use Times.{u64, seconds, divide, later}

-- The fork that is active at an epoch.
unfoldable pub fork_at : Spec → ℕ → Fork
fork_at config epoch =
    if leb config.bellatrix_fork_epoch epoch
    then bellatrix
    else if leb config.altair_fork_epoch epoch
    then altair
    else phase0

module _ (env : Env) (config : Spec) where
  -- Whether the hash of the signature selects the signer, one time in `modulo`.
  unfoldable pub selected : Bytes → ℕ → Try Error Bool
  unfolding from_little_endian
  selected signature modulo =
      remainder (from_little_endian (Array.take 8 (env.sha256 signature))) modulo >>= λ r.
      value (nat_beq r 0)

  unfoldable pub is_attestator_aggregate : Evaluation → ℕ → ℕ → ℕ → Try Error (Bool × Bytes)
  is_attestator_aggregate eval committee_size slot account = do
    q ← quotient committee_size config.target_aggregators_per_committee
    let modulo = if nat_beq q 0 then 1 else q
    signature ← env.sign domain_selection_proof eval.epoch account (uint64_ssz slot)
    is_selected ← selected signature modulo
    value (is_selected, signature)

  unfoldable pub is_sync_committee_aggregator : Evaluation → ℕ → ℕ → ℕ → Try Error (Bool × Bytes)
  is_sync_committee_aggregator eval sub_committee_index slot account = do
    let q =
        config.sync_committee_size / sync_committee_subnet_count
        / target_aggregators_per_sync_subcommittee
    let modulo = if ltb q 1 then 1 else q
    root ← env.selection_data_root slot sub_committee_index
    signature ← env.sign domain_sync_committee_selection_proof eval.epoch account root
    is_selected ← selected signature modulo
    value (is_selected, signature)

  module _ (eval : Evaluation) where
    unfoldable pub at_slot : ℕ → Time
    at_slot slot = later eval.genesis_time (seconds (u64 (slot * config.seconds_per_slot)))

    abbrev pub slot_duration : ℕ
    slot_duration = seconds config.seconds_per_slot

    -- The delays of attestations and of sync committee messages, and of their aggregates.
    unfoldable pub delay : ℕ
    delay = divide slot_duration 3

    unfoldable pub aggregation_delay : ℕ
    aggregation_delay = divide (u64 (slot_duration * 2)) 3

    -- The fields that the literals of Process set; the others have their zero values.
    unfoldable pub duty : String → ℕ → Time → ℕ → Job → List String → Duty
    duty id slot active_time validator_index job blocked_by = record {
      id = id;
      pub_key = "";
      slot = slot;
      active_time = active_time;
      blocked_by = blocked_by;
      epoch = eval.epoch;
      validator_index = validator_index;
      job = some job;
      result = none;
      state = unknown;
      fork = phase0;
    }

    -- The loops of Process. Each takes the number of ids that were generated before, and returns the
    -- duties that it appends and the number after.
    unfoldable pub proposals : List ProposerDuty → ℕ → List Duty × ℕ
    proposals [] n = ([], n)
    proposals (p ∷ l) n =
        let (duties, n') = proposals l (n + 1) in
        (duty (env.uuid n) p.slot (at_slot p.slot) p.validator_index block_proposal [] ∷ duties, n')

    unfoldable pub attestation_duties : AttesterDuty → ℕ → Try Error (List Duty × ℕ)
    attestation_duties a n = do
      let attestation_duty =
          duty (env.uuid n) a.slot (later (at_slot a.slot) delay) a.validator_index
            (attestation (record {
              committee_index = a.committee_index;
              committee_length = a.committee_length;
              committees_at_slot = a.committee_at_slot;
            }))
            []
      (is_aggregate, proof) ←
          is_attestator_aggregate eval a.committee_length a.slot a.validator_index
      let aggregation_duty =
          duty (env.uuid (n + 1)) a.slot (later (at_slot a.slot) aggregation_delay)
            a.validator_index (attestation_aggregate proof) (attestation_duty.id ∷ [])
      value (
          if is_aggregate
          then (attestation_duty ∷ aggregation_duty ∷ [], n + 2)
          else (attestation_duty ∷ [], n + 1))

    unfoldable pub attestations : List AttesterDuty → ℕ → Try Error (List Duty × ℕ)
    attestations [] n = value ([], n)
    attestations (a ∷ l) n = attestation_duties a n >>= λ (duties, n').
        attestations l n' >>= λ (rest, n''). value (duties ++ rest, n'')

    -- The keys of the set of subcommittees, each once.
    unfoldable pub subcommittees : List ℕ → Map ℕ (Unit {0}) → Try Error (Map ℕ (Unit {0}))
    subcommittees [] m = value m
    subcommittees (index ∷ l) m =
        quotient index (config.sync_committee_size / sync_committee_subnet_count) >>= λ s.
        subcommittees l (GoMap.insert s tt m)

    unfoldable pub aggregates : ℕ → ℕ → List ℕ → ℕ → Try Error (List Duty × ℕ)
    aggregates slot validator [] n = value ([], n)
    aggregates slot validator (index ∷ l) n =
        is_sync_committee_aggregator eval index slot validator >>= λ (is_aggregate, proof).
        let aggregate_duty =
          duty (env.uuid n) slot (later (at_slot slot) aggregation_delay) validator
            (sync_committee_aggregate
              (record { selection_proof = proof; sub_committee_index = index }))
            [] in
        aggregates slot validator l (if is_aggregate then n + 1 else n) >>= λ (rest, n').
        value (if is_aggregate then aggregate_duty ∷ rest else rest, n')

    -- The body of the loop over the slots.
    unfoldable pub committee_at : CommitteeSyncDuty → ℕ → ℕ → Try Error (List Duty × ℕ)
    committee_at c slot n = do
      let committee_duty =
          duty (env.uuid n) slot (later (at_slot slot) delay) c.validator_index sync_committee []
      indices ← convert_to_int_indices c.validator_sync_committee_indices
      found ← subcommittees indices []
      (rest, n') ← aggregates slot c.validator_index (env.range (map (λ (k, _). k) found)) (n + 1)
      value (committee_duty ∷ rest, n')

    -- `count` rounds from `slot` on.
    unfoldable pub committee_slots : CommitteeSyncDuty → ℕ → ℕ → ℕ → Try Error (List Duty × ℕ)
    committee_slots c zero slot n = value ([], n)
    committee_slots c (suc count) slot n = committee_at c slot n >>= λ (duties, n').
        committee_slots c count (slot + 1) n' >>= λ (rest, n''). value (duties ++ rest, n'')

    unfoldable pub first_slot : ℕ
    first_slot = u64 (eval.epoch * config.slots_per_epoch)

    unfoldable pub last_slot : ℕ
    last_slot = u64 (u64 (eval.epoch * config.slots_per_epoch) + config.slots_per_epoch)

    unfoldable pub committees : List CommitteeSyncDuty → ℕ → Try Error (List Duty × ℕ)
    committees [] n = value ([], n)
    committees (c ∷ l) n =
        committee_slots c (last_slot - first_slot) first_slot n >>= λ (duties, n').
        committees l n' >>= λ (rest, n''). value (duties ++ rest, n'')

    -- cleanDuties, at the time `now`.
    unfoldable pub clean_duties : Time → List Duty → List Duty
    clean_duties now [] = []
    clean_duties now (d ∷ l) =
        let rest = clean_duties now l in if ltb now d.active_time then d ∷ rest else rest

    unfoldable pub fill_in : Duty → Duty
    fill_in d = record d { fork = fork_at config eval.epoch; state = pending }

    -- With the number of ids that were generated before, and after.
    unfoldable pub process : Time → ℕ → Try Error (List Duty × ℕ)
    process now n = do
      let (proposed, n1) = proposals eval.proposer n
      (attested, n2) ← attestations eval.attestation n1
      (synced, n3) ← committees eval.committee n2
      value (map fill_in (clean_duties now (proposed ++ attested ++ synced)), n3)
