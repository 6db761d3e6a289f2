-- ===== src/DutyLogic.antt =====
-- internal/scheduler/duties.go. The beacon node and the server's State are the record Node; what a
-- call publishes is the list of messages beside its result. Of the types of go-eth-consensus there
-- are the fields that the file reads or writes, and `body` for the others of a message that the node
-- sends.
pub mod Handle
pub mod Vote
use eth2_validator.Base.{
  ℕ, List, [], ◌∷◌, String, Option, none, some, true, Go, ok, panic, out_of_fuel,
}
use eth2_validator.Base.Try.{Try, value, error, crash, ◌>>=◌}
use eth2_validator.Array
use eth2_validator.Bitlist.{BitList, new_bitlist, set_bit_at}
use eth2_validator.Duty.{
  Bytes, Fork, phase0, altair, Job, block_proposal, attestation, attestation_aggregate,
  sync_committee, sync_committee_aggregate, Checkpoint, Result, Duty, Attestation,
  SyncCommitteeAggregate, uint64_ssz, root_ssz,
}
use eth2_validator.Scheduler.Input.{
  DomainType, domain_randao, domain_beacon_proposer, domain_beacon_attester,
  domain_aggregate_and_proof, domain_sync_committee, domain_contribution_and_proof, Error,
}

pub record AttestationData : Type 0 where
  pub source : Checkpoint
  pub target : Checkpoint
  pub body : Bytes

pub record Block : Type 0 where
  pub fork : Fork
  pub state_root : Bytes
  pub body : Bytes

-- The containers that are hashed before they are signed.
pub data Container : Type 0 where
  contribution_and_proof : ℕ → Bytes → Bytes → Container
  attestation_data : AttestationData → Container
  aggregate_and_proof : ℕ → Bytes → Bytes → Container
  beacon_block : Block → Container

-- What is sent to the beacon node.
pub data Message : Type 0 where
  signed_contribution : Container → Bytes → Message
  sync_committee_message : ℕ → Bytes → ℕ → Bytes → Message
  signed_attestation : AttestationData → BitList → Bytes → Message
  signed_aggregate : Container → Bytes → Message
  signed_block : Block → Bytes → Message

pub record Node : Type 0 where
  pub sign : DomainType → ℕ → ℕ → Bytes → Try Error Bytes
  pub duty_by_id : String → Try Error (Option Duty)
  pub hash_tree_root : Container → Try Error Bytes
  pub get_head_block_root : Try Error Bytes
  pub sync_committee_contribution : ℕ → ℕ → Bytes → Try Error Bytes
  pub request_attestation_data : ℕ → ℕ → Try Error AttestationData
  pub aggregate_attestation : ℕ → Bytes → Try Error Bytes
  -- The block is read into a container of the fork that the caller made.
  pub get_block : Fork → ℕ → Bytes → Try Error Block
  -- consensus.ToBytes32 and ToBytes96.
  pub to_bytes32 : Bytes → Bytes
  pub to_bytes96 : Bytes → Bytes
  pub publish : Message → Try Error (Unit {0})

abbrev pub no_result : Result
no_result = record {
  block_proposal = none;
  attestation = none;
  attestation_aggregate = none;
  sync_committee = none;
  sync_committee_aggregate = none;
}

-- The result of a duty, and what was published on the way.
abbrev pub Outcome : Type 0
Outcome = Try Error (Result × List Message)

-- A bit list that panicked is a panic here.
unfoldable pub run {ℓ} : {A : Type ℓ} → Go A → Try Error A
run (ok a) = value a
run panic = crash
run out_of_fuel = crash

-- `x[0]`
unfoldable pub first {ℓ} : {A : Type ℓ} → List A → Try Error A
first [] = crash
first (x ∷ l) = value x

-- A field of a nil pointer.
unfoldable pub deref {ℓ} : {A : Type ℓ} → Option A → Try Error A
deref none = crash
deref (some a) = value a

-- The fork of the block that is asked for: phase 0, or Altair for every other.
unfoldable pub block_fork : Fork → Fork
block_fork phase0 = phase0
block_fork _ = altair

-- An error of the run is a panic.
unfoldable pub or_crash : Outcome → Outcome
or_crash (value r) = value r
or_crash (error e) = crash
or_crash crash = crash

-- The bits of the attestation.
unfoldable pub aggregation_bits : Attestation → Try Error BitList
unfolding run
aggregation_bits job = do
  bits ← run (new_bitlist job.committee_length)
  run (set_bit_at bits job.committee_index true)

module _ (node : Node) where
  unfoldable pub run_sync_committee_aggregate : Duty → SyncCommitteeAggregate → Outcome
  run_sync_committee_aggregate duty job = do
    latest_root ← node.get_head_block_root
    contribution ← node.sync_committee_contribution duty.slot job.sub_committee_index latest_root
    let aggregate =
        contribution_and_proof duty.validator_index contribution
          (node.to_bytes96 job.selection_proof)
    root ← node.hash_tree_root aggregate
    signature ← node.sign domain_contribution_and_proof duty.epoch duty.validator_index root
    let msg = signed_contribution aggregate signature
    _ ← node.publish msg
    value (record no_result { sync_committee_aggregate = some tt }, msg ∷ [])

  unfoldable pub run_sync_committee : Duty → Outcome
  run_sync_committee duty = do
    latest_root ← node.get_head_block_root
    signature ←
        node.sign domain_sync_committee duty.epoch duty.validator_index (root_ssz latest_root)
    let msg = sync_committee_message duty.slot latest_root duty.validator_index signature
    _ ← node.publish msg
    value (record no_result { sync_committee = some tt }, msg ∷ [])

  unfoldable pub run_single_attestation : Duty → Attestation → Outcome
  run_single_attestation duty job = do
    d ← node.request_attestation_data duty.slot job.committee_index
    root ← node.hash_tree_root (attestation_data d)
    signature ← node.sign domain_beacon_attester duty.epoch duty.validator_index root
    bits ← aggregation_bits job
    let msg = signed_attestation d bits signature
    _ ← node.publish msg
    value (
      record no_result {
        attestation = some (record { root = root; source = d.source; target = d.target });
      },
      msg ∷ [],
    )

  unfoldable pub run_attestation_aggregate : Duty → Bytes → Outcome
  unfolding first deref
  run_attestation_aggregate duty selection_proof = do
    id ← first duty.blocked_by
    found ← node.duty_by_id id
    attested ← deref found
    result ← deref attested.result
    voted ← deref result.attestation
    aggregate ← node.aggregate_attestation duty.slot (node.to_bytes32 voted.root)
    let message =
        aggregate_and_proof duty.validator_index aggregate (node.to_bytes96 selection_proof)
    root ← node.hash_tree_root message
    signature ← node.sign domain_aggregate_and_proof duty.epoch duty.validator_index (root_ssz root)
    let msg = signed_aggregate message signature
    _ ← node.publish msg
    value (record no_result { attestation_aggregate = some tt }, msg ∷ [])

  unfoldable pub run_block_proposal : Duty → Outcome
  unfolding block_fork
  run_block_proposal duty = do
    randao_reveal ← node.sign domain_randao duty.epoch duty.validator_index (uint64_ssz duty.epoch)
    block ← node.get_block (block_fork duty.fork) duty.slot randao_reveal
    block_root ← node.hash_tree_root (beacon_block block)
    signature ← node.sign domain_beacon_proposer duty.epoch duty.validator_index block_root
    let msg = signed_block block signature
    _ ← node.publish msg
    value (
      record no_result {
        block_proposal = some (record { root = block.state_root; signature = signature });
      },
      msg ∷ [],
    )

  unfoldable pub run_job : Duty → Job → Outcome
  run_job duty block_proposal = run_block_proposal duty
  run_job duty (attestation a) = run_single_attestation duty a
  run_job duty (attestation_aggregate p) = run_attestation_aggregate duty p
  run_job duty sync_committee = run_sync_committee duty
  run_job duty (sync_committee_aggregate a) = run_sync_committee_aggregate duty a

  -- A duty with no job is handled with no result and no error; `none` is the nil result.
  unfoldable pub handle : Duty → Try Error (Option Result × List Message)
  unfolding or_crash
  handle duty = elim duty.job [
    | none ↦ value (none, [])
    | some j ↦ or_crash (run_job duty j) >>= λ (r, msgs). value (some r, msgs)
  ]
