-- ===== src/Beacon.antt =====
-- internal/beacon: the interface of api.go as the record Api, and its implementation in api_http.go
-- over the HTTP client of go-eth-consensus, which is the record Http. The records Client and Node of
-- the scheduler and of the duty logic, and the query of the life cycle, get their calls from an Api.
use eth2_validator.Base.{ℕ, List, [], ◌∷◌, String}
use eth2_validator.Base.Try.{Try, crash}
use eth2_validator.Duty.{Bytes, Fork, Metadata}
use eth2_validator.Scheduler.Input.{Error, AttesterDuty, ProposerDuty, CommitteeSyncDuty, Spec}
use eth2_validator.Scheduler.Epoch.{Client}
use eth2_validator.DutyLogic.{
  AttestationData, Block, Message, signed_contribution, sync_committee_message, signed_attestation,
  signed_aggregate, signed_block, Node,
}
use eth2_validator.Server.{BeaconCommitteeSubscription, SyncSubscription}
use eth2_validator.Server.Lifecycle.{Query}

-- What names a state or a block to the node.
pub data StateId : Type 0 where
  head : StateId
  at_slot : ℕ → StateId

pub record GenesisInfo : Type 0 where
  pub root : Bytes
  pub seconds : ℕ

-- The calls that the validator makes. Syncing and Events are called by nothing; of Events there are
-- the objects that its handler is called with.
pub record Api : Type 1 where
  pub Syncing : Type 0
  pub Object : Type 0
  pub syncing : Try Error Syncing
  pub events : List String → List Object × Try Error (Unit {0})
  pub genesis : Try Error GenesisInfo
  pub config_spec : Try Error Spec
  pub get_attester_duties : ℕ → List String → Try Error (List AttesterDuty)
  pub get_proposer_duties : ℕ → Try Error (List ProposerDuty)
  pub get_committee_sync_duties : ℕ → List String → Try Error (List CommitteeSyncDuty)
  pub get_validator_by_pub_key : String → Try Error Metadata
  pub get_block : Fork → ℕ → Bytes → Try Error Block
  pub request_attestation_data : ℕ → ℕ → Try Error AttestationData
  pub aggregate_attestation : ℕ → Bytes → Try Error Bytes
  pub get_head_block_root : Try Error Bytes
  pub sync_committee_contribution : ℕ → ℕ → Bytes → Try Error Bytes
  pub submit_committee_duties : List Message → Try Error (Unit {0})
  pub publish_signed_block : Message → Try Error (Unit {0})
  pub publish_attestations : List Message → Try Error (Unit {0})
  pub publish_aggregate_and_proof : List Message → Try Error (Unit {0})
  pub submit_signed_contribution_and_proof : List Message → Try Error (Unit {0})
  pub sync_committee_subscriptions : List SyncSubscription → Try Error (Unit {0})
  pub beacon_committee_subscriptions : List BeaconCommitteeSubscription → Try Error (Unit {0})

-- http.Client, by its endpoints.
pub record Http : Type 1 where
  pub Syncing : Type 0
  pub Object : Type 0
  pub node_syncing : Try Error Syncing
  pub client_events : List String → List Object × Try Error (Unit {0})
  pub beacon_genesis : Try Error GenesisInfo
  pub config_spec : Try Error Spec
  pub validator_attester_duties : ℕ → List String → Try Error (List AttesterDuty)
  pub validator_proposer_duties : ℕ → Try Error (List ProposerDuty)
  pub validator_committee_sync_duties : ℕ → List String → Try Error (List CommitteeSyncDuty)
  pub beacon_validator_by_pub_key : String → StateId → Try Error Metadata
  pub validator_block : Fork → ℕ → Bytes → Try Error Block
  pub validator_attestation_data : ℕ → ℕ → Try Error AttestationData
  pub validator_aggregate_attestation : ℕ → Bytes → Try Error Bytes
  pub beacon_root : StateId → Try Error Bytes
  pub validator_sync_committee_contribution : ℕ → ℕ → Bytes → Try Error Bytes
  pub beacon_submit_committee_duties : List Message → Try Error (Unit {0})
  pub beacon_publish_signed_block : Message → Try Error (Unit {0})
  pub beacon_publish_attestations : List Message → Try Error (Unit {0})
  pub validator_publish_aggregate_and_proof : List Message → Try Error (Unit {0})
  pub validator_submit_contributions : List Message → Try Error (Unit {0})
  pub validator_sync_subscriptions : List SyncSubscription → Try Error (Unit {0})
  pub validator_beacon_subscriptions : List BeaconCommitteeSubscription → Try Error (Unit {0})

-- HttpAPI
abbrev pub http_api : Http → Api
http_api h = record {
  Syncing = h.Syncing;
  Object = h.Object;
  syncing = h.node_syncing;
  events = λ topics. h.client_events topics;
  genesis = h.beacon_genesis;
  config_spec = h.config_spec;
  get_attester_duties = λ epoch indexes. h.validator_attester_duties epoch indexes;
  get_proposer_duties = λ epoch. h.validator_proposer_duties epoch;
  get_committee_sync_duties = λ epoch indexes. h.validator_committee_sync_duties epoch indexes;
  get_validator_by_pub_key = λ pub_key. h.beacon_validator_by_pub_key pub_key head;
  get_block = λ fork slot randao. h.validator_block fork slot randao;
  request_attestation_data =
      λ slot committee_index. h.validator_attestation_data slot committee_index;
  aggregate_attestation = λ slot root. h.validator_aggregate_attestation slot root;
  get_head_block_root = h.beacon_root head;
  sync_committee_contribution =
      λ slot index root. h.validator_sync_committee_contribution slot index root;
  submit_committee_duties = λ duties. h.beacon_submit_committee_duties duties;
  publish_signed_block = λ block. h.beacon_publish_signed_block block;
  publish_attestations = λ attestations. h.beacon_publish_attestations attestations;
  publish_aggregate_and_proof = λ proofs. h.validator_publish_aggregate_and_proof proofs;
  submit_signed_contribution_and_proof =
      λ contributions. h.validator_submit_contributions contributions;
  sync_committee_subscriptions = λ subs. h.validator_sync_subscriptions subs;
  beacon_committee_subscriptions = λ subs. h.validator_beacon_subscriptions subs;
}

-- NullAPI of mock.go: every call panics.
abbrev pub null_api : Api
null_api = record {
  Syncing = ⊥;
  Object = ⊥;
  syncing = crash;
  events = λ topics. ([], crash);
  genesis = crash;
  config_spec = crash;
  get_attester_duties = λ epoch indexes. crash;
  get_proposer_duties = λ epoch. crash;
  get_committee_sync_duties = λ epoch indexes. crash;
  get_validator_by_pub_key = λ pub_key. crash;
  get_block = λ fork slot randao. crash;
  request_attestation_data = λ slot committee_index. crash;
  aggregate_attestation = λ slot root. crash;
  get_head_block_root = crash;
  sync_committee_contribution = λ slot index root. crash;
  submit_committee_duties = λ duties. crash;
  publish_signed_block = λ block. crash;
  publish_attestations = λ attestations. crash;
  publish_aggregate_and_proof = λ proofs. crash;
  submit_signed_contribution_and_proof = λ contributions. crash;
  sync_committee_subscriptions = λ subs. crash;
  beacon_committee_subscriptions = λ subs. crash;
}

module _ (api : Api) where
  -- A message goes to the call for its kind, alone in a list where the call takes one.
  unfoldable pub publish : Message → Try Error (Unit {0})
  publish (signed_contribution c s) =
      api.submit_signed_contribution_and_proof (signed_contribution c s ∷ [])
  publish (sync_committee_message slot root index s) =
      api.submit_committee_duties (sync_committee_message slot root index s ∷ [])
  publish (signed_attestation d bits s) =
      api.publish_attestations (signed_attestation d bits s ∷ [])
  publish (signed_aggregate c s) = api.publish_aggregate_and_proof (signed_aggregate c s ∷ [])
  publish (signed_block b s) = api.publish_signed_block (signed_block b s)

  -- The calls of the scheduler, of the duty logic and of the life cycle.
  abbrev pub with_client : Client → Client
  with_client c = record c {
    attester_duties = api.get_attester_duties;
    proposer_duties = api.get_proposer_duties;
    committee_sync_duties = api.get_committee_sync_duties;
  }

  abbrev pub with_node : Node → Node
  with_node n = record n {
    get_head_block_root = api.get_head_block_root;
    sync_committee_contribution = api.sync_committee_contribution;
    request_attestation_data = api.request_attestation_data;
    aggregate_attestation = api.aggregate_attestation;
    get_block = api.get_block;
    publish = publish;
  }

  abbrev pub query : Query
  query = api.get_validator_by_pub_key
