-- ===== src/Duty.antt =====
-- The messages of internal/server/proto/structs.pb.go that the other parts exchange, and
-- internal/server/proto/types.go. A pointer to a message that may be nil is an Option; a `bytes`
-- field is a list of bytes.
use eth2_validator.Base.{
  ℕ, String, List, [], ◌∷◌, Option, none, some, Go, ok, panic, string_eq, ◌/◌, ◌%◌, ◌^◌, ◌*◌, ◌++◌,
  zero, suc, ◌≡◌,
}
use eth2_validator.Array
use eth2_validator.Base.Try.{All}
use eth2_validator.DelayHeap.Nodes.{Time}

abbrev pub Bytes : Type 0
Bytes = List ℕ

pub data Fork : Type 0 where
  phase0 altair bellatrix : Fork

pub data State : Type 0 where
  unknown pending complete failed canceled : State

pub record Attestation : Type 0 where
  pub committee_index : ℕ
  pub committee_length : ℕ
  pub committees_at_slot : ℕ

pub record SyncCommitteeAggregate : Type 0 where
  pub selection_proof : Bytes
  pub sub_committee_index : ℕ

-- The `oneof job`.
pub data Job : Type 0 where
  block_proposal : Job
  attestation : Attestation → Job
  attestation_aggregate : Bytes → Job
  sync_committee : Job
  sync_committee_aggregate : SyncCommitteeAggregate → Job

pub record Checkpoint : Type 0 where
  pub root : Bytes
  pub epoch : ℕ

pub record BlockProposalResult : Type 0 where
  pub root : Bytes
  pub signature : Bytes

pub record AttestationResult : Type 0 where
  pub root : Bytes
  pub source : Checkpoint
  pub target : Checkpoint

-- The messages of the last three results are empty.
pub record Result : Type 0 where
  pub block_proposal : Option BlockProposalResult
  pub attestation : Option AttestationResult
  pub attestation_aggregate : Option (Unit {0})
  pub sync_committee : Option (Unit {0})
  pub sync_committee_aggregate : Option (Unit {0})

pub record Duty : Type 0 where
  pub id : String
  pub pub_key : String
  pub slot : ℕ
  pub active_time : Time
  pub blocked_by : List String
  pub epoch : ℕ
  pub validator_index : ℕ
  pub job : Option Job
  pub result : Option Result
  pub state : State
  pub fork : Fork

pub record Metadata : Type 0 where
  pub index : ℕ
  pub activation_epoch : ℕ

pub record Validator : Type 0 where
  pub pub_key : String
  pub priv_key : String
  pub metadata : Option Metadata

-- Nanoseconds from the zero time.Time to the Unix epoch, which an absent timestamp stands for.
abbrev pub unix_epoch : Time
unix_epoch = 62135596800 * 10 ^ 9

-- `NewDuty`, the message with no field set.
unfoldable pub new_duty : Duty
new_duty = record {
  id = "";
  pub_key = "";
  slot = 0;
  active_time = unix_epoch;
  blocked_by = [];
  epoch = 0;
  validator_index = 0;
  job = none;
  result = none;
  state = unknown;
  fork = phase0;
}

pub data DutyType : Type 0 where
  duty_block_proposal duty_attestation duty_attestation_aggregate : DutyType
  duty_sync_committee duty_sync_committee_aggregate : DutyType

-- The text of a DutyType; that of the third is misspelled in the source too.
unfoldable pub type_text : DutyType → String
type_text duty_block_proposal = "block-proposal"
type_text duty_attestation = "attestation"
type_text duty_attestation_aggregate = "attesation-aggregate"
type_text duty_sync_committee = "sync-committee"
type_text duty_sync_committee_aggregate = "sync-committee-aggregate"

unfoldable pub job_type : Job → DutyType
job_type block_proposal = duty_block_proposal
job_type (attestation a) = duty_attestation
job_type (attestation_aggregate p) = duty_attestation_aggregate
job_type sync_committee = duty_sync_committee
job_type (sync_committee_aggregate a) = duty_sync_committee_aggregate

-- `Duty.Type`, which panics where no job is set.
unfoldable pub type_of : Duty → Go DutyType
type_of d = elim d.job [ none ↦ panic | some j ↦ ok (job_type j) ]

unfoldable pub get_attestation : Duty → Option Attestation
get_attestation d = elim d.job [ some (attestation a) ↦ some a | _ ↦ none ]

unfoldable pub get_attestation_aggregate : Duty → Option Bytes
get_attestation_aggregate d = elim d.job [ some (attestation_aggregate p) ↦ some p | _ ↦ none ]

unfoldable pub get_sync_committee_aggregate : Duty → Option SyncCommitteeAggregate
get_sync_committee_aggregate d = elim d.job [
  | some (sync_committee_aggregate a) ↦ some a
  | _ ↦ none
]

-- The `n` low bytes of a number, the lowest first.
unfoldable pub little_endian : ℕ → ℕ → Bytes
little_endian zero x = []
little_endian (suc n) x = x % 256 ∷ little_endian n (x / 256)

unfoldable pub uint64_ssz : ℕ → Bytes
unfolding little_endian
uint64_ssz num = little_endian 8 num ++ Array.replicate 24 0

abbrev pub root_ssz : Bytes → Bytes
root_ssz root = root

unfoldable pub with_epoch : Duty → ℕ → Duty
with_epoch d epoch = record d { epoch = epoch }

unfoldable pub with_id : Duty → String → Duty
with_id d id = record d { id = id }

unfoldable pub with_val_index : Duty → ℕ → Duty
with_val_index d index = record d { validator_index = index }

unfoldable pub with_attestation : Duty → Attestation → Duty
with_attestation d a = record d { job = some (attestation a) }

unfoldable pub with_sync_committee_aggregate : Duty → SyncCommitteeAggregate → Duty
with_sync_committee_aggregate d a = record d { job = some (sync_committee_aggregate a) }

abbrev pub HasJob : Duty → Type 0
HasJob d = (j : Job) × (d.job ≡ some j)

-- Every duty has a job.
abbrev pub HaveJobs : List Duty → Type 0
HaveJobs = All HasJob
