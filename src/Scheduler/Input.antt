-- ===== src/Scheduler/Input.antt =====
-- internal/scheduler/scheduler.go: what a Scheduler is made of and reads. The fields of the
-- specification, the duties of an epoch as the beacon node reports them, the record Env of what the
-- scheduler calls outside of the file, and the parsing of indices.
use Prim.Native.String.{String as Str}
use Prim.Native.Char.{code}
use eth2_validator.Base.{
  ℕ, ◌+◌, ◌-◌, ◌*◌, ◌/◌, ◌%◌, ◌^◌, ◌&&◌, List, [], ◌∷◌, String, Option, none, some, ltb, leb,
  nat_beq, if◌then◌else◌, nat_eq,
}
use eth2_validator.Base.Try.{Try, value, error, crash, ◌>>=◌}
use eth2_validator.DelayHeap.Nodes.{Time}
use eth2_validator.Duty.{Bytes}

-- The fields of consensus.Spec that the program reads.
pub record Spec : Type 0 where
  pub seconds_per_slot : ℕ
  pub slots_per_epoch : ℕ
  pub sync_committee_size : ℕ
  pub target_aggregators_per_committee : ℕ
  pub altair_fork_epoch : ℕ
  pub bellatrix_fork_epoch : ℕ
  pub genesis_fork_version : Bytes
  pub altair_fork_version : Bytes
  pub bellatrix_fork_version : Bytes

-- proto.DomainType
pub data DomainType : Type 0 where
  domain_beacon_proposer domain_randao domain_beacon_attester domain_deposit : DomainType
  domain_voluntary_exit domain_selection_proof domain_aggregate_and_proof : DomainType
  domain_sync_committee domain_sync_committee_selection_proof : DomainType
  domain_contribution_and_proof : DomainType

-- The duties that the beacon node reports, with the fields that are read.
pub record AttesterDuty : Type 0 where
  pub validator_index : ℕ
  pub slot : ℕ
  pub committee_index : ℕ
  pub committee_length : ℕ
  pub committee_at_slot : ℕ

pub record ProposerDuty : Type 0 where
  pub validator_index : ℕ
  pub slot : ℕ

pub record CommitteeSyncDuty : Type 0 where
  pub validator_index : ℕ
  pub validator_sync_committee_indices : List String

pub record Evaluation : Type 0 where
  pub epoch : ℕ
  pub attestation : List AttesterDuty
  pub proposer : List ProposerDuty
  pub committee : List CommitteeSyncDuty
  pub genesis_time : Time

pub data Error : Type 0 where
  sign_failed hash_failed parse_failed query_failed : Error

pub record Env : Type 0 where
  pub sign : DomainType → ℕ → ℕ → Bytes → Try Error Bytes
  pub sha256 : Bytes → Bytes
  -- The root of SyncAggregatorSelectionData, of a slot and a subcommittee.
  pub selection_data_root : ℕ → ℕ → Try Error Bytes
  -- The id of the n-th call of uuid.Generate.
  pub uuid : ℕ → String
  pub range : List ℕ → List ℕ

abbrev pub sync_committee_subnet_count : ℕ
sync_committee_subnet_count = 4

abbrev pub target_aggregators_per_sync_subcommittee : ℕ
target_aggregators_per_sync_subcommittee = 16

-- binary.LittleEndian
unfoldable pub from_little_endian : Bytes → ℕ
from_little_endian [] = 0
from_little_endian (b ∷ bs) = b + 256 * from_little_endian bs

-- A division of uint64, which panics where the divisor is 0.
unfoldable pub quotient : ℕ → ℕ → Try Error ℕ
quotient a b = if nat_beq b 0 then crash else value (a / b)

-- A remainder of uint64, which panics where the divisor is 0.
unfoldable pub remainder : ℕ → ℕ → Try Error ℕ
remainder a b = if nat_beq b 0 then crash else value (a % b)

-- strconv.ParseUint(s, 10, 32)
unfoldable pub parse_digits : ℕ → Str → Option ℕ
parse_digits acc Str.[] = some acc
parse_digits acc (Str.◌∷◌ c s) =
    let rest = parse_digits (acc * 10 + (code c - b'0')) s in
    if leb b'0' (code c) && leb (code c) b'9' then rest else none

unfoldable pub parse_uint : Str → Option ℕ
unfolding parse_digits
parse_uint Str.[] = none
parse_uint (Str.◌∷◌ c s) = elim (parse_digits 0 (Str.◌∷◌ c s)) [
  | none ↦ none
  | some n ↦ if ltb n (2 ^ 32) then some n else none
]

unfoldable pub convert_to_int_indices : List String → Try Error (List ℕ)
convert_to_int_indices [] = value []
convert_to_int_indices (s ∷ l) =
    let rest = convert_to_int_indices l in
    elim (parse_uint s) [ none ↦ error parse_failed | some n ↦ rest >>= λ ns. value (n ∷ ns) ]
