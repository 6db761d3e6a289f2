-- ===== src/Tests/Signing.antt =====
-- Bit lists, keys of the database, and an epoch with one attester, against a node that answers
-- every call.
use eth2_validator.Base.{
  ℕ, ◌^◌, ◌<◌, ◌≡◌, refl, true, [], ◌∷◌, none, some, ok, Returns, if◌then◌else◌, arith, nat_beq,
}
use eth2_validator.Base.Try.{value, OnValue, NeverFails, All}
use eth2_validator.Array.{get_or}
use eth2_validator.Bitlist.{BitList, set_bit_at, bit_at, bit_len, len8}
use eth2_validator.Bitlist.Laws.{IsBitList, set_bit_at_correct}
use eth2_validator.Duty.{Bytes, Duty, new_duty, Attestation, attestation, Checkpoint}
use eth2_validator.DutyLogic.{Node, aggregation_bits, handle}
use eth2_validator.DutyLogic.Handle.{IsHandled, handle-IsHandled}
use eth2_validator.DutyLogic.Vote.{IsVote, aggregation_bits_correct}
use eth2_validator.Scheduler.{process}
use eth2_validator.Scheduler.Input.{Spec, Env, Evaluation}
use eth2_validator.Scheduler.Plan.{IsPlanned, process-IsPlanned}
use eth2_validator.State.Index.{uint64_arg, write_uint64, block_from_args}
use eth2_validator.State.Keys.{lt_bytes, block_key-order}

-- Nine bits, all off.
abbrev nine : BitList
nine = 0 ∷ 2 ∷ []

nine-IsBitList : IsBitList nine
unfolding len8 get_or
nine-IsBitList = record {
  bytes = (omega arith, (omega arith, tt));
  marked = omega arith;
  nonempty = omega arith;
}

bit_len-nine : bit_len nine ≡ 9
unfolding bit_len len8 get_or
bit_len-nine = refl

set_bit_at_correct_example :
    Returns
      (λ r.
        IsBitList r
        × (bit_len r ≡ bit_len nine)
        × ((j : ℕ)
            → j < bit_len nine
            → bit_at r j ≡ (if nat_beq 8 j then ok true else bit_at nine j)))
      (set_bit_at nine 8 true)
set_bit_at_correct_example =
    set_bit_at_correct nine 8 true nine-IsBitList (omega (arith, bit_len-nine))

abbrev pub seat : Attestation
seat = record { committee_index = 3; committee_length = 9; committees_at_slot = 1 }

aggregation_bits_correct_example :
    (bits : BitList) × (aggregation_bits seat ≡ value bits) × IsVote seat bits
aggregation_bits_correct_example = aggregation_bits_correct seat

abbrev checkpoint : Checkpoint
checkpoint = record { root = []; epoch = 1 }

-- A beacon node that answers every call with the least that it may.
abbrev pub node : Node
node = record {
  sign = λ d e v r. value r;
  duty_by_id = λ id. value none;
  hash_tree_root = λ c. value (1 ∷ []);
  get_head_block_root = value (2 ∷ []);
  sync_committee_contribution = λ s i r. value r;
  request_attestation_data =
      λ s i. value (record { source = checkpoint; target = checkpoint; body = [] });
  aggregate_attestation = λ s r. value r;
  get_block = λ f s r. value (record { fork = f; state_root = []; body = r });
  to_bytes32 = λ b. b;
  to_bytes96 = λ b. b;
  publish = λ m. value tt;
}

abbrev pub vote : Duty
vote = record new_duty { id = "vote"; slot = 33; epoch = 1; job = some (attestation seat) }

handle-IsHandled_example : NeverFails (IsHandled node vote vote.job) (handle node vote)
handle-IsHandled_example = handle-IsHandled node vote

-- A signer that returns what it signs, and hashes that are the first bytes.
abbrev pub env : Env
env = record {
  sign = λ d e v r. value r;
  sha256 = λ b. b;
  selection_data_root = λ s i. value (1 ∷ []);
  uuid = λ n. if nat_beq n 0 then "first" else "second";
  range = λ l. l;
}

abbrev pub config : Spec
config = record {
  seconds_per_slot = 12;
  slots_per_epoch = 32;
  sync_committee_size = 512;
  target_aggregators_per_committee = 16;
  altair_fork_epoch = 10;
  bellatrix_fork_epoch = 20;
  genesis_fork_version = [];
  altair_fork_version = [];
  bellatrix_fork_version = [];
}

abbrev eval : Evaluation
eval = record {
  epoch = 1;
  attestation =
      record {
        validator_index = 5;
        slot = 33;
        committee_index = 3;
        committee_length = 9;
        committee_at_slot = 1;
      }
      ∷ [];
  proposer = [];
  committee = [];
  genesis_time = 10 ^ 9;
}

process-IsPlanned_example :
    OnValue (λ (duties, _). All (IsPlanned env config eval 0) duties) (process env config eval 0 0)
process-IsPlanned_example = process-IsPlanned env config eval 0 0

abbrev low_key : Bytes
low_key = write_uint64 (write_uint64 [] 1) 300

abbrev high_key : Bytes
high_key = write_uint64 (write_uint64 [] 2) 7

low_run : block_from_args (uint64_arg 1 ∷ uint64_arg 300 ∷ []) ≡ value low_key
unfolding block_from_args
low_run = refl

high_run : block_from_args (uint64_arg 2 ∷ uint64_arg 7 ∷ []) ≡ value high_key
unfolding block_from_args
high_run = refl

block_key-order_example : lt_bytes low_key high_key ≡ true
block_key-order_example =
    block_key-order 1 2 300 7 low_key high_key (omega arith) (omega arith) (omega arith)
      (omega arith) low_run high_run
