-- ===== src/Tests/Epochs.antt =====
-- An epoch of one validator, and the lists of its duties.
use eth2_validator.Base.{◌^◌, refl, [], ◌∷◌, some, arith}
use eth2_validator.Base.Try.{value, All, IsValue}
use eth2_validator.Duty.{Duty, block_proposal}
use eth2_validator.Scheduler.Epoch.{Client}
use eth2_validator.Scheduler.{process}
use eth2_validator.Scheduler.Input.{Evaluation, parse_uint, parse_digits}
use eth2_validator.Scheduler.Total.{Answers, IsIndex, process-IsValue}
use eth2_validator.Base.{ℕ}
use eth2_validator.Duty.{sync_committee_aggregate}
use eth2_validator.Tests.Signing.{env, config, vote}

abbrev pub client : Client
client = record {
  validators_active_at = λ epoch. value (
      record {
        pub_key = "key";
        priv_key = "";
        metadata = some (record { index = 5; activation_epoch = 0 });
      }
      ∷ []);
  genesis = 10 ^ 9;
  attester_duties = λ epoch names. value [];
  proposer_duties = λ epoch.
      value (
        record { validator_index = 5; slot = 40 } ∷ record { validator_index = 6; slot = 41 } ∷ []);
  committee_sync_duties = λ epoch names. value [];
  decimal = λ n. "5";
}

-- A block proposal of the account `key`.
abbrev proposal : Duty
proposal = record vote { pub_key = "key"; job = some block_proposal }

-- A sync committee member, with the texts of its places.
abbrev busy : Evaluation
busy = record {
  epoch = 1;
  attestation =
      record {
        validator_index = 5;
        slot = 33;
        committee_index = 3;
        committee_length = 9;
        committee_at_slot = 1;
      }
      ∷ [];
  proposer = record { validator_index = 5; slot = 40 } ∷ [];
  committee =
      record { validator_index = 5; validator_sync_committee_indices = "12" ∷ "300" ∷ [] } ∷ [];
  genesis_time = 10 ^ 9;
}

env-Answers : Answers env config
env-Answers = record {
  signs = λ d e v r. (r, refl);
  hashes = λ s i. (1 ∷ [], refl);
  aggregators = omega arith;
  subnets = omega arith;
}

places : All IsIndex ("12" ∷ "300" ∷ [])
unfolding parse_uint parse_digits
places = ((12, refl), ((300, refl), tt))

process-IsValue_example : IsValue (process env config busy 0 0)
process-IsValue_example = process-IsValue env config env-Answers busy 0 0 (places, tt)

-- Two aggregates of one sync committee member, and another duty.
abbrev member : ℕ → Duty
member i = record vote {
  validator_index = 5;
  job = some (sync_committee_aggregate (record { selection_proof = []; sub_committee_index = i }));
}
