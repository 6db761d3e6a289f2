-- ===== src/Server/Lifecycle.antt =====
-- A round of validatorLifecycle of internal/server/server.go: the validators without metadata are
-- asked for at the beacon node, and those that it knows are written with its answer. `Answers` is
-- about its writes, `Round` about what a round leaves.
pub mod Answers
pub mod Round
use Prim.Native.String.{◌++◌ as concat}
use eth2_validator.Base.{List, [], ◌∷◌, String, some, Go, ok, panic}
use eth2_validator.Base.Try.{Try, value, error, crash, ◌>>=◌}
use eth2_validator.Duty.{Validator, Metadata}
use eth2_validator.Scheduler.Input.{Error}
use eth2_validator.State.Bolt.{StateError}
use eth2_validator.State.Store.{Parts, State, get_validators_pending, upsert_validator}

-- GetValidatorByPubKey of the beacon node, with the index and the activation epoch of its answer.
abbrev pub Query : Type 0
Query = String → Try Error Metadata

module _ (get_validator_by_pub_key : Query) where
  abbrev pub ask : Validator → Try Error Metadata
  ask v = get_validator_by_pub_key (concat "0x" v.pub_key)

  abbrev pub kept :
      Validator → Try Error Metadata → Try Error (List Validator) → Try Error (List Validator)
  kept val (value m) rest = rest >>= λ vals. value (record val { metadata = some m } ∷ vals)
  kept val (error e) rest = rest
  kept val crash rest = crash

  -- The copies with the answers; one that was not answered is left out.
  unfoldable pub updated_val : List Validator → Try Error (List Validator)
  updated_val [] = value []
  updated_val (val ∷ l) = kept val (ask val) (updated_val l)

  module _ (p : Parts) where
    -- With what UpsertValidator returns: the round ignores an error of it.
    unfoldable pub lifecycle_round : State p → Go (State p × Try StateError (Unit {0}))
    lifecycle_round s = elim (get_validators_pending p s) [
      | error e ↦ panic
      | crash ↦ panic
      | value waiting ↦ elim (updated_val waiting) [
        | value vals ↦ ok (upsert_validator p s vals)
        | error e ↦ panic
        | crash ↦ panic
      ]
    ]
