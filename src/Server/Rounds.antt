-- ===== src/Server/Rounds.antt =====
-- What the server answers and sends of its tables: the calls of service.go, and a round of either
-- subscription service, which sends its list unless it is empty.
use eth2_validator.Base.{List, [], ◌∷◌, Option, none, some, ℤ, Go, ok, ◌>>=◌}
use eth2_validator.Base.Try.{Try}
use eth2_validator.Duty.{Bytes, Duty, Validator}
use eth2_validator.Scheduler.Input.{Error}
use eth2_validator.State.Store.{Parts, State, duties_list, validators_list}
use eth2_validator.Server.{list_duties, beacon_subscriptions, sync_subscriptions}
use eth2_validator.Beacon.{Api, GenesisInfo}

-- What is sent, if there is something to send.
abbrev pub unless_empty : {A B : Type 0} → (List A → B) → List A → Option B
unless_empty send [] = none
unless_empty send (x ∷ l) = some (send (x ∷ l))

-- GetGenesis, ListDuties and ValidatorList.
unfoldable pub get_genesis : GenesisInfo → Bytes
get_genesis info = info.root

module _ (p : Parts) (s : State p) where
  unfoldable pub service_list_duties : ℤ → List Duty
  service_list_duties validator_id = list_duties validator_id (duties_list p s)

  unfoldable pub service_validator_list : List Validator
  service_validator_list = validators_list p s

  module _ (api : Api) where
    -- With what the call returns, which is logged if it is an error.
    unfoldable pub beacon_round : Go (Option (Try Error (Unit {0})))
    beacon_round = beacon_subscriptions (duties_list p s) >>= λ subs.
        ok (unless_empty api.beacon_committee_subscriptions subs)

    unfoldable pub sync_round : Go (Option (Try Error (Unit {0})))
    sync_round = sync_subscriptions (duties_list p s) >>= λ subs.
        ok (unless_empty api.sync_committee_subscriptions subs)
