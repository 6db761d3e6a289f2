-- ===== src/Server/Core.antt =====
-- internal/server/server.go: NewServer, handleNewEpoch and what the worker does with a duty. The
-- scheduler and the duty logic get the state and Sign of the server, and what they ask of the beacon
-- node and the libraries is in the records Env, Client and Node. `Done` is about what an epoch and a
-- duty leave, `Turns` about all that the process goes through.
pub mod Turns
pub mod Well
pub mod Kept
pub mod Done
pub mod Jobs
use eth2_validator.Base.{
  ℕ, ◌*◌, ◌+◌, ◌^◌, List, [], String, Option, none, some, string_eq, Go, ok, panic, ◌>>=◌,
}
use eth2_validator.GoMap
use eth2_validator.GoMap.{Map}
use eth2_validator.Base.Try.{Try, value, error, crash, ◌>>=◌ as and_then}
use eth2_validator.DelayHeap.Nodes.{Time}
use eth2_validator.Duty.{Bytes, Duty, Result, complete, unix_epoch}
use eth2_validator.DutyLogic.{Node, Message, handle}
use eth2_validator.DutyQueue.{DutyQueue, Context, new_eval_queue, enqueue, ack}
use eth2_validator.Scheduler.Input.{Spec, Env, Error, sign_failed, query_failed, DomainType}
use eth2_validator.Scheduler.Epoch.{Client, handle_epoch}
use eth2_validator.State.Bolt.{StateError}
use eth2_validator.State.Store.{
  Parts, State, new_state, upsert_duties, upsert_duty, upsert_validator, duty_by_id,
  get_validators_active_at,
}
use eth2_validator.Server.Signing.{SignError, Crypto, initial_vals, sign}

pub data ServerError : Type 0 where
  state_failed : StateError → ServerError
  key_rejected : SignError → ServerError
  schedule_failed : Error → ServerError

-- An error, as the given one of the caller.
abbrev pub failing {ℓ} : {E F : Type 0} {A : Type ℓ} → (E → F) → Try E A → Try F A
failing f (value a) = value a
failing f (error e) = error (f e)
failing f crash = crash

-- The object as it was written last, or as the table has it.
abbrev pub unless_written : Option Duty → Option Duty → Option Duty
unless_written (some d) o = some d
unless_written none o = o

-- A result that is written into the object, if the table has the duty.
abbrev pub written_into : Option Duty → Duty → Map String Duty → Map String Duty
written_into none d m = m
written_into (some _) d m = GoMap.insert d.id d m

-- What the server is configured with, and what it calls. The fields of `env`, `client` and `node`
-- that are the server's own are not used.
pub record Setup (p : Parts) : Type 1 where
  pub crypto : Crypto
  pub spec : Spec
  pub genesis_root : Bytes
  pub genesis_seconds : ℕ
  pub env : Env
  pub client : Client
  pub node : Node

-- `ids` counts the ids that were generated. A worker writes the result of a duty into the object that
-- the table of duties holds: the objects that were overwritten since they were last inserted are in
-- `written`, and `state` has each object as it was inserted.
pub record Server (p : Parts) : Type 0 where
  pub state : State p
  pub eval_queue : DutyQueue
  pub ids : ℕ
  pub written : Map String Duty

module _ {p : Parts} (setup : Setup p) where
  unfoldable pub genesis : Time
  genesis = unix_epoch + setup.genesis_seconds * 10 ^ 9

  -- NewServer on the buckets of a file, with the private keys of the configuration.
  unfoldable pub new_server :
      p.bolt.Bucket → p.bolt.Bucket → List String → Try ServerError (Server p)
  new_server duties_bucket validators_bucket priv_keys =
      and_then (failing state_failed (new_state p duties_bucket validators_bucket)) λ s.
        and_then (failing key_rejected (initial_vals setup.crypto priv_keys)) λ vals.
          let (s', r) = upsert_validator p s vals in
          and_then (failing state_failed r)
            λ _. value (record { state = s'; eval_queue = new_eval_queue; ids = 0; written = [] })

  module _ (srv : Server p) where
    abbrev pub sign_duty : DomainType → ℕ → ℕ → Bytes → Try Error Bytes
    sign_duty domain epoch account_index root =
        failing (λ e. sign_failed)
          (sign setup.crypto p setup.spec setup.genesis_root srv.state domain epoch account_index
            root)

    abbrev pub scheduler_env : Env
    scheduler_env = record setup.env { sign = sign_duty }

    abbrev pub scheduler_client : Client
    scheduler_client = record setup.client {
      validators_active_at =
          λ epoch. failing (λ e. query_failed) (get_validators_active_at p srv.state epoch);
      genesis = genesis;
    }

    -- DutyByID, with what was written into the object.
    unfoldable pub held : String → Option Duty
    held id = unless_written (GoMap.lookup id srv.written) (duty_by_id p srv.state id)

    abbrev pub duty_node : Node
    duty_node = record setup.node { sign = sign_duty; duty_by_id = λ id. value (held id) }

    -- With what HandleEpoch returns. An error leaves what was done before it.
    abbrev pub put_plan :
        Context → Try Error (List Duty × ℕ) → Go (Server p × Try ServerError (Unit {0}))
    put_plan ctx (error e) = ok (srv, error (schedule_failed e))
    put_plan ctx crash = panic
    put_plan ctx (value (duties, ids)) = enqueue srv.eval_queue ctx duties >>= λ q.
        let (s', r) = upsert_duties p srv.state duties in
        ok (record srv { state = s'; eval_queue = q; ids = ids }, failing state_failed r)

    unfoldable pub handle_new_epoch :
        Context → Time → ℕ → Go (Server p × Try ServerError (Unit {0}))
    handle_new_epoch ctx now epoch =
        put_plan ctx (handle_epoch scheduler_env setup.spec scheduler_client epoch now srv.ids)

    -- The worker's Handle of a duty.
    unfoldable pub handle_duty : Duty → Try Error (Option Result × List Message)
    handle_duty duty = handle duty_node duty

    abbrev pub completed : Duty → Option Result → Duty
    completed duty res = record duty { result = res; state = complete }

    -- With what UpsertDuty leaves. An error of Ack is ignored.
    abbrev pub acknowledged : String → State p × Try StateError (Unit {0}) → Go (Server p)
    acknowledged id (s', value _) = ack srv.eval_queue id >>= λ (q, _).
        ok (record srv { state = s'; eval_queue = q; written = GoMap.delete id srv.written })
    acknowledged id (s', error e) = panic
    acknowledged id (s', crash) = panic

    -- The writes to Result and State, on the object that the worker was handed: it is the one in the
    -- table, if the duty was stored.
    unfoldable pub write_result : Duty → Option Result → Server p
    write_result duty res = record srv {
      written = written_into (duty_by_id p srv.state duty.id) (completed duty res) srv.written;
    }

  -- The worker, after Handle returned: the writes, UpsertDuty of the object, and Ack.
  unfoldable pub finish : Server p → Duty → Option Result → Go (Server p)
  unfolding write_result
  finish srv duty res =
      acknowledged (write_result srv duty res) duty.id
        (upsert_duty p srv.state (completed srv duty res))
