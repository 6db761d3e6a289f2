-- ===== src/Server/Core/Turns.antt =====
-- What the process goes through, as a step relation: epochs, duties that are taken and ended, rounds
-- of the life cycle, the timer, and restarts. Each step is what one goroutine does under the lock of
-- the part it calls; an epoch and the end of a duty are each one step, but for the write of a result, which others
-- may see before it is stored.
use eth2_validator.Base.{ℕ, ◌≡◌, List, [], String, Option, Bool, ok, string_eq}
use eth2_validator.Base.Try.{Try, value}
use eth2_validator.GoMap
use eth2_validator.DelayHeap.Nodes.{Time}
use eth2_validator.Duty.{Duty, Result}
use eth2_validator.DutyQueue.{Context}
use eth2_validator.DutyQueue.Ack.{acked_by}
use eth2_validator.DutyQueue.Loop.{DelayLoop, new_loop, notified, System, Step}
use eth2_validator.State.Bolt.{StateError}
use eth2_validator.State.Store.{Parts, State}
use eth2_validator.Server.Lifecycle.{Query, lifecycle_round}
use eth2_validator.Server.Core.{
  Setup, Server, ServerError, new_server, handle_new_epoch, write_result, finish,
}

module _ {p : Parts} (setup : Setup p) (query : Query) (priv_keys : List String) where
  -- The server, the loop of its queue's timer, the time, and the duties that were acknowledged.
  pub record Daemon : Type 0 where
    pub server : Server p
    pub loop : DelayLoop
    pub now : Time
    pub acked : List String

  abbrev pub system : Daemon → System
  system d = record { queue = d.server.eval_queue; loop = d.loop; now = d.now; acked = d.acked }

  pub data Turn : Daemon → Daemon → Type 0 where
    epoch :
        {d : Daemon} {srv : Server p} {r : Try ServerError (Unit {0})} (ctx : Context) (n : ℕ)
        (sent : Bool)
        → handle_new_epoch setup d.server ctx d.now n ≡ ok (srv, r)
        → Turn d (record d { server = srv; loop = notified sent d.loop })
    -- A worker has written the result of a duty, and not yet stored it.
    writes :
        {d : Daemon} (duty : Duty) (res : Option Result)
        → Turn d (record d { server = write_result setup d.server duty res })
    ends :
        {d : Daemon} {srv : Server p} (duty : Duty) (res : Option Result) (sent : Bool)
        → finish setup d.server duty res ≡ ok srv
        → Turn d (record d {
          server = srv;
          loop = notified sent d.loop;
          acked = acked_by duty.id d.acked (GoMap.lookup duty.id d.server.eval_queue.unack);
        })
    round :
        {d : Daemon} {s : State p} {r : Try StateError (Unit {0})}
        → lifecycle_round query p d.server.state ≡ ok (s, r)
        → Turn d (record d { server = record (d.server) { state = s } })
    -- Dequeue, and the loop of runDelayHeap.
    moves :
        {d : Daemon} {u : System}
        → Step (system d) u
        → Turn d (record {
          server = record (d.server) { eval_queue = u.queue };
          loop = u.loop;
          now = u.now;
          acked = u.acked;
        })
    restarts :
        {d : Daemon} {srv : Server p}
        → new_server setup d.server.state.duties_bucket d.server.state.validators_bucket priv_keys
          ≡ value srv
        → Turn d (record { server = srv; loop = new_loop; now = d.now; acked = [] })

  pub data Turns (d : Daemon) : Daemon → Type 0 where
    here : Turns d d
    next : {e f : Daemon} → Turns d e → Turn e f → Turns d f
