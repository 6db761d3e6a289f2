-- ===== src/Server/Core/Done.antt =====
-- What an epoch and a duty leave in the server: the state and the queue together.
use eth2_validator.Base.{
  ℕ, ◌≡◌, ◌≢◌, ◌⊎◌, inl, inr, refl, ap, ◌∙◌, Bool, false, List, [], ◌∷◌, String, Option, none, some,
  ok, Bool-cases, ◌==◌, string_eq, if◌then◌else◌, Returns, returns, Returns-inv,
}
use eth2_validator.Base.Try.{Try, value, error, crash, OnValue}
use eth2_validator.GoMap
use eth2_validator.DelayHeap.Nodes.{Time}
use eth2_validator.Duty.{Duty, Result}
use eth2_validator.DutyQueue.{Context, AckError, enqueue, ack}
use eth2_validator.DutyQueue.Safety.{Clock, IsSafe}
use eth2_validator.DutyQueue.Enqueue.{enqueue-IsSafe}
use eth2_validator.DutyQueue.Ack.{acked_by, ack-IsSafe, ack-unack}
use eth2_validator.Scheduler.Input.{Error}
use eth2_validator.Scheduler.Epoch.{IsEpochPlan, handle_epoch, handle_epoch-IsEpochPlan}
use eth2_validator.State.Bolt.{StateError}
use eth2_validator.State.Store.{Parts, State, upsert_duty, duty_by_id}
use eth2_validator.State.Store.Restart.{IsParts, IsConsistent, latest_duty, upsert_duties_correct}
use eth2_validator.Server.Core.{
  Setup, Server, ServerError, schedule_failed, state_failed, failing, scheduler_env,
  scheduler_client, handle_new_epoch, completed, held, unless_written, written_into, write_result,
  finish,
}

module _ {p : Parts} (P : IsParts p) (setup : Setup p) (srv : Server p) where
  -- The queue and the state after a duty: the state has the duty with its result.
  pub record IsFinished (acked : List String) (clock : Clock) (duty : Duty) (res : Option Result)
      (srv' : Server p) : Type 0 where
    pub queue_safe :
        IsSafe
          (acked_by duty.id acked (GoMap.lookup duty.id srv.eval_queue.unack))
          clock
          srv'.eval_queue
    pub acked_in : (e : Option AckError) × (ack srv.eval_queue duty.id ≡ ok (srv'.eval_queue, e))
    pub not_unacked : GoMap.lookup duty.id srv'.eval_queue.unack ≡ none
    pub consistent : IsConsistent p srv'.state
    pub stored :
        (k : String)
        → duty_by_id p srv'.state k
          ≡ (if duty.id == k then some (completed setup srv duty res) else duty_by_id p srv.state k)
    pub seen :
        (k : String)
        → held setup srv' k
          ≡ (if duty.id == k then some (completed setup srv duty res) else held setup srv k)

  -- For a safe queue and a consistent state, where the duty can be stored, the worker ends it:
  -- DutyByID then finds it completed with its result, and the other duties as they were, in the
  -- table as it was inserted and with what was written into it since. The queue is what Ack of the
  -- duty leaves: safe with the duty acknowledged if it was handed out, and not waiting for it.
  pub finish_correct :
      (acked : List String) (clock : Clock) (duty : Duty) (res : Option Result)
      → IsSafe acked clock srv.eval_queue
      → IsConsistent p srv.state
      → (upsert_duty p srv.state (completed setup srv duty res)).1 ≡ value tt
      → Returns (IsFinished acked clock duty res) (finish setup srv duty res)
  unfolding finish write_result held upsert_duty
  finish_correct acked clock duty res safe c stores =
      let u = upsert_duties_correct p P srv.state (completed setup srv duty res ∷ []) c in
      let at : (k : String)
          → duty_by_id p (upsert_duty p srv.state (completed setup srv duty res)).0 k ≡ (
              if duty.id == k
              then some (completed setup srv duty res)
              else duty_by_id p srv.state k) =
        elim u.outcome [ inl (done, at) ↦ at | inr (failed, at) ↦ absurd (failed stores) ] in
      let ((q, e), run, (safe', x)) =
        Returns-inv (ack-IsSafe acked clock srv.eval_queue duty.id safe) in
      rw (finish, stores, run)
        (returns (record {
          queue_safe = safe';
          acked_in = (e, run);
          not_unacked = ack-unack srv.eval_queue q duty.id e run;
          consistent = u.consistent;
          stored = at;
          seen = λ k. found (duty_by_id p srv.state duty.id) k _ (at k);
        }))
    where
      unwritten :
          (o : Option Duty) (k : String)
          → (duty.id == k) ≡ false
          → GoMap.lookup k (written_into o (completed setup srv duty res) srv.written)
            ≡ GoMap.lookup k srv.written
      unwritten none k other = refl
      unwritten (some x) k other = rw (GoMap.lookup-insert, other) refl

      found :
          (o : Option Duty) (k : String) (s' : State p)
          → duty_by_id p s' k ≡ (
              if duty.id == k
              then some (completed setup srv duty res)
              else duty_by_id p srv.state k)
          → unless_written
              (GoMap.lookup k
                (GoMap.delete duty.id (written_into o (completed setup srv duty res) srv.written)))
              (duty_by_id p s' k)
            ≡ (if duty.id == k then some (completed setup srv duty res) else held setup srv k)
      found o k s' at = elim (Bool-cases (duty.id == k)) [
        | inl same ↦ rw (GoMap.lookup-delete, same) (at ∙ (rw same refl))
        | inr other ↦ rw (GoMap.lookup-delete, other, unwritten o k other, at, other) refl
      ]

  -- The queue and the state after an epoch, with what is returned.
  pub record IsScheduled (acked : List String) (early : Bool) (now : Time) (epoch : ℕ)
      (r : Server p × Try ServerError (Unit {0})) : Type 0 where
    pub queue_safe : IsSafe acked (record { early = early; now = now }) (r.0).eval_queue
    pub consistent : IsConsistent p (r.0).state
    pub outcome :
        ((e : Error) × (r.1 ≡ error (schedule_failed e)) × (r.0 ≡ srv))
        ⊎ ((duties : List Duty) × IsEpochPlan
              (scheduler_env setup srv)
              setup.spec
              (scheduler_client setup srv)
              epoch
              now
              duties
            × ((ctx : Context) × (enqueue srv.eval_queue ctx duties ≡ ok (r.0).eval_queue))
            × (((r.1 ≡ value tt)
                  × ((k : String)
                      → duty_by_id p (r.0).state k
                        ≡ latest_duty p k duties (duty_by_id p srv.state k)))
                ⊎ ((r.1 ≢ value tt)
                    × ((k : String) → duty_by_id p (r.0).state k ≡ duty_by_id p srv.state k))))

  failing-tt : (r : Try StateError (Unit {0})) → failing state_failed r ≡ value tt → r ≡ value tt
  failing-tt (value a) e = refl
  failing-tt (error x) e = cc
  failing-tt crash e = cc

  -- For a safe queue and a consistent state, where HandleEpoch does not panic, handleNewEpoch
  -- ends, with the queue safe and the state consistent. If HandleEpoch fails, its error is
  -- returned and nothing has changed. Else its plan for the epoch is in the queue, and if nil is
  -- returned, DutyByID finds the latest duty of the plan under its id and what it found before
  -- under the others; if not, what it found before.
  pub handle_new_epoch_correct :
      (acked : List String) (early : Bool) (ctx : Context) (now : Time) (epoch : ℕ)
      → IsSafe acked (record { early = early; now = now }) srv.eval_queue
      → IsConsistent p srv.state
      → handle_epoch
          (scheduler_env setup srv)
          setup.spec
          (scheduler_client setup srv)
          epoch
          now
          srv.ids
        ≢ crash
      → Returns (IsScheduled acked early now epoch) (handle_new_epoch setup srv ctx now epoch)
  unfolding handle_new_epoch
  handle_new_epoch_correct acked early ctx now epoch safe c calm =
      of
        (handle_epoch (scheduler_env setup srv) setup.spec (scheduler_client setup srv) epoch now
          srv.ids)
        refl
        (handle_epoch-IsEpochPlan (scheduler_env setup srv) setup.spec (scheduler_client setup srv)
          epoch now srv.ids)
    where
      of :
          (m : Try Error (List Duty × ℕ))
          → handle_epoch
              (scheduler_env setup srv)
              setup.spec
              (scheduler_client setup srv)
              epoch
              now
              srv.ids
            ≡ m
          → OnValue
              (λ (duties, _).
                IsEpochPlan
                  (scheduler_env setup srv)
                  setup.spec
                  (scheduler_client setup srv)
                  epoch
                  now
                  duties)
              m
          → Returns (IsScheduled acked early now epoch) (handle_new_epoch setup srv ctx now epoch)
      of (error e) q plan =
          rw (handle_new_epoch, q)
            (returns (record { queue_safe = safe; consistent = c; outcome = inl (e, refl, refl) }))
      of crash q plan = absurd (calm q)
      of (value (duties, ids)) q plan =
          let u = upsert_duties_correct p P srv.state duties c in
          let (queue, f, (safe', x)) = Returns-inv (
            enqueue-IsSafe acked (record { early = early; now = now }) srv.eval_queue ctx duties
              safe) in
          rw (handle_new_epoch, q, f)
            (returns (record {
              queue_safe = safe';
              consistent = u.consistent;
              outcome = inr (
                duties,
                plan,
                (ctx, f),
                elim u.outcome [
                  | inl (done, at) ↦ inl (ap (failing state_failed) done, at)
                  | inr (failed, at) ↦ inr (λ e. failed (failing-tt _ e), at)
                ],
              );
            }))
