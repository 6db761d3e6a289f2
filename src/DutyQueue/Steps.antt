-- ===== src/DutyQueue/Steps.antt =====
-- What every order of the steps keeps: the queue is safe, and the timer is set for what waits.
use eth2_validator.Base.{
  ◌≤◌, ◌≡◌, ◌≢◌, ◌⊎◌, true, false, inl, inr, refl, subst, List, [], ◌∷◌, String, none, some,
  Returns, returns, Returns-bind, Returns-if, Returns-at, Option-cases, nat_beq, string_eq,
  Bool-cases, ◌==◌, if◌then◌else◌,
}
use eth2_validator.GoMap
use eth2_validator.DelayHeap
use eth2_validator.DelayHeap.{DelayHeap}
use eth2_validator.DelayHeap.Nodes.{Time}
use eth2_validator.DelayHeap.Valid.{IsValid, entry, entry-held, new-IsValid}
use eth2_validator.DelayHeap.Remove.{remove_correct, peek_correct}
use eth2_validator.Duty.{Duty}
use eth2_validator.DutyQueue.{
  plus, less_one, duty_wrapper, Context, DutyQueue, took, new_eval_queue, dequeue, enqueue_locked,
  next_delayed_eval, timer_fires,
}
use eth2_validator.DutyQueue.Safety.{
  Clock, IsDue, IsCleared, AreReady, IsEntry, IsSafe, IsSafe-mono, Extends, AreReady-append,
}
use eth2_validator.DutyQueue.Enqueue.{enqueue-IsSafe}
use eth2_validator.DutyQueue.Ack.{ack-IsSafe}
use eth2_validator.DutyQueue.Loop.{
  System, start, Step, enqueues, dequeues, acks, looks, parks, rings, fires, passes, Reach, here,
  next,
}
use eth2_validator.DutyQueue.Timer.{
  IsSeen, IsHeld, clock, IsSound, IsHeld-notified, notified-IsSound, arm-IsSound, ring-IsTimed,
  pass-IsTimed, fired-IsDue,
}

dequeue-IsSafe :
    (acked : List String) (now : Clock) (q : DutyQueue) (l : List Duty)
    → q.ready ≡ l
    → IsSafe acked now q
    → IsSafe acked now (dequeue q).0 × Extends q (dequeue q).0
unfolding dequeue
dequeue-IsSafe acked now q [] e s = rw (e, dequeue) (s, λ k e h. h)
dequeue-IsSafe acked now q (d ∷ l) e s = elim (Option-cases (GoMap.lookup d.id q.ctx_map)) [
  | inl missing ↦ rw (e, dequeue, missing) (rest_safe, λ k e h. h)
  | inr (ctx, found) ↦ rw (e, dequeue, found) (rest_safe_counted, λ k e h. h)
]
  where
    due : AreReady acked now l
    due = (subst (AreReady acked now) e s.ready_due).1

    rest_safe : IsSafe acked now (record q { ready = l; unack = GoMap.insert d.id d q.unack })
    rest_safe = record {
      heap_valid = s.heap_valid;
      heap_entries = s.heap_entries;
      ready_due = due;
      blocked_waiting = s.blocked_waiting;
    }

    rest_safe_counted : IsSafe acked now (record q {
      ready = l;
      unack = GoMap.insert d.id d q.unack;
      stats = record (q.stats) {
        total_unacked = plus q.stats.total_unacked 1;
        total_ready = less_one q.stats.total_ready;
      };
    })
    rest_safe_counted = record {
      heap_valid = s.heap_valid;
      heap_entries = s.heap_entries;
      ready_due = due;
      blocked_waiting = s.blocked_waiting;
    }

-- What the timer does to a duty that the heap holds: it is ready, and gone from the heap.
timer_fires-IsSafe :
    (acked : List String) (now : Clock) (q : DutyQueue) (d : Duty) (t : Time)
    → IsSafe acked now q
    → entry q.delay_heap d.id ≡ some (d, t)
    → IsDue now t
    → Returns (IsSafe acked now) (timer_fires q d)
unfolding timer_fires enqueue_locked
timer_fires-IsSafe acked now q d t s held due =
    elim (Option-cases (GoMap.lookup d.id q.delay_heap.index)) [
      | inl missing ↦ absurd (entry-held q.delay_heap d.id (d, t) held missing)
      | inr (p, found) ↦
          Returns-bind (remove_correct q.delay_heap d p s.heap_valid found) λ (heap, _) r.
            returns (record {
              heap_valid = r.valid;
              heap_entries = λ k. rw (r.entries k) (left k);
              ready_due =
                  let (c, at) = rw held at (s.heap_entries d.id) in
                  AreReady-append acked now q.ready d s.ready_due c (subst (IsDue now) at due);
              blocked_waiting = s.blocked_waiting;
            })
    ]
  where
    left : (k : String) → IsEntry acked (if d.id == k then none else entry q.delay_heap k)
    left k = elim (Bool-cases (d.id == k)) [
      | inl same ↦ rw same tt
      | inr other ↦ rw other (s.heap_entries k)
    ]

next_delayed_eval-IsSeen :
    (q : DutyQueue) → IsValid q.delay_heap → Returns (IsSeen q) (next_delayed_eval q)
unfolding next_delayed_eval
next_delayed_eval-IsSeen q v =
    Returns-if (nat_beq (DelayHeap.length q.delay_heap) 0) (λ e. returns tt)
      λ full.
        Returns-bind (peek_correct q.delay_heap v) λ o r. elim r [
          | inl (e, _) ↦ rw e (returns tt)
          | inr (m, e, held, _) ↦ rw e (returns held)
        ]

-- Each step keeps what is said above.
pub Step-IsSound : {s u : System} → Step s u → IsSound s → IsSound u
Step-IsSound (enqueues {s} {q} ctx duties sent e) i =
    let (safe, x) = Returns-at q (enqueue-IsSafe s.acked (clock s) s.queue ctx duties i.safe) e in
    notified-IsSound s q s.acked sent i safe x
Step-IsSound (dequeues {s}) i =
    let (safe, x) = dequeue-IsSafe s.acked (clock s) s.queue s.queue.ready refl i.safe in
    record {
      safe = safe;
      held = IsHeld-notified s.queue (dequeue s.queue).0 false s.loop.phase x i.held;
      timed = i.timed;
    }
Step-IsSound (acks {s} {q} {e} id sent c) i =
    let (safe, x) = Returns-at (q, e) (ack-IsSafe s.acked (clock s) s.queue id i.safe) c in
    notified-IsSound s q _ sent i safe x
Step-IsSound (looks {s} {o} e c) i = record {
  safe = i.safe;
  held = Returns-at o (next_delayed_eval-IsSeen s.queue i.safe.heap_valid) c;
  timed = inr tt;
}
Step-IsSound (parks {s} o e) i = arm-IsSound s o e i
Step-IsSound (rings {s} w e p) i = record {
  safe = i.safe;
  held = i.held;
  timed = elim i.timed [
    | inl early ↦ inl early
    | inr h ↦ inr (ring-IsTimed s.loop.timer s.loop.tick s.now w s.loop.phase e p h)
  ];
}
Step-IsSound (fires {s} {q} {t} d waits nonzero ticked c) i = record {
  safe =
      Returns-at q
        (timer_fires-IsSafe s.acked (clock s) s.queue d t i.safe
          (subst (IsHeld s.queue) waits i.held) (fired-IsDue s d t waits nonzero ticked i))
        c;
  held = tt;
  timed = inr tt;
}
Step-IsSound (passes {s} now' p) i = record {
  safe = IsSafe-mono (λ dep a. a) ((λ h. h), p) i.safe;
  held = i.held;
  timed = elim i.timed [
    | inl early ↦ inl early
    | inr h ↦ inr (pass-IsTimed s.loop.timer s.loop.tick s.now now' s.loop.phase p h)
  ];
}

pub start-IsSound : IsSound start
unfolding start new_eval_queue GoMap.lookup
start-IsSound =
    let (valid, none_held) = new-IsValid in
    record {
      safe = record {
        heap_valid = valid;
        heap_entries = λ k. rw (none_held k) tt;
        ready_due = tt;
        blocked_waiting = λ k b e. absurd (cc e);
      };
      held = tt;
      timed = inr tt;
    }

-- Whatever the order of the calls and of the timer, the queue is sound.
pub Reach-IsSound : {s : System} → Reach start s → IsSound s
Reach-IsSound here = start-IsSound
Reach-IsSound (next r st) = Step-IsSound st (Reach-IsSound r)

took-empty : (q : DutyQueue) (d : Duty) (ctx : Context) → q.ready ≡ [] → (dequeue q).1 ≢ took d ctx
unfolding dequeue
took-empty q d ctx e h = cc (rw (e, dequeue) at h)

-- Dequeue hands out the first of the ready duties.
took-head :
    (q : DutyQueue) (x d : Duty) (l : List Duty) (ctx : Context)
    → q.ready ≡ x ∷ l
    → (dequeue q).1 ≡ took d ctx
    → x ≡ d
unfolding dequeue
took-head q x d l ctx e h = elim (Option-cases (GoMap.lookup x.id q.ctx_map)) [
  | inl missing ↦ absurd (cc (rw (e, dequeue, missing) at h))
  | inr (c, found) ↦ cc (rw (e, dequeue, found) at h)
]

-- Whatever calls of Enqueue, Dequeue and Ack and rounds of the timer loop came before, in any
-- order: for a duty that Dequeue hands out, every duty in its BlockedBy was acknowledged, and it is
-- due unless the timer was once reset with a tick in its channel.
pub dequeue_safe :
    (s : System) (d : Duty) (ctx : Context)
    → Reach start s
    → (dequeue s.queue).1 ≡ took d ctx
    → IsCleared s.acked d × ((s.loop.early ≡ true) ⊎ (d.active_time ≤ s.now))
dequeue_safe s d ctx r e = handed_out s.queue.ready refl
  where
    handed_out :
        (l : List Duty)
        → s.queue.ready ≡ l
        → IsCleared s.acked d × ((s.loop.early ≡ true) ⊎ (d.active_time ≤ s.now))
    handed_out [] q = absurd (took-empty s.queue d ctx q e)
    handed_out (x ∷ l) q =
        let (at, _) = subst (AreReady s.acked (clock s)) q (Reach-IsSound r).safe.ready_due in
        subst (λ y. IsCleared s.acked y × IsDue (clock s) y.active_time)
          (took-head s.queue x d l ctx q e) at
