-- ===== src/DutyQueue/Loop.antt =====
-- The goroutines that share the queue, as a step relation: callers of Enqueue, Dequeue and Ack, and
-- the loop of runDelayHeap, which looks at the heap, resets its timer and waits for a tick of it or
-- for a wake-up.
use eth2_validator.Base.{
  ◌≤◌, ◌≡◌, ◌≢◌, Bool, true, false, List, [], String, Option, none, some, ok, nat_beq, string_eq,
  if◌then◌else◌,
}
use eth2_validator.GoMap
use eth2_validator.DelayHeap.Nodes.{Time}
use eth2_validator.Duty.{Duty}
use eth2_validator.DutyQueue.{
  Context, DutyQueue, AckError, new_eval_queue, enqueue, dequeue, ack, next_delayed_eval,
  timer_fires,
}
use eth2_validator.DutyQueue.Ack.{acked_by}

-- Where the loop of runDelayHeap is: about to look at the heap, after the look, or in its select with
-- what it saw. Only there does it take a wake-up: the sends on delayUpdateCh do not block.
pub data Phase : Type 0 where
  looking : Phase
  seen parked : Option (Duty × Time) → Phase

-- The loop, when its timer rings, whether the timer's channel has a tick, and whether Reset was ever
-- called with a tick in it: Reset leaves a tick where it is, and does nothing to a channel that the
-- select leaves out.
pub record DelayLoop : Type 0 where
  pub phase : Phase
  pub timer : Option Time
  pub tick : Bool
  pub early : Bool

abbrev pub new_loop : DelayLoop
new_loop = record { phase = looking; timer = none; tick = false; early = false }

abbrev pub wake : Phase → Phase
wake looking = looking
wake (seen o) = seen o
wake (parked o) = looking

-- After a call that may have sent on delayUpdateCh.
abbrev pub notified : Bool → DelayLoop → DelayLoop
notified sent l = record l { phase = if sent then wake l.phase else l.phase }

-- NewTimer or Reset, and the start of the select. The zero time leaves the timer out.
unfoldable pub arm : DelayLoop → Option (Duty × Time) → DelayLoop
arm l none = record l { phase = parked none }
arm l (some (d, t)) = if nat_beq t 0 then record l { phase = parked (some (d, t)) } else record l {
  phase = parked (some (d, t));
  timer = some t;
  early = if l.tick then true else l.early;
}

-- The queue, the loop, the time that has passed, and the duties that were acknowledged so far.
pub record System : Type 0 where
  pub queue : DutyQueue
  pub loop : DelayLoop
  pub now : Time
  pub acked : List String

unfoldable pub start : System
start = record { queue = new_eval_queue; loop = new_loop; now = 0; acked = [] }

-- A timer rings at its time or later; the case of the select then takes the tick, of whatever Reset
-- it is. `sent` is false where a call makes no send on delayUpdateCh or its send is dropped. A Dequeue
-- is one look at the ready duties: a worker that waits on updateCh, whose wake-ups may be dropped
-- too, takes no step.
pub data Step : System → System → Type 0 where
  enqueues :
      {s : System} {q : DutyQueue} (ctx : Context) (duties : List Duty) (sent : Bool)
      → enqueue s.queue ctx duties ≡ ok q
      → Step s (record s { queue = q; loop = notified sent s.loop })
  dequeues : {s : System} → Step s (record s { queue = (dequeue s.queue).0 })
  acks :
      {s : System} {q : DutyQueue} {e : Option AckError} (id : String) (sent : Bool)
      → ack s.queue id ≡ ok (q, e)
      → Step s (record s {
        queue = q;
        loop = notified sent s.loop;
        acked = acked_by id s.acked (GoMap.lookup id s.queue.unack);
      })
  looks :
      {s : System} {o : Option (Duty × Time)}
      → s.loop.phase ≡ looking
      → next_delayed_eval s.queue ≡ ok o
      → Step s (record s { loop = record (s.loop) { phase = seen o } })
  parks :
      {s : System} (o : Option (Duty × Time))
      → s.loop.phase ≡ seen o
      → Step s (record s { loop = arm s.loop o })
  rings :
      {s : System} (w : Time)
      → s.loop.timer ≡ some w
      → w ≤ s.now
      → Step s (record s { loop = record (s.loop) { timer = none; tick = true } })
  fires :
      {s : System} {q : DutyQueue} {t : Time} (d : Duty)
      → s.loop.phase ≡ parked (some (d, t))
      → t ≢ 0
      → s.loop.tick ≡ true
      → timer_fires s.queue d ≡ ok q
      → Step s (record s { queue = q; loop = record (s.loop) { phase = looking; tick = false } })
  passes : {s : System} (now' : Time) → s.now ≤ now' → Step s (record s { now = now' })

pub data Reach (s : System) : System → Type 0 where
  here : Reach s s
  next : {t u : System} → Reach s t → Step t u → Reach s u
