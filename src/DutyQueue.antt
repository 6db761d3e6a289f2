-- ===== src/DutyQueue.antt =====
-- internal/server/duty_queue.go. Each method runs under the queue's lock, so that a call is one
-- step. The sends on delayUpdateCh and updateCh, which wake another goroutine or are lost, change
-- nothing in the queue; what the former do to the loop of runDelayHeap is in `Loop`, with its timer.
-- `Safety`, `Enqueue`, `Ack`, `Timer` and `Steps` are about the interleavings of the calls, `Live`
-- about the loop by itself, `Counts` about Stats, `Blocking` about the duties that wait for others.
use eth2_validator.Base.{
  ℕ, ℤ, pos, negsuc, ltb, zero, suc, ◌+◌, ◌-◌, List, [], ◌∷◌, ◌++◌, String, Option, none, some, Go,
  ok, ◌>>=◌, if◌then◌else◌, string_eq, nat_beq,
}
use eth2_validator.Array.{length}
use eth2_validator.GoMap
use eth2_validator.GoMap.{Map}
use mathlib.Core.Option
use eth2_validator.DelayHeap
use eth2_validator.DelayHeap.{DelayHeap}
use eth2_validator.DelayHeap.Nodes.{Time, HeapNode, DelayHeapNode}
use eth2_validator.Duty.{Duty, new_duty}
pub mod Safety
pub mod Enqueue
pub mod Ack
pub mod Loop
pub mod Timer
pub mod Steps
pub mod Live
pub mod Blocking
pub mod Counts

-- dutyWrapper: a duty under its id.
instance abbrev pub duty_wrapper : HeapNode Duty
duty_wrapper = record { id = λ d. d.id; nil = new_duty }

-- A context.Context, by its identity.
abbrev pub Context : Type 0
Context = ℕ

-- `x += n` and `x -= 1` on an int.
abbrev pub plus : ℤ → ℕ → ℤ
plus (pos x) n = pos (x + n)
plus (negsuc x) n = if ltb x n then pos (n - suc x) else negsuc (x - n)

abbrev pub less_one : ℤ → ℤ
less_one (pos zero) = negsuc zero
less_one (pos (suc x)) = pos x
less_one (negsuc x) = negsuc (suc x)

-- DelayedEvals is never written.
pub record EvalStats : Type 0 where
  pub total_ready : ℤ
  pub total_unacked : ℤ
  pub total_blocked : ℤ
  pub total_waiting : ℤ

pub record BlockedDuty : Type 0 where
  pub duty : Duty
  pub blocked : Map String (Unit {0})

pub record DutyQueue : Type 0 where
  pub delay_heap : DelayHeap Duty
  pub stats : EvalStats
  pub unack : Map String Duty
  pub ctx_map : Map String Context
  pub blocked : Map String BlockedDuty
  pub reverse_blocked_map : Map String (List String)
  pub ready : List Duty

unfoldable pub new_eval_queue : DutyQueue
unfolding DelayHeap.new
new_eval_queue = record {
  delay_heap = DelayHeap.new;
  stats = record {
    total_ready = pos 0;
    total_unacked = pos 0;
    total_blocked = pos 0;
    total_waiting = pos 0;
  };
  unack = [];
  ctx_map = [];
  blocked = [];
  reverse_blocked_map = [];
  ready = [];
}

-- A map read with the zero value for what is missing.
abbrev pub or_empty {ℓ} : {A : Type ℓ} → Option (List A) → List A
or_empty none = []
or_empty (some l) = l

-- The loop over BlockedBy that fills the set of blockers.
unfoldable pub blockers : List String → Map String (Unit {0}) → Map String (Unit {0})
blockers [] m = m
blockers (dep ∷ deps) m = blockers deps (GoMap.insert dep tt m)

-- One round of the loop that registers a duty under what blocks it.
unfoldable pub register : String → String → Map String (List String) → Map String (List String)
register id dep m =
    let m' : Map String (List String) = elim (GoMap.lookup dep m) [
      | some _ ↦ GoMap.insert dep [] m
      | none ↦ m
    ] in
    GoMap.insert dep (or_empty (GoMap.lookup dep m') ++ id ∷ []) m'

unfoldable pub register_all :
    String → List String → Map String (List String) → Map String (List String)
register_all id [] m = m
register_all id (dep ∷ deps) m = register_all id deps (register id dep m)

-- The push into the delay heap, whose error is dropped.
unfoldable pub wait_in_heap : DutyQueue → Duty → Go DutyQueue
wait_in_heap q duty = DelayHeap.push q.delay_heap duty duty.active_time >>= λ (heap, _).
    ok (record q {
      delay_heap = heap;
      stats = record (q.stats) { total_waiting = plus q.stats.total_waiting 1 };
    })

unfoldable pub block : DutyQueue → Duty → DutyQueue
block q duty = record q {
  blocked =
      GoMap.insert duty.id (record { duty = duty; blocked = blockers duty.blocked_by [] })
        q.blocked;
  reverse_blocked_map = register_all duty.id duty.blocked_by q.reverse_blocked_map;
  stats = record (q.stats) { total_blocked = plus q.stats.total_blocked (length duty.blocked_by) };
}

-- One round of the loop of Enqueue.
unfoldable pub enqueue_one : DutyQueue → Context → Duty → Go DutyQueue
enqueue_one q ctx duty = do
  let waiting = wait_in_heap q duty
  q' ← (if nat_beq (length duty.blocked_by) 0 then waiting else ok (block q duty))
  ok (record q' { ctx_map = GoMap.insert duty.id ctx q'.ctx_map })

unfoldable pub enqueue : DutyQueue → Context → List Duty → Go DutyQueue
enqueue q ctx [] = ok q
enqueue q ctx (duty ∷ duties) = enqueue_one q ctx duty >>= λ q'. enqueue q' ctx duties

-- How one look of Dequeue under the lock ends.
pub data Dequeued : Type 0 where
  took : Duty → Context → Dequeued
  context_not_found : String → Dequeued
  waits : Dequeued

unfoldable pub dequeue : DutyQueue → DutyQueue × Dequeued
dequeue q = elim q.ready [
  | [] ↦ (q, waits)
  | duty ∷ rest ↦
      let q' = record q { ready = rest; unack = GoMap.insert duty.id duty q.unack } in
      elim (GoMap.lookup duty.id q.ctx_map) [
        | none ↦ (q', context_not_found duty.id)
        | some ctx ↦ (
          record q' {
            stats = record (q.stats) {
              total_unacked = plus q.stats.total_unacked 1;
              total_ready = less_one q.stats.total_ready;
            };
          },
          took duty ctx,
        )
      ]
]

pub data AckError : Type 0 where
  duty_not_found unblock_not_found : String → AckError
  not_a_dependency : String → String → AckError

-- The body of the loop of Ack, for a duty that was found among the blocked ones.
unfoldable pub unblock : DutyQueue → String → String → BlockedDuty → Go DutyQueue
unblock q duty_id id found =
    let left = GoMap.delete duty_id found.blocked in
    let kept = record q { blocked = GoMap.insert id (record found { blocked = left }) q.blocked } in
    let freed = record q {
      blocked = GoMap.delete id q.blocked;
      stats = record (q.stats) { total_blocked = less_one q.stats.total_blocked };
    } in
    let waiting = wait_in_heap freed found.duty in
    if nat_beq (length left) 0 then waiting else ok kept

-- The loop of Ack. It stops at an error, and what it did before stays.
unfoldable pub unblock_all : DutyQueue → String → List String → Go (DutyQueue × Option AckError)
unblock_all q duty_id [] = ok (q, none)
unblock_all q duty_id (id ∷ ids) = elim (GoMap.lookup id q.blocked) [
  | none ↦ ok (q, some (unblock_not_found id))
  | some found ↦ elim (GoMap.lookup duty_id found.blocked) [
    | none ↦ ok (q, some (not_a_dependency duty_id found.duty.id))
    | some _ ↦ unblock q duty_id id found >>= λ q'. unblock_all q' duty_id ids
  ]
]

-- Ack up to its loop.
unfoldable pub acknowledge : DutyQueue → String → DutyQueue
acknowledge q duty_id = record q {
  unack = GoMap.delete duty_id q.unack;
  ctx_map = GoMap.delete duty_id q.ctx_map;
  stats = record (q.stats) { total_unacked = less_one q.stats.total_unacked };
}

unfoldable pub ack : DutyQueue → String → Go (DutyQueue × Option AckError)
ack q duty_id = elim (GoMap.lookup duty_id q.unack) [
  | none ↦ ok (q, some (duty_not_found duty_id))
  | some _ ↦
      unblock_all (acknowledge q duty_id) duty_id
        (or_empty (GoMap.lookup duty_id q.reverse_blocked_map))
]

unfoldable pub enqueue_locked : DutyQueue → Duty → DutyQueue
enqueue_locked q duty = record q {
  stats = record (q.stats) { total_ready = plus q.stats.total_ready 1 };
  ready = q.ready ++ duty ∷ [];
}

abbrev pub eval_of : DelayHeapNode Duty → Duty × Time
eval_of n = (n.node, n.wait_until)

-- `nil` and the zero time are `none`.
unfoldable pub next_delayed_eval : DutyQueue → Go (Option (Duty × Time))
next_delayed_eval q =
    let first = DelayHeap.peek q.delay_heap >>= λ o. ok (Option.map eval_of o) in
    if nat_beq (DelayHeap.length q.delay_heap) 0 then ok none else first

-- The case of runDelayHeap's select in which the timer for `duty` has fired.
unfoldable pub timer_fires : DutyQueue → Duty → Go DutyQueue
timer_fires q duty = DelayHeap.remove q.delay_heap duty >>= λ (heap, _). ok (
    enqueue_locked
      (record q {
        delay_heap = heap;
        stats = record (q.stats) { total_waiting = less_one q.stats.total_waiting };
      })
      duty)

-- Stats: a copy, made under the lock. EmitStats reports its four numbers.
unfoldable pub stats_of : DutyQueue → EvalStats
stats_of q = record {
  total_ready = q.stats.total_ready;
  total_unacked = q.stats.total_unacked;
  total_blocked = q.stats.total_blocked;
  total_waiting = q.stats.total_waiting;
}
