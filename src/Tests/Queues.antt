-- ===== src/Tests/Queues.antt =====
-- A duty that becomes due and is handed out, and one that an Ack frees.
use eth2_validator.Base.{
  false, true, ◌≤◌, ◌≡◌, ◌⊎◌, ◌≢◌, refl, [], ◌∷◌, none, some, Go, ok, panic, out_of_fuel, Returns,
  string_eq, arith,
}
use eth2_validator.GoMap
use eth2_validator.DelayHeap
use eth2_validator.DelayHeap.{DelayHeap}
use eth2_validator.DelayHeap.Nodes.{
  empty, alloc, append, load, write, set_index, len, less, swap, drop_last,
}
use eth2_validator.DelayHeap.Sift.{heap_push, heap_remove, move_last, up, up_loop}
use eth2_validator.DelayHeap.Valid.{new-IsValid, entry, IsValid}
use eth2_validator.Duty.{Duty, new_duty}
use eth2_validator.DutyQueue.{
  DutyQueue, BlockedDuty, duty_wrapper, new_eval_queue, enqueue, enqueue_one, wait_in_heap, dequeue,
  took, block, ack, next_delayed_eval, timer_fires, enqueue_locked,
}
use eth2_validator.DutyQueue.Safety.{IsCleared}
use eth2_validator.DutyQueue.Loop.{
  new_loop, arm, System, start, Reach, here, next, enqueues, fires, passes, looks, parks, rings,
}
use eth2_validator.DutyQueue.Steps.{dequeue_safe, Reach-IsSound}
use eth2_validator.DutyQueue.Live.{Alone, IsReady, Alone-IsReady}
use eth2_validator.DutyQueue.Counts.{IsCounted, Reach-IsCounted}
use eth2_validator.DutyQueue.Blocking.{ack_frees, ack_forgets}

abbrev left : Go DutyQueue → DutyQueue
left (ok q) = q
left panic = new_eval_queue
left out_of_fuel = new_eval_queue

-- A duty that nothing blocks, for the time 5.
abbrev vote : Duty
vote = record new_duty { id = "vote"; active_time = 5 }

abbrev enqueued : DutyQueue
enqueued = left (enqueue new_eval_queue 7 (vote ∷ []))

abbrev due : DutyQueue
due = left (timer_fires enqueued vote)

abbrev fired : System
fired = record { queue = due; loop = new_loop; now = 6; acked = [] }

enqueued_run : enqueue new_eval_queue 7 (vote ∷ []) ≡ ok enqueued
unfolding new_eval_queue enqueue enqueue_one wait_in_heap DelayHeap.new DelayHeap.push GoMap.lookup
    GoMap.insert empty alloc append heap_push up up_loop len less swap load write set_index new_duty
enqueued_run = refl

armed_run : next_delayed_eval enqueued ≡ ok (some (vote, 5))
unfolding next_delayed_eval DelayHeap.peek DelayHeap.length new_eval_queue enqueue enqueue_one
    wait_in_heap DelayHeap.new DelayHeap.push GoMap.lookup GoMap.insert empty alloc append heap_push
    up up_loop len less swap load write set_index new_duty
armed_run = refl

fired_run : timer_fires enqueued vote ≡ ok due
unfolding timer_fires enqueue_locked DelayHeap.remove DelayHeap.remove_at heap_remove drop_last
    GoMap.delete new_eval_queue enqueue enqueue_one wait_in_heap DelayHeap.new DelayHeap.push
    GoMap.lookup GoMap.insert empty alloc append heap_push up up_loop len less swap load write
    set_index new_duty move_last
fired_run = refl

took_run : (dequeue due).1 ≡ took vote 7
unfolding dequeue timer_fires enqueue_locked DelayHeap.remove DelayHeap.remove_at heap_remove
    drop_last GoMap.delete new_eval_queue enqueue enqueue_one wait_in_heap DelayHeap.new
    DelayHeap.push GoMap.lookup GoMap.insert empty alloc append heap_push up up_loop len less swap
    load write set_index new_duty move_last
took_run = refl

fired-Reach : Reach start fired
unfolding start arm
fired-Reach =
    next
      (next
        (next
          (next
            (next (next here (enqueues 7 (vote ∷ []) false enqueued_run)) (looks refl armed_run))
            (parks (some (vote, 5)) refl))
          (passes 6 (omega arith)))
        (rings 5 refl (omega arith)))
      (fires vote refl (omega arith) refl fired_run)

dequeue_safe_example : IsCleared [] vote × ((false ≡ true) ⊎ (vote.active_time ≤ 6))
dequeue_safe_example = dequeue_safe fired vote 7 fired-Reach took_run

abbrev waiting : System
waiting = record start { queue = enqueued }

waiting-held : entry enqueued.delay_heap "vote" ≡ some (vote, 5)
unfolding entry new_eval_queue enqueue enqueue_one wait_in_heap DelayHeap.new DelayHeap.push
    GoMap.lookup GoMap.insert empty alloc append heap_push up up_loop len less swap load write
    set_index new_duty
waiting-held = refl

Alone-IsReady_example : (s' : System) × Alone waiting s' × IsReady s'.queue vote
unfolding start
Alone-IsReady_example =
    Alone-IsReady waiting "vote" vote 5
      (Reach-IsSound (next here (enqueues 7 (vote ∷ []) false enqueued_run))) refl waiting-held
      (omega arith)

-- Two duties that wait for the duty `dep` alone.
abbrev aggregate : Duty
aggregate = record new_duty { id = "aggregate"; blocked_by = "dep" ∷ [] }

abbrev other : Duty
other = record new_duty { id = "other"; blocked_by = "dep" ∷ [] }

abbrev other_blocked : BlockedDuty
other_blocked = record { duty = other; blocked = ("dep", tt) ∷ [] }

-- `dep` was handed out, and `other` waits for it.
abbrev handed_out : DutyQueue
handed_out = record new_eval_queue {
  unack = ("dep", vote) ∷ [];
  blocked = ("other", other_blocked) ∷ [];
  reverse_blocked_map = ("dep", "other" ∷ []) ∷ [];
}

dep-unacked : GoMap.lookup "dep" handed_out.unack ≡ some vote
unfolding GoMap.lookup
dep-unacked = refl

aggregate-new : GoMap.lookup "aggregate" handed_out.delay_heap.index ≡ none
unfolding GoMap.lookup DelayHeap.new new_eval_queue
aggregate-new = refl

other-waits : GoMap.lookup "other" handed_out.blocked ≡ some other_blocked
unfolding GoMap.lookup
other-waits = refl

other-differs : other.id ≢ aggregate.id
other-differs h = cc

handed_out-IsValid : IsValid handed_out.delay_heap
unfolding new_eval_queue
handed_out-IsValid = new-IsValid.0

ack_frees_example :
    Returns
      (λ (q, e).
        (e ≡ none)
        × (GoMap.lookup "aggregate" q.blocked ≡ none)
        × (entry q.delay_heap "aggregate" ≡ some (aggregate, aggregate.active_time)))
      (ack (block handed_out aggregate) "dep")
ack_frees_example =
    ack_frees handed_out vote aggregate "dep" refl dep-unacked handed_out-IsValid aggregate-new

ack_forgets_example :
    Returns
      (λ (q, _). GoMap.lookup "other" q.blocked ≡ some other_blocked)
      (ack (block handed_out aggregate) "dep")
ack_forgets_example =
    ack_forgets handed_out vote aggregate "dep" refl dep-unacked handed_out-IsValid "other"
      other_blocked other-differs other-waits

Reach-IsCounted_example : IsCounted fired.queue
Reach-IsCounted_example = Reach-IsCounted fired fired-Reach
