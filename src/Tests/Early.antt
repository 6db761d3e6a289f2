-- ===== src/Tests/Early.antt =====
-- A tick that is left in the timer's channel fires a duty before its time, and a wake-up that is lost
-- leaves one in the heap.
use eth2_validator.Base.{
  Bool, false, true, ◌≡◌, refl, [], ◌∷◌, none, some, Go, ok, panic, out_of_fuel, string_eq, arith,
}
use eth2_validator.GoMap
use eth2_validator.DelayHeap
use eth2_validator.DelayHeap.Nodes.{
  empty, alloc, append, load, write, set_index, len, less, less_time, swap, drop_last,
}
use eth2_validator.DelayHeap.Sift.{heap_push, heap_remove, move_last, up, up_loop, down, down_loop}
use eth2_validator.DelayHeap.Nodes.{Time}
use eth2_validator.Duty.{Duty, new_duty}
use eth2_validator.DutyQueue.{
  DutyQueue, duty_wrapper, new_eval_queue, enqueue, enqueue_one, wait_in_heap, dequeue, took,
  next_delayed_eval, timer_fires, enqueue_locked,
}
use eth2_validator.DutyQueue.Loop.{
  looking, parked, DelayLoop, arm, System, start, Reach, here, next, enqueues, fires, passes, looks,
  parks, rings,
}

abbrev left : Go DutyQueue → DutyQueue
left (ok q) = q
left panic = new_eval_queue
left out_of_fuel = new_eval_queue

abbrev soon : Duty
soon = record new_duty { id = "soon"; active_time = 5 }

abbrev later : Duty
later = record new_duty { id = "later"; active_time = 100 }

abbrev one : DutyQueue
one = left (enqueue new_eval_queue 7 (soon ∷ []))

abbrev two : DutyQueue
two = left (enqueue one 7 (later ∷ []))

abbrev rest : DutyQueue
rest = left (timer_fires two soon)

abbrev both : DutyQueue
both = left (timer_fires rest later)

one_run : enqueue new_eval_queue 7 (soon ∷ []) ≡ ok one
unfolding timer_fires enqueue_locked next_delayed_eval dequeue DelayHeap.remove DelayHeap.remove_at
    DelayHeap.peek DelayHeap.length heap_remove drop_last GoMap.delete new_eval_queue enqueue
    enqueue_one wait_in_heap DelayHeap.new DelayHeap.push GoMap.lookup GoMap.insert empty alloc
    append heap_push up up_loop down down_loop len less less_time swap load write set_index new_duty
    move_last
one_run = refl

soon_first : next_delayed_eval one ≡ ok (some (soon, 5))
unfolding timer_fires enqueue_locked next_delayed_eval dequeue DelayHeap.remove DelayHeap.remove_at
    DelayHeap.peek DelayHeap.length heap_remove drop_last GoMap.delete new_eval_queue enqueue
    enqueue_one wait_in_heap DelayHeap.new DelayHeap.push GoMap.lookup GoMap.insert empty alloc
    append heap_push up up_loop down down_loop len less less_time swap load write set_index new_duty
    move_last
soon_first = refl

two_run : enqueue one 7 (later ∷ []) ≡ ok two
unfolding timer_fires enqueue_locked next_delayed_eval dequeue DelayHeap.remove DelayHeap.remove_at
    DelayHeap.peek DelayHeap.length heap_remove drop_last GoMap.delete new_eval_queue enqueue
    enqueue_one wait_in_heap DelayHeap.new DelayHeap.push GoMap.lookup GoMap.insert empty alloc
    append heap_push up up_loop down down_loop len less less_time swap load write set_index new_duty
    move_last
two_run = refl

soon_still_first : next_delayed_eval two ≡ ok (some (soon, 5))
unfolding timer_fires enqueue_locked next_delayed_eval dequeue DelayHeap.remove DelayHeap.remove_at
    DelayHeap.peek DelayHeap.length heap_remove drop_last GoMap.delete new_eval_queue enqueue
    enqueue_one wait_in_heap DelayHeap.new DelayHeap.push GoMap.lookup GoMap.insert empty alloc
    append heap_push up up_loop down down_loop len less less_time swap load write set_index new_duty
    move_last
soon_still_first = refl

rest_run : timer_fires two soon ≡ ok rest
unfolding timer_fires enqueue_locked next_delayed_eval dequeue DelayHeap.remove DelayHeap.remove_at
    DelayHeap.peek DelayHeap.length heap_remove drop_last GoMap.delete new_eval_queue enqueue
    enqueue_one wait_in_heap DelayHeap.new DelayHeap.push GoMap.lookup GoMap.insert empty alloc
    append heap_push up up_loop down down_loop len less less_time swap load write set_index new_duty
    move_last
rest_run = refl

later_first : next_delayed_eval rest ≡ ok (some (later, 100))
unfolding timer_fires enqueue_locked next_delayed_eval dequeue DelayHeap.remove DelayHeap.remove_at
    DelayHeap.peek DelayHeap.length heap_remove drop_last GoMap.delete new_eval_queue enqueue
    enqueue_one wait_in_heap DelayHeap.new DelayHeap.push GoMap.lookup GoMap.insert empty alloc
    append heap_push up up_loop down down_loop len less less_time swap load write set_index new_duty
    move_last
later_first = refl

both_run : timer_fires rest later ≡ ok both
unfolding timer_fires enqueue_locked next_delayed_eval dequeue DelayHeap.remove DelayHeap.remove_at
    DelayHeap.peek DelayHeap.length heap_remove drop_last GoMap.delete new_eval_queue enqueue
    enqueue_one wait_in_heap DelayHeap.new DelayHeap.push GoMap.lookup GoMap.insert empty alloc
    append heap_push up up_loop down down_loop len less less_time swap load write set_index new_duty
    move_last
both_run = refl

took_later : (dequeue (dequeue both).0).1 ≡ took later 7
unfolding timer_fires enqueue_locked next_delayed_eval dequeue DelayHeap.remove DelayHeap.remove_at
    DelayHeap.peek DelayHeap.length heap_remove drop_last GoMap.delete new_eval_queue enqueue
    enqueue_one wait_in_heap DelayHeap.new DelayHeap.push GoMap.lookup GoMap.insert empty alloc
    append heap_push up up_loop down down_loop len less less_time swap load write set_index new_duty
    move_last
took_later = refl

abbrev reset_for : Duty → Time → Bool → Bool → DelayLoop
reset_for d t tick early = record {
  phase = parked (some (d, t));
  timer = some t;
  tick = tick;
  early = early;
}

abbrev at_six : DutyQueue → DelayLoop → System
at_six q l = record { queue = q; loop = l; now = 6; acked = [] }

-- The timer has rung for `soon`.
rang : Reach start (at_six one (record (reset_for soon 5 true false) { timer = none }))
unfolding start arm
rang =
    next
      (next
        (next (next (next here (enqueues 7 (soon ∷ []) false one_run)) (looks refl soon_first))
          (parks (some (soon, 5)) refl))
        (passes 6 (omega arith)))
      (rings 5 refl (omega arith))

-- A call wakes the loop, which resets the timer with the tick in its channel.
reset : Reach start (at_six two (reset_for soon 5 true true))
unfolding arm
reset =
    next (next (next rang (enqueues 7 (later ∷ []) true two_run)) (looks refl soon_still_first))
      (parks (some (soon, 5)) refl)

-- The tick fires `soon`, and the timer rings again.
left_over :
    Reach start (at_six rest (record { phase = looking; timer = none; tick = true; early = true }))
left_over =
    next (next reset (fires soon refl (omega arith) refl rest_run)) (rings 5 refl (omega arith))

-- The tick that is left fires `later`, for the time 100, at the time 6.
early : Reach start (at_six both (record (reset_for later 100 false true) { phase = looking }))
unfolding arm
early =
    next (next (next left_over (looks refl later_first)) (parks (some (later, 100)) refl))
      (fires later refl (omega arith) refl both_run)

empty_run : next_delayed_eval new_eval_queue ≡ ok none
unfolding next_delayed_eval DelayHeap.length new_eval_queue DelayHeap.new empty len
empty_run = refl

-- A duty that is pushed between the look at the heap and the select: the loop waits without a timer.
parked_without_timer : Reach start (record {
  queue = one;
  loop = record { phase = parked none; timer = none; tick = false; early = false };
  now = 0;
  acked = [];
})
unfolding start arm
parked_without_timer =
    next (next (next here (looks refl empty_run)) (enqueues 7 (soon ∷ []) true one_run))
      (parks none refl)
