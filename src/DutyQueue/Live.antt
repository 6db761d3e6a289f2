-- ===== src/DutyQueue/Live.antt =====
-- A duty in the delay heap is not stuck there while the loop gets round to look at the heap: the loop,
-- its timer and the time alone make it ready.
use eth2_validator.Base.{
  ℕ, zero, suc, ◌+◌, ◌≡◌, ◌≢◌, inl, inr, refl, sym, ap, ◌∙◌, true, false, List, [], ◌∷◌, ◌++◌,
  String, Option, none, some, arith, ok, Returns, Returns-inv, returns, Returns-bind, Option-cases,
  nat_beq, string_eq, key_cases, ◌==◌, if◌then◌else◌,
}
use eth2_validator.GoMap
use eth2_validator.DelayHeap.{length}
use eth2_validator.DelayHeap.Nodes.{Time, less_time}
use eth2_validator.DelayHeap.Valid.{IsValid, entry, entry-held}
use eth2_validator.DelayHeap.Remove.{remove_correct, peek_correct, entry-slot}
use eth2_validator.Duty.{Duty}
use eth2_validator.DutyQueue.{
  DutyQueue, duty_wrapper, enqueue_locked, next_delayed_eval, timer_fires,
}
use eth2_validator.DutyQueue.Loop.{
  DelayLoop, looking, seen, parked, arm, System, Step, enqueues, dequeues, acks, looks, parks,
  rings, fires, passes,
}
use eth2_validator.DutyQueue.Timer.{IsSound}
use eth2_validator.DutyQueue.Steps.{Step-IsSound}

-- What the timer loop sees: a duty of the heap that no other one precedes.
record IsNext (q : DutyQueue) (d : Duty) (t : Time) : Type 0 where
  seen : next_delayed_eval q ≡ ok (some (d, t))
  held : entry q.delay_heap d.id ≡ some (d, t)
  first :
      (k : String) (x : Duty) (u : Time)
      → entry q.delay_heap k ≡ some (x, u)
      → less_time u t ≡ false

find-IsNext :
    (q : DutyQueue) (k : String) (x : Duty) (u : Time)
    → IsValid q.delay_heap
    → entry q.delay_heap k ≡ some (x, u)
    → (d : Duty) × (t : Time) × IsNext q d t
unfolding next_delayed_eval length
find-IsNext q k x u v e =
    let (i, hi, at) = entry-slot q.delay_heap k x u v e in
    let full : nat_beq (length q.delay_heap) 0 ≡ false = ground arith in
    let (o, is_seen, found) = Returns-inv (peek_correct q.delay_heap v) in
    elim found [
      | inl (_, empty) ↦ absurd (omega (arith, hi, empty))
      | inr (m, is, held, first) ↦ (
        m.node,
        m.wait_until,
        record { seen = rw (full, is_seen, is) refl; held = held; first = first },
      )
    ]

nonzero : (t u : Time) → less_time u t ≡ false → u ≢ 0 → t ≢ 0
unfolding less_time
nonzero t u h n e = ground arith

-- What the timer leaves.
record IsFired (q : DutyQueue) (d : Duty) (q' : DutyQueue) : Type 0 where
  size : length q'.delay_heap + 1 ≡ length q.delay_heap
  entries :
      (k : String) → entry q'.delay_heap k ≡ (if d.id == k then none else entry q.delay_heap k)
  queued : q'.ready ≡ q.ready ++ d ∷ []

timer_fires-IsFired :
    (q : DutyQueue) (d : Duty) (t : Time)
    → IsValid q.delay_heap
    → entry q.delay_heap d.id ≡ some (d, t)
    → Returns (IsFired q d) (timer_fires q d)
unfolding timer_fires enqueue_locked
timer_fires-IsFired q d t v held = elim (Option-cases (GoMap.lookup d.id q.delay_heap.index)) [
  | inl missing ↦ absurd (entry-held q.delay_heap d.id (d, t) held missing)
  | inr (p, found) ↦
      Returns-bind (remove_correct q.delay_heap d p v found)
        λ (heap, _) r. returns (record { size = r.size; entries = r.entries; queued = refl })
]

-- The duty is among the ready ones, behind some.
abbrev pub IsReady : DutyQueue → Duty → Type 0
IsReady q d = (before after : List Duty) × (q.ready ≡ before ++ d ∷ after)

one_entry :
    {x d : Duty} {u t : Time} → ◌≡◌ {A = Option (Duty × Time)} (some (x, u)) (some (d, t)) → x ≡ d
one_entry e = cc e

-- The step is one of the loop, of its timer or of the time.
abbrev IsAlone : {s u : System} → Step s u → Type 0
IsAlone (enqueues ctx duties sent e) = ⊥
IsAlone dequeues = ⊥
IsAlone (acks id sent e) = ⊥
IsAlone (looks e f) = Unit {0}
IsAlone (parks o e) = Unit {0}
IsAlone (rings w e p) = Unit {0}
IsAlone (fires d e n k f) = Unit {0}
IsAlone (passes t p) = Unit {0}

-- What the loop comes to where no method of the queue is called.
pub data Alone (s : System) : System → Type 0 where
  stays : Alone s s
  goes : {t u : System} → Alone s t → (st : Step t u) → IsAlone st → Alone s u

-- The loop after a look at the heap that shows a time, when its timer has rung.
abbrev rung : DelayLoop → Duty → Time → DelayLoop
rung l x u = record (arm (record l { phase = seen (some (x, u)) }) (some (x, u))) {
  timer = none;
  tick = true;
}

abbrev after_round : System → DutyQueue → Duty → Time → System
after_round s q x u = record s {
  queue = q;
  loop = record (rung s.loop x u) { phase = looking; tick = false };
  now = s.now + u;
}

-- One round of the loop, from the look to the tick.
one_round :
    (s0 s : System) (x : Duty) (u : Time) (q : DutyQueue)
    → Alone s0 s
    → IsSound s
    → s.loop.phase ≡ looking
    → IsNext s.queue x u
    → u ≢ 0
    → timer_fires s.queue x ≡ ok q
    → Alone s0 (after_round s q x u) × IsSound (after_round s q x u)
unfolding arm
one_round s0 s x u q r i e is nonzero run =
    let set : nat_beq u 0 ≡ false = ground arith in
    let s1 : System = record s { loop = record (s.loop) { phase = seen (some (x, u)) } } in
    let s2 : System = record s1 { loop = arm s1.loop (some (x, u)) } in
    let s3 : System = record s2 { now = s.now + u } in
    let s4 : System = record s3 { loop = rung s.loop x u } in
    let timer : s3.loop.timer ≡ some u = rw set refl in
    let waits : s4.loop.phase ≡ parked (some (x, u)) = rw set refl in
    let look : Step s s1 = looks e is.seen in
    let park : Step s1 s2 = parks (some (x, u)) refl in
    let pass : Step s2 s3 = passes (s.now + u) (omega arith) in
    let ring : Step s3 s4 = rings u timer (omega arith) in
    let fire : Step s4 (after_round s q x u) = fires x waits nonzero refl run in
    (
      goes (goes (goes (goes (goes r look tt) park tt) pass tt) ring tt) fire tt,
      Step-IsSound fire
          (Step-IsSound ring (Step-IsSound pass (Step-IsSound park (Step-IsSound look i)))),
    )

fire_until :
    (n : ℕ) (s0 s : System) (k : String) (d : Duty) (t : Time)
    → Alone s0 s
    → IsSound s
    → s.loop.phase ≡ looking
    → length s.queue.delay_heap ≡ n
    → entry s.queue.delay_heap k ≡ some (d, t)
    → t ≢ 0
    → (s' : System) × Alone s0 s' × IsReady s'.queue d
unfolding length
fire_until zero s0 s k d t r i ph size e h =
    let (j, hj, at) = entry-slot s.queue.delay_heap k d t i.safe.heap_valid e in
    absurd (omega (arith, hj, size))
fire_until (suc n) s0 s k d t r i ph size e h =
    let (x, u, is) = find-IsNext s.queue k d t i.safe.heap_valid e in
    let (q', run, fired) =
      Returns-inv (timer_fires-IsFired s.queue x u i.safe.heap_valid is.held) in
    let (r', i') = one_round s0 s x u q' r i ph is (nonzero u t (is.first k d t e) h) run in
    elim (key_cases x.id k) [
      | inl same ↦ (
        _,
        r',
        (
          s.queue.ready,
          [],
          fired.queued
              ∙ ap (λ y. s.queue.ready ++ y ∷ [])
                  (one_entry (sym is.held ∙ ap (entry s.queue.delay_heap) same ∙ e)),
        ),
      )
      | inr (apart, other) ↦
          fire_until n s0 (after_round s q' x u) k d t r' i' refl (omega (arith, fired.size, size))
            (fired.entries k ∙ (rw other e)) h
    ]

-- From a sound moment at which the loop is about to look at the heap, and the heap holds a duty with
-- a time that is not the zero time: without another call on the queue, rounds of the loop and its
-- timer make the duty a ready one.
pub Alone-IsReady :
    (s : System) (k : String) (d : Duty) (t : Time)
    → IsSound s
    → s.loop.phase ≡ looking
    → entry s.queue.delay_heap k ≡ some (d, t)
    → t ≢ 0
    → (s' : System) × Alone s s' × IsReady s'.queue d
Alone-IsReady s k d t i ph e h =
    fire_until (length s.queue.delay_heap) s s k d t stays i ph refl e h
