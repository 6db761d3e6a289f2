-- ===== src/DutyQueue/Counts.antt =====
-- Stats, and what its numbers say of the queue. A duty whose id is in the delay heap already is
-- counted and not pushed, and a duty whose context is missing is taken and not counted, so that the
-- numbers may be too high.
use eth2_validator.Base.{
  ℕ, zero, suc, ◌+◌, ◌≤◌, ℤ, pos, negsuc, inl, inr, refl, subst, ◌≡◌, List, [], ◌∷◌, ◌++◌, String,
  some, arith, string_eq, nat_beq, Returns, returns, Returns-bind, Returns-if, Returns-at,
  Option-cases,
}
use eth2_validator.Array
use eth2_validator.GoMap
use eth2_validator.DelayHeap
use eth2_validator.DelayHeap.Nodes.{Time, len, empty}
use eth2_validator.DelayHeap.Valid.{IsValid, entry, entry-held, new-IsValid}
use eth2_validator.DelayHeap.Insert.{push_correct, push-already_exists}
use eth2_validator.DelayHeap.Remove.{remove_correct}
use eth2_validator.Duty.{Duty}
use eth2_validator.DutyQueue.{
  duty_wrapper, plus, less_one, Context, BlockedDuty, DutyQueue, new_eval_queue, wait_in_heap,
  block, enqueue_one, enqueue, dequeue, unblock, unblock_all, acknowledge, ack, enqueue_locked,
  timer_fires, stats_of,
}
use eth2_validator.DutyQueue.Loop.{
  System, start, Step, enqueues, dequeues, acks, fires, passes, Reach, here, next, looks, parks,
  rings,
}
use eth2_validator.DutyQueue.Timer.{IsHeld, IsSound}
use eth2_validator.DutyQueue.Steps.{Reach-IsSound}

-- The number is not below the length.
abbrev pub IsAtLeast : ℤ → ℕ → Type 0
IsAtLeast (pos x) n = n ≤ x
IsAtLeast (negsuc x) n = ⊥

pub record IsCounted (q : DutyQueue) : Type 0 where
  pub valid : IsValid q.delay_heap
  pub ready : IsAtLeast (stats_of q).total_ready (Array.length q.ready)
  pub waiting : IsAtLeast (stats_of q).total_waiting (DelayHeap.length q.delay_heap)

IsAtLeast-plus : (z : ℤ) (n m : ℕ) → IsAtLeast z n → m ≤ n + 1 → IsAtLeast (plus z 1) m
IsAtLeast-plus (pos x) n m h p = omega (arith, h, p)
IsAtLeast-plus (negsuc x) n m h p = absurd h

IsAtLeast-le : (z : ℤ) (n m : ℕ) → IsAtLeast z n → m ≤ n → IsAtLeast z m
IsAtLeast-le (pos x) n m h p = omega (arith, h, p)
IsAtLeast-le (negsuc x) n m h p = absurd h

IsAtLeast-less_one : (z : ℤ) (n m : ℕ) → IsAtLeast z n → m + 1 ≡ n → IsAtLeast (less_one z) m
IsAtLeast-less_one (pos zero) n m h p = absurd (omega (arith, h, p))
IsAtLeast-less_one (pos (suc x)) n m h p = omega (arith, h, p)
IsAtLeast-less_one (negsuc x) n m h p = absurd h

length-snoc : (l : List Duty) (d : Duty) → Array.length (l ++ d ∷ []) ≡ Array.length l + 1
length-snoc [] d = refl
length-snoc (x ∷ l) d = let e = length-snoc l d in omega (arith, e)

wait_in_heap-IsCounted :
    (q : DutyQueue) (d : Duty) → IsCounted q → Returns IsCounted (wait_in_heap q d)
unfolding wait_in_heap stats_of
wait_in_heap-IsCounted q d c = elim (Option-cases (GoMap.lookup d.id q.delay_heap.index)) [
  | inl absent ↦
      Returns-bind (push_correct q.delay_heap d d.active_time c.valid absent) λ (heap, _) r.
        returns (record {
          valid = r.valid;
          ready = c.ready;
          waiting = IsAtLeast-plus q.stats.total_waiting _ _ c.waiting (omega (arith, r.size));
        })
  | inr (p, held) ↦ rw (push-already_exists q.delay_heap d d.active_time p held) (
      returns (record {
        valid = c.valid;
        ready = c.ready;
        waiting = IsAtLeast-plus q.stats.total_waiting _ _ c.waiting (omega arith);
      }))
]

enqueue_one-IsCounted :
    (q : DutyQueue) (ctx : Context) (d : Duty)
    → IsCounted q
    → Returns IsCounted (enqueue_one q ctx d)
unfolding enqueue_one stats_of block
enqueue_one-IsCounted q ctx d c =
    Returns-bind
      (Returns-if {P = IsCounted} (nat_beq (Array.length d.blocked_by) 0)
        (λ free. wait_in_heap-IsCounted q d c)
        (λ waits. returns (record { valid = c.valid; ready = c.ready; waiting = c.waiting })))
      λ q' c'. returns (record { valid = c'.valid; ready = c'.ready; waiting = c'.waiting })

enqueue-IsCounted :
    (q : DutyQueue) (ctx : Context) (duties : List Duty)
    → IsCounted q
    → Returns IsCounted (enqueue q ctx duties)
unfolding enqueue
enqueue-IsCounted q ctx [] c = returns c
enqueue-IsCounted q ctx (d ∷ duties) c =
    Returns-bind (enqueue_one-IsCounted q ctx d c) λ q' c'. enqueue-IsCounted q' ctx duties c'

unblock-IsCounted :
    (q : DutyQueue) (duty_id id : String) (found : BlockedDuty)
    → IsCounted q
    → Returns IsCounted (unblock q duty_id id found)
unfolding unblock stats_of
unblock-IsCounted q duty_id id found c =
    Returns-if (nat_beq (Array.length (GoMap.delete duty_id found.blocked)) 0)
      (λ free.
        wait_in_heap-IsCounted _ found.duty
          (record { valid = c.valid; ready = c.ready; waiting = c.waiting }))
      (λ waits. returns (record { valid = c.valid; ready = c.ready; waiting = c.waiting }))

unblock_all-IsCounted :
    (q : DutyQueue) (duty_id : String) (ids : List String)
    → IsCounted q
    → Returns (λ (q', _). IsCounted q') (unblock_all q duty_id ids)
unfolding unblock_all
unblock_all-IsCounted q duty_id [] c = returns c
unblock_all-IsCounted q duty_id (id ∷ ids) c = elim (Option-cases (GoMap.lookup id q.blocked)) [
  | inl missing ↦ rw (missing, unblock_all) (returns c)
  | inr (found, e) ↦ elim (Option-cases (GoMap.lookup duty_id found.blocked)) [
    | inl missing ↦ rw (e, unblock_all, missing) (returns c)
    | inr (_, dep) ↦
        rw (e, unblock_all, dep)
          (Returns-bind (unblock-IsCounted q duty_id id found c)
            λ q' c'. unblock_all-IsCounted q' duty_id ids c')
  ]
]

ack-IsCounted :
    (q : DutyQueue) (duty_id : String)
    → IsCounted q
    → Returns (λ (q', _). IsCounted q') (ack q duty_id)
unfolding ack acknowledge stats_of
ack-IsCounted q duty_id c = elim (Option-cases (GoMap.lookup duty_id q.unack)) [
  | inl missing ↦ rw (missing, ack) (returns c)
  | inr (d, e) ↦
      rw (e, ack)
        (unblock_all-IsCounted _ duty_id _
          (record { valid = c.valid; ready = c.ready; waiting = c.waiting }))
]

dequeue-IsCounted :
    (q : DutyQueue) (l : List Duty) → q.ready ≡ l → IsCounted q → IsCounted (dequeue q).0
unfolding dequeue stats_of
dequeue-IsCounted q [] e c = rw (e, dequeue) c
dequeue-IsCounted q (d ∷ l) e c =
    let counted : IsAtLeast q.stats.total_ready (Array.length l + 1) =
      subst (λ r. IsAtLeast q.stats.total_ready r) (rw e (omega arith)) c.ready in
    elim (Option-cases (GoMap.lookup d.id q.ctx_map)) [
      | inl missing ↦
          rw (e, dequeue, missing)
            (record {
              valid = c.valid;
              ready = IsAtLeast-le q.stats.total_ready _ _ counted (omega arith);
              waiting = c.waiting;
            })
      | inr (ctx, found) ↦
          rw (e, dequeue, found)
            (record {
              valid = c.valid;
              ready = IsAtLeast-less_one q.stats.total_ready _ _ counted refl;
              waiting = c.waiting;
            })
    ]

timer_fires-IsCounted :
    (q : DutyQueue) (d : Duty) (t : Time)
    → IsCounted q
    → entry q.delay_heap d.id ≡ some (d, t)
    → Returns IsCounted (timer_fires q d)
unfolding timer_fires enqueue_locked stats_of
timer_fires-IsCounted q d t c held = elim (Option-cases (GoMap.lookup d.id q.delay_heap.index)) [
  | inl missing ↦ absurd (entry-held q.delay_heap d.id (d, t) held missing)
  | inr (p, found) ↦ Returns-bind (remove_correct q.delay_heap d p c.valid found) λ (heap, _) r.
      returns (record {
        valid = r.valid;
        ready =
            IsAtLeast-plus q.stats.total_ready _ _ c.ready (omega (arith, length-snoc q.ready d));
        waiting = IsAtLeast-less_one q.stats.total_waiting _ _ c.waiting r.size;
      })
]

Step-IsCounted : {s u : System} → Step s u → IsSound s → IsCounted s.queue → IsCounted u.queue
Step-IsCounted (enqueues {s} {q} ctx duties sent e) i c =
    Returns-at q (enqueue-IsCounted s.queue ctx duties c) e
Step-IsCounted (dequeues {s}) i c = dequeue-IsCounted s.queue s.queue.ready refl c
Step-IsCounted (acks {s} {q} {e} id sent run) i c =
    Returns-at (q, e) (ack-IsCounted s.queue id c) run
Step-IsCounted (looks e seen_is) i c = c
Step-IsCounted (parks o e) i c = c
Step-IsCounted (rings w e p) i c = c
Step-IsCounted (fires {s} {q} {t} d waits nonzero ticked run) i c =
    Returns-at q (timer_fires-IsCounted s.queue d t c (subst (IsHeld s.queue) waits i.held)) run
Step-IsCounted (passes now' p) i c = c

start-IsCounted : IsCounted start.queue
unfolding start new_eval_queue stats_of DelayHeap.new DelayHeap.length len empty
start-IsCounted =
    let (valid, none_held) = new-IsValid in
    record { valid = valid; ready = omega arith; waiting = omega arith }

-- Whatever calls of Enqueue, Dequeue and Ack and rounds of the timer loop came before, in any
-- order: the numbers that Stats reports of the ready and of the waiting duties are not negative, and
-- not below the numbers of duties that are ready and that are in the delay heap.
pub Reach-IsCounted : (s : System) → Reach start s → IsCounted s.queue
Reach-IsCounted s here = start-IsCounted
Reach-IsCounted s (next r st) = Step-IsCounted st (Reach-IsSound r) (Reach-IsCounted _ r)
