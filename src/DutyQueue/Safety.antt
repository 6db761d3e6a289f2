-- ===== src/DutyQueue/Safety.antt =====
-- What holds of the queue between two calls: no duty is ready before all that blocks it is
-- acknowledged, nor, but for a tick that was left in the timer's channel, before it is due.
use eth2_validator.Base.{
  ◌≤◌, ◌≡◌, ◌⊎◌, inl, inr, refl, Bool, true, subst, ◌∙◌, List, [], ◌∷◌, ◌++◌, String, Option, none,
  some, arith, if◌then◌else◌, string_eq, ◌==◌, Returns, returns, Returns-bind, Option-cases,
  key_cases, Bool-cases,
}
use eth2_validator.GoMap
use eth2_validator.GoMap.{Map}
use eth2_validator.DelayHeap.Nodes.{Time}
use eth2_validator.DelayHeap.Valid.{IsValid, entry, entry-held}
use eth2_validator.DelayHeap.Insert.{push_correct, push-already_exists}
use eth2_validator.Duty.{Duty}
use eth2_validator.DutyQueue.{duty_wrapper, BlockedDuty, DutyQueue, wait_in_heap}

-- The id stands in the list.
abbrev pub In : String → List String → Type 0
In k [] = ⊥
In k (j ∷ l) = (k ≡ j) ⊎ In k l

pub In-append : (k : String) (l m : List String) → In k l ⊎ In k m → In k (l ++ m)
In-append k [] m (inr i) = i
In-append k [] m (inl i) = absurd i
In-append k (j ∷ l) m (inl (inl e)) = inl e
In-append k (j ∷ l) m (inl (inr i)) = inr (In-append k l m (inl i))
In-append k (j ∷ l) m (inr i) = inr (In-append k l m (inr i))

-- All that blocks the duty is acknowledged.
abbrev pub IsCleared : List String → Duty → Type 0
IsCleared acked d = (dep : String) → In dep d.blocked_by → In dep acked

-- The time, and whether the timer was ever reset with a tick in its channel.
pub record Clock : Type 0 where
  pub early : Bool
  pub now : Time

-- The time has come, unless a tick that was left may have come first.
abbrev pub IsDue : Clock → Time → Type 0
IsDue c t = (c.early ≡ true) ⊎ (t ≤ c.now)

abbrev pub IsLater : Clock → Clock → Type 0
IsLater c c' = (c.early ≡ true → c'.early ≡ true) × (c.now ≤ c'.now)

pub same_clock : (c : Clock) → IsLater c c
same_clock c = (λ h. h, omega arith)

-- The ready duties are due and cleared.
abbrev pub AreReady : List String → Clock → List Duty → Type 0
AreReady acked c [] = Unit {0}
AreReady acked c (d ∷ l) = (IsCleared acked d × IsDue c d.active_time) × AreReady acked c l

-- A blocked duty waits for each of its blockers that is not acknowledged.
abbrev pub IsWaiting : List String → BlockedDuty → Type 0
IsWaiting acked b =
    (dep : String)
    → In dep b.duty.blocked_by
    → (GoMap.lookup dep b.blocked ≡ some tt) ⊎ In dep acked

-- A duty in the heap is cleared, and waits for the time when it is due.
abbrev pub IsEntry : List String → Option (Duty × Time) → Type 0
IsEntry acked none = Unit {0}
IsEntry acked (some (d, t)) = IsCleared acked d × (t ≡ d.active_time)

-- What holds of the queue at a time, after the duties `acked` were acknowledged.
pub record IsSafe (acked : List String) (now : Clock) (q : DutyQueue) : Type 0 where
  pub heap_valid : IsValid q.delay_heap
  pub heap_entries : (k : String) → IsEntry acked (entry q.delay_heap k)
  pub ready_due : AreReady acked now q.ready
  pub blocked_waiting :
      (k : String) (b : BlockedDuty) → GoMap.lookup k q.blocked ≡ some b → IsWaiting acked b

-- The entries of the heap of `q` are in that of `q'` too.
abbrev pub Extends : DutyQueue → DutyQueue → Type 0
Extends q q' =
    (k : String) (e : Duty × Time) → entry q.delay_heap k ≡ some e → entry q'.delay_heap k ≡ some e

IsDue-mono : (c c' : Clock) (t : Time) → IsLater c c' → IsDue c t → IsDue c' t
IsDue-mono c c' t (e, p) (inl h) = inl (e h)
IsDue-mono c c' t (e, p) (inr h) = inr (omega arith)

pub AreReady-mono :
    (acked acked' : List String) (now now' : Clock) (l : List Duty)
    → ((dep : String) → In dep acked → In dep acked')
    → IsLater now now'
    → AreReady acked now l
    → AreReady acked' now' l
AreReady-mono acked acked' now now' [] h p r = tt
AreReady-mono acked acked' now now' (d ∷ l) h p ((c, t), r) = (
  (λ dep i. h dep (c dep i), IsDue-mono now now' d.active_time p t),
  AreReady-mono acked acked' now now' l h p r,
)

pub AreReady-append :
    (acked : List String) (now : Clock) (l : List Duty) (d : Duty)
    → AreReady acked now l
    → IsCleared acked d
    → IsDue now d.active_time
    → AreReady acked now (l ++ d ∷ [])
AreReady-append acked now [] d r c t = ((c, t), tt)
AreReady-append acked now (x ∷ l) d (e, r) c t = (e, AreReady-append acked now l d r c t)

IsEntry-mono :
    (acked acked' : List String) (o : Option (Duty × Time))
    → ((dep : String) → In dep acked → In dep acked')
    → IsEntry acked o
    → IsEntry acked' o
IsEntry-mono acked acked' none h e = tt
IsEntry-mono acked acked' (some (d, t)) h (c, at) = (λ dep i. h dep (c dep i), at)

-- More acknowledgements and a later time keep the queue safe.
pub IsSafe-mono :
    {acked acked' : List String} {now now' : Clock} {q : DutyQueue}
    → ((dep : String) → In dep acked → In dep acked')
    → IsLater now now'
    → IsSafe acked now q
    → IsSafe acked' now' q
IsSafe-mono {acked} {acked'} {now} {now'} {q} h p s = record {
  heap_valid = s.heap_valid;
  heap_entries = λ k. IsEntry-mono acked acked' (entry q.delay_heap k) h (s.heap_entries k);
  ready_due = AreReady-mono acked acked' now now' q.ready h p s.ready_due;
  blocked_waiting =
      λ k b e dep i. elim (s.blocked_waiting k b e dep i) [ inl w ↦ inl w | inr a ↦ inr (h dep a) ];
}

module _ (acked : List String) (now : Clock) where
  -- The push into the heap, of a duty that is cleared.
  pub wait_in_heap-IsSafe :
      (q : DutyQueue) (d : Duty)
      → IsSafe acked now q
      → IsCleared acked d
      → Returns
          (λ q'. IsSafe acked now q' × Extends q q' × (q'.blocked ≡ q.blocked))
          (wait_in_heap q d)
  unfolding wait_in_heap
  wait_in_heap-IsSafe q d s c = elim (Option-cases (GoMap.lookup d.id q.delay_heap.index)) [
    | inr (p, held) ↦ rw (push-already_exists q.delay_heap d d.active_time p held) (
        returns (
          record {
            heap_valid = s.heap_valid;
            heap_entries = s.heap_entries;
            ready_due = s.ready_due;
            blocked_waiting = s.blocked_waiting;
          },
          (λ k e h. h),
          refl,
        ))
    | inl free ↦
        Returns-bind (push_correct q.delay_heap d d.active_time s.heap_valid free) λ (heap, _) r.
          returns (
            record {
              heap_valid = r.valid;
              heap_entries = λ k. rw (r.entries k) (new_entry k);
              ready_due = s.ready_due;
              blocked_waiting = s.blocked_waiting;
            },
            (λ k e h. r.entries k ∙ old_entry free k e h),
            refl,
          )
  ]
    where
      new_entry :
          (k : String)
          → IsEntry acked (if d.id == k then some (d, d.active_time) else entry q.delay_heap k)
      new_entry k = elim (Bool-cases (d.id == k)) [
        | inl same ↦ rw same (c, refl)
        | inr other ↦ rw other (s.heap_entries k)
      ]

      old_entry :
          GoMap.lookup d.id q.delay_heap.index ≡ none
          → (k : String) (e : Duty × Time) → entry q.delay_heap k ≡ some e
          → (if d.id == k then some (d, d.active_time) else entry q.delay_heap k) ≡ some e
      old_entry free k e h = elim (key_cases d.id k) [
        | inl same ↦ absurd (entry-held q.delay_heap k e h (rw (← same) free))
        | inr (_, other) ↦ rw other h
      ]

  pub insert-IsWaiting :
      (id : String) (c : BlockedDuty) (m : Map String BlockedDuty)
      → IsWaiting acked c
      → ((k : String) (b : BlockedDuty) → GoMap.lookup k m ≡ some b → IsWaiting acked b)
      → (k : String) (b : BlockedDuty) → GoMap.lookup k (GoMap.insert id c m) ≡ some b
      → IsWaiting acked b
  insert-IsWaiting id c m w h k b e = elim (Bool-cases (id == k)) [
    | inl same ↦
        subst (IsWaiting acked) {x = c} {y = b} (cc (rw (GoMap.lookup-insert, same) at e)) w
    | inr other ↦ h k b (rw (GoMap.lookup-insert, other) at e)
  ]
