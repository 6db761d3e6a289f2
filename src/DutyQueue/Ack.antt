-- ===== src/DutyQueue/Ack.antt =====
-- Ack keeps the queue safe.
use eth2_validator.Base.{
  ◌≡◌, ◌≢◌, inl, inr, refl, sym, ap, ◌∙◌, Go, ok, bind-ok, subst, true, List, [], ◌∷◌, String,
  Option, none, some, arith, string_eq, nat_beq, ◌==◌, Returns, returns, Returns-bind, Returns-map,
  Returns-if, Option-cases, key_cases, beq_self, Bool-cases,
}
use eth2_validator.Array.{length}
use eth2_validator.GoMap
use eth2_validator.DelayHeap
use eth2_validator.GoMap.{Map}
use eth2_validator.Duty.{Duty}
use eth2_validator.DutyQueue.{
  duty_wrapper, BlockedDuty, DutyQueue, AckError, wait_in_heap, or_empty, unblock, unblock_all,
  acknowledge, ack,
}
use eth2_validator.DutyQueue.Safety.{
  Clock, same_clock, In, IsCleared, IsWaiting, IsSafe, Extends, IsSafe-mono, wait_in_heap-IsSafe,
  insert-IsWaiting,
}

module _ (acked : List String) (now : Clock) where
  -- What the loop of Ack keeps, for a duty that is acknowledged by now.
  module _ (duty_id : String) (done : In duty_id acked) where
    left-IsWaiting :
        (b : BlockedDuty)
        → IsWaiting acked b
        → IsWaiting acked (record b { blocked = GoMap.delete duty_id b.blocked })
    left-IsWaiting b w dep i = elim (key_cases duty_id dep) [
      | inl same ↦ inr (subst (λ k. In k acked) same done)
      | inr (_, other) ↦ elim (w dep i) [
        | inl e ↦ inl (rw (GoMap.lookup-delete, other) e)
        | inr a ↦ inr a
      ]
    ]

    left-IsCleared :
        (b : BlockedDuty)
        → IsWaiting acked b
        → nat_beq (length (GoMap.delete duty_id b.blocked)) 0 ≡ true
        → IsCleared acked b.duty
    left-IsCleared b w free dep i = elim (left-IsWaiting b w dep i) [
      | inl e ↦ absurd (none_left (GoMap.delete duty_id b.blocked) free e)
      | inr a ↦ a
    ]
      where
        none_left :
            (m : Map String (Unit {0})) → nat_beq (length m) 0 ≡ true → GoMap.lookup dep m ≢ some tt
        none_left [] f e = unfold GoMap.lookup in cc e
        none_left (x ∷ m) f e = ground arith

    delete-IsWaiting :
        (id : String) (m : Map String BlockedDuty)
        → ((k : String) (b : BlockedDuty) → GoMap.lookup k m ≡ some b → IsWaiting acked b)
        → (k : String) (b : BlockedDuty) → GoMap.lookup k (GoMap.delete id m) ≡ some b
        → IsWaiting acked b
    delete-IsWaiting id m h k b e = elim (Bool-cases (id == k)) [
      | inl same ↦ absurd (cc (rw (GoMap.lookup-delete, same) at e))
      | inr other ↦ h k b (rw (GoMap.lookup-delete, other) at e)
    ]

    unblock-IsSafe :
        (q : DutyQueue) (id : String) (found : BlockedDuty)
        → IsSafe acked now q
        → GoMap.lookup id q.blocked ≡ some found
        → Returns (λ q'. IsSafe acked now q' × Extends q q') (unblock q duty_id id found)
    unfolding unblock
    unblock-IsSafe q id found s e =
        let w = s.blocked_waiting id found e in
        Returns-if (nat_beq (length (GoMap.delete duty_id found.blocked)) 0)
          (λ free.
            Returns-map
              (wait_in_heap-IsSafe acked now _ found.duty
                (record {
                  heap_valid = s.heap_valid;
                  heap_entries = s.heap_entries;
                  ready_due = s.ready_due;
                  blocked_waiting = delete-IsWaiting id q.blocked s.blocked_waiting;
                })
                (left-IsCleared found w free))
              (λ q' r. (r.0, r.1)))
          (λ waiting. returns (
            record {
              heap_valid = s.heap_valid;
              heap_entries = s.heap_entries;
              ready_due = s.ready_due;
              blocked_waiting =
                  insert-IsWaiting acked now id _ q.blocked (left-IsWaiting found w)
                    s.blocked_waiting;
            },
            λ k e h. h,
          ))

    unblock_all-IsSafe :
        (q : DutyQueue) (ids : List String)
        → IsSafe acked now q
        → Returns (λ (q', _). IsSafe acked now q' × Extends q q') (unblock_all q duty_id ids)
    unfolding unblock_all
    unblock_all-IsSafe q [] s = returns (s, λ k e h. h)
    unblock_all-IsSafe q (id ∷ ids) s = elim (Option-cases (GoMap.lookup id q.blocked)) [
      | inl missing ↦ rw (missing, unblock_all) (returns (s, λ k e h. h))
      | inr (found, e) ↦ elim (Option-cases (GoMap.lookup duty_id found.blocked)) [
        | inl missing ↦ rw (e, unblock_all, missing) (returns (s, λ k e h. h))
        | inr (_, dep) ↦
            rw (e, unblock_all, dep)
              (Returns-bind (unblock-IsSafe q id found s e) λ q' (s', x).
                Returns-map (unblock_all-IsSafe q' ids s')
                  (λ r (s'', x'). (s'', λ k e h. x' k e (x k e h))))
      ]
    ]

ok_of : {x y : DutyQueue} → ◌≡◌ {A = Go DutyQueue} (ok x) (ok y) → x ≡ y
ok_of h = cc h

queue_of :
    {x y : DutyQueue} {a b : Option AckError}
    → ◌≡◌ {A = Go (DutyQueue × Option AckError)} (ok (x, a)) (ok (y, b))
    → x ≡ y
queue_of h = cc h

wait_in_heap-unack : (q q' : DutyQueue) (d : Duty) → wait_in_heap q d ≡ ok q' → q'.unack ≡ q.unack
unfolding wait_in_heap
wait_in_heap-unack q q' d e =
    let (r, f, g) = bind-ok (DelayHeap.push q.delay_heap d d.active_time) _ q' e in
    sym (ap (λ x. x.unack) (ok_of g))

unblock-unack :
    (q q' : DutyQueue) (duty_id id : String) (found : BlockedDuty)
    → unblock q duty_id id found ≡ ok q'
    → q'.unack ≡ q.unack
unfolding unblock
unblock-unack q q' duty_id id found e =
    elim (Bool-cases (nat_beq (length (GoMap.delete duty_id found.blocked)) 0)) [
      | inl free ↦ wait_in_heap-unack _ q' found.duty (rw free at e)
      | inr waiting ↦ let same = rw waiting at e in sym (ap (λ x. x.unack) (ok_of same))
    ]

unblock_all-unack :
    (q q' : DutyQueue) (duty_id : String) (ids : List String) (r : Option AckError)
    → unblock_all q duty_id ids ≡ ok (q', r)
    → q'.unack ≡ q.unack
unfolding unblock_all
unblock_all-unack q q' duty_id [] r e = sym (ap (λ x. x.unack) (queue_of e))
unblock_all-unack q q' duty_id (id ∷ ids) r e = elim (Option-cases (GoMap.lookup id q.blocked)) [
  | inl missing ↦ sym (ap (λ x. x.unack) (queue_of (rw (missing, unblock_all) at e)))
  | inr (found, at) ↦ elim (Option-cases (GoMap.lookup duty_id found.blocked)) [
    | inl missing ↦ sym (ap (λ x. x.unack) (queue_of (rw (at, unblock_all, missing) at e)))
    | inr (_, dep) ↦
        let (q1, f, g) =
          bind-ok (unblock q duty_id id found) _ (q', r) (rw (at, unblock_all, dep) at e) in
        unblock_all-unack q1 q' duty_id ids r g ∙ unblock-unack q q1 duty_id id found f
  ]
]

-- After Ack a duty is not one of those it waits for.
pub ack-unack :
    (q q' : DutyQueue) (duty_id : String) (r : Option AckError)
    → ack q duty_id ≡ ok (q', r)
    → GoMap.lookup duty_id q'.unack ≡ none
unfolding ack acknowledge
ack-unack q q' duty_id r e = elim (Option-cases (GoMap.lookup duty_id q.unack)) [
  | inl missing ↦
      subst (λ x. GoMap.lookup duty_id x.unack ≡ none) (queue_of (rw (missing, ack) at e)) missing
  | inr (d, found) ↦
      rw (unblock_all-unack (acknowledge q duty_id) q' duty_id _ r (rw (found, ack) at e))
        (unfold acknowledge in deleted)
]
  where
    deleted : GoMap.lookup duty_id (GoMap.delete duty_id q.unack) ≡ none
    deleted = rw (GoMap.lookup-delete, beq_self duty_id) refl

-- The duties acknowledged after a call of Ack, by what it finds among those it waits for.
pub acked_by : String → List String → Option Duty → List String
acked_by duty_id acked none = acked
acked_by duty_id acked (some _) = duty_id ∷ acked

-- Ack returns on every branch, its errors included, with the queue safe.
pub ack-IsSafe :
    (acked : List String) (now : Clock) (q : DutyQueue) (duty_id : String)
    → IsSafe acked now q
    → Returns
        (λ (q', _).
          IsSafe (acked_by duty_id acked (GoMap.lookup duty_id q.unack)) now q' × Extends q q')
        (ack q duty_id)
unfolding ack acked_by acknowledge
ack-IsSafe acked now q duty_id s = elim (Option-cases (GoMap.lookup duty_id q.unack)) [
  | inl missing ↦ rw (missing, ack, acked_by) (returns (s, λ k e h. h))
  | inr (d, e) ↦
      rw (e, ack, acked_by)
        (unblock_all-IsSafe (duty_id ∷ acked) now duty_id (inl refl) (acknowledge q duty_id)
          (or_empty (GoMap.lookup duty_id q.reverse_blocked_map)) (acknowledge_safe))
]
  where
    acknowledge_safe : IsSafe (duty_id ∷ acked) now (acknowledge q duty_id)
    acknowledge_safe =
        let m =
          IsSafe-mono {acked' = duty_id ∷ acked} {now' = now} (λ dep i. inr i) (same_clock now) s in
        unfold acknowledge in
        record {
          heap_valid = m.heap_valid;
          heap_entries = m.heap_entries;
          ready_due = m.ready_due;
          blocked_waiting = m.blocked_waiting;
        }
