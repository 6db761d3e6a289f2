-- ===== src/DutyQueue/Enqueue.antt =====
-- Enqueue keeps the queue safe.
use eth2_validator.Base.{
  ◌≡◌, ◌⊎◌, inl, inr, true, List, [], ◌∷◌, String, some, arith, string_eq, nat_beq, ◌==◌, Returns,
  returns, Returns-bind, Returns-map, Returns-if, beq_self, Bool-cases,
}
use eth2_validator.Array.{length}
use eth2_validator.GoMap
use eth2_validator.GoMap.{Map}
use eth2_validator.Duty.{Duty}
use eth2_validator.DutyQueue.{
  duty_wrapper, Context, DutyQueue, blockers, block, enqueue_one, enqueue,
}
use eth2_validator.DutyQueue.Safety.{
  Clock, In, IsSafe, Extends, wait_in_heap-IsSafe, insert-IsWaiting,
}

module _ (acked : List String) (now : Clock) where
  blockers-In :
      (deps : List String) (m : Map String (Unit {0})) (dep : String)
      → In dep deps ⊎ (GoMap.lookup dep m ≡ some tt)
      → GoMap.lookup dep (blockers deps m) ≡ some tt
  unfolding blockers
  blockers-In [] m dep (inl i) = absurd i
  blockers-In [] m dep (inr e) = e
  blockers-In (j ∷ deps) m dep (inl (inr i)) = blockers-In deps (GoMap.insert j tt m) dep (inl i)
  blockers-In (j ∷ deps) m dep (inl (inl e)) =
      blockers-In deps (GoMap.insert j tt m) dep (inr (rw (GoMap.lookup-insert, e, beq_self j)))
  blockers-In (j ∷ deps) m dep (inr e) = blockers-In deps (GoMap.insert j tt m) dep (
      inr
        (rw (GoMap.lookup-insert) (elim (Bool-cases (j == dep)) [ inl s ↦ rw s | inr o ↦ rw o e ])))

  block-IsSafe : (q : DutyQueue) (d : Duty) → IsSafe acked now q → IsSafe acked now (block q d)
  unfolding block
  block-IsSafe q d s = record {
    heap_valid = s.heap_valid;
    heap_entries = s.heap_entries;
    ready_due = s.ready_due;
    blocked_waiting =
        insert-IsWaiting acked now d.id (record { duty = d; blocked = blockers d.blocked_by [] })
          q.blocked (λ dep i. inl (blockers-In d.blocked_by [] dep (inl i))) s.blocked_waiting;
  }

  enqueue_one-IsSafe :
      (q : DutyQueue) (ctx : Context) (d : Duty)
      → IsSafe acked now q
      → Returns (λ q'. IsSafe acked now q' × Extends q q') (enqueue_one q ctx d)
  unfolding enqueue_one
  enqueue_one-IsSafe q ctx d s =
      Returns-bind
        (Returns-if {P = λ q'. IsSafe acked now q' × Extends q q'} (nat_beq (length d.blocked_by) 0)
          (λ free.
            Returns-map (wait_in_heap-IsSafe acked now q d s (no_blockers d.blocked_by free))
              (λ q' r. (r.0, r.1)))
          (λ waiting. returns (block-IsSafe q d s, block_extends)))
        λ q' (s', x). returns (
          record {
            heap_valid = s'.heap_valid;
            heap_entries = s'.heap_entries;
            ready_due = s'.ready_due;
            blocked_waiting = s'.blocked_waiting;
          },
          x,
        )
    where
      no_blockers :
          (l : List String) → nat_beq (length l) 0 ≡ true → (dep : String) → In dep l → In dep acked
      no_blockers [] e dep i = absurd i
      no_blockers (x ∷ l) e dep i = absurd (ground arith)

      block_extends : Extends q (block q d)
      block_extends = unfold block in λ k e h. h

  -- Enqueue returns, with the queue safe, and drops no entry of the heap.
  pub enqueue-IsSafe :
      (q : DutyQueue) (ctx : Context) (duties : List Duty)
      → IsSafe acked now q
      → Returns (λ q'. IsSafe acked now q' × Extends q q') (enqueue q ctx duties)
  unfolding enqueue
  enqueue-IsSafe q ctx [] s = returns (s, λ k e h. h)
  enqueue-IsSafe q ctx (d ∷ duties) s = Returns-bind (enqueue_one-IsSafe q ctx d s) λ q' (s', x).
      Returns-map (enqueue-IsSafe q' ctx duties s')
        (λ q'' (s'', x'). (s'', λ k e h. x' k e (x k e h)))
