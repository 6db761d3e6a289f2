-- ===== src/DutyQueue/Blocking.antt =====
-- What Ack does for the duties that wait for the acknowledged one.
use eth2_validator.Base.{
  ◌≡◌, ◌≢◌, inl, inr, sym, refl, ap, ◌∙◌, List, [], ◌∷◌, String, none, some, arith, ok, ◌>>=◌,
  false, Returns, returns, Returns-bind, Option-cases, string_eq, ◌==◌, beq_self, beq_ne,
}
use eth2_validator.GoMap
use eth2_validator.GoMap.{Map}
use eth2_validator.DelayHeap.Valid.{IsValid, entry}
use eth2_validator.DelayHeap.Insert.{push_correct, push-already_exists}
use eth2_validator.Duty.{Duty}
use eth2_validator.DutyQueue.{
  less_one, duty_wrapper, BlockedDuty, DutyQueue, blockers, register, register_all, wait_in_heap,
  block, unblock, unblock_all, acknowledge, ack,
}

-- Registering a duty under a blocker drops what was registered under it before.
pub register-forgets :
    (id dep : String) (m : Map String (List String))
    → GoMap.lookup dep (register id dep m) ≡ some (id ∷ [])
unfolding register
register-forgets id dep m = elim (Option-cases (GoMap.lookup dep m)) [
  | inl new ↦ rw (new, GoMap.lookup-insert, beq_self dep, new)
  | inr (l, old) ↦ rw (old, GoMap.lookup-insert, beq_self dep, GoMap.lookup-insert, beq_self dep)
]

sole_blocker : (dep : String) → blockers (dep ∷ []) [] ≡ (dep, tt) ∷ []
unfolding blockers GoMap.insert
sole_blocker dep = refl

delete_sole : (dep : String) → GoMap.delete {V = Unit {0}} dep ((dep, tt) ∷ []) ≡ []
unfolding GoMap.delete
delete_sole dep = rw (beq_self dep)

lookup_sole : (dep : String) → GoMap.lookup {V = Unit {0}} dep ((dep, tt) ∷ []) ≡ some tt
unfolding GoMap.lookup
lookup_sole dep = rw (beq_self dep)

-- The queue after Ack of `dep` took the duty under `id` from the blocked ones, before the push.
freed : DutyQueue → String → String → DutyQueue
freed q dep id =
    let q' = acknowledge q dep in
    record q' {
      blocked = GoMap.delete id q'.blocked;
      stats = record (q'.stats) { total_blocked = less_one q'.stats.total_blocked };
    }

-- Ack of a duty under which one duty is registered, which waits for nothing else.
ack-sole :
    (q : DutyQueue) (x b : Duty) (dep id : String)
    → GoMap.lookup dep q.unack ≡ some x
    → GoMap.lookup dep q.reverse_blocked_map ≡ some (id ∷ [])
    → GoMap.lookup id q.blocked ≡ some (record { duty = b; blocked = (dep, tt) ∷ [] })
    → ack q dep ≡ (wait_in_heap (freed q dep id) b >>= λ q'. ok (q', none))
unfolding ack freed acknowledge unblock_all unblock
ack-sole q x b dep id e f g = rw (e, ack, f, unblock_all, g, lookup_sole dep, delete_sole dep)

module _ (q : DutyQueue) (x b : Duty) (dep : String) (sole : b.blocked_by ≡ dep ∷ [])
    (unacked : GoMap.lookup dep q.unack ≡ some x) (valid : IsValid q.delay_heap) where
  block-reverse : GoMap.lookup dep (block q b).reverse_blocked_map ≡ some (b.id ∷ [])
  unfolding block register_all
  block-reverse =
      ap (λ l. GoMap.lookup dep (register_all b.id l q.reverse_blocked_map)) sole
      ∙ register-forgets b.id dep q.reverse_blocked_map

  block-blocked :
      GoMap.lookup b.id (block q b).blocked ≡ some (record { duty = b; blocked = (dep, tt) ∷ [] })
  unfolding block
  block-blocked =
      GoMap.lookup-insert b.id b.id _ q.blocked
      ∙ rw (beq_self b.id) (
          ap (λ m. some (record { duty = b; blocked = m }))
            (ap (λ l. blockers l []) sole ∙ sole_blocker dep))

  ack-block :
      ack (block q b) dep ≡ (wait_in_heap (freed (block q b) dep b.id) b >>= λ q'. ok (q', none))
  ack-block =
      ack-sole (block q b) x b dep b.id (unfold block in unacked) block-reverse block-blocked

  wait_in_heap-blocked :
      (p : DutyQueue)
      → IsValid p.delay_heap
      → Returns
          (λ p'.
            (p'.blocked ≡ p.blocked)
            × ((k : String)
                → GoMap.lookup b.id p.delay_heap.index ≡ none
                → entry p'.delay_heap b.id ≡ some (b, b.active_time)))
          (wait_in_heap p b)
  unfolding wait_in_heap
  wait_in_heap-blocked p v = elim (Option-cases (GoMap.lookup b.id p.delay_heap.index)) [
    | inr (n, held) ↦
        rw (push-already_exists p.delay_heap b b.active_time n held)
          (returns (refl, λ k e. absurd (ground (arith, held, e))))
    | inl free ↦
        Returns-bind (push_correct p.delay_heap b b.active_time v free)
          λ (heap, _) r. returns (refl, λ k e. r.entries b.id ∙ rw (beq_self b.id) refl)
  ]

  -- A duty `b` that is blocked by `dep` alone, and was the last to be blocked, is freed by the Ack of
  -- `dep`: no error is returned, it is blocked no more, and if its id was not in the heap it waits
  -- there for its active time.
  pub ack_frees :
      GoMap.lookup b.id q.delay_heap.index ≡ none
      → Returns
          (λ (q', e).
            (e ≡ none)
            × (GoMap.lookup b.id q'.blocked ≡ none)
            × (entry q'.delay_heap b.id ≡ some (b, b.active_time)))
          (ack (block q b) dep)
  ack_frees free = rw ack-block (
      Returns-bind
        (wait_in_heap-blocked (freed (block q b) dep b.id)
          (unfold freed acknowledge block in valid))
        λ q' (kept, held). returns (
          refl,
          ap (GoMap.lookup b.id) kept ∙ gone,
          held b.id (unfold freed acknowledge block in free),
        ))
    where
      gone : GoMap.lookup b.id (freed (block q b) dep b.id).blocked ≡ none
      gone = unfold freed in (GoMap.lookup-delete b.id b.id _ ∙ rw (beq_self b.id) refl)

  -- Whatever was blocked by `dep` before `b` was stays blocked when `dep` is acknowledged: every
  -- other blocked duty is blocked as before.
  pub ack_forgets :
      (a : String) (w : BlockedDuty)
      → a ≢ b.id
      → GoMap.lookup a q.blocked ≡ some w
      → Returns (λ (q', _). GoMap.lookup a q'.blocked ≡ some w) (ack (block q b) dep)
  ack_forgets a w ne e = rw ack-block (
      Returns-bind
        (wait_in_heap-blocked (freed (block q b) dep b.id)
          (unfold freed acknowledge block in valid))
        λ q' (kept, _). returns (ap (GoMap.lookup a) kept ∙ still))
    where
      other : (b.id == a) ≡ false
      other = beq_ne b.id a (λ s. ne (sym s))

      still : GoMap.lookup a (freed (block q b) dep b.id).blocked ≡ some w
      still =
          unfold freed acknowledge block in
          (GoMap.lookup-delete b.id a _ ∙ rw (other, GoMap.lookup-insert, other) e)
