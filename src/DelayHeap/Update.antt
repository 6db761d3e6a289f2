-- ===== src/DelayHeap/Update.antt =====
-- Update.
use eth2_validator.Base.{
  ℕ, ◌<◌, ◌≡◌, ◌≢◌, inl, inr, refl, sym, ap, subst, ◌∙◌, false, String, Option, none, some, arith,
  nat_beq, nat_beq_iff, Returns, returns, Returns-bind, if◌then◌else◌, string_eq, ◌==◌, key_cases,
  beq_self,
}
use native.Mathlib.Decide.{ℕ_discrete}
use eth2_validator.GoMap
use eth2_validator.GoMap.{Map}
use eth2_validator.DelayHeap.{DelayHeap, HeapError, update, fix_at, length}
use eth2_validator.DelayHeap.Nodes.{
  Time, HeapNode, DelayHeapNode, DelayedHeapImp, len, less_time, write,
}
use eth2_validator.DelayHeap.Sift.{parent, heap_fix}
use eth2_validator.DelayHeap.Moves.{ptr, wait, not-less_time_trans}
use eth2_validator.DelayHeap.Order.{IsBridged, IsOrdered}
use eth2_validator.DelayHeap.Loops.{fix_restores}
use eth2_validator.DelayHeap.Valid.{
  IsLinked, IsValid, entry_at, entry, IsLinked-SameNodes, entry_at-SameNodes,
}

module _ {ℓ} {A : Type ℓ} ⦃node : HeapNode A⦄ (d : DelayHeap A) (x : A) (t : Time) where
  -- What an Update under an id that the heap holds leaves.
  pub record Updated (r : DelayHeap A × Option HeapError) : Type ℓ where
    pub valid : IsValid r.0
    pub no_error : r.1 ≡ none
    pub entries : (k : String) → entry r.0 k ≡ (if node.id x == k then some (x, t) else entry d k)
    pub size : length r.0 ≡ length d

  module _ (v : IsValid d) (i : ℕ) (hi : i < len d.heap)
      (found : GoMap.lookup (node.id x) d.index ≡ some (ptr d.heap i)) where
    -- The memory after the two writes through the pointer.
    changed : DelayedHeapImp A
    changed =
        let p = ptr d.heap i in
        write d.heap p (record (d.heap.store p) { node = x; wait_until = t })

    store-changed_old : (q : ℕ) → q ≢ ptr d.heap i → changed.store q ≡ d.heap.store q
    unfolding changed write
    store-changed_old q h = let e : nat_beq (ptr d.heap i) q ≡ false = ground arith in rw e

    store-changed_new :
        changed.store (ptr d.heap i)
        ≡ record (d.heap.store (ptr d.heap i)) { node = x; wait_until = t }
    unfolding changed write
    store-changed_new = rw ((nat_beq_iff (ptr d.heap i) (ptr d.heap i)).1 refl)

    len-changed : len changed ≡ len d.heap
    unfolding changed write len
    len-changed = refl

    ptr-changed : (c : ℕ) → ptr changed c ≡ ptr d.heap c
    unfolding changed write
    ptr-changed c = refl

    index-changed : (q : ℕ) → (changed.store q).index ≡ (d.heap.store q).index
    unfolding changed write
    index-changed q = ground arith

    ptr-ne : (c : ℕ) → c < len d.heap → c ≢ i → ptr d.heap c ≢ ptr d.heap i
    ptr-ne c hc ne e = ground (arith, v.tracked c, v.tracked i)

    wait-changed : (c : ℕ) → c < len d.heap → c ≢ i → wait changed c ≡ wait d.heap c
    wait-changed c hc ne =
        ap (λ q. (changed.store q).wait_until) (ptr-changed c)
        ∙ ap (λ (n : DelayHeapNode A). n.wait_until)
            (store-changed_old (ptr d.heap c) (ptr-ne c hc ne))

    id-changed : (q : ℕ) → node.id (changed.store q).node ≡ node.id (d.heap.store q).node
    id-changed q = elim (ℕ_discrete q (ptr d.heap i)) [
      | yes e ↦ rw (e, store-changed_new) (sym (v.linked.named (node.id x) (ptr d.heap i) found))
      | no e ↦ ap (λ (n : DelayHeapNode A). node.id n.node) (store-changed_old q e)
    ]

    changed-IsLinked : IsLinked d.index changed
    unfolding changed write len
    changed-IsLinked = record {
      allocated = v.linked.allocated;
      indexed = λ q k. rw (id-changed q) (v.linked.indexed q k);
      held = v.linked.held;
      named = λ k q e. id-changed q ∙ v.linked.named k q e;
    }

    changed-edges : (c : ℕ) → 0 < c → c < len changed → parent c ≢ i → c ≢ i → IsOrdered changed c
    changed-edges c p q r s =
        let hc : c < len d.heap = omega (arith, len-changed) in
        rw (wait-changed c hc s, wait-changed (parent c) (omega arith) r) (v.heap_ordered c p hc)

    changed-IsBridged : IsBridged (len changed) changed i
    changed-IsBridged c p q r s =
        let hc : c < len d.heap = omega (arith, len-changed) in
        rw (wait-changed c hc (omega arith), wait-changed (parent i) (omega arith) (omega arith))
          (not-less_time_trans (wait d.heap (parent i)) (wait d.heap i) (wait d.heap c)
            (v.heap_ordered i s hi)
            (subst (λ j. less_time (wait d.heap c) (wait d.heap j) ≡ false) r
              (v.heap_ordered c p hc)))

    entry-changed :
        (k : String)
        → entry_at changed (GoMap.lookup k d.index)
          ≡ (if node.id x == k then some (x, t) else entry d k)
    unfolding entry
    entry-changed k = elim (key_cases (node.id x) k) [
      | inl same ↦ rw (← same, beq_self (node.id x), found, store-changed_new)
      | inr (ne, other) ↦ rw other (old_entry ne (GoMap.lookup k d.index) refl)
    ]
      where
        old_entry :
            node.id x ≢ k
            → (o : Option ℕ) → GoMap.lookup k d.index ≡ o
            → entry_at changed o ≡ entry_at d.heap o
        old_entry ne none e = refl
        old_entry ne (some q) e = rw (
            store-changed_old q (λ s. ne (
              sym (v.linked.named (node.id x) q (found ∙ ap some (sym s))) ∙ v.linked.named k q e)))

    update_held : Returns Updated (update d x t)
    unfolding update length entry changed heap_fix fix_at write
    update_held =
        let p = ptr d.heap i in
        rw (found, update, v.tracked i hi, fix_at, heap_fix)
          (Returns-bind
            (fix_restores (len changed) changed i (omega (arith, len-changed)) (omega arith)
              changed-edges changed-IsBridged)
            λ h' (o, s). returns (record {
              valid = record {
                heap_ordered = rw s.same.size o;
                tracked = s.tracked (λ c hc.
                    index-changed (ptr d.heap c) ∙ v.tracked c (omega (arith, len-changed)));
                linked = IsLinked-SameNodes changed-IsLinked s.same;
              };
              no_error = refl;
              entries = λ k. entry_at-SameNodes changed h' _ s.same ∙ entry-changed k;
              size = s.same.size ∙ len-changed;
            }))

  -- Update under an id that the heap holds returns, without an error and in a valid state: the heap
  -- has the new node and time under that id, and what it had under the others.
  pub update_correct :
      (p : ℕ)
      → IsValid d
      → GoMap.lookup (node.id x) d.index ≡ some p
      → Returns Updated (update d x t)
  update_correct p v found =
      let (i, hi, at) = v.linked.held (node.id x) p found in
      update_held v i hi (found ∙ ap some (sym at))
