-- ===== src/DelayHeap/Remove.antt =====
-- Pop, Peek and Remove.
use eth2_validator.Base.{
  ℕ, suc, ◌+◌, ◌-◌, ◌<◌, ◌≡◌, ◌⊎◌, inl, inr, refl, sym, ap, ◌∙◌, false, String, Option, none, some,
  arith, nat_beq, pos, ok, Returns, returns, Returns-bind, Returns-map, Returns-if, if◌then◌else◌,
  string_eq, ◌==◌, Option-cases,
}
use eth2_validator.GoMap
use eth2_validator.GoMap.{Map}
use eth2_validator.DelayHeap.{DelayHeap, HeapError, not_found, pop, peek, remove, remove_at, length}
use eth2_validator.DelayHeap.Nodes.{
  Time, HeapNode, DelayHeapNode, DelayedHeapImp, len, less_time, drop_last,
}
use eth2_validator.DelayHeap.Sift.{heap_remove}
use eth2_validator.DelayHeap.Moves.{ptr, wait, load-ok}
use eth2_validator.DelayHeap.Valid.{
  IsValid, entry_at, entry, IsLinked-SameNodes, entry_at-SameNodes, root_least,
}
use eth2_validator.DelayHeap.Cut.{Cut, drop_last_correct}
use eth2_validator.DelayHeap.Last.{Moved, move_last-Moved, pop_last-Moved, heap_pop_lem}

module _ {ℓ} {A : Type ℓ} ⦃node : HeapNode A⦄ where
  -- An entry is a slot of the slice.
  pub entry-slot :
      (d : DelayHeap A) (k : String) (x : A) (t : Time)
      → IsValid d
      → entry d k ≡ some (x, t)
      → (i : ℕ) × (i < len d.heap) × (wait d.heap i ≡ t)
  unfolding entry
  entry-slot d k x t v e = elim (Option-cases (GoMap.lookup k d.index)) [
    | inl missing ↦ absurd (ground (arith, missing))
    | inr (p, found) ↦
        let (i, hi, at) = v.linked.held k p found in
        (i, hi, ap (λ q. (d.heap.store q).wait_until) at ∙ time p found)
  ]
    where
      time : (p : ℕ) → GoMap.lookup k d.index ≡ some p → (d.heap.store p).wait_until ≡ t
      time p found = cc (ap (entry_at d.heap) (sym found) ∙ e)

  -- What a Pop that finds a node leaves: the node, its entry gone and the other entries as they
  -- were; no entry was due before it.
  pub record Popped (d : DelayHeap A) (m : DelayHeapNode A) (r : DelayHeap A) : Type ℓ where
    pub valid : IsValid r
    pub present : entry d (node.id m.node) ≡ some (m.node, m.wait_until)
    pub least :
        (k : String) (x : A) (t : Time) → entry d k ≡ some (x, t) → less_time t m.wait_until ≡ false
    pub entries : (k : String) → entry r k ≡ (if node.id m.node == k then none else entry d k)
    pub size : length r + 1 ≡ length d

  module _ (d : DelayHeap A) (v : IsValid d) (h : DelayedHeapImp A) (n p : ℕ)
      (size : len d.heap ≡ suc n) (m : Moved n d.heap p h) where
    -- The last slot is cut off, and its node is no more under its id.
    Moved-Cut :
        (k : String)
        → node.id (d.heap.store p).node ≡ k
        → Returns
            (λ r.
              (r.1 ≡ p)
              × ((q : ℕ) → (r.0.store q).node ≡ (d.heap.store q).node)
              × ((q : ℕ) → (r.0.store q).wait_until ≡ (d.heap.store q).wait_until)
              × Cut d.index d.heap k (record { index = GoMap.delete k d.index; heap = r.0 }))
            (drop_last h)
    Moved-Cut k e =
        Returns-map
          (drop_last_correct d.index h n (m.same.size ∙ size) m.ordered (m.tracked v.tracked)
            (IsLinked-SameNodes v.linked m.same) k (rw (m.last, m.same.nodes p) e))
          (λ r (e1, e2, e3, c). (
            e1 ∙ m.last,
            λ q. e2 q ∙ m.same.nodes q,
            λ q. e3 q ∙ m.same.waits q,
            record {
              valid = c.valid;
              entries = λ j.
                  rw (← entry_at-SameNodes d.heap h (GoMap.lookup j d.index) m.same) (c.entries j);
              size = c.size ∙ m.same.size;
            },
          ))

  -- Pop on a heap that holds something returns a node that is due first, in a valid state: its entry
  -- is gone, the others are as they were, and the heap has one node less.
  pub pop_correct :
      (d : DelayHeap A)
      → IsValid d
      → 0 < length d
      → Returns (λ (d', o). (m : DelayHeapNode A) × (o ≡ some m) × Popped d m d') (pop d)
  unfolding pop length entry
  pop_correct d v some_left =
      let h = d.heap in
      let n = len h - 1 in
      let size : len h ≡ suc n = omega arith in
      let full : nat_beq (len h) 0 ≡ false = ground arith in
      let p = ptr h 0 in
      rw (full, heap_pop_lem h)
        (Returns-bind
          (Returns-bind (pop_last-Moved h n size v.heap_ordered)
            λ h' m. Moved-Cut d v h' n p size m (node.id (h.store p).node) refl)
          λ (h', q) (e, nodes, waits, c). returns (
            h'.store q,
            refl,
            rw (e, nodes p, waits p)
                (record {
                  valid = c.valid;
                  present = ap (entry_at h) (v.linked.indexed p (0, omega arith, refl));
                  least = λ k x t f.
                      let (i, hi, at) = entry-slot d k x t v f in
                      rw (← at) (root_least h i v.heap_ordered hi);
                  entries = c.entries;
                  size = c.size;
                }),
          ))

  -- Pop on an empty heap returns nil and changes nothing.
  pub pop-empty : (d : DelayHeap A) → length d ≡ 0 → pop d ≡ ok (d, none)
  unfolding pop length
  pop-empty d e = rw e

  -- Peek returns the node that is due first, or nil if there is none, and never panics.
  pub peek_correct :
      (d : DelayHeap A)
      → IsValid d
      → Returns
          (λ o.
            ((o ≡ none) × (length d ≡ 0))
            ⊎ ((m : DelayHeapNode A) × (o ≡ some m)
                × (entry d (node.id m.node) ≡ some (m.node, m.wait_until))
                × ((k : String) (x : A) (t : Time)
                    → entry d k ≡ some (x, t)
                    → less_time t m.wait_until ≡ false)))
          (peek d)
  unfolding peek length
  peek_correct d v =
      let h = d.heap in
      Returns-if (nat_beq (len h) 0) (λ e. returns (inl (refl, ground arith)))
        λ full.
          let h0 : 0 < len h = ground arith in
          rw (load-ok h 0 h0) (
            returns (
              inr (
                h.store (ptr h 0),
                refl,
                root_entry h0,
                λ k x t f.
                    let (i, hi, at) = entry-slot d k x t v f in
                    rw (← at) (root_least h i v.heap_ordered hi),
              )))
    where
      root_entry :
          0 < len d.heap
          → entry d (node.id (d.heap.store (ptr d.heap 0)).node)
            ≡ some ((d.heap.store (ptr d.heap 0)).node, wait d.heap 0)
      root_entry h0 =
          unfold entry in ap (entry_at d.heap) (v.linked.indexed (ptr d.heap 0) (0, h0, refl))

  -- What a Remove under an id that the heap holds leaves.
  pub record Removed (d : DelayHeap A) (k : String) (r : DelayHeap A × Option HeapError)
      : Type ℓ where
    pub valid : IsValid r.0
    pub no_error : r.1 ≡ none
    pub entries : (j : String) → entry r.0 j ≡ (if k == j then none else entry d j)
    pub size : length r.0 + 1 ≡ length d

  -- Remove under an id that the heap holds returns, without an error and in a valid state: the entry
  -- under that id is gone, the others are as they were, and the heap has one node less.
  pub remove_correct :
      (d : DelayHeap A) (x : A) (p : ℕ)
      → IsValid d
      → GoMap.lookup (node.id x) d.index ≡ some p
      → Returns (Removed d (node.id x)) (remove d x)
  unfolding remove length entry remove_at heap_remove
  remove_correct d x p v e =
      let h = d.heap in
      let (i, hi, at) = v.linked.held (node.id x) p e in
      let n = len h - 1 in
      let size : len h ≡ suc n = omega arith in
      let place : (h.store p).index ≡ pos i = rw (← at) (v.tracked i hi) in
      rw (e, remove, place, remove_at, heap_remove)
        (Returns-bind
          (Returns-bind (move_last-Moved h i n size hi v.heap_ordered) λ h' m.
            Moved-Cut d v h' n (ptr h i) size m (node.id x)
              (rw at (v.linked.named (node.id x) p e)))
          λ (h', q) (_, _, _, c).
            returns
              (record { valid = c.valid; no_error = refl; entries = c.entries; size = c.size }))

  -- Remove under an id that the heap does not hold returns the error that names it, and changes
  -- nothing.
  pub remove-not_found :
      (d : DelayHeap A) (x : A)
      → GoMap.lookup (node.id x) d.index ≡ none
      → remove d x ≡ ok (d, some (not_found (node.id x)))
  unfolding remove
  remove-not_found d x e = rw (e, remove)
