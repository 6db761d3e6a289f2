-- ===== src/DelayHeap/Insert.antt =====
-- Push.
use eth2_validator.Base.{
  ℕ, suc, ◌+◌, ◌<◌, ◌≡◌, ◌≢◌, ◌⊎◌, inl, inr, refl, sym, ap, ◌∙◌, false, [], ◌∷◌, String, Option,
  none, some, arith, nat_beq, pos, ok, Returns, returns, Returns-bind, if◌then◌else◌, string_eq,
  ◌==◌, key_cases, beq_self, nat_beq_iff,
}
use native.Mathlib.Decide.{ℕ_discrete}
use eth2_validator.Array
use eth2_validator.GoMap
use eth2_validator.GoMap.{Map}
use eth2_validator.DelayHeap.{DelayHeap, HeapError, already_exists, push, length}
use eth2_validator.DelayHeap.Nodes.{
  Time, HeapNode, DelayHeapNode, DelayedHeapImp, len, write, set_index, append, alloc,
}
use eth2_validator.DelayHeap.Sift.{parent, up, heap_push}
use eth2_validator.DelayHeap.Moves.{ptr, wait, Holds, IsTracked}
use eth2_validator.DelayHeap.Order.{IsHeap, UpInv}
use eth2_validator.DelayHeap.Loops.{up_restores}
use eth2_validator.DelayHeap.Valid.{
  IsLinked, IsValid, entry_at, entry, IsLinked-SameNodes, entry_at-SameNodes,
}

module _ {ℓ} {A : Type ℓ} (h : DelayedHeapImp A) (x : A) (next : Time) where
  -- The slice and the memory after a node is allocated and appended.
  added : DelayedHeapImp A
  added = append (alloc h (record { node = x; wait_until = next; index = pos 0 })).0 h.fresh

  len-added : len added ≡ len h + 1
  unfolding added append len alloc
  len-added = Array.length-append h.slots (h.fresh ∷ [])

  heap_push-added :
      heap_push (alloc h (record { node = x; wait_until = next; index = pos 0 })).0 h.fresh
      ≡ up added (len h)
  unfolding heap_push added
  heap_push-added = ap (up added) (omega (arith, len-added))

  ptr-added : (c : ℕ) → c < len h → ptr added c ≡ ptr h c
  unfolding added append len alloc
  ptr-added c p = Array.get_or-append 0 h.slots (h.fresh ∷ []) c p

  ptr-added_last : ptr added (len h) ≡ h.fresh
  unfolding added append len alloc
  ptr-added_last = Array.get_or-append_last 0 h.slots h.fresh

  store-added_new :
      added.store h.fresh ≡ record { node = x; wait_until = next; index = pos (len h) }
  unfolding added append len alloc set_index write
  store-added_new = rw ((nat_beq_iff h.fresh h.fresh).1 refl)

  store-added_old : (q : ℕ) → q < h.fresh → added.store q ≡ h.store q
  unfolding added append len alloc set_index write
  store-added_old q p = let e : nat_beq h.fresh q ≡ false = ground arith in rw e

  fresh-added : added.fresh ≡ suc h.fresh
  unfolding added append alloc set_index write
  fresh-added = refl

  Holds-added : (q : ℕ) → Holds added q → (q ≡ h.fresh) ⊎ Holds h q
  Holds-added q (i, hi, e) = elim (ℕ_discrete i (len h)) [
    | yes last ↦ inl (sym e ∙ ap (ptr added) last ∙ ptr-added_last)
    | no early ↦ let p : i < len h = omega (arith, len-added) in inr (i, p, sym (ptr-added i p) ∙ e)
  ]

  module _ (allocated : (p : ℕ) → Holds h p → p < h.fresh) where
    wait-added : (c : ℕ) → c < len h → wait added c ≡ wait h c
    wait-added c p =
        ap (λ q. (added.store q).wait_until) (ptr-added c p)
        ∙ ap (λ (n : DelayHeapNode A). n.wait_until)
            (store-added_old (ptr h c) (allocated (ptr h c) (c, p, refl)))

    added-IsTracked : IsTracked h → IsTracked added
    added-IsTracked t c hc = elim (ℕ_discrete c (len h)) [
      | yes e ↦ rw (e, ptr-added_last, store-added_new)
      | no e ↦
          let p : c < len h = omega (arith, len-added) in
          rw (ptr-added c p, store-added_old (ptr h c) (allocated (ptr h c) (c, p, refl))) (t c p)
    ]

    added-UpInv : IsHeap (len h) h → UpInv (len added) added (len h)
    added-UpInv o = record {
      inside = omega (arith, len-added);
      fits = omega arith;
      edges = λ c p q r.
          let hc : c < len h = omega (arith, len-added) in
          rw (wait-added c hc, wait-added (parent c) (omega arith)) (o c p hc);
      bridged = λ c p q r s. absurd (omega (arith, len-added));
    }

module _ {ℓ} {A : Type ℓ} ⦃node : HeapNode A⦄ where
  module _ (d : DelayHeap A) (x : A) (next : Time) (v : IsValid d)
      (absent : GoMap.lookup (node.id x) d.index ≡ none) where
    index' : Map String ℕ
    index' = GoMap.insert (node.id x) d.heap.fresh d.index

    added-IsLinked : IsLinked index' (added d.heap x next)
    unfolding index'
    added-IsLinked =
        let h = d.heap in
        record {
          allocated = λ q k. elim (Holds-added h x next q k) [
            | inl e ↦ omega (arith, fresh-added h x next)
            | inr o ↦ omega (arith, fresh-added h x next, v.linked.allocated q o)
          ];
          indexed = λ q k. elim (Holds-added h x next q k) [
            | inl e ↦ rw (e, store-added_new h x next, GoMap.lookup-insert, beq_self (node.id x))
            | inr o ↦
                rw (store-added_old h x next q (v.linked.allocated q o))
                  (old_key (node.id (h.store q).node) (some q) (v.linked.indexed q o) (λ e. cc))
          ];
          held = λ k q e. elim (key_cases (node.id x) k) [
            | inl same ↦ (
              len h,
              omega (arith, len-added h x next),
              ptr-added_last h x next ∙ new_ptr k q same e,
            )
            | inr (_, other) ↦
                let (i, hi, at) = v.linked.held k q (old_ptr k q other e) in
                (i, omega (arith, len-added h x next), ptr-added h x next i hi ∙ at)
          ];
          named = λ k q e. elim (key_cases (node.id x) k) [
            | inl same ↦ rw (sym (new_ptr k q same e), store-added_new h x next) same
            | inr (_, other) ↦
                let old = old_ptr k q other e in
                rw (store-added_old h x next q (v.linked.allocated q (v.linked.held k q old)))
                  (v.linked.named k q old)
          ];
        }
      where
        old_key :
            (k : String) (o : Option ℕ)
            → GoMap.lookup k d.index ≡ o
            → o ≢ none
            → GoMap.lookup k index' ≡ o
        old_key k o e ne = elim (key_cases (node.id x) k) [
          | inl same ↦ absurd (ne (sym e ∙ ap (λ j. GoMap.lookup j d.index) (sym same) ∙ absent))
          | inr (_, other) ↦ rw (GoMap.lookup-insert, other) e
        ]

        new_ptr :
            (k : String) (q : ℕ) → node.id x ≡ k → GoMap.lookup k index' ≡ some q → d.heap.fresh ≡ q
        new_ptr k q same e =
            ground (arith, GoMap.lookup-insert (node.id x) k d.heap.fresh d.index, beq_self k, same)

        old_ptr :
            (k : String) (q : ℕ)
            → (node.id x == k) ≡ false
            → GoMap.lookup k index' ≡ some q
            → GoMap.lookup k d.index ≡ some q
        old_ptr k q other e =
            ground (arith, GoMap.lookup-insert (node.id x) k d.heap.fresh d.index, other)

    -- A node is found under the new id, and under every other id what was there.
    entry-added :
        (k : String)
        → entry_at (added d.heap x next) (GoMap.lookup k index')
          ≡ (if node.id x == k then some (x, next) else entry d k)
    unfolding index' entry
    entry-added k = elim (key_cases (node.id x) k) [
      | inl same ↦ rw (GoMap.lookup-insert, same, beq_self k, store-added_new d.heap x next)
      | inr (_, other) ↦ rw (GoMap.lookup-insert, other) (old_entry (GoMap.lookup k d.index) refl)
    ]
      where
        old_entry :
            (o : Option ℕ)
            → GoMap.lookup k d.index ≡ o
            → entry_at (added d.heap x next) o ≡ entry_at d.heap o
        old_entry none e = refl
        old_entry (some q) e =
            rw (store-added_old d.heap x next q (v.linked.allocated q (v.linked.held k q e)))

  -- What a Push under a new id leaves.
  pub record Pushed (d : DelayHeap A) (x : A) (next : Time) (r : DelayHeap A × Option HeapError)
      : Type ℓ where
    pub valid : IsValid r.0
    pub no_error : r.1 ≡ none
    pub entries :
        (k : String) → entry r.0 k ≡ (if node.id x == k then some (x, next) else entry d k)
    pub size : length r.0 ≡ length d + 1

  -- Push under an id that the heap does not hold returns, without an error and in a valid state: the
  -- heap has the node and the time under that id, what it had under the others, and one node more.
  pub push_correct :
      (d : DelayHeap A) (x : A) (next : Time)
      → IsValid d
      → GoMap.lookup (node.id x) d.index ≡ none
      → Returns (Pushed d x next) (push d x next)
  unfolding push length entry alloc index'
  push_correct d x next v absent =
      let h = d.heap in
      let h' = added h x next in
      rw (absent, push, heap_push-added h x next)
        (Returns-bind
          (up_restores (len h') h' (len h) (added-UpInv h x next v.linked.allocated v.heap_ordered))
          λ h'' (o, s). returns (record {
            valid = record {
              heap_ordered = rw s.same.size o;
              tracked = s.tracked (added-IsTracked h x next v.linked.allocated v.tracked);
              linked = IsLinked-SameNodes (added-IsLinked d x next v absent) s.same;
            };
            no_error = refl;
            entries = λ k. entry_at-SameNodes h' h'' _ s.same ∙ entry-added d x next v absent k;
            size = omega (arith, s.same.size, len-added h x next);
          }))

  -- Push under an id that the heap holds returns the error that names it, and changes nothing.
  pub push-already_exists :
      (d : DelayHeap A) (x : A) (next : Time) (p : ℕ)
      → GoMap.lookup (node.id x) d.index ≡ some p
      → push d x next ≡ ok (d, some (already_exists (node.id x)))
  unfolding push
  push-already_exists d x next p e = rw (e, push)
