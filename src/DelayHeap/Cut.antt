-- ===== src/DelayHeap/Cut.antt =====
-- Cutting off the last slot, which ends heap.Pop and heap.Remove.
use eth2_validator.Base.{
  ℕ, suc, ◌+◌, ◌-◌, ◌<◌, ◌≡◌, ◌≢◌, inl, inr, refl, sym, ap, ◌∙◌, false, String, Option, none, some,
  arith, nat_beq, negsuc, ok, Returns, returns, if◌then◌else◌, string_eq, ◌==◌, key_cases, beq_self,
  Bool-cases,
}
use eth2_validator.Array
use eth2_validator.GoMap
use eth2_validator.GoMap.{Map}
use eth2_validator.DelayHeap.{DelayHeap}
use eth2_validator.DelayHeap.Nodes.{HeapNode, DelayedHeapImp, len, set_index, write, drop_last}
use eth2_validator.DelayHeap.Moves.{ptr, wait, Holds, IsTracked, load-ok, set_index-node}
use eth2_validator.DelayHeap.Order.{IsHeap}
use eth2_validator.DelayHeap.Sift.{parent}
use eth2_validator.DelayHeap.Valid.{IsLinked, IsValid, entry_at, entry}

module _ {ℓ} {A : Type ℓ} (h : DelayedHeapImp A) (n : ℕ) (size : len h ≡ suc n) where
  -- The slice without its last slot, whose node is marked with the index -1.
  cut : DelayedHeapImp A
  cut = record (set_index h (ptr h n) (negsuc 0)) { slots = Array.take n h.slots }

  drop_last-cut : drop_last h ≡ ok (cut, ptr h n)
  unfolding drop_last cut len
  drop_last-cut =
      let e : Array.length h.slots - 1 ≡ n = omega (arith, size) in
      let f : nat_beq (Array.length h.slots) 0 ≡ false = ground (arith, size) in
      rw (f, load-ok h (Array.length h.slots - 1) (omega (arith, size)), e)

  len-cut : len cut ≡ n
  unfolding cut len
  len-cut = Array.length-take n h.slots (omega (arith, size))

  ptr-cut : (c : ℕ) → c < n → ptr cut c ≡ ptr h c
  unfolding cut
  ptr-cut c p = Array.get_or-take 0 n h.slots c p

  node-cut : (q : ℕ) → (cut.store q).node ≡ (h.store q).node
  unfolding cut
  node-cut q = set_index-node h (ptr h n) (negsuc 0) q

  wait-cut : (q : ℕ) → (cut.store q).wait_until ≡ (h.store q).wait_until
  unfolding cut set_index write
  wait-cut q = ground arith

  index-cut : (q : ℕ) → q ≢ ptr h n → (cut.store q).index ≡ (h.store q).index
  unfolding cut set_index write
  index-cut q p = ground arith

  fresh-cut : cut.fresh ≡ h.fresh
  unfolding cut set_index write
  fresh-cut = refl

  Holds-cut : (q : ℕ) → Holds cut q → Holds h q
  Holds-cut q (i, hi, e) = (i, omega (arith, len-cut), sym (ptr-cut i (omega (arith, len-cut))) ∙ e)

  module _ (tracked : IsTracked h) where
    -- No other slot has the last pointer.
    ptr-ne_last : (c : ℕ) → c < n → ptr h c ≢ ptr h n
    ptr-ne_last c p e = ground (arith, tracked c, tracked n, size)

    cut-IsTracked : IsTracked cut
    cut-IsTracked c hc =
        let p : c < n = omega (arith, len-cut) in
        rw (ptr-cut c p, index-cut (ptr h c) (ptr-ne_last c p)) (tracked c (omega arith))

    wait-cut_slot : (c : ℕ) → c < n → wait cut c ≡ wait h c
    wait-cut_slot c p = ap (λ q. (cut.store q).wait_until) (ptr-cut c p) ∙ wait-cut (ptr h c)

    cut-IsHeap : IsHeap n h → IsHeap (len cut) cut
    cut-IsHeap o c p q =
        let hc : c < n = omega (arith, len-cut) in
        rw (wait-cut_slot c hc, wait-cut_slot (parent c) (omega arith)) (o c p hc)

module _ {ℓ} {A : Type ℓ} ⦃node : HeapNode A⦄ where
  -- What is left when the node under the id `k` is gone.
  pub record Cut (index : Map String ℕ) (h : DelayedHeapImp A) (k : String) (r : DelayHeap A)
      : Type ℓ where
    pub valid : IsValid r
    pub entries :
        (j : String) → entry r j ≡ (if k == j then none else entry_at h (GoMap.lookup j index))
    pub size : len r.heap + 1 ≡ len h

  module _ (index : Map String ℕ) (h : DelayedHeapImp A) (n : ℕ) (size : len h ≡ suc n)
      (o : IsHeap n h) (tracked : IsTracked h) (l : IsLinked index h) where
    last_id : String
    last_id = node.id (h.store (ptr h n)).node

    index_cut : Map String ℕ
    index_cut = GoMap.delete last_id index

    -- The last pointer is gone from the map, and the others are as they were.
    lookup_cut :
        (k : String) (q : ℕ)
        → GoMap.lookup k index_cut ≡ some q
        → (GoMap.lookup k index ≡ some q) × ((last_id == k) ≡ false)
    unfolding index_cut
    lookup_cut k q e = ground (arith, GoMap.lookup-delete last_id k index)

    cut-IsLinked : IsLinked index_cut (cut h n size)
    unfolding index_cut last_id
    cut-IsLinked =
        let c = cut h n size in
        record {
          allocated =
              λ q k. omega (arith, l.allocated q (Holds-cut h n size q k), fresh-cut h n size);
          indexed = λ q (i, hi, e).
              let p : i < n = omega (arith, len-cut h n size) in
              let k = Holds-cut h n size q (i, hi, e) in
              rw
                (
                  node-cut h n size q,
                  GoMap.lookup-delete,
                  other_id q k (λ same.
                      ptr-ne_last h n size tracked i p (sym (ptr-cut h n size i p) ∙ e ∙ same)),
                )
                (l.indexed q k);
          held = λ k q e.
              let (found, other) = lookup_cut k q e in
              let (i, hi, at) = l.held k q found in
              let p : i ≢ n =
                λ x. ground (arith, key_of_last k q i found at x, other, beq_self k) in
              (
                i,
                omega (arith, size, len-cut h n size),
                ptr-cut h n size i (omega (arith, size)) ∙ at,
              );
          named = λ k q e. ap node.id (node-cut h n size q) ∙ l.named k q (lookup_cut k q e).0;
        }
      where
        other_id :
            (q : ℕ)
            → Holds h q
            → q ≢ ptr h n
            → (node.id (h.store (ptr h n)).node == node.id (h.store q).node) ≡ false
        other_id q k ne =
            elim (key_cases (node.id (h.store (ptr h n)).node) (node.id (h.store q).node)) [
              | inr (_, other) ↦ other
              | inl same ↦
                  let e =
                    sym (l.indexed q k)
                    ∙ ap (λ j. GoMap.lookup j index) (sym same)
                    ∙ l.indexed (ptr h n) (n, omega (arith, size), refl) in
                  absurd (ne (cc e))
            ]

        key_of_last :
            (k : String) (q i : ℕ)
            → GoMap.lookup k index ≡ some q
            → ptr h i ≡ q
            → i ≡ n
            → last_id ≡ k
        key_of_last k q i found at x =
            ap (λ j. node.id (h.store j).node) (sym (ap (ptr h) x) ∙ at) ∙ l.named k q found

    entry-cut :
        (j : String)
        → entry_at (cut h n size) (GoMap.lookup j index_cut)
          ≡ (if last_id == j then none else entry_at h (GoMap.lookup j index))
    unfolding index_cut
    entry-cut j = elim (Bool-cases (last_id == j)) [
      | inl same ↦ rw (GoMap.lookup-delete, same)
      | inr other ↦ rw (GoMap.lookup-delete, other) (old_entry (GoMap.lookup j index))
    ]
      where
        old_entry : (x : Option ℕ) → entry_at (cut h n size) x ≡ entry_at h x
        old_entry none = refl
        old_entry (some q) = rw (node-cut h n size q, wait-cut h n size q)

    pub drop_last_correct :
        (k : String)
        → node.id (h.store (ptr h n)).node ≡ k
        → Returns
            (λ r.
              (r.1 ≡ ptr h n)
              × ((q : ℕ) → (r.0.store q).node ≡ (h.store q).node)
              × ((q : ℕ) → (r.0.store q).wait_until ≡ (h.store q).wait_until)
              × Cut index h k (record { index = GoMap.delete k index; heap = r.0 }))
            (drop_last h)
    unfolding entry index_cut last_id
    drop_last_correct k e = rw (drop_last-cut h n size) (
        returns (
          refl,
          node-cut h n size,
          wait-cut h n size,
          rw (sym e) (record {
            valid = record {
              heap_ordered = cut-IsHeap h n size tracked o;
              tracked = cut-IsTracked h n size tracked;
              linked = cut-IsLinked;
            };
            entries = entry-cut;
            size = omega (arith, len-cut h n size, size);
          }),
        ))
