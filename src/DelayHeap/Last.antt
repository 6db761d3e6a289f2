-- ===== src/DelayHeap/Last.antt =====
-- What is left of the heap when a node has gone to its last slot.
use eth2_validator.Base.{
  ℕ, suc, ◌-◌, ◌≤◌, ◌<◌, ◌≡◌, ◌≢◌, ap, ◌∙◌, Bool, true, false, arith, nat_beq, Go, ok, ◌>>=◌,
  Returns, returns, Returns-bind, Returns-map, Returns-if, string_eq, bind_assoc,
}
use eth2_validator.DelayHeap.Nodes.{DelayedHeapImp, len, swap, drop_last}
use eth2_validator.DelayHeap.Sift.{parent, down, heap_pop, move_last}
use eth2_validator.DelayHeap.Moves.{
  ptr, wait, IsTracked, SameNodes, swap-ok, swapped, len-swapped, ptr-swapped, wait-swapped,
  not-less_time_trans, SameNodes-refl, SameNodes-trans,
}
use eth2_validator.DelayHeap.Order.{IsHeap, IsBridged, IsOrdered, Sifted}
use eth2_validator.DelayHeap.Loops.{Downed, down_restores, fix_restores, Sifted-swapped}

module _ {ℓ} {A : Type ℓ} where
  -- The slots before the last one form a heap, and the last one holds the pointer `p`.
  pub record Moved (n : ℕ) (h : DelayedHeapImp A) (p : ℕ) (h' : DelayedHeapImp A) : Type ℓ where
    pub ordered : IsHeap n h'
    pub same : SameNodes h h'
    pub tracked : IsTracked h → IsTracked h'
    pub last : ptr h' n ≡ p

  module _ (h : DelayedHeapImp A) (n i : ℕ) (size : len h ≡ suc n) (hi : i ≤ n)
      (o : IsHeap (len h) h) where
    swapped-Moved :
        {h' : DelayedHeapImp A} → IsHeap n h' × Sifted n (swapped h i n) h' → Moved n h (ptr h i) h'
    swapped-Moved (o', s) =
        let hi' : i < len h = omega (arith, size) in
        let hn : n < len h = omega (arith, size) in
        record {
          ordered = o';
          same = SameNodes-trans (swapped_same hi' hn) s.same;
          tracked = λ t. s.tracked (swapped_tracked hi' hn t);
          last = s.beyond n (omega arith) ∙ ground (arith, ptr-swapped h i n hi' hn n);
        }
      where
        swapped_same : i < len h → n < len h → SameNodes h (swapped h i n)
        swapped_same p q = (Sifted-swapped (len h) h i n (omega arith) p q).same

        swapped_tracked : i < len h → n < len h → IsTracked h → IsTracked (swapped h i n)
        swapped_tracked p q = (Sifted-swapped (len h) h i n (omega arith) p q).tracked

    -- Away from `i` the order is that of before, with the last slot cut off.
    swapped-edges : (c : ℕ) → 0 < c → c < n → parent c ≢ i → c ≢ i → IsOrdered (swapped h i n) c
    swapped-edges c p q r s =
        let at = wait-swapped h i n (omega (arith, size)) (omega (arith, size)) in
        ground (arith, at c, at (parent c), o c, size)

    swapped-IsBridged : IsBridged n (swapped h i n) i
    swapped-IsBridged c p q r s =
        let at = wait-swapped h i n (omega (arith, size)) (omega (arith, size)) in
        ground (
          arith,
          at c,
          at (parent i),
          o c,
          o i,
          size,
          not-less_time_trans (wait h (parent i)) (wait h i) (wait h c),
        )

  pub move_last-Moved :
      (h : DelayedHeapImp A) (i n : ℕ)
      → len h ≡ suc n
      → i < len h
      → IsHeap (len h) h
      → Returns (Moved n h (ptr h i)) (move_last h i n)
  unfolding move_last
  move_last-Moved h i n size hi o =
      Returns-if (nat_beq n i)
        (λ last. returns (record {
          ordered = λ c p q. o c p (omega (arith, size));
          same = SameNodes-refl h;
          tracked = λ t. t;
          last = ap (ptr h) (ground arith);
        }))
        (λ inner.
          let p : i < n = ground (arith, size) in
          rw (swap-ok h i n hi (omega (arith, size))) (
            Returns-map
              (fix_restores n (swapped h i n) i p
                (omega (arith, size, len-swapped h i n hi (omega (arith, size))))
                (swapped-edges h n i size (omega arith) o)
                (swapped-IsBridged h n i size (omega arith) o))
              (λ h' s. swapped-Moved h n i size (omega arith) o s)))

  -- heap.Pop before its last step.
  pub pop_last : DelayedHeapImp A → ℕ → Go (DelayedHeapImp A)
  pop_last h n = do h' ← swap h 0 n; (h'', moved) ← down h' 0 n; ok h''

  pub pop_last-Moved :
      (h : DelayedHeapImp A) (n : ℕ)
      → len h ≡ suc n
      → IsHeap (len h) h
      → Returns (Moved n h (ptr h 0)) (pop_last h n)
  unfolding pop_last
  pop_last-Moved h n size o =
      let h0 : 0 < len h = omega (arith, size) in
      let hn : n < len h = omega (arith, size) in
      rw (swap-ok h 0 n h0 hn) (
        Returns-bind
          (down_restores n (swapped h 0 n) 0 (record {
            lower = omega arith;
            fits = omega (arith, size, len-swapped h 0 n h0 hn);
            edges = λ c p q r s. swapped-edges h n 0 size (omega arith) o c p q r (omega arith);
            bridged = λ c p q r s. absurd (omega arith);
          }))
          λ (h', moved) s. returns (swapped-Moved h n 0 size (omega arith) o (whole h' moved s)))
    where
      whole :
          (h' : DelayedHeapImp A) (moved : Bool)
          → Downed n 0 (swapped h 0 n) (h', moved)
          → IsHeap n h' × Sifted n (swapped h 0 n) h'
      whole h' true s = s
      whole h' false (e, b, s) = (λ c p q. e c p q (omega arith), s)

  pub heap_pop_lem : (h : DelayedHeapImp A) → heap_pop h ≡ (pop_last h (len h - 1) >>= drop_last)
  unfolding heap_pop pop_last
  heap_pop_lem h = simp bind_assoc
