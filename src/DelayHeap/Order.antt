-- ===== src/DelayHeap/Order.antt =====
-- The heap order, and the invariants of the two sifting loops.
use eth2_validator.Base.{ℕ, ◌≤◌, ◌<◌, ◌≡◌, ◌≢◌, true, false, arith}
use eth2_validator.DelayHeap.Nodes.{DelayedHeapImp, len, less_time}
use eth2_validator.DelayHeap.Sift.{parent}
use eth2_validator.DelayHeap.Moves.{
  wait, IsTracked, SameNodes, swapped, ptr, len-swapped, wait-swapped, less_time_asymm,
  not-less_time_trans,
}

module _ {ℓ} {A : Type ℓ} where
  -- The edge above `c` is in order: its node is not due before its parent's.
  abbrev pub IsOrdered : DelayedHeapImp A → ℕ → Type 0
  IsOrdered h c = less_time (wait h c) (wait h (parent c)) ≡ false

  -- The first `n` slots form a heap.
  abbrev pub IsHeap : ℕ → DelayedHeapImp A → Type 0
  IsHeap n h = (c : ℕ) → 0 < c → c < n → IsOrdered h c

  -- The edges past `i`, from its parent to its children, are in order.
  abbrev pub IsBridged : ℕ → DelayedHeapImp A → ℕ → Type 0
  IsBridged n h i =
      (c : ℕ)
      → 0 < c
      → c < n
      → parent c ≡ i
      → 0 < i
      → less_time (wait h c) (wait h (parent i)) ≡ false

  -- Only the edge above `j` may be out of order.
  pub record UpInv (n : ℕ) (h : DelayedHeapImp A) (j : ℕ) : Type 0 where
    pub inside : j < n
    pub fits : n ≤ len h
    pub edges : (c : ℕ) → 0 < c → c < n → c ≢ j → IsOrdered h c
    pub bridged : IsBridged n h j

  -- Only the edges below `i` may be out of order, and while `i` is the start `i0`, the one above.
  pub record DownInv (n i0 : ℕ) (h : DelayedHeapImp A) (i : ℕ) : Type 0 where
    pub lower : i0 ≤ i
    pub fits : n ≤ len h
    pub edges : (c : ℕ) → 0 < c → c < n → parent c ≢ i → (c ≡ i → i0 < i) → IsOrdered h c
    pub bridged : IsBridged n h i

  -- `m` is a child of `i`, and no child of `i` is due before it.
  pub record IsSmallerChild (n : ℕ) (h : DelayedHeapImp A) (i m : ℕ) : Type 0 where
    pub inside : m < n
    pub child : parent m ≡ i
    pub positive : 0 < m
    pub least : (c : ℕ) → 0 < c → c < n → parent c ≡ i → less_time (wait h c) (wait h m) ≡ false

  -- The slots hold the same nodes as those of `h`, which know where they are, and the slots from
  -- `n` on are as they were.
  pub record Sifted (n : ℕ) (h h' : DelayedHeapImp A) : Type ℓ where
    pub same : SameNodes h h'
    pub tracked : IsTracked h → IsTracked h'
    pub beyond : (c : ℕ) → n ≤ c → ptr h' c ≡ ptr h c

  module _ (n : ℕ) (h : DelayedHeapImp A) (j : ℕ) where
    pub swap-UpInv :
        UpInv n h j
        → 0 < j
        → less_time (wait h j) (wait h (parent j)) ≡ true
        → UpInv n (swapped h (parent j) j) (parent j)
    swap-UpInv v pos below =
        let i = parent j in
        let hi : i < len h = omega (arith, v.inside, v.fits) in
        let hj : j < len h = omega (arith, v.inside, v.fits) in
        let at = wait-swapped h i j hi hj in
        record {
          inside = omega (arith, v.inside);
          fits = omega (arith, v.fits, len-swapped h i j hi hj);
          edges = λ c p q r. ground (
            arith,
            at c,
            at (parent c),
            v.edges c,
            v.bridged c,
            less_time_asymm (wait h j) (wait h i),
            not-less_time_trans (wait h j) (wait h i) (wait h c),
          );
          bridged = λ c p q r s. ground (
            arith,
            at c,
            at (parent i),
            v.edges c,
            v.edges i,
            not-less_time_trans (wait h (parent i)) (wait h i) (wait h c),
          );
        }

  module _ (n i0 : ℕ) (h : DelayedHeapImp A) (i m : ℕ) where
    pub swap-DownInv :
        DownInv n i0 h i
        → IsSmallerChild n h i m
        → less_time (wait h m) (wait h i) ≡ true
        → DownInv n i0 (swapped h i m) m
    swap-DownInv v s below =
        let hi : i < len h = omega (arith, v.fits, s.inside, s.child) in
        let hm : m < len h = omega (arith, v.fits, s.inside) in
        let at = wait-swapped h i m hi hm in
        record {
          lower = omega (arith, v.lower, s.child);
          fits = omega (arith, v.fits, len-swapped h i m hi hm);
          edges = λ c p q r t. ground (
            arith,
            at c,
            at (parent c),
            v.edges c,
            v.bridged m,
            s.least c,
            s.child,
            s.positive,
            s.inside,
            less_time_asymm (wait h m) (wait h i),
          );
          bridged =
              λ c p q r t. ground (arith, at c, at (parent m), v.edges c, s.child, s.positive);
        }
