-- ===== src/DelayHeap/Moves.antt =====
-- What one exchange of two slots does: it returns, keeps the slots' indices right and the stored
-- nodes the same, and exchanges the two times.
use eth2_validator.Base.{
  ℕ, ◌<◌, ◌≡◌, refl, ◌∙◌, true, false, inl, inr, ap, arith, nat_beq, nat_beq_iff, Bool-cases, ℤ,
  pos, ok, if◌then◌else◌,
}
use eth2_validator.Array
use eth2_validator.Array.{length}
use eth2_validator.DelayHeap.Nodes.{
  Time, DelayedHeapImp, less_time, load, len, less, set_index, swap,
}

-- Less is a strict weak order.
pub less_time_irrefl : (a : Time) → less_time a a ≡ false
unfolding less_time
less_time_irrefl a = ground arith

pub less_time_asymm : (a b : Time) → less_time a b ≡ true → less_time b a ≡ false
unfolding less_time
less_time_asymm a b h = ground arith

pub not-less_time_trans :
    (a b c : Time) → less_time b a ≡ false → less_time c b ≡ false → less_time c a ≡ false
unfolding less_time
not-less_time_trans a b c p q = ground arith

module _ {ℓ} {A : Type ℓ} where
  -- The pointer in slot `i`, and the time it waits for.
  abbrev pub ptr : DelayedHeapImp A → ℕ → ℕ
  ptr h i = Array.get_or h.slots i 0

  abbrev pub wait : DelayedHeapImp A → ℕ → Time
  wait h i = (h.store (ptr h i)).wait_until

  pub load-ok : (h : DelayedHeapImp A) (i : ℕ) → i < len h → load h i ≡ ok (ptr h i)
  unfolding load len
  load-ok h i p = rw (Array.get_elem?-get_or 0 h.slots i p)

  pub less-ok :
      (h : DelayedHeapImp A) (i j : ℕ)
      → i < len h
      → j < len h
      → less h i j ≡ ok (less_time (wait h i) (wait h j))
  unfolding less
  less-ok h i j p q = rw (load-ok h i p, load-ok h j q)

  -- Every node knows its slot.
  abbrev pub IsTracked : DelayedHeapImp A → Type 0
  IsTracked h = (i : ℕ) → i < len h → (h.store (ptr h i)).index ≡ pos i

  -- The pointer `p` is in the slice.
  abbrev pub Holds : DelayedHeapImp A → ℕ → Type 0
  Holds h p = (i : ℕ) × (i < len h) × (ptr h i ≡ p)

  -- `h'` has the slots of `h` in another order, and the same nodes but for their indices.
  pub record SameNodes (h h' : DelayedHeapImp A) : Type ℓ where
    pub size : len h' ≡ len h
    pub fresh : h'.fresh ≡ h.fresh
    pub nodes : (p : ℕ) → (h'.store p).node ≡ (h.store p).node
    pub waits : (p : ℕ) → (h'.store p).wait_until ≡ (h.store p).wait_until
    pub kept : (p : ℕ) → Holds h p → Holds h' p
    pub only : (p : ℕ) → Holds h' p → Holds h p

  pub SameNodes-refl : (h : DelayedHeapImp A) → SameNodes h h
  SameNodes-refl h = record {
    size = refl;
    fresh = refl;
    nodes = λ p. refl;
    waits = λ p. refl;
    kept = λ p k. k;
    only = λ p k. k;
  }

  pub SameNodes-trans :
      {h h' h'' : DelayedHeapImp A} → SameNodes h h' → SameNodes h' h'' → SameNodes h h''
  SameNodes-trans s t = record {
    size = t.size ∙ s.size;
    fresh = t.fresh ∙ s.fresh;
    nodes = λ p. t.nodes p ∙ s.nodes p;
    waits = λ p. t.waits p ∙ s.waits p;
    kept = λ p k. t.kept p (s.kept p k);
    only = λ p k. s.only p (t.only p k);
  }

  pub set_index-node :
      (h : DelayedHeapImp A) (q : ℕ) (i : ℤ) (p : ℕ)
      → ((set_index h q i).store p).node ≡ (h.store p).node
  unfolding set_index
  set_index-node h q i p = elim (Bool-cases (nat_beq q p)) [
    | inl e ↦ rw e (ap (λ r. (h.store r).node) ((nat_beq_iff q p).0 e))
    | inr e ↦ rw e
  ]

  -- The state after an exchange within range.
  pub swapped : DelayedHeapImp A → ℕ → ℕ → DelayedHeapImp A
  swapped h i j =
      let h' = record h { slots = Array.set (Array.set h.slots i (ptr h j)) j (ptr h i) } in
      let h'' = set_index h' (ptr h' i) (pos i) in set_index h'' (ptr h'' j) (pos j)

  module _ (h : DelayedHeapImp A) (i j : ℕ) (hi : i < len h) (hj : j < len h) where
    pub len-swapped : len (swapped h i j) ≡ len h
    unfolding swapped set_index len
    len-swapped =
        Array.length-set (Array.set h.slots i (ptr h j)) j (ptr h i)
        ∙ Array.length-set h.slots i (ptr h j)

    pub swap-ok : swap h i j ≡ ok (swapped h i j)
    unfolding swap swapped set_index len
    swap-ok =
        let s =
          Array.length-set (Array.set h.slots i (ptr h j)) j (ptr h i)
          ∙ Array.length-set h.slots i (ptr h j) in
        rw (
          load-ok h i hi,
          load-ok h j hj,
          Array.get_elem?-get_or 0 (Array.set (Array.set h.slots i (ptr h j)) j (ptr h i)) i
              (rw s hi),
          Array.get_elem?-get_or 0 (Array.set (Array.set h.slots i (ptr h j)) j (ptr h i)) j
              (rw s hj),
        )

    pub ptr-swapped :
        (c : ℕ)
        → ptr (swapped h i j) c
          ≡ (if nat_beq j c then ptr h i else if nat_beq i c then ptr h j else ptr h c)
    unfolding swapped set_index len
    ptr-swapped c = rw (
      Array.get_or-set 0 (Array.set h.slots i (ptr h j)) j c (ptr h i)
          (rw (Array.length-set h.slots i (ptr h j)) hj),
      Array.get_or-set 0 h.slots i c (ptr h j) hi,
    )

    pub wait-store : (p : ℕ) → ((swapped h i j).store p).wait_until ≡ (h.store p).wait_until
    unfolding swapped set_index
    wait-store p = ground arith

    pub wait-swapped :
        (c : ℕ)
        → wait (swapped h i j) c
          ≡ (if nat_beq j c then wait h i else if nat_beq i c then wait h j else wait h c)
    wait-swapped c = ground (arith, ptr-swapped c, wait-store (ptr (swapped h i j) c))

    index-swapped :
        (p : ℕ)
        → ((swapped h i j).store p).index ≡ (
            if nat_beq (ptr h i) p
            then pos j
            else if nat_beq (ptr h j) p
            then pos i
            else (h.store p).index)
    unfolding swapped set_index len
    index-swapped p = ground (arith, ptr-swapped i, ptr-swapped j)

    pub swapped-IsTracked : IsTracked h → IsTracked (swapped h i j)
    swapped-IsTracked t c hc =
        ground
          (arith, ptr-swapped c, len-swapped, index-swapped (ptr (swapped h i j) c), t c, t i, t j)

    node-store : (p : ℕ) → ((swapped h i j).store p).node ≡ (h.store p).node
    unfolding swapped
    node-store p = simp set_index-node

    pub swapped-SameNodes : SameNodes h (swapped h i j)
    unfolding swapped set_index
    swapped-SameNodes = record {
      size = len-swapped;
      fresh = refl;
      nodes = node-store;
      waits = wait-store;
      kept = λ p (k, hk, e). (
        if nat_beq k i then j else if nat_beq k j then i else k,
        ground (arith, len-swapped),
        ground (arith, ptr-swapped i, ptr-swapped j, ptr-swapped k),
      );
      only = λ p (k, hk, e). (
        if nat_beq k j then i else if nat_beq k i then j else k,
        ground (arith, len-swapped),
        ground (arith, ptr-swapped k),
      );
    }
