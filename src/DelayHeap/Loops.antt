-- ===== src/DelayHeap/Loops.antt =====
-- `up` and `down` of container/heap return, and put the heap in order.
use eth2_validator.Base.{
  ℕ, zero, suc, ◌+◌, ◌-◌, ◌*◌, ◌≤◌, ◌<◌, ◌≡◌, ◌≢◌, ◌⊎◌, inl, inr, subst, Bool-cases, ◌>>=◌,
  if◌then◌else◌, ltb-false, refl, ◌∙◌, Bool, true, false, arith, ltb, leb, nat_beq, ok, Returns,
  returns, Returns-bind, Returns-map, Returns-if,
}
use native.Mathlib.Decide.{ℕ_discrete}
use eth2_validator.DelayHeap.Nodes.{DelayedHeapImp, len, less_time}
use eth2_validator.DelayHeap.Sift.{parent, up_loop, up, smaller_child, down_loop, down}
use eth2_validator.DelayHeap.Moves.{
  wait, swapped, ptr-swapped, less-ok, swap-ok, swapped-IsTracked, swapped-SameNodes,
  SameNodes-refl, SameNodes-trans, less_time_irrefl, less_time_asymm, not-less_time_trans,
}
use eth2_validator.DelayHeap.Order.{
  IsOrdered, IsHeap, IsBridged, UpInv, DownInv, IsSmallerChild, Sifted, swap-UpInv, swap-DownInv,
}

module _ {ℓ} {A : Type ℓ} where
  pub Sifted-refl : (n : ℕ) (h : DelayedHeapImp A) → Sifted n h h
  Sifted-refl n h = record { same = SameNodes-refl h; tracked = λ t. t; beyond = λ c p. refl }

  pub Sifted-trans :
      {n : ℕ} {h h' h'' : DelayedHeapImp A} → Sifted n h h' → Sifted n h' h'' → Sifted n h h''
  Sifted-trans s t = record {
    same = SameNodes-trans s.same t.same;
    tracked = λ x. t.tracked (s.tracked x);
    beyond = λ c p. t.beyond c p ∙ s.beyond c p;
  }

  pub Sifted-swapped :
      (n : ℕ) (h : DelayedHeapImp A) (i j : ℕ)
      → n ≤ len h
      → i < n
      → j < n
      → Sifted n h (swapped h i j)
  Sifted-swapped n h i j f hi hj =
      let hi' : i < len h = omega arith in
      let hj' : j < len h = omega arith in
      record {
        same = swapped-SameNodes h i j hi' hj';
        tracked = swapped-IsTracked h i j hi' hj';
        beyond = λ c p. ground (arith, ptr-swapped h i j hi' hj' c);
      }

  up_loop_restores :
      (k n : ℕ) (h : DelayedHeapImp A) (j : ℕ)
      → j < k
      → UpInv n h j
      → Returns (λ h'. IsHeap n h' × Sifted n h h') (up_loop k h j)
  unfolding up_loop
  up_loop_restores zero n h j f v = absurd (omega arith)
  up_loop_restores (suc k) n h j f v =
      let hj : j < len h = omega (arith, v.inside, v.fits) in
      let hi : parent j < len h = omega arith in
      rw (less-ok h j (parent j) hj hi, swap-ok h (parent j) j hi hj)
        (Returns-if (nat_beq (parent j) j)
          (λ root. returns (λ c p q. v.edges c p q (ground arith), Sifted-refl n h))
          (λ inner.
            Returns-if (less_time (wait h j) (wait h (parent j)))
              (λ below.
                Returns-map
                  (up_loop_restores k n (swapped h (parent j) j) (parent j) (ground arith)
                    (swap-UpInv n h j v (ground arith) below))
                  (λ h' s. (
                    s.0,
                    Sifted-trans
                        (Sifted-swapped n h (parent j) j v.fits (omega (arith, v.inside)) v.inside)
                        s.1,
                  )))
              (λ settled. returns (λ c p q. ground (arith, v.edges c), Sifted-refl n h))))

  -- `up` turns a heap with one node that may be due too early for its slot into a heap.
  pub up_restores :
      (n : ℕ) (h : DelayedHeapImp A) (j : ℕ)
      → UpInv n h j
      → Returns (λ h'. IsHeap n h' × Sifted n h h') (up h j)
  unfolding up
  up_restores n h j v = up_loop_restores (j + 1) n h j (omega arith) v

  smaller_child-IsSmallerChild :
      (n : ℕ) (h : DelayedHeapImp A) (i : ℕ)
      → n ≤ len h
      → 2 * i + 1 < n
      → Returns (IsSmallerChild n h i) (smaller_child h (2 * i + 1) n)
  unfolding smaller_child
  smaller_child-IsSmallerChild n h i f p =
      let l = 2 * i + 1 in
      Returns-if (ltb (l + 1) n)
        (λ two. rw (less-ok h (l + 1) l (ground arith) (omega arith)) (
          returns (record {
            inside = ground arith;
            child = ground arith;
            positive = ground arith;
            least = λ c q r e. ground (
              arith,
              less_time_irrefl (wait h c),
              less_time_asymm (wait h (l + 1)) (wait h l),
              (let cs : (c ≡ l) ⊎ (c ≡ l + 1) = omega arith in cs),
            );
          })))
        (λ one. returns (record {
          inside = p;
          child = omega arith;
          positive = omega arith;
          least = λ c q r e.
              ground (arith, less_time_irrefl (wait h c), (let cs : c ≡ l = ground arith in cs));
        }))

  -- What `down` leaves: a heap if the node moved, and else only the edge above it is in doubt.
  pub record Sunk (n i0 : ℕ) (h : DelayedHeapImp A) (r : DelayedHeapImp A × ℕ) : Type ℓ where
    pub lower : i0 ≤ r.1
    pub edges : (c : ℕ) → 0 < c → c < n → (c ≡ r.1 → i0 < r.1) → IsOrdered r.0 c
    pub bridged : IsBridged n r.0 r.1
    pub sifted : Sifted n h r.0

  down_loop_restores :
      (k n i0 : ℕ) (h : DelayedHeapImp A) (i : ℕ)
      → n - i < k
      → DownInv n i0 h i
      → Returns (Sunk n i0 h) (down_loop k h i n)
  unfolding down_loop
  down_loop_restores zero n i0 h i f v = absurd (omega arith)
  down_loop_restores (suc k) n i0 h i f v =
      Returns-if (leb n (2 * i + 1))
        (λ leaf. returns (record {
          lower = v.lower;
          edges = λ c p q t. v.edges c p q (ground arith) t;
          bridged = v.bridged;
          sifted = Sifted-refl n h;
        }))
        (λ inner. Returns-bind (smaller_child-IsSmallerChild n h i v.fits (ground arith)) λ m s.
          let hi : i < len h = omega (arith, v.fits, s.inside, s.child) in
          let hm : m < len h = omega (arith, v.fits, s.inside) in
          rw (less-ok h m i hm hi) (
            Returns-if (less_time (wait h m) (wait h i))
              (λ below. rw (swap-ok h i m hi hm) (
                Returns-map
                  (down_loop_restores k n i0 (swapped h i m) m
                    (omega (arith, s.inside, s.child, s.positive))
                    (swap-DownInv n i0 h i m v s below))
                  (λ r t. record {
                    lower = t.lower;
                    edges = t.edges;
                    bridged = t.bridged;
                    sifted =
                        Sifted-trans
                          (Sifted-swapped n h i m v.fits (omega (arith, s.inside, s.child))
                            s.inside)
                          t.sifted;
                  })))
              (λ settled. returns (record {
                lower = v.lower;
                edges = λ c p q t. elim (ℕ_discrete (parent c) i) [
                  | yes e ↦ rw e (
                      not-less_time_trans (wait h i) (wait h m) (wait h c) settled
                        (s.least c p q e))
                  | no e ↦ v.edges c p q e t
                ];
                bridged = v.bridged;
                sifted = Sifted-refl n h;
              }))))

  -- `down` from `i` answers whether the node moved.
  abbrev pub Downed : ℕ → ℕ → DelayedHeapImp A → DelayedHeapImp A × Bool → Type ℓ
  Downed n i h (h', true) = IsHeap n h' × Sifted n h h'
  Downed n i h (h', false) =
      ((c : ℕ) → 0 < c → c < n → c ≢ i → IsOrdered h' c) × IsBridged n h' i × Sifted n h h'

  pub down_restores :
      (n : ℕ) (h : DelayedHeapImp A) (i : ℕ) → DownInv n i h i → Returns (Downed n i h) (down h i n)
  unfolding down
  down_restores n h i v =
      Returns-bind (down_loop_restores (n + 1) n i h i (omega arith) v) λ (h', i') s.
        elim (Bool-cases (ltb i i')) [
          | inl moved ↦ rw moved (returns (λ c p q. s.edges c p q (λ _. ground arith), s.sifted))
          | inr stayed ↦
              let e : i' ≡ i = omega (arith, s.lower, ltb-false i i' stayed) in
              rw stayed (
                returns (
                  λ c p q r. s.edges c p q (λ x. absurd (r (x ∙ e))),
                  subst (IsBridged n h') e s.bridged,
                  s.sifted,
                ))
        ]

  -- The sifting of Fix and of Remove: down, and up if the node did not move.
  pub fix_restores :
      (n : ℕ) (h : DelayedHeapImp A) (i : ℕ)
      → i < n
      → n ≤ len h
      → ((c : ℕ) → 0 < c → c < n → parent c ≢ i → c ≢ i → IsOrdered h c)
      → IsBridged n h i
      → Returns
          (λ h'. IsHeap n h' × Sifted n h h')
          (down h i n >>= λ (h', moved). if moved then ok h' else up h' i)
  fix_restores n h i hi f edges bridged =
      Returns-bind
        (down_restores n h i (record {
          lower = omega arith;
          fits = f;
          edges = λ c p q r t. edges c p q r (λ e. absurd (omega (arith, t e)));
          bridged = bridged;
        }))
        λ (h', moved). fix_rest h' moved
    where
      fix_rest :
          (h' : DelayedHeapImp A) (moved : Bool)
          → Downed n i h (h', moved)
          → Returns (λ h''. IsHeap n h'' × Sifted n h h'') (if moved then ok h' else up h' i)
      fix_rest h' true s = returns s
      fix_rest h' false (e, b, s) =
          Returns-map
            (up_restores n h' i (record {
              inside = hi;
              fits = omega (arith, f, s.same.size);
              edges = e;
              bridged = b;
            }))
            (λ h'' t. (t.0, Sifted-trans s t.1))
