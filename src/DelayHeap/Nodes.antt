-- ===== src/DelayHeap/Nodes.antt =====
-- delayHeapNode and delayedHeapImp: a slice of pointers to nodes, and the memory they point to.
use eth2_validator.Base.{
  ℕ, suc, ◌-◌, Bool, true, false, List, [], ◌∷◌, ◌++◌, String, ltb, nat_beq, ℤ, pos, negsuc, Go, ok,
  panic, ◌>>=◌, or_panic, if◌then◌else◌,
}
use eth2_validator.Array
use eth2_validator.Array.{length, get_elem?}

-- A time.Time in nanoseconds after January 1, year 1, UTC, which is the zero Time.
abbrev pub Time : Type 0
Time = ℕ

abbrev pub is_zero : Time → Bool
is_zero t = nat_beq t 0

-- The interface HeapNode: `ID()`, and the nil interface value.
pub record HeapNode {ℓ} (A : Type ℓ) : Type ℓ where
  pub id : A → String
  pub nil : A

pub record DelayHeapNode {ℓ} (A : Type ℓ) : Type ℓ where
  pub node : A
  pub wait_until : Time
  pub index : ℤ

-- `slots` is the slice; a pointer is a number, and `store` has the node it points to. The pointers
-- from `fresh` on are not yet allocated.
pub record DelayedHeapImp {ℓ} (A : Type ℓ) : Type ℓ where
  pub slots : List ℕ
  pub store : ℕ → DelayHeapNode A
  pub fresh : ℕ

-- The comparison of Less: a zero time is later than every other.
unfoldable pub less_time : Time → Time → Bool
less_time a b = if is_zero a then false else if is_zero b then true else ltb a b

module _ {ℓ} {A : Type ℓ} where
  -- `h[i]`, the pointer.
  unfoldable pub load : DelayedHeapImp A → ℕ → Go ℕ
  load h i = or_panic (get_elem? h.slots i)

  unfoldable pub len : DelayedHeapImp A → ℕ
  len h = length h.slots

  unfoldable pub less : DelayedHeapImp A → ℕ → ℕ → Go Bool
  unfolding load
  less h i j = do
    p ← load h i
    q ← load h j
    ok (less_time (h.store p).wait_until (h.store q).wait_until)

  -- A write through the pointer `p`.
  unfoldable pub write : DelayedHeapImp A → ℕ → DelayHeapNode A → DelayedHeapImp A
  write h p n = record h { store = λ q. if nat_beq p q then n else h.store q }

  -- `p.index = i`
  unfoldable pub set_index : DelayedHeapImp A → ℕ → ℤ → DelayedHeapImp A
  unfolding write
  set_index h p i = write h p (record (h.store p) { index = i })

  unfoldable pub swap : DelayedHeapImp A → ℕ → ℕ → Go (DelayedHeapImp A)
  unfolding load set_index
  swap h i j = do
    p ← load h i
    q ← load h j
    let h' = record h { slots = Array.set (Array.set h.slots i q) j p }
    p' ← load h' i
    let h'' = set_index h' p' (pos i)
    q' ← load h'' j
    ok (set_index h'' q' (pos j))

  -- delayedHeapImp.Push, of a pointer.
  unfoldable pub append : DelayedHeapImp A → ℕ → DelayedHeapImp A
  unfolding set_index
  append h p =
      let h' = set_index h p (pos (length h.slots)) in record h' { slots = h.slots ++ p ∷ [] }

  -- delayedHeapImp.Pop: the new slice, and the pointer that stood last.
  unfoldable pub drop_last : DelayedHeapImp A → Go (DelayedHeapImp A × ℕ)
  unfolding load set_index
  drop_last h =
      let n = length h.slots in
      let last : Go (DelayedHeapImp A × ℕ) = do
        p ← load h (n - 1)
        let h' = set_index h p (negsuc 0)
        ok (record h' { slots = Array.take (n - 1) h.slots }, p)
      in if nat_beq n 0 then panic else last

  -- `&delayHeapNode{...}`
  unfoldable pub alloc : DelayedHeapImp A → DelayHeapNode A → DelayedHeapImp A × ℕ
  unfolding write
  alloc h n = (record (write h h.fresh n) { fresh = suc h.fresh }, h.fresh)

  unfoldable pub empty : ⦃i : HeapNode A⦄ → DelayedHeapImp A
  empty ⦃i⦄ = record {
    slots = [];
    store = λ _. record { node = i.nil; wait_until = 0; index = pos 0 };
    fresh = 0;
  }
