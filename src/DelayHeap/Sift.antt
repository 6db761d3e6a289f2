-- ===== src/DelayHeap/Sift.antt =====
-- up, down, Push, Pop, Remove and Fix of Go's container/heap, over delayedHeapImp.
use eth2_validator.Base.{
  ℕ, zero, suc, ◌+◌, ◌-◌, ◌*◌, ◌/◌, Bool, ltb, leb, nat_beq, Go, ok, out_of_fuel, ◌>>=◌,
  if◌then◌else◌,
}
use eth2_validator.DelayHeap.Nodes.{DelayedHeapImp, len, less, swap, append, drop_last}

-- `(j - 1) / 2`, which truncates -1/2 to 0 at the root.
abbrev pub parent : ℕ → ℕ
parent j = (j - 1) / 2

module _ {ℓ} {A : Type ℓ} where
  unfoldable pub up_loop : ℕ → DelayedHeapImp A → ℕ → Go (DelayedHeapImp A)
  up_loop zero h j = out_of_fuel
  up_loop (suc k) h j =
      let rise = swap h (parent j) j >>= λ h'. up_loop k h' (parent j) in
      let step = less h j (parent j) >>= λ below. if below then rise else ok h in
      if nat_beq (parent j) j then ok h else step

  -- Each round goes to the parent, so that `j + 1` rounds are enough.
  unfoldable pub up : DelayedHeapImp A → ℕ → Go (DelayedHeapImp A)
  up h j = up_loop (j + 1) h j

  -- The child of the two that sifts up; the second is read only if it lies below `n`.
  unfoldable pub smaller_child : DelayedHeapImp A → ℕ → ℕ → Go ℕ
  smaller_child h j1 n =
      let right = less h (j1 + 1) j1 >>= λ below. ok (if below then j1 + 1 else j1) in
      if ltb (j1 + 1) n then right else ok j1

  -- With the last value of the loop's variable `i`.
  unfoldable pub down_loop : ℕ → DelayedHeapImp A → ℕ → ℕ → Go (DelayedHeapImp A × ℕ)
  down_loop zero h i n = out_of_fuel
  down_loop (suc k) h i n =
      let step : Go (DelayedHeapImp A × ℕ) = do
        j ← smaller_child h (2 * i + 1) n
        below ← less h j i
        let sink = swap h i j >>= λ h'. down_loop k h' j n
        if below then sink else ok (h, i)
      in if leb n (2 * i + 1) then ok (h, i) else step

  -- Whether the element moved. Each round goes to a child, so that `n + 1` rounds are enough.
  unfoldable pub down : DelayedHeapImp A → ℕ → ℕ → Go (DelayedHeapImp A × Bool)
  down h i0 n = down_loop (n + 1) h i0 n >>= λ (h', i). ok (h', ltb i0 i)

  -- heap.Push
  unfoldable pub heap_push : DelayedHeapImp A → ℕ → Go (DelayedHeapImp A)
  heap_push h p = let h' = append h p in up h' (len h' - 1)

  -- heap.Pop
  unfoldable pub heap_pop : DelayedHeapImp A → Go (DelayedHeapImp A × ℕ)
  heap_pop h = do let n = len h - 1; h' ← swap h 0 n; (h'', moved) ← down h' 0 n; drop_last h''

  -- heap.Fix
  unfoldable pub heap_fix : DelayedHeapImp A → ℕ → Go (DelayedHeapImp A)
  heap_fix h i = do (h', moved) ← down h i (len h); if moved then ok h' else up h' i

  -- The part of heap.Remove before the last element is cut off.
  unfoldable pub move_last : DelayedHeapImp A → ℕ → ℕ → Go (DelayedHeapImp A)
  move_last h i n =
      let moving : Go (DelayedHeapImp A) = do
        h' ← swap h i n
        (h'', moved) ← down h' i n
        if moved then ok h'' else up h'' i
      in if nat_beq n i then ok h else moving

  -- heap.Remove
  unfoldable pub heap_remove : DelayedHeapImp A → ℕ → Go (DelayedHeapImp A × ℕ)
  heap_remove h i = move_last h i (len h - 1) >>= drop_last
