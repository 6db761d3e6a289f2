-- ===== src/DelayHeap.antt =====
-- internal/delayheap/delayheap.go. `Nodes` has the memory and the methods of delayedHeapImp,
-- `Sift` the functions of container/heap that the file calls. Here are the methods of DelayHeap;
-- a method that changes the heap returns the new one beside its results. `Moves`, `Order` and
-- `Loops` are about the sifting, `Valid`, `Insert`, `Cut` and `Remove` about the methods.
pub mod Nodes
pub mod Sift
pub mod Moves
pub mod Order
pub mod Loops
pub mod Valid
pub mod Insert
pub mod Cut
pub mod Last
pub mod Remove
pub mod Update
use eth2_validator.Base.{
  ℕ, zero, suc, Bool, true, false, [], String, Option, none, some, nat_beq, ℤ, pos, negsuc, Go, ok,
  panic, ◌>>=◌, if◌then◌else◌, string_eq,
}
use eth2_validator.GoMap
use eth2_validator.GoMap.{Map}
use Nodes.{Time, HeapNode, DelayHeapNode, DelayedHeapImp, len, load, write, alloc, empty}
use Sift.{heap_push, heap_pop, heap_fix, heap_remove}

pub record DelayHeap {ℓ} (A : Type ℓ) : Type ℓ where
  pub index : Map String ℕ
  pub heap : DelayedHeapImp A

-- The errors of Push, Update and Remove, with the id that they name.
pub data HeapError : Type 0 where
  already_exists not_found : String → HeapError

-- heap.Fix and heap.Remove at an `int` index. At -1 Fix compares nothing and changes nothing, at
-- any lower index Less panics; Remove exchanges the slots first, and panics.
unfoldable pub fix_at {ℓ} : {A : Type ℓ} → DelayedHeapImp A → ℤ → Go (DelayedHeapImp A)
fix_at h (pos i) = heap_fix h i
fix_at h (negsuc zero) = ok h
fix_at h (negsuc (suc k)) = panic

unfoldable pub remove_at {ℓ} : {A : Type ℓ} → DelayedHeapImp A → ℤ → Go (DelayedHeapImp A × ℕ)
remove_at h (pos i) = heap_remove h i
remove_at h (negsuc k) = panic

module _ {ℓ} {A : Type ℓ} ⦃node : HeapNode A⦄ where
  unfoldable pub new : DelayHeap A
  new = record { index = []; heap = empty }

  unfoldable pub push : DelayHeap A → A → Time → Go (DelayHeap A × Option HeapError)
  push d x next = elim (GoMap.lookup (node.id x) d.index) [
    | some _ ↦ ok (d, some (already_exists (node.id x)))
    | none ↦
        let (h, p) = alloc d.heap (record { node = x; wait_until = next; index = pos 0 }) in
        heap_push h p >>= λ h'.
        ok (record { index = GoMap.insert (node.id x) p d.index; heap = h' }, none)
  ]

  -- `nil` is `none`, and a node is what the returned pointer leads to.
  unfoldable pub pop : DelayHeap A → Go (DelayHeap A × Option (DelayHeapNode A))
  pop d =
      let taken = heap_pop d.heap >>= λ (h, p).
      let n = h.store p in
      ok (record { index = GoMap.delete (node.id n.node) d.index; heap = h }, some n) in
      if nat_beq (len d.heap) 0 then ok (d, none) else taken

  unfoldable pub peek : DelayHeap A → Go (Option (DelayHeapNode A))
  peek d =
      let first = load d.heap 0 >>= λ p. ok (some (d.heap.store p)) in
      if nat_beq (len d.heap) 0 then ok none else first

  unfoldable pub contains_id : DelayHeap A → String → Bool
  contains_id d id = elim (GoMap.lookup id d.index) [ some _ ↦ true | none ↦ false ]

  unfoldable pub contains : DelayHeap A → A → Bool
  contains d x = contains_id d (node.id x)

  unfoldable pub update : DelayHeap A → A → Time → Go (DelayHeap A × Option HeapError)
  update d x wait_until = elim (GoMap.lookup (node.id x) d.index) [
    | some p ↦
        let old = d.heap.store p in
        let h = write d.heap p (record old { node = x; wait_until = wait_until }) in
        fix_at h old.index >>= λ h'. ok (record d { heap = h' }, none)
    | none ↦ ok (d, some (not_found (node.id x)))
  ]

  unfoldable pub remove : DelayHeap A → A → Go (DelayHeap A × Option HeapError)
  remove d x = elim (GoMap.lookup (node.id x) d.index) [
    | some p ↦ remove_at d.heap (d.heap.store p).index >>= λ (h, _).
        ok (record { index = GoMap.delete (node.id x) d.index; heap = h }, none)
    | none ↦ ok (d, some (not_found (node.id x)))
  ]

  unfoldable pub length : DelayHeap A → ℕ
  length d = len d.heap
