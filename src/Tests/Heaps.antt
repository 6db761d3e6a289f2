-- ===== src/Tests/Heaps.antt =====
-- A delay heap of two strings, each its own id.
use eth2_validator.Base.{
  ◌<◌, ◌≡◌, refl, String, Option, none, some, Go, ok, panic, out_of_fuel, Returns, Returns-at,
  string_eq, arith,
}
use eth2_validator.GoMap
use eth2_validator.DelayHeap
use eth2_validator.DelayHeap.{DelayHeap, HeapError}
use eth2_validator.DelayHeap.Nodes.{
  HeapNode, DelayHeapNode, less_time, empty, alloc, append, load, write, set_index, len, less, swap,
}
use eth2_validator.DelayHeap.Sift.{heap_push, up, up_loop}
use eth2_validator.DelayHeap.Valid.{IsValid, new-IsValid}
use eth2_validator.DelayHeap.Insert.{Pushed, push_correct}
use eth2_validator.DelayHeap.Remove.{Popped, Removed, pop_correct, remove_correct}

instance abbrev text_node : HeapNode String
text_node = record { id = λ s. s; nil = "" }

-- The heap that a call of Push left.
abbrev left : Go (DelayHeap String × Option HeapError) → DelayHeap String
left (ok (d, e)) = d
left panic = DelayHeap.new
left out_of_fuel = DelayHeap.new

abbrev one : DelayHeap String
one = left (DelayHeap.push DelayHeap.new "b" 20)

abbrev two : DelayHeap String
two = left (DelayHeap.push one "a" 10)

new-empty : GoMap.lookup "b" (DelayHeap.new {A = String}).index ≡ none
unfolding DelayHeap.new GoMap.lookup
new-empty = refl

one_run : DelayHeap.push DelayHeap.new "b" 20 ≡ ok (one, none)
unfolding DelayHeap.new DelayHeap.push GoMap.lookup GoMap.insert empty alloc append heap_push up
    up_loop len less swap load write set_index
one_run = refl

one-IsValid : IsValid one
one-IsValid =
    (Returns-at (one, none) (push_correct DelayHeap.new "b" 20 new-IsValid.0 new-empty)
      one_run).valid

one-no_a : GoMap.lookup "a" one.index ≡ none
unfolding DelayHeap.new DelayHeap.push GoMap.lookup GoMap.insert empty alloc append heap_push up
    up_loop len less swap load write set_index
one-no_a = refl

two_run : DelayHeap.push one "a" 10 ≡ ok (two, none)
unfolding less_time DelayHeap.new DelayHeap.push GoMap.lookup GoMap.insert empty alloc append
    heap_push up up_loop len less swap load write set_index
two_run = refl

two-IsValid : IsValid two
two-IsValid = (Returns-at (two, none) (push_correct one "a" 10 one-IsValid one-no_a) two_run).valid

two-some : 0 < DelayHeap.length two
unfolding DelayHeap.length less_time DelayHeap.new DelayHeap.push GoMap.lookup GoMap.insert empty
    alloc append heap_push up up_loop len less swap load write set_index
two-some = omega arith

two-a : GoMap.lookup "a" two.index ≡ some 1
unfolding less_time DelayHeap.new DelayHeap.push GoMap.lookup GoMap.insert empty alloc append
    heap_push up up_loop len less swap load write set_index
two-a = refl

push_correct_example : Returns (Pushed one "a" 10) (DelayHeap.push one "a" 10)
push_correct_example = push_correct one "a" 10 one-IsValid one-no_a

pop_correct_example :
    Returns
      (λ (d, o). (m : DelayHeapNode String) × (o ≡ some m) × Popped two m d)
      (DelayHeap.pop two)
pop_correct_example = pop_correct two two-IsValid two-some

remove_correct_example : Returns (Removed two "a") (DelayHeap.remove two "a")
remove_correct_example = remove_correct two "a" 1 two-IsValid two-a
