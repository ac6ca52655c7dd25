-- ===== src/Heap/Examples.antt =====
-- Runs of the heap, and its theorems at these heaps.
use ovs_sgx.Prelude.{◌≤◌, ◌≡◌, refl, arith, [], ◌∷◌, get_or}
use ovs_sgx.Heap.{Heap, heap_insert, heap_remove, heap_change, heap_max, heap_rebuild, heap_pop}
use ovs_sgx.Heap.Order.{IsHeap, IsIndexed, Holds, Sifted}
use ovs_sgx.Heap.Insert.{Inserted, heap_insert-Inserted}
use ovs_sgx.Heap.Remove.{Removed, heap_remove-Removed}
use ovs_sgx.Heap.Change.{Changed, heap_change-Changed}
use ovs_sgx.Heap.Rebuild.{heap_rebuild-Sifted, heap_max-greatest}

-- Nodes 5, 6 and 7 at positions 1, 2 and 3.
abbrev three : Heap
three = record {
  array = λ i. get_or (0 ∷ 5 ∷ 6 ∷ 7 ∷ []) i 0;
  n = 3;
  allocated = 4;
  idx = λ x. get_or (0 ∷ 0 ∷ 0 ∷ 0 ∷ 0 ∷ 1 ∷ 2 ∷ 3 ∷ []) x 0;
  priority = λ x. get_or (0 ∷ 0 ∷ 0 ∷ 0 ∷ 0 ∷ 90 ∷ 40 ∷ 60 ∷ []) x 0;
}

-- The same nodes out of order.
abbrev unordered : Heap
unordered = record three { priority = λ x. get_or (0 ∷ 0 ∷ 0 ∷ 0 ∷ 0 ∷ 10 ∷ 40 ∷ 60 ∷ []) x 0 }

insert-max : heap_max (heap_insert three 8 95) ≡ 8
unfolding heap_max heap_insert
insert-max = refl

remove-max : heap_max (heap_remove three 5) ≡ 7
unfolding heap_max heap_remove
remove-max = refl

change-max : heap_max (heap_change three 6 99) ≡ 6
unfolding heap_max heap_change
change-max = refl

rebuild-max : heap_max (heap_rebuild unordered) ≡ 7
unfolding heap_max heap_rebuild
rebuild-max = refl

-- `heap_pop_ovs` does not return the maximum.
pop-last : (heap_pop three).0 ≡ 7
unfolding heap_pop
pop-last = refl

three-IsIndexed : IsIndexed three
three-IsIndexed i p q = ground arith

three-IsHeap : IsHeap three
three-IsHeap = record { indexed = three-IsIndexed; ordered = λ c p q r. ground arith }

heap_insert-Inserted_example : Inserted three 8 95 (heap_insert three 8 95)
heap_insert-Inserted_example = heap_insert-Inserted three 8 95 three-IsHeap (λ i p q. ground arith)

heap_remove-Removed_example : Removed three 5 (heap_remove three 5)
heap_remove-Removed_example =
    heap_remove-Removed three 5 three-IsHeap (omega arith, omega arith, refl)

heap_change-Changed_example : Changed three 6 99 (heap_change three 6 99)
heap_change-Changed_example =
    heap_change-Changed three 6 99 three-IsHeap (omega arith, omega arith, refl)

heap_rebuild-Sifted_example : Sifted 1 unordered (heap_rebuild unordered)
heap_rebuild-Sifted_example = heap_rebuild-Sifted unordered three-IsIndexed

heap_max-greatest_example :
    Holds three (heap_max three) × (three.priority 6 ≤ three.priority (heap_max three))
heap_max-greatest_example =
    heap_max-greatest three 6 three-IsHeap (omega arith) (omega arith, omega arith, refl)
