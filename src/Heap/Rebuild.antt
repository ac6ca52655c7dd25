-- ===== src/Heap/Rebuild.antt =====
-- `heap_rebuild_ovs` of heap.c and `heap_max_ovs` of heap.h.
use ovs_sgx.Prelude.{ℕ, zero, suc, ◌/◌, ◌≤◌, ◌∙◌, ap, arith}
use ovs_sgx.Heap.{Heap, float_down, heap_rebuild_from, heap_rebuild, heap_max}
use ovs_sgx.Heap.Order.{IsIndexed, IsHeap, IsOrderedFrom, Holds, Sifted, Sifted-refl, root-ge}
use ovs_sgx.Heap.FloatDown.{float_down_restores}

rebuild_from-Sifted :
    (i : ℕ) (h : Heap)
    → i ≤ h.n
    → IsIndexed h
    → IsOrderedFrom (suc i) h
    → Sifted 1 h (heap_rebuild_from i h)
unfolding heap_rebuild_from
rebuild_from-Sifted zero h f ix o = Sifted-refl 1 h ix o
rebuild_from-Sifted (suc i) h f ix o =
    let s = float_down_restores (suc i) h (suc i) (record {
      indexed = ix;
      low = omega arith;
      high = f;
      edges = λ c p q r t. o c p q (omega arith);
      bridged = λ c p q r t u. absurd (omega arith);
    }) in
    let rest =
      rebuild_from-Sifted i (float_down h (suc i)) (omega (arith, s.count)) s.indexed s.ordered in
    record {
      indexed = rest.indexed;
      ordered = rest.ordered;
      count = rest.count ∙ s.count;
      priority = λ x. rest.priority x ∙ s.priority x;
      kept = λ x p. rest.kept x (s.kept x p);
      only = λ x p. s.only x (rest.only x p);
    }

-- `heap_rebuild_ovs` orders any indexed array, and keeps its nodes and their priorities.
pub heap_rebuild-Sifted : (h : Heap) → IsIndexed h → Sifted 1 h (heap_rebuild h)
unfolding heap_rebuild
heap_rebuild-Sifted h ix =
    rebuild_from-Sifted (h.n / 2) h (omega arith) ix (λ c p q r. absurd (omega arith))

-- In a heap that is not empty, `heap_max_ovs` is a node of the heap, with at least the priority of
-- any node of the heap.
pub heap_max-greatest :
    (h : Heap) (x : ℕ)
    → IsHeap h
    → 1 ≤ h.n
    → Holds h x
    → Holds h (heap_max h) × (h.priority x ≤ h.priority (heap_max h))
unfolding heap_max
heap_max-greatest h x v p s = (
  (
    omega (arith, v.indexed 1),
    omega (arith, v.indexed 1),
    ap h.array (v.indexed 1 (omega arith) p),
  ),
  ground (arith, root-ge h (h.idx x) v s.0 s.1),
)
