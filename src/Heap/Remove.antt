-- ===== src/Heap/Remove.antt =====
-- `heap_remove_ovs` of heap.c.
use ovs_sgx.Prelude.{
  ℕ, ◌+◌, ◌≤◌, ◌<◌, ◌≡◌, ◌≢◌, ◌∙◌, ◌↔◌, inl, inr, arith, leb, Bool-cases, leb→le, leb→gt,
}
use ovs_sgx.Heap.{Heap, heap_raw_remove, heap_remove}
use ovs_sgx.Heap.Order.{IsIndexed, IsHeap, IsOrderedFrom, Holds, Sifted, Sifted-refl}
use ovs_sgx.Heap.FloatUp.{IsNear}
use ovs_sgx.Heap.FloatUpOrDown.{float_up_or_down_restores}

-- What `heap_remove_ovs` does to the contents.
pub record Removed (h : Heap) (node : ℕ) (g : Heap) : Type 0 where
  pub heap : IsHeap g
  pub count : g.n + 1 ≡ h.n
  pub gone : Holds g node → ⊥
  pub others : (x : ℕ) → x ≢ node → Holds g x ↔ Holds h x
  pub priority : (x : ℕ) → g.priority x ≡ h.priority x

raw_remove-contents :
    (h : Heap) (node : ℕ)
    → IsHeap h
    → Holds h node
    → (Holds (heap_raw_remove h node) node → ⊥)
      × ((x : ℕ) → x ≢ node → Holds (heap_raw_remove h node) x ↔ Holds h x)
      × ((heap_raw_remove h node).n + 1 ≡ h.n)
      × IsIndexed (heap_raw_remove h node)
unfolding heap_raw_remove
raw_remove-contents h node v inside = (
  λ p. ground (arith, v.indexed h.n),
  λ x ne. (
    λ p. (
      ground (arith, v.indexed h.n),
      ground (arith, v.indexed h.n),
      ground (arith, v.indexed h.n),
    ),
    λ p. (
      ground (arith, v.indexed h.n),
      ground (arith, v.indexed h.n),
      ground (arith, v.indexed h.n),
    ),
  ),
  ground arith,
  λ i p q. ground (arith, v.indexed h.n, v.indexed i),
)

raw_remove-IsNear :
    (h : Heap) (node : ℕ)
    → IsHeap h
    → Holds h node
    → h.idx node ≤ (heap_raw_remove h node).n
    → IsNear (heap_raw_remove h node) (h.idx node)
unfolding heap_raw_remove
raw_remove-IsNear h node v inside p = record {
  indexed = (raw_remove-contents h node v inside).3;
  low = inside.0;
  high = p;
  edges = λ c q r s t. ground (arith, v.ordered c);
  bridged = λ c q r s t u. ground (arith, v.ordered c, v.ordered (h.idx node));
}

raw_remove-ordered :
    (h : Heap) (node : ℕ)
    → IsHeap h
    → (heap_raw_remove h node).n < h.idx node
    → IsOrderedFrom 1 (heap_raw_remove h node)
unfolding heap_raw_remove
raw_remove-ordered h node v p c q r s = ground (arith, v.ordered c)

raw_remove-priority : (h : Heap) (node x : ℕ) → (heap_raw_remove h node).priority x ≡ h.priority x
unfolding heap_raw_remove
raw_remove-priority h node x = ground arith

heap_remove-Sifted :
    (h : Heap) (node : ℕ)
    → IsHeap h
    → Holds h node
    → Sifted 1 (heap_raw_remove h node) (heap_remove h node)
unfolding heap_remove
heap_remove-Sifted h node v inside =
    elim (Bool-cases (leb (h.idx node) (heap_raw_remove h node).n)) [
      | inl e ↦
          rw e (float_up_or_down_restores _ _ (raw_remove-IsNear h node v inside (leb→le _ _ e)))
      | inr e ↦ rw e (
          Sifted-refl 1 _ (raw_remove-contents h node v inside).3
            (raw_remove-ordered h node v (leb→gt _ _ e)))
    ]

-- Removing a node of the heap keeps the heap order, takes out exactly that node, and changes no
-- priority.
pub heap_remove-Removed :
    (h : Heap) (node : ℕ) → IsHeap h → Holds h node → Removed h node (heap_remove h node)
heap_remove-Removed h node v inside =
    let s = heap_remove-Sifted h node v inside in
    let (gone, others, count, indexed) = raw_remove-contents h node v inside in
    record {
      heap = record { indexed = s.indexed; ordered = s.ordered };
      count = omega (arith, s.count);
      gone = λ p. gone (s.only node p);
      others = λ x ne. (λ p. (others x ne).0 (s.only x p), λ p. s.kept x ((others x ne).1 p));
      priority = λ x. s.priority x ∙ raw_remove-priority h node x;
    }
