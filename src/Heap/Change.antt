-- ===== src/Heap/Change.antt =====
-- `heap_change_ovs` of heap.c.
use ovs_sgx.Prelude.{ℕ, ◌/◌, ◌≡◌, ◌≢◌, ◌∙◌, ◌↔◌, refl, arith}
use ovs_sgx.Heap.{Heap, float_up_or_down, heap_raw_change, heap_change}
use ovs_sgx.Heap.Order.{IsHeap, Holds, Sifted}
use ovs_sgx.Heap.FloatUp.{IsNear}
use ovs_sgx.Heap.FloatUpOrDown.{float_up_or_down_restores}

-- What `heap_change_ovs` does to the contents.
pub record Changed (h : Heap) (node priority : ℕ) (g : Heap) : Type 0 where
  pub heap : IsHeap g
  pub count : g.n ≡ h.n
  pub members : (x : ℕ) → Holds g x ↔ Holds h x
  pub own : g.priority node ≡ priority
  pub others : (x : ℕ) → x ≢ node → g.priority x ≡ h.priority x

raw_change-IsNear :
    (h : Heap) (node priority : ℕ)
    → IsHeap h
    → Holds h node
    → IsNear (heap_raw_change h node priority) (h.idx node)
unfolding heap_raw_change
raw_change-IsNear h node priority v inside = record {
  indexed = v.indexed;
  low = inside.0;
  high = inside.1;
  edges = λ c p q r s. ground (arith, v.indexed c, v.indexed (c / 2), v.ordered c);
  bridged = λ c p q r s t.
      ground (arith, v.indexed c, v.indexed (h.idx node / 2), v.ordered c, v.ordered (h.idx node));
}

-- Changing the priority of a node of the heap keeps the heap order and the contents, and changes
-- no other priority.
pub heap_change-Changed :
    (h : Heap) (node priority : ℕ)
    → IsHeap h
    → Holds h node
    → Changed h node priority (heap_change h node priority)
unfolding heap_change
heap_change-Changed h node priority v inside =
    let same : (heap_raw_change h node priority).idx node ≡ h.idx node =
      unfold heap_raw_change in refl in
    let s : Sifted 1 (heap_raw_change h node priority) (
        float_up_or_down (heap_raw_change h node priority)
          ((heap_raw_change h node priority).idx node)) =
      rw same (float_up_or_down_restores _ _ (raw_change-IsNear h node priority v inside)) in
    record {
      heap = record { indexed = s.indexed; ordered = s.ordered };
      count = s.count ∙ unfold heap_raw_change in refl;
      members = λ x.
          (λ p. unfold heap_raw_change in s.only x p, λ p. s.kept x (unfold heap_raw_change in p));
      own = s.priority node ∙ unfold heap_raw_change in ground arith;
      others = λ x ne. s.priority x ∙ unfold heap_raw_change in ground arith;
    }
