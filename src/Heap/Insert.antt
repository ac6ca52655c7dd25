-- ===== src/Heap/Insert.antt =====
-- `heap_insert_ovs` of heap.c.
use ovs_sgx.Prelude.{ℕ, ◌+◌, ◌/◌, ◌≤◌, ◌≡◌, ◌≢◌, ◌∙◌, ◌↔◌, refl, arith}
use ovs_sgx.Heap.{Heap, float_up, heap_raw_insert, heap_insert}
use ovs_sgx.Heap.Order.{IsHeap, Holds, Sifted}
use ovs_sgx.Heap.FloatUp.{UpInv, float_up_restores}

-- What `heap_insert_ovs` does to the contents.
pub record Inserted (h : Heap) (node priority : ℕ) (g : Heap) : Type 0 where
  pub heap : IsHeap g
  pub count : g.n ≡ h.n + 1
  pub new : Holds g node × (g.priority node ≡ priority)
  pub others : (x : ℕ) → x ≢ node → (Holds g x ↔ Holds h x) × (g.priority x ≡ h.priority x)

raw_insert-UpInv :
    (h : Heap) (node priority : ℕ)
    → IsHeap h
    → ((i : ℕ) → 1 ≤ i → i ≤ h.n → h.array i ≢ node)
    → UpInv (heap_raw_insert h node priority) (h.n + 1)
unfolding heap_raw_insert
raw_insert-UpInv h node priority v fresh = record {
  near = record {
    indexed = λ i p q. ground (arith, v.indexed i, fresh i);
    low = omega arith;
    high = omega arith;
    edges = λ c p q r s. ground (arith, v.ordered c, fresh c, fresh (c / 2));
    bridged = λ c p q r s t. absurd (omega arith);
  };
  below = λ c p q r. absurd (omega arith);
}

raw_insert-others :
    (h : Heap) (node priority x : ℕ)
    → IsHeap h
    → x ≢ node
    → (Holds (heap_raw_insert h node priority) x ↔ Holds h x)
unfolding heap_raw_insert
raw_insert-others h node priority x v ne = (
  λ p. (ground arith, ground arith, ground arith),
  λ p. (ground arith, ground arith, ground arith),
)

-- Inserting a node that is not in the heap keeps the heap order, and adds exactly that node, with
-- the priority given.
pub heap_insert-Inserted :
    (h : Heap) (node priority : ℕ)
    → IsHeap h
    → ((i : ℕ) → 1 ≤ i → i ≤ h.n → h.array i ≢ node)
    → Inserted h node priority (heap_insert h node priority)
unfolding heap_insert
heap_insert-Inserted h node priority v fresh =
    let place : (heap_raw_insert h node priority).idx node ≡ h.n + 1 =
      unfold heap_raw_insert in ground arith in
    let size : (heap_raw_insert h node priority).n ≡ h.n + 1 = unfold heap_raw_insert in refl in
    let own : (heap_raw_insert h node priority).priority node ≡ priority =
      unfold heap_raw_insert in ground arith in
    let there : (heap_raw_insert h node priority).array (h.n + 1) ≡ node =
      unfold heap_raw_insert in ground arith in
    let s : Sifted 1 (heap_raw_insert h node priority)
        (float_up (heap_raw_insert h node priority)
          ((heap_raw_insert h node priority).idx node)).0 =
      rw place (float_up_restores _ _ (raw_insert-UpInv h node priority v fresh)) in
    record {
      heap = record { indexed = s.indexed; ordered = s.ordered };
      count = s.count ∙ size;
      new = (s.kept node (omega arith, omega arith, rw place there), s.priority node ∙ own);
      others = λ x ne. (
        (
          λ p. (raw_insert-others h node priority x v ne).0 (s.only x p),
          λ p. s.kept x ((raw_insert-others h node priority x v ne).1 p),
        ),
        s.priority x ∙ unfold heap_raw_insert in ground arith,
      );
    }
