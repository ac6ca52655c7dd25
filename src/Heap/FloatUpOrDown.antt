-- ===== src/Heap/FloatUpOrDown.antt =====
-- `float_up_or_down_ovs` of heap.c repairs a heap in which one node is out of place.
use ovs_sgx.Prelude.{ℕ, ◌/◌, ◌≤◌, ◌≡◌, inl, inr, arith, ◌==◌, Bool-cases}
use ovs_sgx.Heap.{Heap, key, float_up_or_down}
use ovs_sgx.Heap.Order.{Sifted}
use ovs_sgx.Heap.FloatUp.{IsNear, float_up_cases}
use ovs_sgx.Heap.FloatDown.{DownInv, float_down_restores}

near-DownInv : (h : Heap) (i : ℕ) → IsNear h i → (2 ≤ i → key h i ≤ key h (i / 2)) → DownInv 1 h i
near-DownInv h i v up = record {
  indexed = v.indexed;
  low = v.low;
  high = v.high;
  edges = λ c p q r s. elim (Bool-cases (c == i)) [
    | inl e ↦ let e' : c ≡ i = ground arith in rw e' (up (ground arith))
    | inr e ↦ v.edges c p q (ground arith) s
  ];
  bridged = v.bridged;
}

-- `float_up_or_down_ovs` repairs a heap in which one node may stand too low or too high.
pub float_up_or_down_restores : (h : Heap) (i : ℕ) → IsNear h i → Sifted 1 h (float_up_or_down h i)
unfolding float_up_or_down
float_up_or_down_restores h i v = elim (float_up_cases h i v) [
  | inl (moved, s) ↦ rw moved s
  | inr (still, same, up) ↦ rw (still, same) (float_down_restores 1 h i (near-DownInv h i v up))
]
