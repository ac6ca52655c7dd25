-- ===== src/Heap/FloatUp.antt =====
-- `float_up_ovs` repairs a heap in which one node stands too low.
use ovs_sgx.Prelude.{
  ℕ, zero, suc, ◌/◌, ◌≤◌, ◌<◌, ◌≡◌, ◌≢◌, ◌⊎◌, inl, inr, refl, Bool, true, false, arith, ltb, leb,
  Bool-cases, ltb→lt, leb→le,
}
use ovs_sgx.Heap.{Heap, key, swap_nodes, float_up_loop, float_up}
use ovs_sgx.Heap.Order.{
  IsIndexed, IsBridged, Sifted, Sifted-refl, Sifted-swap, swap_nodes-IsIndexed, key-swap_nodes,
  n-swap_nodes,
}

-- Only the edges at `i` may be out of order.
pub record IsNear (h : Heap) (i : ℕ) : Type 0 where
  pub indexed : IsIndexed h
  pub low : 1 ≤ i
  pub high : i ≤ h.n
  pub edges : (c : ℕ) → 2 ≤ c → c ≤ h.n → c ≢ i → c / 2 ≢ i → key h c ≤ key h (c / 2)
  pub bridged : IsBridged 1 h i

-- Only the edge above `i` may be out of order.
pub record UpInv (h : Heap) (i : ℕ) : Type 0 where
  pub near : IsNear h i
  pub below : (c : ℕ) → 2 ≤ c → c ≤ h.n → c / 2 ≡ i → key h c ≤ key h i

swap_nodes-UpInv :
    (h : Heap) (i : ℕ)
    → IsNear h i
    → 2 ≤ i
    → key h (i / 2) < key h i
    → UpInv (swap_nodes h (i / 2) i) (i / 2)
swap_nodes-UpInv h i v p rising =
    let size = n-swap_nodes h (i / 2) i in
    let at = key-swap_nodes h (i / 2) i in
    record {
      near = record {
        indexed =
            swap_nodes-IsIndexed h (i / 2) i v.indexed (omega arith) (omega (arith, v.high))
              (omega arith) v.high;
        low = omega arith;
        high = omega (arith, v.high, size);
        edges = λ c q r s t. ground (arith, size, at c, at (c / 2), v.edges c, v.bridged c);
        bridged =
            λ c q r s t u. ground (arith, size, at c, at (i / 2 / 2), v.edges c, v.edges (i / 2));
      };
      below = λ c q r s. ground (arith, size, at c, at (i / 2), v.edges c, v.bridged c);
    }

pub float_up_loop_restores :
    (k : ℕ) (h : Heap) (i : ℕ) (moved : Bool)
    → i ≤ k
    → UpInv h i
    → Sifted 1 h (float_up_loop k h i moved).0
unfolding float_up_loop
float_up_loop_restores zero h i moved f v = absurd (omega (arith, v.near.low))
float_up_loop_restores (suc k) h i moved f v = elim (Bool-cases (ltb 1 i)) [
  | inr e ↦
      rw e (Sifted-refl 1 h v.near.indexed (λ c p q r. ground (arith, v.near.edges c, v.below c)))
  | inl e ↦ elim (Bool-cases (leb (key h i) (key h (i / 2)))) [
    | inl settled ↦
        rw (e, settled)
          (Sifted-refl 1 h v.near.indexed (λ c p q r. ground (arith, v.near.edges c, v.below c)))
    | inr rising ↦
        rw (e, rising)
          (Sifted-swap h (i / 2) i v.near.indexed (ground arith) (ground (arith, v.near.high))
            (ground arith) v.near.high 1 _
            (float_up_loop_restores k (swap_nodes h (i / 2) i) (i / 2) true
              (omega (arith, ltb→lt 1 i e))
              (swap_nodes-UpInv h i v.near (ground arith) (ground arith))))
  ]
]

float_up_loop_moved : (k : ℕ) (h : Heap) (i : ℕ) → (float_up_loop k h i true).1 ≡ true
unfolding float_up_loop
float_up_loop_moved zero h i = refl
float_up_loop_moved (suc k) h i =
    ground (arith, float_up_loop_moved k (swap_nodes h (i / 2) i) (i / 2))

-- `float_up_ovs` repairs a heap in which one node stands too low.
pub float_up_restores : (h : Heap) (i : ℕ) → UpInv h i → Sifted 1 h (float_up h i).0
unfolding float_up
float_up_restores h i v = float_up_loop_restores i h i false (omega arith) v

-- Where both sides of `i` may be wrong, `float_up_ovs` either moves the node and repairs the heap,
-- or leaves the heap alone with the edge above `i` in order.
pub float_up_cases :
    (h : Heap) (i : ℕ)
    → IsNear h i
    → (((float_up h i).1 ≡ true) × Sifted 1 h (float_up h i).0)
      ⊎ (((float_up h i).1 ≡ false) × ((float_up h i).0 ≡ h) × (2 ≤ i → key h i ≤ key h (i / 2)))
unfolding float_up float_up_loop
float_up_cases h zero v = absurd (omega (arith, v.low))
float_up_cases h (suc i) v = elim (Bool-cases (ltb 1 (suc i))) [
  | inr e ↦ rw e (inr (refl, refl, λ p. ground arith))
  | inl e ↦ elim (Bool-cases (leb (key h (suc i)) (key h (suc i / 2)))) [
    | inl settled ↦ rw (e, settled) (inr (refl, refl, λ p. leb→le _ _ settled))
    | inr rising ↦
        rw (e, rising)
          (inl (
            float_up_loop_moved i _ _,
            Sifted-swap h (suc i / 2) (suc i) v.indexed (ground arith) (ground (arith, v.high))
                (ground arith) v.high 1 _
                (float_up_loop_restores i (swap_nodes h (suc i / 2) (suc i)) (suc i / 2) true
                  (omega (arith, ltb→lt 1 (suc i) e))
                  (swap_nodes-UpInv h (suc i) v (ground arith) (ground arith))),
          ))
  ]
]
