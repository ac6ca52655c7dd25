-- ===== src/Heap/FloatDown.antt =====
-- `float_down_ovs` repairs a heap in which one node stands too high.
use ovs_sgx.Prelude.{
  ℕ, zero, suc, ◌+◌, ◌*◌, ◌/◌, ◌≤◌, ◌<◌, ◌≡◌, ◌≢◌, ◌⊎◌, inl, inr, arith, ltb, ◌==◌, Bool-cases,
  ltb→ge,
}
use ovs_sgx.Heap.{Heap, key, swap_nodes, max_child, float_down_loop, float_down}
use ovs_sgx.Heap.Order.{
  IsIndexed, IsBridged, Sifted, Sifted-refl, Sifted-swap, swap_nodes-IsIndexed, key-swap_nodes,
  n-swap_nodes,
}

-- Only the edges below `i` may be out of order, among those from `lo`.
pub record DownInv (lo : ℕ) (h : Heap) (i : ℕ) : Type 0 where
  pub indexed : IsIndexed h
  pub low : 1 ≤ i
  pub high : i ≤ h.n
  pub edges : (c : ℕ) → 2 ≤ c → c ≤ h.n → lo ≤ c / 2 → c / 2 ≢ i → key h c ≤ key h (c / 2)
  pub bridged : IsBridged lo h i

-- What the comparisons of one round select.
pub record IsMaxChild (h : Heap) (i m : ℕ) : Type 0 where
  pub inside : (m ≡ i) ⊎ ((m ≤ h.n) × (m / 2 ≡ i) × (2 ≤ m) × (key h i < key h m))
  pub greatest : (c : ℕ) → 2 ≤ c → c ≤ h.n → c / 2 ≡ i → key h c ≤ key h m

max_child_lem : (h : Heap) (i : ℕ) → 1 ≤ i → i * 2 ≤ h.n → IsMaxChild h i (max_child h i)
unfolding max_child
max_child_lem h i p q = record {
  inside = ground arith;
  greatest = λ c r s t. children c (omega arith);
}
  where
    children :
        (c : ℕ)
        → (c ≡ i * 2) ⊎ ((c ≡ i * 2 + 1) × (i * 2 + 1 ≤ h.n))
        → key h c ≤ key h (max_child h i)
    children c (inl e) = rw e (ground arith)
    children c (inr (e, r)) = rw e (ground arith)

swap_nodes-DownInv :
    (lo : ℕ) (h : Heap) (i m : ℕ)
    → DownInv lo h i
    → IsMaxChild h i m
    → m ≢ i
    → DownInv lo (swap_nodes h m i) m
swap_nodes-DownInv lo h i m v s ne =
    let size = n-swap_nodes h m i in
    let at = key-swap_nodes h m i in
    let (hm, parent, big, above) = inner s.inside in
    record {
      indexed = swap_nodes-IsIndexed h m i v.indexed (omega arith) hm v.low v.high;
      low = omega arith;
      high = omega (arith, size);
      edges = λ c p q r t.
          ground (arith, size, at c, at (c / 2), v.edges c, v.bridged c, v.bridged m, s.greatest c);
      bridged = λ c p q r t u. ground (arith, size, at c, at (m / 2), v.edges c);
    }
  where
    inner :
        (m ≡ i) ⊎ ((m ≤ h.n) × (m / 2 ≡ i) × (2 ≤ m) × (key h i < key h m))
        → (m ≤ h.n) × (m / 2 ≡ i) × (2 ≤ m) × (key h i < key h m)
    inner (inl e) = absurd (ne e)
    inner (inr p) = p

float_down_loop_restores :
    (k lo : ℕ) (h : Heap) (i : ℕ)
    → h.n < k + i
    → DownInv lo h i
    → Sifted lo h (float_down_loop k h i)
unfolding float_down_loop
float_down_loop_restores zero lo h i f v = absurd (omega (arith, v.high))
float_down_loop_restores (suc k) lo h i f v = elim (Bool-cases (ltb h.n (i * 2))) [
  | inl leaf ↦ rw leaf (Sifted-refl lo h v.indexed (λ c p q r. ground (arith, v.edges c)))
  | inr inner ↦
      let s = max_child_lem h i v.low (ltb→ge _ _ inner) in
      elim (Bool-cases (max_child h i == i)) [
        | inl settled ↦
            rw (inner, settled)
              (Sifted-refl lo h v.indexed (λ c p q r. ground (arith, v.edges c, s.greatest c)))
        | inr sinks ↦
            let ne : max_child h i ≢ i = ground arith in
            rw (inner, sinks)
              (Sifted-swap h (max_child h i) i v.indexed (ground (arith, s.inside, v.low))
                (ground (arith, s.inside)) v.low v.high lo _
                (float_down_loop_restores k lo (swap_nodes h (max_child h i) i) (max_child h i)
                  (ground (arith, s.inside, v.low, n-swap_nodes h (max_child h i) i))
                  (swap_nodes-DownInv lo h i (max_child h i) v s ne)))
      ]
]

-- `float_down_ovs` repairs a heap in which one node stands too high.
pub float_down_restores :
    (lo : ℕ) (h : Heap) (i : ℕ) → DownInv lo h i → Sifted lo h (float_down h i)
unfolding float_down
float_down_restores lo h i v = float_down_loop_restores (h.n + 1) lo h i (omega (arith, v.low)) v
