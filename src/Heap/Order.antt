-- ===== src/Heap/Order.antt =====
-- The invariant of a heap, and what an exchange of two nodes does to it.
use ovs_sgx.Prelude.{ℕ, ◌/◌, ◌≤◌, ◌<◌, ◌≡◌, refl, arith, zero, suc, ◌==◌, if◌then◌else◌}
use ovs_sgx.Heap.{Heap, key, swap_nodes}

-- Every node of the array knows its position.
abbrev pub IsIndexed : Heap → Type 0
IsIndexed h = (i : ℕ) → 1 ≤ i → i ≤ h.n → h.idx (h.array i) ≡ i

-- Every edge whose parent is at `lo` or later is in order.
abbrev pub IsOrderedFrom : ℕ → Heap → Type 0
IsOrderedFrom lo h = (c : ℕ) → 2 ≤ c → c ≤ h.n → lo ≤ c / 2 → key h c ≤ key h (c / 2)

pub record IsHeap (h : Heap) : Type 0 where
  pub indexed : IsIndexed h
  pub ordered : IsOrderedFrom 1 h

-- The node `x` is in the heap.
abbrev pub Holds : Heap → ℕ → Type 0
Holds h x = (1 ≤ h.idx x) × (h.idx x ≤ h.n) × (h.array (h.idx x) ≡ x)

-- `g` is an arrangement of the nodes of `h` that is in order from `lo`.
pub record Sifted (lo : ℕ) (h g : Heap) : Type 0 where
  pub indexed : IsIndexed g
  pub ordered : IsOrderedFrom lo g
  pub count : g.n ≡ h.n
  pub priority : (x : ℕ) → g.priority x ≡ h.priority x
  pub kept : (x : ℕ) → Holds h x → Holds g x
  pub only : (x : ℕ) → Holds g x → Holds h x

-- The edges past `i`, from its parent to its children, are in order.
abbrev pub IsBridged : ℕ → Heap → ℕ → Type 0
IsBridged lo h i =
    (c : ℕ) → 2 ≤ c → c ≤ h.n → c / 2 ≡ i → 2 ≤ i → lo ≤ i / 2 → key h c ≤ key h (i / 2)

pub Sifted-refl : (lo : ℕ) (h : Heap) → IsIndexed h → IsOrderedFrom lo h → Sifted lo h h
Sifted-refl lo h ix o = record {
  indexed = ix;
  ordered = o;
  count = refl;
  priority = λ x. refl;
  kept = λ x p. p;
  only = λ x p. p;
}

module _ (h : Heap) (i j : ℕ) where
  pub array-swap_nodes :
      (c : ℕ)
      → (swap_nodes h i j).array c
        ≡ (if j == c then h.array i else if i == c then h.array j else h.array c)
  unfolding swap_nodes
  array-swap_nodes c = refl

  pub idx-swap_nodes :
      (x : ℕ)
      → (swap_nodes h i j).idx x
        ≡ (if h.array i == x then j else if h.array j == x then i else h.idx x)
  unfolding swap_nodes
  idx-swap_nodes x = refl

  pub n-swap_nodes : (swap_nodes h i j).n ≡ h.n
  unfolding swap_nodes
  n-swap_nodes = refl

  pub priority-swap_nodes : (x : ℕ) → (swap_nodes h i j).priority x ≡ h.priority x
  unfolding swap_nodes
  priority-swap_nodes x = refl

  pub key-swap_nodes :
      (c : ℕ)
      → key (swap_nodes h i j) c ≡ (if j == c then key h i else if i == c then key h j else key h c)
  unfolding swap_nodes
  key-swap_nodes c = ground arith

module _ (h : Heap) (i j : ℕ) (v : IsIndexed h) (pi : 1 ≤ i) (qi : i ≤ h.n) (pj : 1 ≤ j)
    (qj : j ≤ h.n) where
  pub swap_nodes-IsIndexed : IsIndexed (swap_nodes h i j)
  unfolding swap_nodes
  swap_nodes-IsIndexed c p q = ground (arith, v c p q, v i pi qi, v j pj qj)

  pub swap_nodes-kept : (x : ℕ) → Holds h x → Holds (swap_nodes h i j) x
  unfolding swap_nodes
  swap_nodes-kept x s = (
    ground (arith, v i pi qi, v j pj qj),
    ground (arith, v i pi qi, v j pj qj),
    ground (arith, v i pi qi, v j pj qj),
  )

  pub swap_nodes-only : (x : ℕ) → Holds (swap_nodes h i j) x → Holds h x
  unfolding swap_nodes
  swap_nodes-only x s = (
    ground (arith, v i pi qi, v j pj qj),
    ground (arith, v i pi qi, v j pj qj),
    ground (arith, v i pi qi, v j pj qj),
  )

  -- What holds after a further arrangement of the exchanged heap holds of the heap.
  pub Sifted-swap : (lo : ℕ) (g : Heap) → Sifted lo (swap_nodes h i j) g → Sifted lo h g
  Sifted-swap lo g s = record {
    indexed = s.indexed;
    ordered = s.ordered;
    count = ground (arith, s.count, n-swap_nodes h i j);
    priority = λ x. ground (arith, s.priority x, priority-swap_nodes h i j x);
    kept = λ x p. s.kept x (swap_nodes-kept x p);
    only = λ x p. swap_nodes-only x (s.only x p);
  }

root-ge_below : (k : ℕ) (h : Heap) (c : ℕ) → IsHeap h → c < k → 1 ≤ c → c ≤ h.n → key h c ≤ key h 1
root-ge_below zero h c v f p q = absurd (omega arith)
root-ge_below (suc k) h c v f p q = ground (arith, v.ordered c, root-ge_below k h (c / 2) v)

-- The root has a greatest priority.
pub root-ge : (h : Heap) (c : ℕ) → IsHeap h → 1 ≤ c → c ≤ h.n → key h c ≤ key h 1
root-ge h c v p q = root-ge_below (suc c) h c v (omega arith) p q
