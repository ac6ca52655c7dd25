-- ===== src/HashMap/Remove.antt =====
-- `hmap_remove` of OFTonSGX/trusted/lib/hmap.h: the walk to the node never leaves its chain.
use ovs_sgx.Prelude.{
  ℕ, zero, suc, ◌+◌, ◌-◌, ◌≤◌, ◌<◌, ◌==◌, ◌≡◌, ◌⊎◌, inl, inr, refl, ap, subst, bit_and, List, [],
  ◌∷◌, Option, none, some, update, All, ==_iff, Bool-cases, arith,
}
use ovs_sgx.HashMap.{Hmap, bucket_of, unlink_node, hmap_remove}
use ovs_sgx.HashMap.Totals.{
  weight, total_from, total, Placed, IsHmap, is_node, and_le, total-update,
}

pub positive_cases : (n : ℕ) → (n ≡ 0) ⊎ (0 < n)
positive_cases n = ground arith

-- The first bucket with weight
pub find_bucket :
    (f : ℕ → ℕ) (buckets : ℕ → List ℕ) (k i : ℕ)
    → 0 < total_from f buckets k i
    → (j : ℕ) × (i ≤ j) × (j < i + k) × (0 < weight f (buckets j))
find_bucket f buckets zero i h = absurd (omega arith)
find_bucket f buckets (suc k) i h = elim (positive_cases (weight f (buckets i))) [
  | inl z ↦
      let (j, p, q, w) = find_bucket f buckets k (suc i) (omega arith) in
      (j, omega arith, omega arith, w)
  | inr w ↦ (i, omega arith, omega arith, w)
]

All-node :
    (P : ℕ → Type 0) (node : ℕ) (xs : List ℕ) → 0 < weight (is_node node) xs → All P xs → P node
All-node P node [] h p = absurd (omega arith)
All-node P node (x ∷ xs) h p = elim (Bool-cases (x == node)) [
  | inl t ↦ subst P ((==_iff x node).0 t) p.0
  | inr f ↦ All-node P node xs (ground arith) p.1
]

-- A node of the map stands in the bucket of its hash.
node-bucket :
    (h : Hmap) (node : ℕ)
    → Placed h
    → 0 < total (is_node node) h
    → 0 < weight (is_node node) (h.buckets (bucket_of h (h.hashes node)))
node-bucket h node p w =
    let (j, lo, hi, v) = find_bucket (is_node node) h.buckets (suc h.mask) 0 w in
    let at : bucket_of h (h.hashes node) ≡ j =
      All-node _ node (h.buckets j) v (p j (omega arith)) in
    rw at v

-- What is left of a chain without the node
abbrev Unlinked : ℕ → List ℕ → List ℕ → Type (1)
Unlinked node xs ys =
    ((f : ℕ → ℕ) → weight f xs ≡ f node + weight f ys) × ((P : ℕ → Type 0) → All P xs → All P ys)

unlink_node-Unlinked :
    (node : ℕ) (xs : List ℕ)
    → 0 < weight (is_node node) xs
    → (ys : List ℕ) × (unlink_node node xs ≡ some ys) × Unlinked node xs ys
unfolding unlink_node
unlink_node-Unlinked node [] w = absurd (omega arith)
unlink_node-Unlinked node (x ∷ xs) w = elim (Bool-cases (x == node)) [
  | inl t ↦ let same = (==_iff x node).0 t in (xs, rw t refl, (λ f. rw same refl, λ P p. p.1))
  | inr f ↦
      let (ys, e, (v, k)) = unlink_node-Unlinked node xs (ground arith) in
      (x ∷ ys, rw (f, e) refl, (λ g. omega (arith, v g), λ P p. (p.0, k P p.1)))
]

removed-Placed :
    (h : Hmap) (node : ℕ) (ys : List ℕ)
    → let i = bucket_of h (h.hashes node) in
      Placed h
      → (All (λ x. bit_and (h.hashes x) h.mask ≡ i) (h.buckets i)
          → All (λ x. bit_and (h.hashes x) h.mask ≡ i) ys)
      → Placed (record h { buckets = update h.buckets i ys; n = h.n - 1 })
removed-Placed h node ys p k j le =
    let i = bucket_of h (h.hashes node) in
    elim (Bool-cases (i == j)) [
      | inl t ↦
          let same = (==_iff i j).0 t in
          rw t (
            subst (λ l. All (λ x. bit_and (h.hashes x) h.mask ≡ l) ys) same
              (k (p i (and_le (h.hashes node) h.mask))))
      | inr f ↦ rw f (p j le)
    ]

-- `hmap_remove` of a node that the map holds never runs past the end of a chain; it keeps the map well
-- formed and takes away exactly the node: whatever one counts over the nodes shrinks by what the node
-- counts, and no hash changes.
pub hmap_remove-Removed :
    (h : Hmap) (node : ℕ)
    → IsHmap h
    → 0 < total (is_node node) h
    → (h' : Hmap) × (hmap_remove h node ≡ some h')
      × IsHmap h'
      × ((f : ℕ → ℕ) → total f h ≡ f node + total f h')
      × (h'.hashes ≡ h.hashes)
unfolding hmap_remove IsHmap
hmap_remove-Removed h node (p, n) w =
    let i = bucket_of h (h.hashes node) in
    let (ys, e, (v, k)) = unlink_node-Unlinked node (h.buckets i) (node-bucket h node p w) in
    let h' : Hmap = record h { buckets = update h.buckets i ys; n = h.n - 1 } in
    let drop : (f : ℕ → ℕ) → total f h ≡ f node + total f h' = λ f. omega (
      arith,
      v f,
      total-update f h.buckets ys i (suc h.mask) 0 (omega arith)
          (omega (arith, and_le (h.hashes node) h.mask)),
    ) in
    (
      h',
      ap
          (λ o. elim o as (λ _. Option Hmap) [
            | none ↦ none
            | some chain ↦ some (record h { buckets = update h.buckets i chain; n = h.n - 1 })
          ])
          e,
      (removed-Placed h node ys p (k _), omega (arith, n, drop (λ x. 1))),
      drop,
      refl,
    )
