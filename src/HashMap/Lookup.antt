-- ===== src/HashMap/Lookup.antt =====
-- `hmap_first_with_hash` of OFTonSGX/trusted/lib/hmap.h: one chain is enough to find a hash.
use ovs_sgx.Prelude.{
  ℕ, suc, ◌+◌, ◌≤◌, ◌<◌, ◌==◌, ◌≡◌, ◌≢◌, inl, inr, refl, sym, ap, ◌∙◌, subst, bit_and, List, [],
  ◌∷◌, if◌then◌else◌, All, ==_iff, Bool-cases, arith, get_or, ==_refl, ◌↔◌,
}
use ovs_sgx.HashMap.{Hmap, bucket_of, next_with_hash, hmap_first_with_hash}
use ovs_sgx.HashMap.Totals.{weight, total, Placed, IsHmap, is_node, and_le, weight-total}
use ovs_sgx.HashMap.Remove.{find_bucket, positive_cases}

-- A weight that is 1 at the nodes with a hash.
abbrev pub has_hash : (ℕ → ℕ) → ℕ → ℕ → ℕ
has_hash hashes hash x = if hashes x == hash then 1 else 0

cons_not_nil : (x : ℕ) (xs : List ℕ) → (x ∷ xs) ≢ []
cons_not_nil x xs e = ground arith

next_with_hash-none :
    (hashes : ℕ → ℕ) (hash : ℕ) (xs : List ℕ)
    → next_with_hash hashes hash xs ≡ []
    → weight (has_hash hashes hash) xs ≡ 0
unfolding next_with_hash
next_with_hash-none hashes hash [] e = refl
next_with_hash-none hashes hash (x ∷ xs) e = elim (Bool-cases (hashes x == hash)) [
  | inl t ↦ absurd (
      cons_not_nil x xs
        (subst (λ b. (if b then x ∷ xs else next_with_hash hashes hash xs) ≡ []) t e))
  | inr f ↦
      let rest =
        next_with_hash-none hashes hash xs
          (subst (λ b. (if b then x ∷ xs else next_with_hash hashes hash xs) ≡ []) f e) in
      rw f (omega arith)
]

next_with_hash-some :
    (hashes : ℕ → ℕ) (hash : ℕ) (xs : List ℕ) (y : ℕ) (ys : List ℕ)
    → next_with_hash hashes hash xs ≡ y ∷ ys
    → (hashes y ≡ hash) × (0 < weight (is_node y) xs)
unfolding next_with_hash
next_with_hash-some hashes hash [] y ys e = absurd (cons_not_nil y ys (sym e))
next_with_hash-some hashes hash (x ∷ xs) y ys e = elim (Bool-cases (hashes x == hash)) [
  | inl t ↦
      let e' = subst (λ b. (if b then x ∷ xs else next_with_hash hashes hash xs) ≡ y ∷ ys) t e in
      let same : x ≡ y = ap (λ l. get_or l 0 0) e' in
      (
        subst (λ z. hashes z ≡ hash) same ((==_iff (hashes x) hash).0 t),
        subst (λ z. 0 < is_node z x + weight (is_node z) xs) same (rw (==_refl x) (omega arith)),
      )
  | inr f ↦
      let e' = subst (λ b. (if b then x ∷ xs else next_with_hash hashes hash xs) ≡ y ∷ ys) f e in
      let (h, w) = next_with_hash-some hashes hash xs y ys e' in (h, omega arith)
]

has_hash-All :
    (P : ℕ → Type 0) (hashes : ℕ → ℕ) (hash : ℕ) (xs : List ℕ)
    → 0 < weight (has_hash hashes hash) xs
    → All P xs
    → (x : ℕ) × (hashes x ≡ hash) × P x
has_hash-All P hashes hash [] w p = absurd (omega arith)
has_hash-All P hashes hash (x ∷ xs) w p = elim (Bool-cases (hashes x == hash)) [
  | inl t ↦ (x, (==_iff (hashes x) hash).0 t, p.0)
  | inr f ↦ has_hash-All P hashes hash xs (ground arith) p.1
]

-- A hash that some node of the map has occurs in its own bucket.
hash-bucket :
    (h : Hmap) (hash : ℕ)
    → Placed h
    → 0 < total (has_hash h.hashes hash) h
    → 0 < weight (has_hash h.hashes hash) (h.buckets (bucket_of h hash))
hash-bucket h hash p w =
    let (j, lo, hi, v) = find_bucket (has_hash h.hashes hash) h.buckets (suc h.mask) 0 w in
    let (x, e, at) = has_hash-All _ h.hashes hash (h.buckets j) v (p j (omega arith)) in
    subst (λ k. 0 < weight (has_hash h.hashes hash) (h.buckets k))
      (sym (ap (λ a. bit_and a h.mask) (sym e) ∙ at)) v

none_total :
    (h : Hmap) (hash : ℕ)
    → Placed h
    → weight (has_hash h.hashes hash) (h.buckets (bucket_of h hash)) ≡ 0
    → total (has_hash h.hashes hash) h ≡ 0
none_total h hash p e = elim (positive_cases (total (has_hash h.hashes hash) h)) [
  | inl z ↦ z
  | inr w ↦ absurd (omega (arith, hash-bucket h hash p w))
]

zero_none :
    (hashes : ℕ → ℕ) (hash : ℕ) (xs : List ℕ)
    → weight (has_hash hashes hash) xs ≡ 0
    → next_with_hash hashes hash xs ≡ []
unfolding next_with_hash
zero_none hashes hash [] e = refl
zero_none hashes hash (x ∷ xs) e = elim (Bool-cases (hashes x == hash)) [
  | inl t ↦ absurd (ground arith)
  | inr f ↦ rw f (zero_none hashes hash xs (ground arith))
]

-- A search by hash gives null exactly when no node of the whole map has the hash, and else a node of
-- the map that has it: in a well-formed map.
pub hmap_first_with_hash_lem :
    (h : Hmap) (hash : ℕ)
    → IsHmap h
    → ((hmap_first_with_hash h hash ≡ []) ↔ (total (has_hash h.hashes hash) h ≡ 0))
      × ((x : ℕ) (rest : List ℕ)
          → hmap_first_with_hash h hash ≡ x ∷ rest
          → (h.hashes x ≡ hash) × (0 < total (is_node x) h))
unfolding hmap_first_with_hash IsHmap
hmap_first_with_hash_lem h hash (p, n) =
    let b = bucket_of h hash in
    let within : weight (has_hash h.hashes hash) (h.buckets b) ≤ total (has_hash h.hashes hash) h =
      weight-total (has_hash h.hashes hash) h.buckets b (suc h.mask) 0 (omega arith)
        (omega (arith, and_le hash h.mask)) in
    (
      (
        λ e. none_total h hash p (next_with_hash-none h.hashes hash (h.buckets b) e),
        λ z. zero_none h.hashes hash (h.buckets b) (omega arith),
      ),
      λ x rest e.
          let (same, w) = next_with_hash-some h.hashes hash (h.buckets b) x rest e in
          let part =
            weight-total (is_node x) h.buckets b (suc h.mask) 0 (omega arith)
              (omega (arith, and_le hash h.mask)) in
          (same, omega arith),
    )
