-- ===== src/HashMap/Totals.antt =====
-- The contents of a hash map of OFTonSGX/trusted/lib/hmap.c as a bag: how much its nodes weigh
-- together, for any weights, and the well-formedness of a map.
use ovs_sgx.Prelude.{
  ℕ, zero, suc, ◌+◌, ◌/◌, ◌≤◌, ◌<◌, ◌==◌, ◌≡◌, ◌≢◌, inl, inr, refl, ap, ◌∙◌, bit_and, List, [], ◌∷◌,
  ◌++◌, if◌then◌else◌, update, update_self, update_ne, All, le_cases, arith,
}
use ovs_sgx.Prelude.Bits.{and_digit, zero-and}
use ovs_sgx.HashMap.{Hmap, chains_from}

abbrev pub weight : (ℕ → ℕ) → List ℕ → ℕ
weight f [] = 0
weight f (x ∷ xs) = f x + weight f xs

pub weight-append : (f : ℕ → ℕ) (xs ys : List ℕ) → weight f (xs ++ ys) ≡ weight f xs + weight f ys
weight-append f [] ys = omega arith
weight-append f (x ∷ xs) ys = omega (arith, weight-append f xs ys)

-- The buckets from `i` to below `i + k`
abbrev pub total_from : (ℕ → ℕ) → (ℕ → List ℕ) → ℕ → ℕ → ℕ
total_from f buckets zero i = 0
total_from f buckets (suc k) i = weight f (buckets i) + total_from f buckets k (suc i)

abbrev pub total : (ℕ → ℕ) → Hmap → ℕ
total f h = total_from f h.buckets (suc h.mask) 0

-- Every node stands in the bucket of its hash.
abbrev pub Placed : Hmap → Type 0
Placed h = (i : ℕ) → i ≤ h.mask → All (λ x. bit_and (h.hashes x) h.mask ≡ i) (h.buckets i)

unfoldable pub IsHmap : Hmap → Type 0
IsHmap h = Placed h × (h.n ≡ total (λ x. 1) h)

-- A weight that is 1 at one node.
abbrev pub is_node : ℕ → ℕ → ℕ
is_node node x = if x == node then 1 else 0

-- A mask bounds what passes it.
and_le_below : (n a b : ℕ) → a ≤ n → bit_and a b ≤ b
and_le_below n zero b h = omega (arith, zero-and b)
and_le_below zero (suc a) b h = absurd (omega arith)
and_le_below (suc n) (suc a) b h =
    omega (arith, and_digit (suc a) b, and_le_below n (suc a / 2) (b / 2) (omega arith))

pub and_le : (a b : ℕ) → bit_and a b ≤ b
and_le a b = and_le_below a a b (omega arith)

-- A bucket below the range does not matter.
total-update_below :
    (f : ℕ → ℕ) (buckets : ℕ → List ℕ) (chain : List ℕ) (j k i : ℕ)
    → j < i
    → total_from f (update buckets j chain) k i ≡ total_from f buckets k i
total-update_below f buckets chain j zero i h = refl
total-update_below f buckets chain j (suc k) i h =
    rw
      (
        update_ne buckets j i chain (λ e. omega arith),
        total-update_below f buckets chain j k (suc i) (omega arith),
      )
      refl

pub total-update :
    (f : ℕ → ℕ) (buckets : ℕ → List ℕ) (chain : List ℕ) (j k i : ℕ)
    → i ≤ j
    → j < i + k
    → total_from f (update buckets j chain) k i + weight f (buckets j)
      ≡ total_from f buckets k i + weight f chain
total-update f buckets chain j zero i p q = absurd (omega arith)
total-update f buckets chain j (suc k) i p q = elim (le_cases i j p) [
  | inl same ↦
      let below = total-update_below f buckets chain j k (suc i) (omega arith) in
      let self : weight f (update buckets j chain i) ≡ weight f chain =
        ap (λ l. weight f (update buckets j chain l)) same
        ∙ ap (weight f) (update_self buckets j chain) in
      let at : weight f (buckets i) ≡ weight f (buckets j) = ap (λ l. weight f (buckets l)) same in
      omega (arith, below, self, at)
  | inr lt ↦
      let other : weight f (update buckets j chain i) ≡ weight f (buckets i) =
        ap (weight f) (update_ne buckets j i chain (λ e. omega arith)) in
      omega (arith, other, total-update f buckets chain j k (suc i) lt (omega arith))
]

pub total-empty : (f : ℕ → ℕ) (k i : ℕ) → total_from f (λ j. []) k i ≡ 0
total-empty f zero i = refl
total-empty f (suc k) i = omega (arith, total-empty f k (suc i))

-- The weight of one chain is part of the total.
pub weight-total :
    (f : ℕ → ℕ) (buckets : ℕ → List ℕ) (j k i : ℕ)
    → i ≤ j
    → j < i + k
    → weight f (buckets j) ≤ total_from f buckets k i
weight-total f buckets j k i p q = omega (arith, total-update f buckets [] j k i p q)

pub chains_from-weight :
    (f : ℕ → ℕ) (buckets : ℕ → List ℕ) (k i : ℕ)
    → weight f (chains_from buckets k i) ≡ total_from f buckets k i
unfolding chains_from
chains_from-weight f buckets zero i = refl
chains_from-weight f buckets (suc k) i = omega (
  arith,
  weight-append f (buckets i) (chains_from buckets k (suc i)),
  chains_from-weight f buckets k (suc i),
)

-- A node that weighs nothing stands in no chain.
pub weight_ne : (node : ℕ) (xs : List ℕ) → weight (is_node node) xs ≡ 0 → All (λ x. node ≢ x) xs
weight_ne node [] h = tt
weight_ne node (x ∷ xs) h = (ground arith, weight_ne node xs (ground arith))
