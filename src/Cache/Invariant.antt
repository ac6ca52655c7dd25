-- ===== src/Cache/Invariant.antt =====
-- When the flow cache of OFTonSGX/trusted/cache-trusted.c is well formed, and what its checksum says.
use ovs_sgx.Prelude.{
  ℕ, zero, suc, ◌+◌, ◌^◌, ◌≤◌, ◌<◌, ◌==◌, ◌≡◌, ◌≢◌, inl, inr, refl, sym, ap, ◌∙◌, true, List, [],
  ◌∷◌, if◌then◌else◌, Bool-cases, ==_iff, arith,
}
use ovs_sgx.HashMap.{Hmap, hmap_nodes}
use ovs_sgx.HashMap.Totals.{
  weight, weight-append, total_from, total, IsHmap, is_node, chains_from-weight,
}
use ovs_sgx.Cache.{
  FlowCache, u64, entry_hash, sum_hashes, flow_map_cache_hash, flow_map_cache_is_valid, to_back,
  list_remove_entry,
}

-- A map holds exactly the entries of the list that have a rule, each once.
abbrev pub Tracks : FlowCache → Hmap → Type 0
Tracks c h =
    IsHmap h
    × ((x : ℕ) → total (is_node x) h ≡ (if c.crs x == 0 then 0 else weight (is_node x) c.lru_list))

-- Both maps hold the entries with a rule, and no entry is twice in the list.
unfoldable pub IsTracked : FlowCache → Type 0
IsTracked c = Tracks c c.entries × Tracks c c.ut_crs × ((x : ℕ) → weight (is_node x) c.lru_list ≤ 1)

-- The checksum is the sum of the entries' hashes, in 64 bits.
unfoldable pub IsCache : FlowCache → Type 0
IsCache c = IsTracked c × (c.checksum ≡ u64 (total (entry_hash c) c.entries))

-- Weights that agree but at one node, which the map does not hold
weight-agree :
    (f g : ℕ → ℕ) (e : ℕ) (xs : List ℕ)
    → ((x : ℕ) → e ≢ x → f x ≡ g x)
    → weight (is_node e) xs ≡ 0
    → weight f xs ≡ weight g xs
weight-agree f g e [] k z = refl
weight-agree f g e (x ∷ xs) k z = elim (Bool-cases (x == e)) [
  | inl t ↦ absurd (ground arith)
  | inr n ↦
      let ne : e ≢ x = ground arith in omega (arith, k x ne, weight-agree f g e xs k (ground arith))
]

total_from-agree :
    (f g : ℕ → ℕ) (e : ℕ) (buckets : ℕ → List ℕ) (n i : ℕ)
    → ((x : ℕ) → e ≢ x → f x ≡ g x)
    → total_from (is_node e) buckets n i ≡ 0
    → total_from f buckets n i ≡ total_from g buckets n i
total_from-agree f g e buckets zero i k z = refl
total_from-agree f g e buckets (suc n) i k z = omega (
  arith,
  weight-agree f g e (buckets i) k (omega arith),
  total_from-agree f g e buckets n (suc i) k (omega arith),
)

pub total-agree :
    (f g : ℕ → ℕ) (e : ℕ) (h : Hmap)
    → ((x : ℕ) → e ≢ x → f x ≡ g x)
    → total (is_node e) h ≡ 0
    → total f h ≡ total g h
total-agree f g e h k z = total_from-agree f g e h.buckets (suc h.mask) 0 k z

pub list_remove_entry-weight :
    (f : ℕ → ℕ) (e : ℕ) (xs : List ℕ)
    → 0 < weight (is_node e) xs
    → weight f xs ≡ f e + weight f (list_remove_entry e xs)
list_remove_entry-weight f e [] w = absurd (omega arith)
list_remove_entry-weight f e (x ∷ xs) w = elim (Bool-cases (x == e)) [
  | inl t ↦ rw t (ap (λ y. f y + weight f xs) ((==_iff x e).0 t))
  | inr n ↦ rw n (omega (arith, list_remove_entry-weight f e xs (ground arith)))
]

-- Moving an entry to the back keeps the list's entries.
pub to_back-weight :
    (f : ℕ → ℕ) (e : ℕ) (xs : List ℕ)
    → 0 < weight (is_node e) xs
    → weight f (to_back e xs) ≡ weight f xs
to_back-weight f e xs w =
    omega
      (arith, weight-append f (list_remove_entry e xs) (e ∷ []), list_remove_entry-weight f e xs w)

sum_hashes-weight :
    (f : ℕ → ℕ) (xs : List ℕ) (hash : ℕ) → u64 (sum_hashes f xs hash) ≡ u64 (hash + weight f xs)
unfolding sum_hashes
sum_hashes-weight f [] hash = omega arith
sum_hashes-weight f (x ∷ xs) hash = omega (arith, sum_hashes-weight f xs (u64 (hash + f x)))

sum_hashes-below :
    (f : ℕ → ℕ) (xs : List ℕ) (hash : ℕ) → hash < 2 ^ 64 → sum_hashes f xs hash < 2 ^ 64
unfolding sum_hashes
sum_hashes-below f [] hash h = h
sum_hashes-below f (x ∷ xs) hash h = sum_hashes-below f xs (u64 (hash + f x)) (omega arith)

pub cache_hash_lem : (c : FlowCache) → flow_map_cache_hash c ≡ u64 (total (entry_hash c) c.entries)
unfolding flow_map_cache_hash hmap_nodes
cache_hash_lem c = omega (
  arith,
  sum_hashes-weight (entry_hash c) (hmap_nodes c.entries) 0,
  sum_hashes-below (entry_hash c) (hmap_nodes c.entries) 0 (omega arith),
  chains_from-weight (entry_hash c) c.entries.buckets (suc c.entries.mask) 0,
)

pub IsCache-valid : (c : FlowCache) → IsCache c → flow_map_cache_is_valid c ≡ true
unfolding IsCache flow_map_cache_is_valid
IsCache-valid c k = (==_iff (flow_map_cache_hash c) c.checksum).1 (cache_hash_lem c ∙ sym k.1)
