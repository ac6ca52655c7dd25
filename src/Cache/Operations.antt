-- ===== src/Cache/Operations.antt =====
-- Removing a rule, flushing, looking up and initialising the flow cache of
-- OFTonSGX/trusted/cache-trusted.c and OFTonSGX/untrusted/cache-untrusted.c.
use ovs_sgx.Prelude.{
  ℕ, suc, ◌≤◌, ◌<◌, ◌==◌, ◌≡◌, ◌≢◌, inl, inr, refl, sym, ap, ◌∙◌, Bool, true, false, ◌&&◌, List, [],
  ◌∷◌, Option, none, some, if◌then◌else◌, Option-cases, ==_refl, ==_iff, Bool-cases, arith,
}
use ovs_sgx.Hash.{hash_bytes}
use ovs_sgx.Memory.{SharedMemory}
use ovs_sgx.HashMap.{Hmap, bucket_of, hmap_nodes, hmap_init, hmap_first_with_hash}
use ovs_sgx.HashMap.Totals.{
  weight, total, IsHmap, is_node, and_le, weight-total, chains_from-weight,
}
use ovs_sgx.HashMap.Lookup.{hmap_first_with_hash_lem}
use ovs_sgx.Cache.{
  FlowCache, u64, entry_hash, to_back, find_ut_cr, ut_cr_addr_hash, remove_hashed,
  flow_map_cache_remove_ut_cr, remove_all, flow_map_cache_flush, touch_first, drop_found,
  flow_map_cache_get_entry, flow_map_cache_init,
}
use ovs_sgx.Cache.Invariant.{Tracks, IsTracked, IsCache, to_back-weight}
use ovs_sgx.Cache.Removal.{IsCached, drop_entry-IsCache, remove_cache_entry-Without}

-- An entry of a map has a rule and is in the list.
member-IsCached :
    (c : FlowCache) (h : Hmap) (e : ℕ) → Tracks c h → 0 < total (is_node e) h → IsCached c e
member-IsCached c h e t w = ground (arith, t.1 e)

find_ut_cr-some :
    (hashes crs : ℕ → ℕ) (hash ut_cr : ℕ) (xs : List ℕ) (e : ℕ)
    → find_ut_cr hashes crs hash ut_cr xs ≡ some e
    → 0 < weight (is_node e) xs
unfolding find_ut_cr
find_ut_cr-some hashes crs hash ut_cr [] e q = absurd (ground arith)
find_ut_cr-some hashes crs hash ut_cr (x ∷ xs) e q =
    found_in (hashes x == hash && crs x == ut_cr) x e (find_ut_cr hashes crs hash ut_cr xs) xs q
      (λ r. find_ut_cr-some hashes crs hash ut_cr xs e r)
  where
    found_in :
        (b : Bool) (x e : ℕ) (o : Option ℕ) (xs : List ℕ)
        → (if b then some x else o) ≡ some e
        → (o ≡ some e → 0 < weight (is_node e) xs)
        → 0 < weight (is_node e) (x ∷ xs)
    found_in true x e o xs q k =
        let same : x ≡ e = ground arith in rw (same, ==_refl e) (omega arith)
    found_in false x e o xs q k = omega (arith, k q)

remove_hashed-IsCache :
    (c : FlowCache) (ut_cr hash : ℕ)
    → IsCache c
    → (c' : FlowCache) × (remove_hashed c ut_cr (some hash) ≡ some c')
      × IsCache c'
      × ((f : ℕ → ℕ) → weight f c'.lru_list ≡ weight f c.lru_list)
unfolding IsCache IsTracked
remove_hashed-IsCache c ut_cr hash k =
    let chain = c.ut_crs.buckets (bucket_of c.ut_crs hash) in
    let found = find_ut_cr c.ut_crs.hashes c.crs hash ut_cr chain in
    elim (Option-cases found) [
      | inl n ↦ (c, ap (drop_found c) n, k, λ f. refl)
      | inr (e, s) ↦
          let part =
            weight-total (is_node e) c.ut_crs.buckets (bucket_of c.ut_crs hash) (suc c.ut_crs.mask)
              0 (omega arith) (omega (arith, and_le hash c.ut_crs.mask)) in
          let w = find_ut_cr-some c.ut_crs.hashes c.crs hash ut_cr chain e s in
          let (c', r, k', cr, l, same) =
            drop_entry-IsCache c e true k
              (member-IsCached c c.ut_crs e k.0.1 (omega (arith, part, w))) in
          (c', ap (drop_found c) s ∙ r, k', l)
    ]

-- `flow_map_cache_remove_ut_cr` of a well-formed cache and a rule that is not null never runs past the
-- end of a chain and keeps the cache well formed, with the right checksum.
pub cache_remove-IsCache :
    (bytes_at : ℕ → List ℕ) (c : FlowCache) (ut_cr : ℕ)
    → IsCache c
    → ut_cr ≢ 0
    → (c' : FlowCache) × (flow_map_cache_remove_ut_cr bytes_at c ut_cr ≡ some c')
      × IsCache c'
      × ((f : ℕ → ℕ) → weight f c'.lru_list ≡ weight f c.lru_list)
unfolding flow_map_cache_remove_ut_cr ut_cr_addr_hash
cache_remove-IsCache bytes_at c ut_cr k nz = elim (Bool-cases (ut_cr == 0)) [
  | inl e ↦ absurd (nz ((==_iff ut_cr 0).0 e))
  | inr e ↦ rw e (remove_hashed-IsCache c ut_cr (hash_bytes (bytes_at ut_cr) 0) k)
]

remove_all-empty :
    (es : List ℕ) (c : FlowCache)
    → IsTracked c
    → ((f : ℕ → ℕ) → weight f es ≡ total f c.entries)
    → (c' : FlowCache) × (remove_all es c ≡ some c')
      × IsTracked c'
      × ((f : ℕ → ℕ) → total f c'.entries ≡ 0)
      × (c'.lru_list ≡ c.lru_list)
unfolding remove_all IsTracked
remove_all-empty [] c t w = (c, refl, t, λ f. sym (w f), refl)
remove_all-empty (e ∷ es) c t w =
    let self : is_node e e ≡ 1 = rw (==_refl e) refl in
    let cached = member-IsCached c c.entries e t.0 (omega (arith, w (is_node e), self)) in
    let (c1, r, (t1, d, cr, s, ck, l), same) = remove_cache_entry-Without c e false t cached in
    let (c2, r2, t2, z, l2) = remove_all-empty es c1 t1 (λ f. omega (arith, w f, d f)) in
    (
      c2,
      ap (λ o. elim o as (λ _. Option FlowCache) [ none ↦ none | some v ↦ remove_all es v ]) r ∙ r2,
      t2,
      z,
      l2 ∙ same refl,
    )

-- `flow_map_cache_flush` of a well-formed cache never runs past the end of a chain; afterwards the
-- cache is well formed and holds no entry, and the list of entries is as it was.
pub cache_flush-IsCache :
    (c : FlowCache)
    → IsCache c
    → (c' : FlowCache) × (flow_map_cache_flush c ≡ some c')
      × IsCache c'
      × ((f : ℕ → ℕ) → total f c'.entries ≡ 0)
      × (c'.lru_list ≡ c.lru_list)
unfolding flow_map_cache_flush IsCache IsTracked hmap_nodes
cache_flush-IsCache c k =
    let (c1, r, t, z, l) =
      remove_all-empty (hmap_nodes c.entries) c k.0
        (λ f. chains_from-weight f c.entries.buckets (suc c.entries.mask) 0) in
    let c2 : FlowCache = record c1 { checksum = 0 } in
    (
      c2,
      ap
          (λ o. elim o as (λ _. Option FlowCache) [
            | none ↦ none
            | some v ↦ some (record v { checksum = 0 })
          ])
          r,
      (t, ap u64 (sym (z (entry_hash c2)))),
      z,
      l,
    )

touch_first-IsCache :
    (c : FlowCache) (hash : ℕ) (found : List ℕ)
    → IsCache c
    → hmap_first_with_hash c.entries hash ≡ found
    → IsCache (touch_first c found).1
      × ((f : ℕ → ℕ) → weight f (touch_first c found).1.lru_list ≡ weight f c.lru_list)
unfolding IsCache IsTracked
touch_first-IsCache c hash [] k q = (k, λ f. refl)
touch_first-IsCache c hash (e ∷ es) k q =
    let inside = (hmap_first_with_hash_lem c.entries hash k.0.0.0).1 e es q in
    let cached = member-IsCached c c.entries e k.0.0 inside.1 in
    let l : (f : ℕ → ℕ) → weight f (to_back e c.lru_list) ≡ weight f c.lru_list =
      λ f. to_back-weight f e c.lru_list cached.1 in
    (
      (
        (
          (k.0.0.0, λ x. k.0.0.1 x ∙ ap (λ w. if c.crs x == 0 then 0 else w) (sym (l (is_node x)))),
          (k.0.1.0, λ x. k.0.1.1 x ∙ ap (λ w. if c.crs x == 0 then 0 else w) (sym (l (is_node x)))),
          λ x. omega (arith, l (is_node x), k.0.2 x),
        ),
        k.1,
      ),
      l,
    )

pub cache_get-IsCache :
    (c : FlowCache) (hash : ℕ)
    → IsCache c
    → IsCache (flow_map_cache_get_entry c hash).1
      × ((f : ℕ → ℕ) → weight f (flow_map_cache_get_entry c hash).1.lru_list ≡ weight f c.lru_list)
unfolding flow_map_cache_get_entry
cache_get-IsCache c hash k = touch_first-IsCache c hash (hmap_first_with_hash c.entries hash) k refl

init-Tracks :
    (fresh : List ℕ) (hashes : ℕ → ℕ) (memory : Option SharedMemory)
    → Tracks (flow_map_cache_init fresh hashes memory) (hmap_init hashes)
unfolding flow_map_cache_init hmap_init IsHmap
init-Tracks fresh hashes memory = ((λ i le. tt, refl), λ x. refl)

pub cache_init-IsCache :
    (fresh : List ℕ) (hashes : ℕ → ℕ) (memory : Option SharedMemory)
    → ((x : ℕ) → weight (is_node x) fresh ≤ 1)
    → IsCache (flow_map_cache_init fresh hashes memory)
unfolding flow_map_cache_init IsCache IsTracked hmap_init
cache_init-IsCache fresh hashes memory d =
    let t = init-Tracks fresh hashes memory in ((t, t, d), refl)
