-- ===== src/Cache/Run.antt =====
-- The flow cache of OFTonSGX/trusted/cache-trusted.c through any sequence of its operations.
use ovs_sgx.Prelude.{
  ℕ, ◌≤◌, ◌<◌, ◌≡◌, ◌≢◌, refl, sym, ap, ◌∙◌, subst, true, List, [], ◌∷◌, Option, none, some, arith,
}
use ovs_sgx.Memory.{Page, SharedMemory}
use ovs_sgx.HashMap.Totals.{weight, weight-append, is_node}
use ovs_sgx.Cache.{
  FlowCache, flow_map_cache_insert, flow_map_cache_remove_ut_cr, flow_map_cache_flush,
  flow_map_cache_get_entry, flow_map_cache_init, flow_map_cache_is_valid,
}
use ovs_sgx.Cache.Invariant.{IsCache, IsCache-valid}
use ovs_sgx.Cache.Insertion.{cache_insert-IsCache}
use ovs_sgx.Cache.Operations.{
  cache_remove-IsCache, cache_flush-IsCache, cache_get-IsCache, cache_init-IsCache,
}

-- A call of one of the cache's operations, with what `malloc` and the memory give it.
pub data CacheCall : Type 0 where
  insert : (raw raw' : Page) (hash ut_cr : ℕ) → CacheCall
  remove : (bytes_at : ℕ → List ℕ) (ut_cr : ℕ) → CacheCall
  flush : CacheCall
  look_up : (hash : ℕ) → CacheCall

abbrev pub call : CacheCall → FlowCache → Option FlowCache
call (insert raw raw' hash ut_cr) c = flow_map_cache_insert raw raw' c hash ut_cr
call (remove bytes_at ut_cr) c = flow_map_cache_remove_ut_cr bytes_at c ut_cr
call flush c = flow_map_cache_flush c
call (look_up hash) c = some (flow_map_cache_get_entry c hash).1

-- None once a call has dereferenced a null pointer.
unfoldable pub calls : List CacheCall → FlowCache → Option FlowCache
calls [] c = some c
calls (k ∷ ks) c = elim (call k c) [ none ↦ none | some c' ↦ calls ks c' ]

-- No null rule is inserted or removed.
abbrev pub Proper : List CacheCall → Type 0
Proper [] = Unit
Proper (insert raw raw' hash ut_cr ∷ ks) = (ut_cr ≢ 0) × Proper ks
Proper (remove bytes_at ut_cr ∷ ks) = (ut_cr ≢ 0) × Proper ks
Proper (flush ∷ ks) = Proper ks
Proper (look_up hash ∷ ks) = Proper ks

abbrev size : FlowCache → ℕ
size c = weight (λ x. 1) c.lru_list

insert-kept :
    (raw raw' : Page) (c : FlowCache) (hash ut_cr : ℕ) (lru : List ℕ)
    → IsCache c
    → ut_cr ≢ 0
    → c.lru_list ≡ lru
    → 0 < size c
    → (c' : FlowCache) × (flow_map_cache_insert raw raw' c hash ut_cr ≡ some c')
      × IsCache c'
      × (size c' ≡ size c)
insert-kept raw raw' c hash ut_cr [] k nz e n =
    absurd (subst (λ (l : List ℕ). 0 < weight (λ x. 1) l → ⊥) (sym e) (λ q. omega arith) n)
insert-kept raw raw' c hash ut_cr (x ∷ xs) k nz e n =
    let (c', r, k', cr, l) = cache_insert-IsCache raw raw' c hash ut_cr x xs k nz e in
    (
      c',
      r,
      k',
      ap (weight (λ y. 1)) l
          ∙ omega (arith, weight-append (λ y. 1) xs (x ∷ []))
          ∙ sym (ap (weight (λ y. 1)) e),
    )

after :
    (ks : List CacheCall) (o : Option FlowCache) (c1 : FlowCache)
    → o ≡ some c1
    → ((c' : FlowCache) × (calls ks c1 ≡ some c') × IsCache c')
    → (c' : FlowCache) × ((elim o as (λ _. Option FlowCache) [ none ↦ none | some v ↦ calls ks v ])
        ≡ some c')
      × IsCache c'
after ks o c1 e (c', r, k) =
    (c', ap (λ q. elim q as (λ _. Option FlowCache) [ none ↦ none | some v ↦ calls ks v ]) e ∙ r, k)

calls-IsCache :
    (ks : List CacheCall) (c : FlowCache)
    → IsCache c
    → 0 < size c
    → Proper ks
    → (c' : FlowCache) × (calls ks c ≡ some c') × IsCache c'
unfolding calls
calls-IsCache [] c k n p = (c, refl, k)
calls-IsCache (insert raw raw' hash ut_cr ∷ ks) c k n p =
    let (c1, r, k1, s) = insert-kept raw raw' c hash ut_cr c.lru_list k p.0 refl n in
    after ks (flow_map_cache_insert raw raw' c hash ut_cr) c1 r
      (calls-IsCache ks c1 k1 (omega arith) p.1)
calls-IsCache (remove bytes_at ut_cr ∷ ks) c k n p =
    let (c1, r, k1, l) = cache_remove-IsCache bytes_at c ut_cr k p.0 in
    after ks (flow_map_cache_remove_ut_cr bytes_at c ut_cr) c1 r
      (calls-IsCache ks c1 k1 (omega (arith, l (λ x. 1))) p.1)
calls-IsCache (flush ∷ ks) c k n p =
    let (c1, r, k1, z, l) = cache_flush-IsCache c k in
    after ks (flow_map_cache_flush c) c1 r
      (calls-IsCache ks c1 k1 (omega (arith, ap (weight (λ x. 1)) l)) p)
calls-IsCache (look_up hash ∷ ks) c k n p =
    let (k1, l) = cache_get-IsCache c hash k in
    calls-IsCache ks (flow_map_cache_get_entry c hash).1 k1 (omega (arith, l (λ x. 1))) p

-- Through any sequence of insertions, removals, flushes and lookups from its initialisation on, the
-- cache never dereferences a null pointer and its checksum stays valid: for a list of at least one
-- entry, all different, and rules to insert and to remove that are not null, whatever the shared memory grants.
pub calls-valid :
    (fresh : List ℕ) (hashes : ℕ → ℕ) (memory : Option SharedMemory) (ks : List CacheCall)
    → ((x : ℕ) → weight (is_node x) fresh ≤ 1)
    → 0 < weight (λ x. 1) fresh
    → Proper ks
    → (c : FlowCache) × (calls ks (flow_map_cache_init fresh hashes memory) ≡ some c)
      × (flow_map_cache_is_valid c ≡ true)
unfolding flow_map_cache_init
calls-valid fresh hashes memory ks d n p =
    let (c, r, k) =
      calls-IsCache ks (flow_map_cache_init fresh hashes memory)
        (cache_init-IsCache fresh hashes memory d) n p in
    (c, r, IsCache-valid c k)
