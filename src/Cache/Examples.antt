-- ===== src/Cache/Examples.antt =====
-- A cache of two entries, of which the third rule takes over the first.
use ovs_sgx.Prelude.{ℕ, ◌≤◌, ◌≡◌, refl, true, List, [], ◌∷◌, ◌++◌, some, update, arith}
use ovs_sgx.Memory.{Page, SharedMemory}
use ovs_sgx.HashMap.Totals.{weight, is_node}
use ovs_sgx.Cache.{FlowCache, flow_map_cache_init, flow_map_cache_insert, flow_map_cache_is_valid}
use ovs_sgx.Cache.Invariant.{IsCache}
use ovs_sgx.Cache.Insertion.{cache_insert-IsCache}
use ovs_sgx.Cache.Operations.{cache_init-IsCache}
use ovs_sgx.Cache.Run.{CacheCall, calls, calls-valid}

abbrev raw_page : Page
raw_page = record { bytes = 16384; size = 7; status = 9; pending_deallocation = 7 }

abbrev no_pages : SharedMemory
no_pages = record { pages = λ _. raw_page; cap = 10; allocated = λ _. 0; default_page_sz = 64 }

abbrev two_entries : List ℕ
two_entries = 4096 ∷ 8192 ∷ []

abbrev empty_cache : FlowCache
empty_cache = flow_map_cache_init two_entries (λ _. 0) (some no_pages)

abbrev five_calls : List CacheCall
five_calls =
    CacheCall.insert raw_page raw_page 5 640
    ∷ CacheCall.insert raw_page raw_page 9 704
    ∷ CacheCall.insert raw_page raw_page 13 768
    ∷ CacheCall.look_up 9
    ∷ CacheCall.remove (λ _. 0 ∷ 0 ∷ 0 ∷ 0 ∷ 0 ∷ 0 ∷ 0 ∷ 0 ∷ []) 704
    ∷ CacheCall.flush
    ∷ []

two_entries_differ : (x : ℕ) → weight (is_node x) two_entries ≤ 1
two_entries_differ x = ground arith

calls-valid_example :
    (c : FlowCache) × (calls five_calls empty_cache ≡ some c) × (flow_map_cache_is_valid c ≡ true)
calls-valid_example =
    calls-valid two_entries (λ _. 0) (some no_pages) five_calls two_entries_differ (omega arith)
      (λ e. omega arith, (λ e. omega arith, (λ e. omega arith, (λ e. omega arith, tt))))

cache_insert-IsCache_example :
    (c' : FlowCache) × (flow_map_cache_insert raw_page raw_page empty_cache 5 640 ≡ some c')
    × IsCache c'
    × ((x : ℕ) → c'.crs x ≡ update empty_cache.crs 4096 640 x)
    × (c'.lru_list ≡ (8192 ∷ []) ++ (4096 ∷ []))
unfolding flow_map_cache_init
cache_insert-IsCache_example =
    cache_insert-IsCache raw_page raw_page empty_cache 5 640 4096 (8192 ∷ [])
      (cache_init-IsCache two_entries (λ _. 0) (some no_pages) two_entries_differ)
      (λ e. omega arith) refl
