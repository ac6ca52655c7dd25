-- ===== src/Cache.antt =====
-- OFTonSGX/trusted/cache-trusted.c and cache-trusted.h, and OFTonSGX/untrusted/cache-untrusted.c: the
-- cache from flows to the switch's rules in untrusted memory, and its checksum in the enclave. A
-- cache entry is known by its address, which stands for both of its map nodes and its list node.
pub mod Invariant
pub mod Removal
pub mod Insertion
pub mod Operations
pub mod Run
mod Examples
use ovs_sgx.Prelude.{
  ℕ, zero, suc, ◌+◌, ◌-◌, ◌%◌, ◌^◌, ◌==◌, Bool, true, false, not, ◌&&◌, List, [], ◌∷◌, ◌++◌, Option,
  none, some, if◌then◌else◌, update,
}
use ovs_sgx.Hash.{u32, hash_int, hash_bytes}
use ovs_sgx.Flow.{
  Flow, Miniflow, Minimask, Wildcards, minimask_init, flow_hash_in_minimask, flow_hash,
  miniflow_expand, minimask_expand, flow_u32s,
}
use ovs_sgx.Classifier.{Minimatch}
use ovs_sgx.Memory.{Page, SharedMemory}
use ovs_sgx.HashMap.{
  Hmap, bucket_of, hmap_insert, hmap_remove, hmap_first_with_hash, hmap_nodes, hmap_init,
}

-- `flow_map_cache` without its capacity, with the field `cr` of every entry (0 is `NULL`) and the
-- enclave's `flow_cache_hash_checksum`. The hashes of the entries' nodes are in the maps.
pub record FlowCache : Type 0 where
  pub entries : Hmap
  pub ut_crs : Hmap
  pub lru_list : List ℕ
  pub crs : ℕ → ℕ
  pub memory : Option SharedMemory
  pub checksum : ℕ

abbrev pub u64 : ℕ → ℕ
u64 x = x % 2 ^ 64

-- In 32 bits, where `hash_int` takes and returns a word.
unfoldable pub cache_entry_hash : ℕ → ℕ → ℕ
cache_entry_hash hash cr = u32 (hash_int (u32 (u64 (hash + cr))) 0)

abbrev pub entry_hash : FlowCache → ℕ → ℕ
entry_hash c e = cache_entry_hash (c.entries.hashes e) (c.crs e)

-- The hash of the eight bytes at the address, which may not be null
unfoldable pub ut_cr_addr_hash : (ℕ → List ℕ) → ℕ → Option ℕ
ut_cr_addr_hash bytes_at ut_cr = if ut_cr == 0 then none else some (hash_bytes (bytes_at ut_cr) 0)

unfoldable pub flow_map_cache_calculate_hash : Flow → Option Wildcards → ℕ → ℕ → ℕ
flow_map_cache_calculate_hash flow none bridge_id table_id =
    u64 (flow_hash flow 0 + (bridge_id + table_id))
flow_map_cache_calculate_hash flow (some wc) bridge_id table_id =
    u64 (flow_hash_in_minimask flow (minimask_init wc) 0 + (bridge_id + table_id))

unfoldable pub sum_hashes : (ℕ → ℕ) → List ℕ → ℕ → ℕ
sum_hashes f [] hash = hash
sum_hashes f (e ∷ es) hash = sum_hashes f es (u64 (hash + f e))

unfoldable pub flow_map_cache_hash : FlowCache → ℕ
flow_map_cache_hash c = sum_hashes (entry_hash c) (hmap_nodes c.entries) 0

unfoldable pub flow_map_cache_is_valid : FlowCache → Bool
flow_map_cache_is_valid c = flow_map_cache_hash c == c.checksum

-- `flow_map_cache_update_hash` for its two kinds of update, in 64 bits
abbrev pub checksum_insert : ℕ → ℕ → ℕ
checksum_insert checksum hash = u64 (checksum + hash)

abbrev pub checksum_delete : ℕ → ℕ → ℕ
checksum_delete checksum hash = u64 (checksum + 2 ^ 64 - hash)

abbrev pub list_remove_entry : ℕ → List ℕ → List ℕ
list_remove_entry e [] = []
list_remove_entry e (x ∷ xs) = if x == e then xs else x ∷ list_remove_entry e xs

-- `list_remove` and `list_insert` before the list's head: the entry goes to the back.
abbrev pub to_back : ℕ → List ℕ → List ℕ
to_back e lru = list_remove_entry e lru ++ (e ∷ [])

-- None where `hmap_remove` ran past the end of a chain.
abbrev pub removed_from : FlowCache → ℕ → Bool → Option Hmap → Option Hmap → Option FlowCache
removed_from c e update_lru_list none o = none
removed_from c e update_lru_list (some entries) none = none
removed_from c e update_lru_list (some entries) (some ut_crs) = some (record c {
  entries = entries;
  ut_crs = ut_crs;
  lru_list = if update_lru_list then to_back e c.lru_list else c.lru_list;
  crs = update c.crs e 0;
})

unfoldable pub remove_cache_entry : FlowCache → ℕ → Bool → Option FlowCache
remove_cache_entry c e update_lru_list =
    removed_from c e update_lru_list (hmap_remove c.entries e) (hmap_remove c.ut_crs e)

-- The checksum loses the entry's hash, then the entry is taken out.
abbrev pub drop_entry : FlowCache → ℕ → Bool → Option FlowCache
drop_entry c e update_lru_list =
    remove_cache_entry (record c { checksum = checksum_delete c.checksum (entry_hash c e) }) e
      update_lru_list

-- The first entry of a chain with the hash and the rule
unfoldable pub find_ut_cr : (ℕ → ℕ) → (ℕ → ℕ) → ℕ → ℕ → List ℕ → Option ℕ
find_ut_cr hashes crs hash ut_cr [] = none
find_ut_cr hashes crs hash ut_cr (e ∷ es) =
    let rest = find_ut_cr hashes crs hash ut_cr es in
    if hashes e == hash && crs e == ut_cr then some e else rest

-- What the loop does with the entry it finds, if it finds one.
abbrev pub drop_found : FlowCache → Option ℕ → Option FlowCache
drop_found c none = some c
drop_found c (some e) = drop_entry c e true

-- The loop over the chain of the hash; none for the hash is the dereference of a null pointer.
abbrev pub remove_hashed : FlowCache → ℕ → Option ℕ → Option FlowCache
remove_hashed c ut_cr none = none
remove_hashed c ut_cr (some hash) =
    drop_found c
      (find_ut_cr c.ut_crs.hashes c.crs hash ut_cr (c.ut_crs.buckets (bucket_of c.ut_crs hash)))

unfoldable pub flow_map_cache_remove_ut_cr : (ℕ → List ℕ) → FlowCache → ℕ → Option FlowCache
unfolding ut_cr_addr_hash
flow_map_cache_remove_ut_cr bytes_at c ut_cr =
    remove_hashed c ut_cr (ut_cr_addr_hash bytes_at ut_cr)

abbrev pub page_status_allocated : ℕ
page_status_allocated = 1

-- `raw` and `raw'` are what `malloc` returns if the maps grow.
unfoldable pub insert_cache_entry : Page → Page → FlowCache → ℕ → ℕ → FlowCache
insert_cache_entry raw raw' c e hash =
    let first = hmap_insert raw c.entries e hash c.memory page_status_allocated in
    let second = hmap_insert raw' c.ut_crs e hash first.1 page_status_allocated in
    record c {
      entries = first.0;
      ut_crs = second.0;
      memory = second.1;
      lru_list = to_back e c.lru_list;
      checksum = checksum_insert c.checksum (cache_entry_hash (first.0.hashes e) (c.crs e));
    }

abbrev pub fill_entry : Page → Page → ℕ → ℕ → ℕ → FlowCache → FlowCache
fill_entry raw raw' e ut_cr hash c =
    insert_cache_entry raw raw' (record c { crs = update c.crs e ut_cr }) e hash

-- An entry with a rule is taken out first.
abbrev pub evict : FlowCache → ℕ → Option FlowCache
evict c e = if c.crs e == 0 then some c else drop_entry c e false

abbrev pub refill : Page → Page → ℕ → ℕ → ℕ → Option FlowCache → Option FlowCache
refill raw raw' e ut_cr hash none = none
refill raw raw' e ut_cr hash (some c) = some (fill_entry raw raw' e ut_cr hash c)

-- The loop over the list, which takes its first entry; none for a list without entries, whose head is
-- not an entry.
abbrev pub insert_first : Page → Page → FlowCache → ℕ → ℕ → List ℕ → Option FlowCache
insert_first raw raw' c hash ut_cr [] = none
insert_first raw raw' c hash ut_cr (e ∷ es) = refill raw raw' e ut_cr hash (evict c e)

-- `flow_map_cache_insert`, with the flow's hash
unfoldable pub flow_map_cache_insert : Page → Page → FlowCache → ℕ → ℕ → Option FlowCache
flow_map_cache_insert raw raw' c hash ut_cr = insert_first raw raw' c hash ut_cr c.lru_list

-- The hash of the trusted rule's own flow and wildcards
abbrev pub rule_hash : Minimatch → ℕ → ℕ → ℕ
rule_hash match bridge_id table_id =
    flow_map_cache_calculate_hash (miniflow_expand flow_u32s match.flow)
      (some (minimask_expand flow_u32s match.mask)) bridge_id table_id

unfoldable pub flow_map_cache_insert_rule :
    Page → Page → FlowCache → Minimatch → ℕ → ℕ → ℕ → Option FlowCache
flow_map_cache_insert_rule raw raw' c match ut_cr bridge_id table_id =
    flow_map_cache_insert raw raw' c (rule_hash match bridge_id table_id) ut_cr

-- `HMAP_FOR_EACH_SAFE` over the entries
unfoldable pub remove_all : List ℕ → FlowCache → Option FlowCache
remove_all [] c = some c
remove_all (e ∷ es) c = elim (remove_cache_entry c e false) [
  | none ↦ none
  | some c' ↦ remove_all es c'
]

unfoldable pub flow_map_cache_flush : FlowCache → Option FlowCache
flow_map_cache_flush c = elim (remove_all (hmap_nodes c.entries) c) [
  | none ↦ none
  | some c' ↦ some (record c' { checksum = 0 })
]

-- The entry of a flow, which becomes the one used last.
abbrev pub touch_first : FlowCache → List ℕ → Option ℕ × FlowCache
touch_first c [] = (none, c)
touch_first c (e ∷ es) = (some e, record c { lru_list = to_back e c.lru_list })

unfoldable pub flow_map_cache_get_entry : FlowCache → ℕ → Option ℕ × FlowCache
flow_map_cache_get_entry c hash = touch_first c (hmap_first_with_hash c.entries hash)

-- The entries are the addresses that `malloc` returns.
unfoldable pub flow_map_cache_init : List ℕ → (ℕ → ℕ) → Option SharedMemory → FlowCache
flow_map_cache_init fresh hashes memory = record {
  entries = hmap_init hashes;
  ut_crs = hmap_init hashes;
  lru_list = fresh;
  crs = λ _. 0;
  memory = memory;
  checksum = 0;
}
