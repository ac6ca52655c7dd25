-- ===== src/HashMap.antt =====
-- OFTonSGX/trusted/lib/hmap.c and hmap.h: hash maps with chained buckets, which grow and take their
-- buckets from the shared memory or from `malloc`. A node is known by its address; a chain is the
-- list of its nodes. The assertions on the shape of a mask are left out: nothing depends on them.
pub mod Totals
pub mod Fast
pub mod Insert
pub mod Remove
pub mod Lookup
mod Examples
use ovs_sgx.Prelude.{
  ℕ, zero, suc, ◌+◌, ◌-◌, ◌*◌, ◌/◌, ◌%◌, ◌^◌, ◌==◌, ltb, bit_and, bit_or, Bool, true, false, List,
  [], ◌∷◌, ◌++◌, Option, none, some, if◌then◌else◌, update,
}
use ovs_sgx.Memory.{Page, SharedMemory, shared_memory_get_page, shared_memory_free_page}

-- `struct hmap`, with the hashes of the nodes. `addr` is where the buckets are, 0 for the map's own
-- single bucket `one`.
pub record Hmap : Type 0 where
  pub addr : ℕ
  pub buckets : ℕ → List ℕ
  pub mask : ℕ
  pub n : ℕ
  pub hashes : ℕ → ℕ

abbrev pub no_nodes : ℕ → List ℕ
no_nodes i = []

unfoldable pub hmap_init : (ℕ → ℕ) → Hmap
hmap_init hashes = record { addr = 0; buckets = no_nodes; mask = 0; n = 0; hashes = hashes }

abbrev pub bucket_of : Hmap → ℕ → ℕ
bucket_of h hash = bit_and hash h.mask

unfoldable pub hmap_insert_fast : Hmap → ℕ → ℕ → Hmap
hmap_insert_fast h node hash = record h {
  buckets = update h.buckets (bucket_of h hash) (node ∷ h.buckets (bucket_of h hash));
  n = suc h.n;
  hashes = update h.hashes node hash;
}

-- The inner loop of `resize` over one chain
unfoldable pub insert_all : List ℕ → Hmap → Hmap
insert_all [] tmp = tmp
insert_all (node ∷ chain) tmp = insert_all chain (hmap_insert_fast tmp node (tmp.hashes node))

-- Its outer loop, from bucket `i` on
unfoldable pub insert_chains : (ℕ → List ℕ) → ℕ → ℕ → Hmap → Hmap
insert_chains buckets zero i tmp = tmp
insert_chains buckets (suc k) i tmp = insert_chains buckets k (suc i) (insert_all (buckets i) tmp)

-- The map with its nodes in new buckets
abbrev pub rehash : Hmap → ℕ → ℕ → Hmap
rehash h new_mask addr =
    insert_chains h.buckets (suc h.mask) 0
      (record { addr = addr; buckets = no_nodes; mask = new_mask; n = 0; hashes = h.hashes })

-- The old buckets go back to the shared memory, unless they were the map's own.
abbrev pub give_back : Hmap → SharedMemory → SharedMemory
give_back h m = if h.addr == 0 then m else shared_memory_free_page m h.addr

-- `resize`, with no memory for a map that takes its buckets from `malloc`. Without a page the map
-- stays as it is. `raw` is what `malloc` returns.
unfoldable pub resize : Page → Hmap → ℕ → Option SharedMemory → ℕ → Hmap × Option SharedMemory
resize raw h zero none page_type = (rehash h 0 0, none)
resize raw h zero (some m) page_type = (rehash h 0 0, some (give_back h m))
resize raw h (suc k) none page_type = (rehash h (suc k) raw.bytes, none)
resize raw h (suc k) (some m) page_type =
    elim (shared_memory_get_page raw m (8 * (suc k + 1) % 2 ^ 64) page_type) [
      | none ↦ (h, some m)
      | some (i, m') ↦ (rehash h (suc k) (m'.pages i).bytes, some (give_back h m'))
    ]

abbrev pub smear : ℕ → ℕ → ℕ
smear shift mask = bit_or mask (mask / 2 ^ shift)

unfoldable pub calc_mask : ℕ → ℕ
calc_mask capacity =
    let mask = smear 32 (smear 16 (smear 8 (smear 4 (smear 2 (smear 1 (capacity / 2)))))) in
    bit_or mask (bit_and mask 1 * 2)

unfoldable pub hmap_expand : Page → Hmap → Option SharedMemory → ℕ → Hmap × Option SharedMemory
hmap_expand raw h mem page_type =
    let resized = resize raw h (calc_mask h.n) mem page_type in
    if ltb h.mask (calc_mask h.n) then resized else (h, mem)

unfoldable pub hmap_insert :
    Page → Hmap → ℕ → ℕ → Option SharedMemory → ℕ → Hmap × Option SharedMemory
hmap_insert raw h node hash mem page_type =
    let h' = hmap_insert_fast h node hash in
    let expanded = hmap_expand raw h' mem page_type in
    if ltb h'.mask (h'.n / 2) then expanded else (h', mem)

-- The walk along the links to `node`; none past the end of the chain, a null pointer.
unfoldable pub unlink_node : ℕ → List ℕ → Option (List ℕ)
unlink_node node [] = none
unlink_node node (x ∷ xs) =
    let rest = unlink_node node xs in
    if x == node then some xs else elim rest [ none ↦ none | some ys ↦ some (x ∷ ys) ]

unfoldable pub hmap_remove : Hmap → ℕ → Option Hmap
hmap_remove h node =
    let i = bucket_of h (h.hashes node) in
    elim (unlink_node node (h.buckets i)) [
      | none ↦ none
      | some chain ↦ some (record h { buckets = update h.buckets i chain; n = h.n - 1 })
    ]

-- `hmap_next_with_hash__`: the rest of the chain from the first node with the hash on
unfoldable pub next_with_hash : (ℕ → ℕ) → ℕ → List ℕ → List ℕ
next_with_hash hashes hash [] = []
next_with_hash hashes hash (x ∷ xs) =
    let rest = next_with_hash hashes hash xs in if hashes x == hash then x ∷ xs else rest

unfoldable pub hmap_first_with_hash : Hmap → ℕ → List ℕ
hmap_first_with_hash h hash = next_with_hash h.hashes hash (h.buckets (bucket_of h hash))

-- `HMAP_FOR_EACH`: the nodes of `k` buckets from `i` on, in the order of the iteration
unfoldable pub chains_from : (ℕ → List ℕ) → ℕ → ℕ → List ℕ
chains_from buckets zero i = []
chains_from buckets (suc k) i = buckets i ++ chains_from buckets k (suc i)

unfoldable pub hmap_nodes : Hmap → List ℕ
hmap_nodes h = chains_from h.buckets (suc h.mask) 0

abbrev pub hmap_is_empty : Hmap → Bool
hmap_is_empty h = h.n == 0

unfoldable pub hmap_clear : Hmap → Hmap
hmap_clear h = if ltb 0 h.n then record h { n = 0; buckets = no_nodes } else h
