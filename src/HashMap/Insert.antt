-- ===== src/HashMap/Insert.antt =====
-- `resize` and `hmap_expand` of OFTonSGX/trusted/lib/hmap.c and `hmap_insert` of hmap.h: the map grows
-- without losing a node or its place.
use ovs_sgx.Prelude.{
  ℕ, zero, suc, ◌+◌, ◌*◌, ◌/◌, ◌%◌, ◌^◌, ◌≡◌, refl, sym, ◌∙◌, ltb, Bool, true, false, List, [], ◌∷◌,
  Option, none, some, if◌then◌else◌, update, arith,
}
use ovs_sgx.Memory.{Page, SharedMemory, shared_memory_get_page}
use ovs_sgx.HashMap.{
  Hmap, no_nodes, hmap_insert_fast, insert_all, insert_chains, rehash, resize, give_back,
  hmap_expand, hmap_insert, calc_mask,
}
use ovs_sgx.HashMap.Totals.{weight, total_from, total, IsHmap, is_node, total-empty}
use ovs_sgx.HashMap.Fast.{
  insert_fast-total, same-KeepsHashes, All-every, fresh-KeepsHashes, insert_fast-IsHmap,
}

-- A map `h'` holds what `h` holds and the nodes of weight `w`, is well formed, and the hashes are
-- the same.
abbrev Grown : Hmap → ((ℕ → ℕ) → ℕ) → Hmap → Type 0
Grown h w h' =
    IsHmap h' × ((f : ℕ → ℕ) → total f h' ≡ w f + total f h) × ((x : ℕ) → h'.hashes x ≡ h.hashes x)

insert_all-Grown :
    (chain : List ℕ) (tmp : Hmap)
    → IsHmap tmp
    → Grown tmp (λ f. weight f chain) (insert_all chain tmp)
unfolding insert_all hmap_insert_fast
insert_all-Grown [] tmp k = (k, λ f. omega arith, λ x. refl)
insert_all-Grown (node ∷ chain) tmp k =
    let same = same-KeepsHashes tmp node in
    let k' =
      insert_fast-IsHmap tmp node (tmp.hashes node) (λ i le. All-every (tmp.buckets i) same) k in
    let (g, t, s) = insert_all-Grown chain (hmap_insert_fast tmp node (tmp.hashes node)) k' in
    (g, λ f. omega (arith, t f, insert_fast-total f tmp node (tmp.hashes node)), λ x. s x ∙ same x)

insert_chains-Grown :
    (buckets : ℕ → List ℕ) (k i : ℕ) (tmp : Hmap)
    → IsHmap tmp
    → Grown tmp (λ f. total_from f buckets k i) (insert_chains buckets k i tmp)
unfolding insert_chains
insert_chains-Grown buckets zero i tmp h = (h, λ f. omega arith, λ x. refl)
insert_chains-Grown buckets (suc k) i tmp h =
    let (g, t, s) = insert_all-Grown (buckets i) tmp h in
    let (g', t', s') = insert_chains-Grown buckets k (suc i) (insert_all (buckets i) tmp) g in
    (g', λ f. omega (arith, t f, t' f), λ x. s' x ∙ s x)

-- The two maps hold the same nodes with the same hashes, and the second is well formed.
abbrev pub SameNodes : Hmap → Hmap → Type 0
SameNodes h h' =
    IsHmap h' × ((f : ℕ → ℕ) → total f h' ≡ total f h) × ((x : ℕ) → h'.hashes x ≡ h.hashes x)

rehash-SameNodes : (h : Hmap) (new_mask addr : ℕ) → IsHmap h → SameNodes h (rehash h new_mask addr)
unfolding IsHmap
rehash-SameNodes h new_mask addr k =
    let empty : Hmap = record {
      addr = addr;
      buckets = no_nodes;
      mask = new_mask;
      n = 0;
      hashes = h.hashes;
    } in
    let empty-IsHmap : IsHmap empty = (λ i le. tt, sym (total-empty (λ x. 1) (suc new_mask) 0)) in
    let (g, t, s) = insert_chains-Grown h.buckets (suc h.mask) 0 empty empty-IsHmap in
    (g, λ f. omega (arith, t f, total-empty f (suc new_mask) 0), s)

given-SameNodes :
    (h : Hmap) (k page_type : ℕ) (m : SharedMemory) (page : Option (ℕ × SharedMemory))
    → IsHmap h
    → SameNodes h
        (elim page as (λ _. Hmap × Option SharedMemory) [
          | none ↦ (h, some m)
          | some (i, m') ↦ (rehash h (suc k) (m'.pages i).bytes, some (give_back h m'))
        ]).0
given-SameNodes h k page_type m none g = (g, λ f. refl, λ x. refl)
given-SameNodes h k page_type m (some (i, m')) g = rehash-SameNodes h (suc k) (m'.pages i).bytes g

resize-SameNodes :
    (raw : Page) (h : Hmap) (new_mask : ℕ) (mem : Option SharedMemory) (page_type : ℕ)
    → IsHmap h
    → SameNodes h (resize raw h new_mask mem page_type).0
unfolding resize
resize-SameNodes raw h zero none page_type k = rehash-SameNodes h 0 0 k
resize-SameNodes raw h zero (some m) page_type k = rehash-SameNodes h 0 0 k
resize-SameNodes raw h (suc n) none page_type k = rehash-SameNodes h (suc n) raw.bytes k
resize-SameNodes raw h (suc n) (some m) page_type k =
    given-SameNodes h n page_type m
      (shared_memory_get_page raw m (8 * (suc n + 1) % 2 ^ 64) page_type) k

either-SameNodes :
    (b : Bool) (h : Hmap) (x y : Hmap × Option SharedMemory)
    → SameNodes h x.0
    → SameNodes h y.0
    → SameNodes h (if b then x else y).0
either-SameNodes true h x y p q = p
either-SameNodes false h x y p q = q

hmap_expand-SameNodes :
    (raw : Page) (h : Hmap) (mem : Option SharedMemory) (page_type : ℕ)
    → IsHmap h
    → SameNodes h (hmap_expand raw h mem page_type).0
unfolding hmap_expand
hmap_expand-SameNodes raw h mem page_type k =
    either-SameNodes (ltb h.mask (calc_mask h.n)) h (resize raw h (calc_mask h.n) mem page_type)
      (h, mem) (resize-SameNodes raw h (calc_mask h.n) mem page_type k) (k, λ f. refl, λ x. refl)

-- `hmap_insert` keeps a map well formed, every node in the bucket of its hash and `n` their number,
-- and adds exactly the node with the hash: whatever one counts over the nodes grows by what the node
-- counts, and no other node's hash changes; whether the map grows or not, with buckets from the
-- shared memory or from `malloc`, and also when no page is left: for a node the map does not hold.
pub hmap_insert-Inserted :
    (raw : Page) (h : Hmap) (node hash : ℕ) (mem : Option SharedMemory) (page_type : ℕ)
    → IsHmap h
    → total (is_node node) h ≡ 0
    → let h' = (hmap_insert raw h node hash mem page_type).0 in
      IsHmap h'
      × ((f : ℕ → ℕ) → total f h' ≡ f node + total f h)
      × ((x : ℕ) → h'.hashes x ≡ update h.hashes node hash x)
unfolding hmap_insert hmap_insert_fast
hmap_insert-Inserted raw h node hash mem page_type k e =
    let g = hmap_insert_fast h node hash in
    let well = insert_fast-IsHmap h node hash (fresh-KeepsHashes h node hash e) k in
    let (w, t, s) =
      either-SameNodes (ltb g.mask (g.n / 2)) g (hmap_expand raw g mem page_type) (g, mem)
        (hmap_expand-SameNodes raw g mem page_type well) (well, λ f. refl, λ x. refl) in
    (w, λ f. t f ∙ insert_fast-total f h node hash, s)
