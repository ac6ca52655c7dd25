-- ===== src/HashMap/Examples.antt =====
-- A map that is filled from empty and grows on the way.
use ovs_sgx.Prelude.{ℕ, ◌+◌, ◌<◌, ◌≡◌, ◌↔◌, refl, List, [], ◌∷◌, none, some, update, arith}
use ovs_sgx.Memory.{Page}
use ovs_sgx.HashMap.{
  Hmap, hmap_init, hmap_insert_fast, insert_all, insert_chains, resize, calc_mask, hmap_expand,
  hmap_insert, hmap_remove, hmap_first_with_hash, hmap_nodes, chains_from,
}
use ovs_sgx.HashMap.Totals.{IsHmap, total, is_node}
use ovs_sgx.HashMap.Insert.{hmap_insert-Inserted}
use ovs_sgx.HashMap.Remove.{hmap_remove-Removed}
use ovs_sgx.HashMap.Lookup.{has_hash, hmap_first_with_hash_lem}

abbrev raw_page : Page
raw_page = record { bytes = 16384; size = 7; status = 9; pending_deallocation = 7 }

abbrev empty_map : Hmap
empty_map = hmap_init (λ _. 0)

abbrev one_node : Hmap
one_node = (hmap_insert raw_page empty_map 4096 5 none 1).0

abbrev two_nodes : Hmap
two_nodes = (hmap_insert raw_page one_node 8192 9 none 1).0

empty_map-IsHmap : IsHmap empty_map
unfolding hmap_init IsHmap
empty_map-IsHmap = (λ i le. tt, refl)

one_node-IsHmap : IsHmap one_node
unfolding hmap_init
one_node-IsHmap = (hmap_insert-Inserted raw_page empty_map 4096 5 none 1 empty_map-IsHmap refl).0

-- The second node makes the map grow to four buckets, of which both nodes share one.
two_nodes_test : (two_nodes.mask ≡ 3) × (hmap_nodes two_nodes ≡ 4096 ∷ 8192 ∷ [])
unfolding hmap_init hmap_insert hmap_insert_fast hmap_expand calc_mask resize insert_chains
    insert_all hmap_nodes chains_from
two_nodes_test = (refl, refl)

hmap_insert-Inserted_example :
    IsHmap two_nodes
    × ((f : ℕ → ℕ) → total f two_nodes ≡ f 8192 + total f one_node)
    × ((x : ℕ) → two_nodes.hashes x ≡ update one_node.hashes 8192 9 x)
unfolding hmap_init hmap_insert hmap_insert_fast
hmap_insert-Inserted_example =
    hmap_insert-Inserted raw_page one_node 8192 9 none 1 one_node-IsHmap refl

hmap_remove-Removed_example :
    (h' : Hmap) × (hmap_remove one_node 4096 ≡ some h')
    × IsHmap h'
    × ((f : ℕ → ℕ) → total f one_node ≡ f 4096 + total f h')
    × (h'.hashes ≡ one_node.hashes)
unfolding hmap_init hmap_insert hmap_insert_fast
hmap_remove-Removed_example = hmap_remove-Removed one_node 4096 one_node-IsHmap (omega arith)

hmap_first_with_hash_example :
    ((hmap_first_with_hash one_node 5 ≡ []) ↔ (total (has_hash one_node.hashes 5) one_node ≡ 0))
    × ((x : ℕ) (rest : List ℕ)
        → hmap_first_with_hash one_node 5 ≡ x ∷ rest
        → (one_node.hashes x ≡ 5) × (0 < total (is_node x) one_node))
hmap_first_with_hash_example = hmap_first_with_hash_lem one_node 5 one_node-IsHmap
