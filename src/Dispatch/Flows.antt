-- ===== src/Dispatch/Flows.antt =====
-- The calls of OFTonSGX/untrusted/app.c that are about changes and searches of a table's rules: for each, the pointers that its hot call
-- passes and the arguments that its direct call passes.
use ovs_sgx.Prelude.{ℕ, true, false, none, [], ◌∷◌}
use ovs_sgx.Dispatch.{
  Wrapper, pointer, parameter, next_uint8, next_voidptr, boolean, heap_node, int, size, uint16,
  uint32, uint8, unsigned, ecall_oftable_classifier_replace, ecall_cls_remove,
  ecall_oftable_cls_find_match_exactly, ecall_oftable_cls_lookup, ecall_add_flow,
  ecall_delete_flows, ecall_oftable_configure, ecall_oftable_remove_rules,
}

-- `SGX_classifier_replace`
unfoldable pub sgx_classifier_replace : ℕ → ℕ → ℕ → ℕ → Wrapper
sgx_classifier_replace bridge_id table_id ut_cr_insert ut_cr_remove = record {
  id = ecall_oftable_classifier_replace;
  async = false;
  args =
      parameter uint8 bridge_id
      ∷ parameter uint8 table_id
      ∷ pointer ut_cr_insert
      ∷ pointer ut_cr_remove
      ∷ [];
  n_args = 4;
  ret = none;
  returned = false;
  direct = bridge_id ∷ table_id ∷ ut_cr_insert ∷ ut_cr_remove ∷ [];
}

-- `SGX_cls_remove`
unfoldable pub sgx_cls_remove : ℕ → ℕ → ℕ → Wrapper
sgx_cls_remove bridge_id table_id ut_cr = record {
  id = ecall_cls_remove;
  async = true;
  args = next_uint8 bridge_id ∷ next_uint8 table_id ∷ next_voidptr ut_cr ∷ [];
  n_args = 3;
  ret = none;
  returned = false;
  direct = bridge_id ∷ table_id ∷ ut_cr ∷ [];
}

-- `SGX_cls_find_match_exactly`
unfoldable pub sgx_cls_find_match_exactly : ℕ → ℕ → ℕ → ℕ → ℕ → Wrapper
sgx_cls_find_match_exactly bridge_id table_id target priority ut_cr = record {
  id = ecall_oftable_cls_find_match_exactly;
  async = false;
  args =
      parameter uint8 bridge_id
      ∷ parameter uint8 table_id
      ∷ pointer target
      ∷ parameter unsigned priority
      ∷ pointer ut_cr
      ∷ [];
  n_args = 5;
  ret = none;
  returned = false;
  direct = bridge_id ∷ table_id ∷ target ∷ priority ∷ ut_cr ∷ [];
}

-- `SGX_cls_lookup`
unfoldable pub sgx_cls_lookup : ℕ → ℕ → ℕ → ℕ → ℕ → Wrapper
sgx_cls_lookup bridge_id ut_cr table_id flow wc = record {
  id = ecall_oftable_cls_lookup;
  async = false;
  args =
      parameter uint8 bridge_id
      ∷ pointer ut_cr
      ∷ parameter uint8 table_id
      ∷ pointer flow
      ∷ pointer wc
      ∷ [];
  n_args = 5;
  ret = none;
  returned = false;
  direct = bridge_id ∷ ut_cr ∷ table_id ∷ flow ∷ wc ∷ [];
}

-- `SGX_add_flow`
unfoldable pub sgx_add_flow :
    ℕ → ℕ → ℕ → ℕ → ℕ → ℕ → ℕ → ℕ → ℕ → ℕ → ℕ → ℕ → ℕ → ℕ → ℕ → ℕ → ℕ → ℕ → ℕ → ℕ → ℕ → ℕ → Wrapper
sgx_add_flow bridge_id table_id cr victim evict match evict_rule_hash vid vid_mask priority flags
      group_eviction_priority rule_eviction_priority eviction_node pending_deletions n_pending
      has_timeout table_overflow is_rule_modifiable is_rule_overlapping is_deletion_pending
      is_read_only =
    record {
      id = ecall_add_flow;
      async = false;
      args =
          parameter uint8 bridge_id
          ∷ parameter uint8 table_id
          ∷ pointer cr
          ∷ pointer victim
          ∷ pointer evict
          ∷ pointer match
          ∷ pointer evict_rule_hash
          ∷ pointer vid
          ∷ pointer vid_mask
          ∷ parameter unsigned priority
          ∷ parameter uint16 flags
          ∷ parameter uint32 group_eviction_priority
          ∷ parameter uint32 rule_eviction_priority
          ∷ parameter heap_node eviction_node
          ∷ pointer pending_deletions
          ∷ parameter int n_pending
          ∷ parameter boolean has_timeout
          ∷ pointer table_overflow
          ∷ pointer is_rule_modifiable
          ∷ pointer is_rule_overlapping
          ∷ pointer is_deletion_pending
          ∷ pointer is_read_only
          ∷ [];
      n_args = 22;
      ret = none;
      returned = false;
      direct =
          bridge_id ∷ table_id ∷ cr ∷ victim ∷ evict ∷ match ∷ evict_rule_hash ∷ vid ∷ vid_mask
          ∷ priority ∷ flags ∷ group_eviction_priority ∷ rule_eviction_priority ∷ eviction_node
          ∷ pending_deletions ∷ n_pending ∷ has_timeout ∷ table_overflow ∷ is_rule_modifiable
          ∷ is_rule_overlapping ∷ is_deletion_pending ∷ is_read_only ∷ [];
    }

-- `SGX_delete_flows`
unfoldable pub sgx_delete_flows : ℕ → ℕ → ℕ → ℕ → ℕ → ℕ → ℕ → ℕ → Wrapper
sgx_delete_flows bridge_id rule_table_ids ut_crs rule_is_hidden rule_hashes rule_priorities match
      n =
    record {
      id = ecall_delete_flows;
      async = false;
      args =
          parameter uint8 bridge_id
          ∷ pointer rule_table_ids
          ∷ pointer ut_crs
          ∷ pointer rule_is_hidden
          ∷ pointer rule_hashes
          ∷ pointer rule_priorities
          ∷ pointer match
          ∷ parameter size n
          ∷ [];
      n_args = 8;
      ret = none;
      returned = false;
      direct =
          bridge_id ∷ rule_table_ids ∷ ut_crs ∷ rule_is_hidden ∷ rule_hashes ∷ rule_priorities
          ∷ match ∷ n ∷ [];
    }

-- `SGX_configure_table`
unfoldable pub sgx_configure_table : ℕ → ℕ → ℕ → ℕ → ℕ → ℕ → ℕ → ℕ → Wrapper
sgx_configure_table bridge_id table_id name max_flows groups n_groups need_to_evict is_read_only =
    record {
      id = ecall_oftable_configure;
      async = false;
      args =
          parameter uint8 bridge_id
          ∷ parameter uint8 table_id
          ∷ pointer name
          ∷ parameter unsigned max_flows
          ∷ pointer groups
          ∷ parameter size n_groups
          ∷ pointer need_to_evict
          ∷ pointer is_read_only
          ∷ [];
      n_args = 8;
      ret = none;
      returned = false;
      direct =
          bridge_id ∷ table_id ∷ name ∷ max_flows ∷ groups ∷ n_groups ∷ need_to_evict ∷ is_read_only
          ∷ [];
    }

-- `SGX_remove_rules`
unfoldable pub sgx_remove_rules : ℕ → ℕ → ℕ → ℕ → ℕ → Wrapper
sgx_remove_rules bridge_id table_ids ut_crs is_hidden n_rules = record {
  id = ecall_oftable_remove_rules;
  async = false;
  args =
      parameter uint8 bridge_id
      ∷ pointer table_ids
      ∷ pointer ut_crs
      ∷ pointer is_hidden
      ∷ parameter size n_rules
      ∷ [];
  n_args = 5;
  ret = none;
  returned = false;
  direct = bridge_id ∷ table_ids ∷ ut_crs ∷ is_hidden ∷ n_rules ∷ [];
}
