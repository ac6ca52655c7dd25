-- ===== src/Dispatch/Evictions.antt =====
-- The calls of OFTonSGX/untrusted/app.c that are about eviction groups and the choice of a rule to evict: for each, the pointers that its hot call
-- passes and the arguments that its direct call passes.
use ovs_sgx.Prelude.{ℕ, true, false, none, some, [], ◌∷◌}
use ovs_sgx.Dispatch.{
  Wrapper, pointer, parameter, next_uint8, next_uint32, next_heapnode, next_voidptr, boolean, int,
  size, uint32, uint8, ecall_is_eviction_fields_enabled, ecall_evg_add_rule, ecall_evg_remove_rule,
  ecall_choose_rule_to_evict, ecall_choose_rule_to_evict_p, ecall_oftable_enable_eviction,
  ecall_oftable_disable_eviction, ecall_oftable_enable_eviction_c, ecall_oftable_enable_eviction_r,
  ecall_get_cls_rules_and_enable_eviction, ecall_eviction_group_add_rules, ecall_ofproto_evict,
  ecall_need_to_evict,
}

-- `SGX_eviction_fields_enable`
unfoldable pub sgx_eviction_fields_enable : ℕ → ℕ → Wrapper
sgx_eviction_fields_enable bridge_id table_id = record {
  id = ecall_is_eviction_fields_enabled;
  async = false;
  args = parameter uint8 bridge_id ∷ parameter uint8 table_id ∷ [];
  n_args = 2;
  ret = some int;
  returned = true;
  direct = bridge_id ∷ table_id ∷ [];
}

-- `SGX_evg_add_rule`
unfoldable pub sgx_evg_add_rule : ℕ → ℕ → ℕ → ℕ → ℕ → ℕ → Wrapper
sgx_evg_add_rule bridge_id table_id ut_cr priority rule_evict_prioriy rule_evg_node = record {
  id = ecall_evg_add_rule;
  async = true;
  args =
      next_uint8 bridge_id
      ∷ next_uint8 table_id
      ∷ next_voidptr ut_cr
      ∷ next_uint32 priority
      ∷ next_uint32 rule_evict_prioriy
      ∷ next_heapnode rule_evg_node
      ∷ [];
  n_args = 6;
  ret = none;
  returned = false;
  direct = bridge_id ∷ table_id ∷ ut_cr ∷ priority ∷ rule_evict_prioriy ∷ rule_evg_node ∷ [];
}

-- `SGX_evg_remove_rule`
unfoldable pub sgx_evg_remove_rule : ℕ → ℕ → ℕ → Wrapper
sgx_evg_remove_rule bridge_id table_id ut_cr = record {
  id = ecall_evg_remove_rule;
  async = true;
  args = next_uint8 bridge_id ∷ next_uint8 table_id ∷ next_voidptr ut_cr ∷ [];
  n_args = 3;
  ret = none;
  returned = false;
  direct = bridge_id ∷ table_id ∷ ut_cr ∷ [];
}

-- `SGX_choose_rule_to_evict`
unfoldable pub sgx_choose_rule_to_evict : ℕ → ℕ → ℕ → Wrapper
sgx_choose_rule_to_evict bridge_id table_id ut_cr_victim = record {
  id = ecall_choose_rule_to_evict;
  async = false;
  args = parameter uint8 bridge_id ∷ parameter uint8 table_id ∷ pointer ut_cr_victim ∷ [];
  n_args = 3;
  ret = none;
  returned = false;
  direct = bridge_id ∷ table_id ∷ ut_cr_victim ∷ [];
}

-- `SGX_choose_rule_to_evict_p`
unfoldable pub sgx_choose_rule_to_evict_p : ℕ → ℕ → ℕ → ℕ → Wrapper
sgx_choose_rule_to_evict_p bridge_id table_id ut_cr_victim ut_cr_replacer = record {
  id = ecall_choose_rule_to_evict_p;
  async = false;
  args =
      parameter uint8 bridge_id
      ∷ parameter uint8 table_id
      ∷ pointer ut_cr_victim
      ∷ pointer ut_cr_replacer
      ∷ [];
  n_args = 4;
  ret = none;
  returned = false;
  direct = bridge_id ∷ table_id ∷ ut_cr_victim ∷ ut_cr_replacer ∷ [];
}

-- `SGX_oftable_enable_eviction_c`
unfoldable pub sgx_oftable_enable_eviction_c : ℕ → ℕ → Wrapper
sgx_oftable_enable_eviction_c bridge_id table_id = record {
  id = ecall_oftable_enable_eviction_c;
  async = false;
  args = parameter uint8 bridge_id ∷ parameter uint8 table_id ∷ [];
  n_args = 2;
  ret = some size;
  returned = true;
  direct = bridge_id ∷ table_id ∷ [];
}

-- `SGX_oftable_enable_eviction_r`
unfoldable pub sgx_oftable_enable_eviction_r : ℕ → ℕ → ℕ → ℕ → Wrapper
sgx_oftable_enable_eviction_r bridge_id buf elem table_id = record {
  id = ecall_oftable_enable_eviction_r;
  async = false;
  args =
      parameter uint8 bridge_id ∷ pointer buf ∷ parameter int elem ∷ parameter uint8 table_id ∷ [];
  n_args = 4;
  ret = some size;
  returned = false;
  direct = bridge_id ∷ buf ∷ elem ∷ table_id ∷ [];
}

-- `SGX_oftable_enable_eviction`
unfoldable pub sgx_oftable_enable_eviction : ℕ → ℕ → ℕ → ℕ → ℕ → ℕ → Wrapper
sgx_oftable_enable_eviction bridge_id table_id fields n_fields random_v no_change = record {
  id = ecall_oftable_enable_eviction;
  async = false;
  args =
      parameter uint8 bridge_id
      ∷ parameter uint8 table_id
      ∷ pointer fields
      ∷ parameter size n_fields
      ∷ parameter uint32 random_v
      ∷ pointer no_change
      ∷ [];
  n_args = 6;
  ret = none;
  returned = false;
  direct = bridge_id ∷ table_id ∷ fields ∷ n_fields ∷ random_v ∷ no_change ∷ [];
}

-- `SGX_oftable_disable_eviction`
unfoldable pub sgx_oftable_disable_eviction : ℕ → ℕ → Wrapper
sgx_oftable_disable_eviction bridge_id table_id = record {
  id = ecall_oftable_disable_eviction;
  async = true;
  args = next_uint8 bridge_id ∷ next_uint8 table_id ∷ [];
  n_args = 2;
  ret = none;
  returned = false;
  direct = bridge_id ∷ table_id ∷ [];
}

-- `SGX_get_cls_rules_and_enable_eviction`
unfoldable pub sgx_get_cls_rules_and_enable_eviction :
    ℕ → ℕ → ℕ → ℕ → ℕ → ℕ → ℕ → ℕ → ℕ → ℕ → ℕ → ℕ → Wrapper
sgx_get_cls_rules_and_enable_eviction bridge_id table_id start_index end_index buf buf_size n_rules
      fields n_fields random_v no_change is_eviction_fields_enabled =
    record {
      id = ecall_get_cls_rules_and_enable_eviction;
      async = false;
      args =
          parameter uint8 bridge_id
          ∷ parameter uint8 table_id
          ∷ parameter size start_index
          ∷ parameter size end_index
          ∷ pointer buf
          ∷ parameter size buf_size
          ∷ pointer n_rules
          ∷ pointer fields
          ∷ parameter size n_fields
          ∷ parameter uint32 random_v
          ∷ pointer no_change
          ∷ pointer is_eviction_fields_enabled
          ∷ [];
      n_args = 12;
      ret = some size;
      returned = true;
      direct =
          bridge_id ∷ table_id ∷ start_index ∷ end_index ∷ buf ∷ buf_size ∷ n_rules ∷ fields
          ∷ n_fields ∷ random_v ∷ no_change ∷ is_eviction_fields_enabled ∷ [];
    }

-- `SGX_eviction_group_add_rules`
unfoldable pub sgx_eviction_group_add_rules : ℕ → ℕ → ℕ → ℕ → ℕ → ℕ → ℕ → Wrapper
sgx_eviction_group_add_rules bridge_id table_id n ut_crs evg_nodes rule_priorities group_priority =
    record {
      id = ecall_eviction_group_add_rules;
      async = false;
      args =
          parameter uint8 bridge_id
          ∷ parameter uint8 table_id
          ∷ parameter size n
          ∷ pointer ut_crs
          ∷ pointer evg_nodes
          ∷ pointer rule_priorities
          ∷ parameter uint32 group_priority
          ∷ [];
      n_args = 7;
      ret = none;
      returned = false;
      direct =
          bridge_id ∷ table_id ∷ n ∷ ut_crs ∷ evg_nodes ∷ rule_priorities ∷ group_priority ∷ [];
    }

-- `SGX_ofproto_evict`
unfoldable pub sgx_ofproto_evict : ℕ → ℕ → ℕ → ℕ → ℕ → ℕ → ℕ → Wrapper
sgx_ofproto_evict bridge_id ofproto_n_tables start_index hashes ut_crs buf_size n_evictions =
    record {
      id = ecall_ofproto_evict;
      async = false;
      args =
          parameter uint8 bridge_id
          ∷ parameter int ofproto_n_tables
          ∷ parameter size start_index
          ∷ pointer hashes
          ∷ pointer ut_crs
          ∷ parameter size buf_size
          ∷ pointer n_evictions
          ∷ [];
      n_args = 7;
      ret = some size;
      returned = true;
      direct =
          bridge_id ∷ ofproto_n_tables ∷ start_index ∷ hashes ∷ ut_crs ∷ buf_size ∷ n_evictions
          ∷ [];
    }

-- `SGX_need_to_evict`
unfoldable pub sgx_need_to_evict : ℕ → ℕ → Wrapper
sgx_need_to_evict bridge_id table_id = record {
  id = ecall_need_to_evict;
  async = false;
  args = parameter uint8 bridge_id ∷ parameter uint8 table_id ∷ [];
  n_args = 2;
  ret = some boolean;
  returned = true;
  direct = bridge_id ∷ table_id ∷ [];
}
