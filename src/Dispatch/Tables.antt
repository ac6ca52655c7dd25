-- ===== src/Dispatch/Tables.antt =====
-- The calls of OFTonSGX/untrusted/app.c that are about a table's settings: for each, the pointers that its hot call
-- passes and the arguments that its direct call passes.
use ovs_sgx.Prelude.{ℕ, true, false, none, some, [], ◌∷◌}
use ovs_sgx.Dispatch.{
  Wrapper, pointer, parameter, next_uint8, next_unsigned, int, oftable_flags, size, uint8, unsigned,
  ecall_oftable_set_readonly, ecall_oftable_is_readonly, ecall_oftable_get_flags,
  ecall_oftable_cls_count, ecall_oftable_mflows, ecall_oftable_mflows_set, ecall_oftable_name,
  ecall_oftable_update_taggable, ecall_oftable_is_other_table, ecall_oftable_hidden_check,
  ecall_oftable_set_name,
}

-- `SGX_readonly_set`
unfoldable pub sgx_readonly_set : ℕ → ℕ → Wrapper
sgx_readonly_set bridge_id table_id = record {
  id = ecall_oftable_set_readonly;
  async = true;
  args = next_uint8 bridge_id ∷ next_uint8 table_id ∷ [];
  n_args = 2;
  ret = none;
  returned = false;
  direct = bridge_id ∷ table_id ∷ [];
}

-- `SGX_istable_readonly`
unfoldable pub sgx_istable_readonly : ℕ → ℕ → Wrapper
sgx_istable_readonly bridge_id table_id = record {
  id = ecall_oftable_is_readonly;
  async = false;
  args = parameter uint8 bridge_id ∷ parameter uint8 table_id ∷ [];
  n_args = 2;
  ret = some int;
  returned = true;
  direct = bridge_id ∷ table_id ∷ [];
}

-- `SGX_rule_get_flags`
unfoldable pub sgx_rule_get_flags : ℕ → ℕ → Wrapper
sgx_rule_get_flags bridge_id table_id = record {
  id = ecall_oftable_get_flags;
  async = false;
  args = parameter uint8 bridge_id ∷ parameter uint8 table_id ∷ [];
  n_args = 2;
  ret = some oftable_flags;
  returned = true;
  direct = bridge_id ∷ table_id ∷ [];
}

-- `SGX_cls_count`
unfoldable pub sgx_cls_count : ℕ → ℕ → Wrapper
sgx_cls_count bridge_id table_id = record {
  id = ecall_oftable_cls_count;
  async = false;
  args = parameter uint8 bridge_id ∷ parameter uint8 table_id ∷ [];
  n_args = 2;
  ret = some int;
  returned = true;
  direct = bridge_id ∷ table_id ∷ [];
}

-- `SGX_table_mflows`
unfoldable pub sgx_table_mflows : ℕ → ℕ → Wrapper
sgx_table_mflows bridge_id table_id = record {
  id = ecall_oftable_mflows;
  async = false;
  args = parameter uint8 bridge_id ∷ parameter uint8 table_id ∷ [];
  n_args = 2;
  ret = some unsigned;
  returned = true;
  direct = bridge_id ∷ table_id ∷ [];
}

-- `SGX_table_mflows_set`
unfoldable pub sgx_table_mflows_set : ℕ → ℕ → ℕ → Wrapper
sgx_table_mflows_set bridge_id table_id new_value = record {
  id = ecall_oftable_mflows_set;
  async = true;
  args = next_uint8 bridge_id ∷ next_uint8 table_id ∷ next_unsigned new_value ∷ [];
  n_args = 3;
  ret = none;
  returned = false;
  direct = bridge_id ∷ table_id ∷ new_value ∷ [];
}

-- `SGX_table_name`
unfoldable pub sgx_table_name : ℕ → ℕ → ℕ → ℕ → Wrapper
sgx_table_name bridge_id table_id buf len = record {
  id = ecall_oftable_name;
  async = false;
  args =
      parameter uint8 bridge_id ∷ parameter uint8 table_id ∷ pointer buf ∷ parameter size len ∷ [];
  n_args = 4;
  ret = none;
  returned = false;
  direct = bridge_id ∷ table_id ∷ buf ∷ len ∷ [];
}

-- `SGX_table_update_taggable`
unfoldable pub sgx_table_update_taggable : ℕ → ℕ → Wrapper
sgx_table_update_taggable bridge_id table_id = record {
  id = ecall_oftable_update_taggable;
  async = false;
  args = parameter uint8 bridge_id ∷ parameter uint8 table_id ∷ [];
  n_args = 2;
  ret = some int;
  returned = true;
  direct = bridge_id ∷ table_id ∷ [];
}

-- `SGX_is_sgx_other_table`
unfoldable pub sgx_is_sgx_other_table : ℕ → ℕ → Wrapper
sgx_is_sgx_other_table bridge_id table_id = record {
  id = ecall_oftable_is_other_table;
  async = false;
  args = parameter uint8 bridge_id ∷ parameter uint8 table_id ∷ [];
  n_args = 2;
  ret = some int;
  returned = true;
  direct = bridge_id ∷ table_id ∷ [];
}

-- `sgx_oftable_check_hidden`
unfoldable pub sgx_oftable_check_hidden : ℕ → Wrapper
sgx_oftable_check_hidden bridge_id = record {
  id = ecall_oftable_hidden_check;
  async = true;
  args = next_uint8 bridge_id ∷ [];
  n_args = 1;
  ret = none;
  returned = false;
  direct = bridge_id ∷ [];
}

-- `SGX_oftable_set_name`
unfoldable pub sgx_oftable_set_name : ℕ → ℕ → ℕ → Wrapper
sgx_oftable_set_name bridge_id table_id name = record {
  id = ecall_oftable_set_name;
  async = true;
  args = next_uint8 bridge_id ∷ next_uint8 table_id ∷ pointer name ∷ [];
  n_args = 3;
  ret = none;
  returned = false;
  direct = bridge_id ∷ table_id ∷ name ∷ [];
}
