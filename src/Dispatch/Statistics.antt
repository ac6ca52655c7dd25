-- ===== src/Dispatch/Statistics.antt =====
-- The calls of OFTonSGX/untrusted/app.c that are about all rules of a table or a bridge: for each, the pointers that its hot call
-- passes and the arguments that its direct call passes.
use ovs_sgx.Prelude.{ℕ, true, false, some, [], ◌∷◌}
use ovs_sgx.Dispatch.{
  Wrapper, pointer, parameter, int, size, uint8, ecall_flush_c, ecall_flush_r, ecall_flow_stats_c,
  ecall_flow_stats_r, ecall_dpif_destroy_c, ecall_dpif_destroy_r, ecall_oftable_get_cls_rules,
}

-- `SGX_flush_c`
unfoldable pub sgx_flush_c : ℕ → Wrapper
sgx_flush_c bridge_id = record {
  id = ecall_flush_c;
  async = false;
  args = parameter uint8 bridge_id ∷ [];
  n_args = 1;
  ret = some size;
  returned = true;
  direct = bridge_id ∷ [];
}

-- `SGX_flush_r`
unfoldable pub sgx_flush_r : ℕ → ℕ → ℕ → Wrapper
sgx_flush_r bridge_id buf elem = record {
  id = ecall_flush_r;
  async = false;
  args = parameter uint8 bridge_id ∷ pointer buf ∷ parameter int elem ∷ [];
  n_args = 3;
  ret = some size;
  returned = false;
  direct = bridge_id ∷ buf ∷ elem ∷ [];
}

-- `SGX_flow_stats_c`
unfoldable pub sgx_flow_stats_c : ℕ → Wrapper
sgx_flow_stats_c bridge_id = record {
  id = ecall_flow_stats_c;
  async = false;
  args = parameter uint8 bridge_id ∷ [];
  n_args = 1;
  ret = some size;
  returned = true;
  direct = bridge_id ∷ [];
}

-- `SGX_flow_stats_r`
unfoldable pub sgx_flow_stats_r : ℕ → ℕ → ℕ → Wrapper
sgx_flow_stats_r bridge_id buf elem = record {
  id = ecall_flow_stats_r;
  async = false;
  args = parameter uint8 bridge_id ∷ pointer buf ∷ parameter int elem ∷ [];
  n_args = 3;
  ret = some size;
  returned = false;
  direct = bridge_id ∷ buf ∷ elem ∷ [];
}

-- `SGX_dpif_destroy_c`
unfoldable pub sgx_dpif_destroy_c : ℕ → Wrapper
sgx_dpif_destroy_c bridge_id = record {
  id = ecall_dpif_destroy_c;
  async = false;
  args = parameter uint8 bridge_id ∷ [];
  n_args = 1;
  ret = some size;
  returned = true;
  direct = bridge_id ∷ [];
}

-- `SGX_dpif_destroy_r`
unfoldable pub sgx_dpif_destroy_r : ℕ → ℕ → ℕ → Wrapper
sgx_dpif_destroy_r bridge_id buf elem = record {
  id = ecall_dpif_destroy_r;
  async = false;
  args = parameter uint8 bridge_id ∷ pointer buf ∷ parameter int elem ∷ [];
  n_args = 3;
  ret = some size;
  returned = false;
  direct = bridge_id ∷ buf ∷ elem ∷ [];
}

-- `SGX_get_cls_rules`
unfoldable pub sgx_get_cls_rules : ℕ → ℕ → ℕ → ℕ → ℕ → ℕ → ℕ → Wrapper
sgx_get_cls_rules bridge_id table_id start_index end_index buf buf_size n_rules = record {
  id = ecall_oftable_get_cls_rules;
  async = false;
  args =
      parameter uint8 bridge_id
      ∷ parameter uint8 table_id
      ∷ parameter size start_index
      ∷ parameter size end_index
      ∷ pointer buf
      ∷ parameter size buf_size
      ∷ pointer n_rules
      ∷ [];
  n_args = 7;
  ret = some size;
  returned = false;
  direct = bridge_id ∷ table_id ∷ start_index ∷ end_index ∷ buf ∷ buf_size ∷ n_rules ∷ [];
}
