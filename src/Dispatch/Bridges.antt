-- ===== src/Dispatch/Bridges.antt =====
-- The calls of OFTonSGX/untrusted/app.c that are about a bridge: for each, the pointers that its hot call
-- passes and the arguments that its direct call passes.
use ovs_sgx.Prelude.{ℕ, true, false, none, some, [], ◌∷◌}
use ovs_sgx.Dispatch.{
  Wrapper, pointer, parameter, next_uint8, int, size, uint8, unsigned, ecall_ofproto_destroy,
  ecall_total_rules, ecall_ofproto_get_vlan_c, ecall_ofproto_get_vlan_r,
  ecall_ofproto_get_vlan_usage, ecall_ofproto_flush, ecall_ofproto_rule_send_removed,
}

-- `SGX_ofproto_destroy`
unfoldable pub sgx_ofproto_destroy : ℕ → Wrapper
sgx_ofproto_destroy bridge_id = record {
  id = ecall_ofproto_destroy;
  async = true;
  args = next_uint8 bridge_id ∷ [];
  n_args = 1;
  ret = none;
  returned = false;
  direct = bridge_id ∷ [];
}

-- `SGX_total_rules`
unfoldable pub sgx_total_rules : ℕ → Wrapper
sgx_total_rules bridge_id = record {
  id = ecall_total_rules;
  async = false;
  args = parameter uint8 bridge_id ∷ [];
  n_args = 1;
  ret = some unsigned;
  returned = true;
  direct = bridge_id ∷ [];
}

-- `SGX_ofproto_get_vlan_usage_c`
unfoldable pub sgx_ofproto_get_vlan_usage_c : ℕ → Wrapper
sgx_ofproto_get_vlan_usage_c bridge_id = record {
  id = ecall_ofproto_get_vlan_c;
  async = false;
  args = parameter uint8 bridge_id ∷ [];
  n_args = 1;
  ret = some size;
  returned = true;
  direct = bridge_id ∷ [];
}

-- `SGX_ofproto_get_vlan_usage__r`
unfoldable pub sgx_ofproto_get_vlan_usage_r : ℕ → ℕ → ℕ → Wrapper
sgx_ofproto_get_vlan_usage_r bridge_id buf elem = record {
  id = ecall_ofproto_get_vlan_r;
  async = false;
  args = parameter uint8 bridge_id ∷ pointer buf ∷ parameter int elem ∷ [];
  n_args = 3;
  ret = some size;
  returned = false;
  direct = bridge_id ∷ buf ∷ elem ∷ [];
}

-- `SGX_ofproto_get_vlan_usage`
unfoldable pub sgx_ofproto_get_vlan_usage : ℕ → ℕ → ℕ → ℕ → ℕ → ℕ → Wrapper
sgx_ofproto_get_vlan_usage bridge_id buf_size vlan_buffer start_index end_index n_vlan = record {
  id = ecall_ofproto_get_vlan_usage;
  async = false;
  args =
      parameter uint8 bridge_id
      ∷ parameter size buf_size
      ∷ pointer vlan_buffer
      ∷ parameter size start_index
      ∷ parameter size end_index
      ∷ pointer n_vlan
      ∷ [];
  n_args = 6;
  ret = some size;
  returned = true;
  direct = bridge_id ∷ buf_size ∷ vlan_buffer ∷ start_index ∷ end_index ∷ n_vlan ∷ [];
}

-- `SGX_ofproto_flush`
unfoldable pub sgx_ofproto_flush : ℕ → ℕ → ℕ → ℕ → ℕ → ℕ → ℕ → Wrapper
sgx_ofproto_flush bridge_id ut_crs hashes buf_size start_index end_index n_rules = record {
  id = ecall_ofproto_flush;
  async = false;
  args =
      parameter uint8 bridge_id
      ∷ pointer ut_crs
      ∷ pointer hashes
      ∷ parameter size buf_size
      ∷ parameter size start_index
      ∷ parameter size end_index
      ∷ pointer n_rules
      ∷ [];
  n_args = 7;
  ret = some size;
  returned = true;
  direct = bridge_id ∷ ut_crs ∷ hashes ∷ buf_size ∷ start_index ∷ end_index ∷ n_rules ∷ [];
}

-- `SGX_ofproto_rule_send_removed`
unfoldable pub sgx_ofproto_rule_send_removed : ℕ → ℕ → ℕ → ℕ → ℕ → Wrapper
sgx_ofproto_rule_send_removed bridge_id cr match priority rule_is_hidden = record {
  id = ecall_ofproto_rule_send_removed;
  async = false;
  args =
      parameter uint8 bridge_id
      ∷ pointer cr
      ∷ pointer match
      ∷ pointer priority
      ∷ pointer rule_is_hidden
      ∷ [];
  n_args = 5;
  ret = none;
  returned = false;
  direct = bridge_id ∷ cr ∷ match ∷ priority ∷ rule_is_hidden ∷ [];
}
