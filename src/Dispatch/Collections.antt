-- ===== src/Dispatch/Collections.antt =====
-- The calls of OFTonSGX/untrusted/app.c that are about collections of rules: for each, the pointers that its hot call
-- passes and the arguments that its direct call passes.
use ovs_sgx.Prelude.{ℕ, true, false, some, [], ◌∷◌}
use ovs_sgx.Dispatch.{
  Wrapper, pointer, parameter, int, size, uint8, unsigned, ecall_collect_rules_loose_c,
  ecall_collect_rules_loose_r, ecall_collect_rules_strict_c, ecall_collect_rules_strict_r,
  ecall_collect_ofmonitor_util_c, ecall_collect_ofmonitor_util_r, ecall_collect_rules_loose,
  ecall_collect_rules_strict, ecall_collect_rules_loose_stats_request,
}

-- `SGX_collect_rules_loose_c`
unfoldable pub sgx_collect_rules_loose_c : ℕ → ℕ → ℕ → ℕ → Wrapper
sgx_collect_rules_loose_c bridge_id ofproto_n_tables table_id match = record {
  id = ecall_collect_rules_loose_c;
  async = false;
  args =
      parameter uint8 bridge_id
      ∷ parameter int ofproto_n_tables
      ∷ parameter uint8 table_id
      ∷ pointer match
      ∷ [];
  n_args = 4;
  ret = some size;
  returned = true;
  direct = bridge_id ∷ ofproto_n_tables ∷ table_id ∷ match ∷ [];
}

-- `SGX_collect_rules_loose_r`
unfoldable pub sgx_collect_rules_loose_r : ℕ → ℕ → ℕ → ℕ → ℕ → ℕ → Wrapper
sgx_collect_rules_loose_r bridge_id ofproto_n_tables buf elem table_id match = record {
  id = ecall_collect_rules_loose_r;
  async = false;
  args =
      parameter uint8 bridge_id
      ∷ parameter int ofproto_n_tables
      ∷ pointer buf
      ∷ parameter int elem
      ∷ parameter uint8 table_id
      ∷ pointer match
      ∷ [];
  n_args = 6;
  ret = some size;
  returned = false;
  direct = bridge_id ∷ ofproto_n_tables ∷ buf ∷ elem ∷ table_id ∷ match ∷ [];
}

-- `SGX_collect_rules_strict_c`
unfoldable pub sgx_collect_rules_strict_c : ℕ → ℕ → ℕ → ℕ → ℕ → Wrapper
sgx_collect_rules_strict_c bridge_id ofproto_n_tables table_id match priority = record {
  id = ecall_collect_rules_strict_c;
  async = false;
  args =
      parameter uint8 bridge_id
      ∷ parameter int ofproto_n_tables
      ∷ parameter uint8 table_id
      ∷ pointer match
      ∷ parameter unsigned priority
      ∷ [];
  n_args = 5;
  ret = some size;
  returned = true;
  direct = bridge_id ∷ ofproto_n_tables ∷ table_id ∷ match ∷ priority ∷ [];
}

-- `SGX_collect_rules_strict_r`
unfoldable pub sgx_collect_rules_strict_r : ℕ → ℕ → ℕ → ℕ → ℕ → ℕ → ℕ → Wrapper
sgx_collect_rules_strict_r bridge_id ofproto_n_tables buf elem table_id match priority = record {
  id = ecall_collect_rules_strict_r;
  async = false;
  args =
      parameter uint8 bridge_id
      ∷ parameter int ofproto_n_tables
      ∷ pointer buf
      ∷ parameter int elem
      ∷ parameter uint8 table_id
      ∷ pointer match
      ∷ parameter unsigned priority
      ∷ [];
  n_args = 7;
  ret = some size;
  returned = false;
  direct = bridge_id ∷ ofproto_n_tables ∷ buf ∷ elem ∷ table_id ∷ match ∷ priority ∷ [];
}

-- `SGX_collect_ofmonitor_util_c`
unfoldable pub sgx_collect_ofmonitor_util_c : ℕ → ℕ → ℕ → ℕ → Wrapper
sgx_collect_ofmonitor_util_c bridge_id ofproto_n_tables table_id match = record {
  id = ecall_collect_ofmonitor_util_c;
  async = false;
  args =
      parameter uint8 bridge_id
      ∷ parameter int ofproto_n_tables
      ∷ parameter uint8 table_id
      ∷ pointer match
      ∷ [];
  n_args = 4;
  ret = some size;
  returned = true;
  direct = bridge_id ∷ ofproto_n_tables ∷ table_id ∷ match ∷ [];
}

-- `SGX_collect_ofmonitor_util_r`
unfoldable pub sgx_collect_ofmonitor_util_r : ℕ → ℕ → ℕ → ℕ → ℕ → ℕ → Wrapper
sgx_collect_ofmonitor_util_r bridge_id ofproto_n_tables buf elem table_id match = record {
  id = ecall_collect_ofmonitor_util_r;
  async = false;
  args =
      parameter uint8 bridge_id
      ∷ parameter int ofproto_n_tables
      ∷ pointer buf
      ∷ parameter int elem
      ∷ parameter uint8 table_id
      ∷ pointer match
      ∷ [];
  n_args = 6;
  ret = some size;
  returned = false;
  direct = bridge_id ∷ ofproto_n_tables ∷ buf ∷ elem ∷ table_id ∷ match ∷ [];
}

-- `SGX_collect_rules_strict`
unfoldable pub sgx_collect_rules_strict : ℕ → ℕ → ℕ → ℕ → ℕ → ℕ → ℕ → ℕ → ℕ → Wrapper
sgx_collect_rules_strict bridge_id table_id n_tables match priority rule_is_hidden_buffer
      cls_rule_buffer rule_is_modifiable buffer_size =
    record {
      id = ecall_collect_rules_strict;
      async = false;
      args =
          parameter uint8 bridge_id
          ∷ parameter uint8 table_id
          ∷ parameter int n_tables
          ∷ pointer match
          ∷ parameter unsigned priority
          ∷ pointer rule_is_hidden_buffer
          ∷ pointer cls_rule_buffer
          ∷ pointer rule_is_modifiable
          ∷ parameter size buffer_size
          ∷ [];
      n_args = 9;
      ret = some size;
      returned = true;
      direct =
          bridge_id ∷ table_id ∷ n_tables ∷ match ∷ priority ∷ rule_is_hidden_buffer
          ∷ cls_rule_buffer ∷ rule_is_modifiable ∷ buffer_size ∷ [];
    }

-- `SGX_collect_rules_loose`
unfoldable pub sgx_collect_rules_loose : ℕ → ℕ → ℕ → ℕ → ℕ → ℕ → ℕ → ℕ → ℕ → ℕ → Wrapper
sgx_collect_rules_loose bridge_id table_id ofproto_n_tables start_index match rule_is_hidden_buffer
      cls_rule_buffer buffer_size rule_is_modifiable n_rules =
    record {
      id = ecall_collect_rules_loose;
      async = false;
      args =
          parameter uint8 bridge_id
          ∷ parameter uint8 table_id
          ∷ parameter int ofproto_n_tables
          ∷ parameter size start_index
          ∷ pointer match
          ∷ pointer rule_is_hidden_buffer
          ∷ pointer cls_rule_buffer
          ∷ parameter size buffer_size
          ∷ pointer rule_is_modifiable
          ∷ pointer n_rules
          ∷ [];
      n_args = 10;
      ret = some size;
      returned = true;
      direct =
          bridge_id ∷ table_id ∷ ofproto_n_tables ∷ start_index ∷ match ∷ rule_is_hidden_buffer
          ∷ cls_rule_buffer ∷ buffer_size ∷ rule_is_modifiable ∷ n_rules ∷ [];
    }

-- `SGX_collect_rules_loose_stats_request`
unfoldable pub sgx_collect_rules_loose_stats_request :
    ℕ → ℕ → ℕ → ℕ → ℕ → ℕ → ℕ → ℕ → ℕ → ℕ → Wrapper
sgx_collect_rules_loose_stats_request bridge_id table_id n_tables start_index buffer_size match
      ut_crs matches priorities n_rules =
    record {
      id = ecall_collect_rules_loose_stats_request;
      async = false;
      args =
          parameter uint8 bridge_id
          ∷ parameter uint8 table_id
          ∷ parameter int n_tables
          ∷ parameter size start_index
          ∷ parameter size buffer_size
          ∷ pointer match
          ∷ pointer ut_crs
          ∷ pointer matches
          ∷ pointer priorities
          ∷ pointer n_rules
          ∷ [];
      n_args = 10;
      ret = some size;
      returned = true;
      direct =
          bridge_id ∷ table_id ∷ n_tables ∷ start_index ∷ buffer_size ∷ match ∷ ut_crs ∷ matches
          ∷ priorities ∷ n_rules ∷ [];
    }
