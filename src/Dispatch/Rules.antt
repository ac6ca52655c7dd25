-- ===== src/Dispatch/Rules.antt =====
-- The calls of OFTonSGX/untrusted/app.c that are about one rule: for each, the pointers that its hot call
-- passes and the arguments that its direct call passes.
use ovs_sgx.Prelude.{ℕ, true, false, none, some, [], ◌∷◌}
use ovs_sgx.Dispatch.{
  Wrapper, pointer, parameter, next_uint8, next_unsigned, next_voidptr, int, size, uint32, uint8,
  unsigned, ecall_cls_rule_init, ecall_cr_rule_overlaps, ecall_cls_rule_destroy,
  ecall_cls_rule_hash, ecall_cls_rule_equal, ecall_cr_priority, ecall_cls_rule_is_loose_match,
  ecall_cls_rule_format, ecall_rule_calculate_tag, ecall_rule_calculate_tag_s,
  ecall_cls_rules_format,
}

-- `SGX_cls_rule_init`
unfoldable pub sgx_cls_rule_init : ℕ → ℕ → ℕ → ℕ → Wrapper
sgx_cls_rule_init bridge_id o_cls_rule match priority = record {
  id = ecall_cls_rule_init;
  async = true;
  args = next_uint8 bridge_id ∷ pointer o_cls_rule ∷ pointer match ∷ next_unsigned priority ∷ [];
  n_args = 4;
  ret = none;
  returned = false;
  direct = bridge_id ∷ o_cls_rule ∷ match ∷ priority ∷ [];
}

-- `SGX_cr_rule_overlaps`
unfoldable pub sgx_cr_rule_overlaps : ℕ → ℕ → ℕ → Wrapper
sgx_cr_rule_overlaps bridge_id table_id ut_cr = record {
  id = ecall_cr_rule_overlaps;
  async = false;
  args = parameter uint8 bridge_id ∷ parameter uint8 table_id ∷ pointer ut_cr ∷ [];
  n_args = 3;
  ret = some int;
  returned = true;
  direct = bridge_id ∷ table_id ∷ ut_cr ∷ [];
}

-- `SGX_cls_rule_destroy`
unfoldable pub sgx_cls_rule_destroy : ℕ → ℕ → Wrapper
sgx_cls_rule_destroy bridge_id ut_cr = record {
  id = ecall_cls_rule_destroy;
  async = true;
  args = next_uint8 bridge_id ∷ next_voidptr ut_cr ∷ [];
  n_args = 2;
  ret = none;
  returned = false;
  direct = bridge_id ∷ ut_cr ∷ [];
}

-- `SGX_cls_rule_hash`
unfoldable pub sgx_cls_rule_hash : ℕ → ℕ → ℕ → Wrapper
sgx_cls_rule_hash bridge_id ut_cr basis = record {
  id = ecall_cls_rule_hash;
  async = false;
  args = parameter uint8 bridge_id ∷ pointer ut_cr ∷ parameter uint32 basis ∷ [];
  n_args = 3;
  ret = some uint32;
  returned = true;
  direct = bridge_id ∷ ut_cr ∷ basis ∷ [];
}

-- `SGX_cls_rule_equal`
unfoldable pub sgx_cls_rule_equal : ℕ → ℕ → ℕ → Wrapper
sgx_cls_rule_equal bridge_id ut_cr_a ut_cr_b = record {
  id = ecall_cls_rule_equal;
  async = false;
  args = parameter uint8 bridge_id ∷ pointer ut_cr_a ∷ pointer ut_cr_b ∷ [];
  n_args = 3;
  ret = some int;
  returned = true;
  direct = bridge_id ∷ ut_cr_a ∷ ut_cr_b ∷ [];
}

-- `SGX_cr_priority`
unfoldable pub sgx_cr_priority : ℕ → ℕ → Wrapper
sgx_cr_priority bridge_id ut_cr = record {
  id = ecall_cr_priority;
  async = false;
  args = parameter uint8 bridge_id ∷ pointer ut_cr ∷ [];
  n_args = 2;
  ret = some unsigned;
  returned = true;
  direct = bridge_id ∷ ut_cr ∷ [];
}

-- `SGX_cls_rule_is_loose_match`
unfoldable pub sgx_cls_rule_is_loose_match : ℕ → ℕ → ℕ → Wrapper
sgx_cls_rule_is_loose_match bridge_id ut_cr criteria = record {
  id = ecall_cls_rule_is_loose_match;
  async = false;
  args = parameter uint8 bridge_id ∷ pointer ut_cr ∷ pointer criteria ∷ [];
  n_args = 3;
  ret = some int;
  returned = true;
  direct = bridge_id ∷ ut_cr ∷ criteria ∷ [];
}

-- `SGX_cls_rule_format`
unfoldable pub sgx_cls_rule_format : ℕ → ℕ → ℕ → Wrapper
sgx_cls_rule_format bridge_id ut_cr megamatch = record {
  id = ecall_cls_rule_format;
  async = false;
  args = parameter uint8 bridge_id ∷ pointer ut_cr ∷ pointer megamatch ∷ [];
  n_args = 3;
  ret = some unsigned;
  returned = true;
  direct = bridge_id ∷ ut_cr ∷ megamatch ∷ [];
}

-- `SGX_rule_calculate_tag`
unfoldable pub sgx_rule_calculate_tag : ℕ → ℕ → ℕ → ℕ → Wrapper
sgx_rule_calculate_tag bridge_id ut_cr flow table_id = record {
  id = ecall_rule_calculate_tag;
  async = false;
  args = parameter uint8 bridge_id ∷ pointer ut_cr ∷ pointer flow ∷ parameter uint8 table_id ∷ [];
  n_args = 4;
  ret = some uint32;
  returned = true;
  direct = bridge_id ∷ ut_cr ∷ flow ∷ table_id ∷ [];
}

-- `SGX_rule_calculate_tag_s`
unfoldable pub sgx_rule_calculate_tag_s : ℕ → ℕ → ℕ → Wrapper
sgx_rule_calculate_tag_s bridge_id table_id flow = record {
  id = ecall_rule_calculate_tag_s;
  async = false;
  args = parameter uint8 bridge_id ∷ parameter uint8 table_id ∷ pointer flow ∷ [];
  n_args = 3;
  ret = some uint32;
  returned = true;
  direct = bridge_id ∷ table_id ∷ flow ∷ [];
}

-- `SGX_cls_rules_format`
unfoldable pub sgx_cls_rules_format : ℕ → ℕ → ℕ → ℕ → Wrapper
sgx_cls_rules_format bridge_id ut_crs megamatches n = record {
  id = ecall_cls_rules_format;
  async = false;
  args = parameter uint8 bridge_id ∷ pointer ut_crs ∷ pointer megamatches ∷ parameter size n ∷ [];
  n_args = 4;
  ret = none;
  returned = false;
  direct = bridge_id ∷ ut_crs ∷ megamatches ∷ n ∷ [];
}
