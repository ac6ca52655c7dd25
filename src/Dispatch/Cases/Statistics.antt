-- ===== src/Dispatch/Cases/Statistics.antt =====
-- The cases of `execute_function`, OFTonSGX/trusted/call-table.c, that are about all rules of a table or a bridge.
use ovs_sgx.Prelude.{none, some, [], ◌∷◌}
use ovs_sgx.Dispatch.{
  Case, take_pointer, take_scalar, uint8, int, size, ecall_flush_c, ecall_flush_r,
  ecall_flow_stats_c, ecall_flow_stats_r, ecall_dpif_destroy_c, ecall_dpif_destroy_r,
  ecall_oftable_get_cls_rules, nothing,
}

abbrev pub case_flush_c : Case
case_flush_c = record {
  handler = ecall_flush_c;
  takes = take_scalar uint8 uint8 ∷ [];
  stores = some int;
  after = nothing;
}

abbrev pub case_flush_r : Case
case_flush_r = record {
  handler = ecall_flush_r;
  takes = take_scalar uint8 uint8 ∷ take_pointer ∷ take_scalar int int ∷ [];
  stores = none;
  after = nothing;
}

abbrev pub case_flow_stats_c : Case
case_flow_stats_c = record {
  handler = ecall_flow_stats_c;
  takes = take_scalar uint8 uint8 ∷ [];
  stores = some int;
  after = nothing;
}

abbrev pub case_flow_stats_r : Case
case_flow_stats_r = record {
  handler = ecall_flow_stats_r;
  takes = take_scalar uint8 uint8 ∷ take_pointer ∷ take_scalar int int ∷ [];
  stores = none;
  after = nothing;
}

abbrev pub case_dpif_destroy_c : Case
case_dpif_destroy_c = record {
  handler = ecall_dpif_destroy_c;
  takes = take_scalar uint8 uint8 ∷ [];
  stores = some int;
  after = nothing;
}

abbrev pub case_dpif_destroy_r : Case
case_dpif_destroy_r = record {
  handler = ecall_dpif_destroy_r;
  takes = take_scalar uint8 uint8 ∷ take_pointer ∷ take_scalar int int ∷ [];
  stores = none;
  after = nothing;
}

abbrev pub case_oftable_get_cls_rules : Case
case_oftable_get_cls_rules = record {
  handler = ecall_oftable_get_cls_rules;
  takes =
      take_scalar uint8 uint8
      ∷ take_scalar uint8 uint8
      ∷ take_scalar size size
      ∷ take_scalar size size
      ∷ take_pointer
      ∷ take_scalar size size
      ∷ take_pointer
      ∷ [];
  stores = some size;
  after = nothing;
}
