-- ===== src/Dispatch/Cases/Bridges.antt =====
-- The cases of `execute_function`, OFTonSGX/trusted/call-table.c, that are about a bridge.
use ovs_sgx.Prelude.{none, some, [], ◌∷◌}
use ovs_sgx.Dispatch.{
  Case, take_pointer, take_scalar, uint8, unsigned, int, size, ecall_ofproto_destroy,
  ecall_total_rules, ecall_ofproto_get_vlan_c, ecall_ofproto_get_vlan_r,
  ecall_ofproto_get_vlan_usage, ecall_ofproto_flush, ecall_ofproto_rule_send_removed, flush_cache,
  nothing,
}

abbrev pub case_ofproto_destroy : Case
case_ofproto_destroy = record {
  handler = ecall_ofproto_destroy;
  takes = take_scalar uint8 uint8 ∷ [];
  stores = none;
  after = nothing;
}

abbrev pub case_total_rules : Case
case_total_rules = record {
  handler = ecall_total_rules;
  takes = take_scalar int uint8 ∷ [];
  stores = some unsigned;
  after = nothing;
}

abbrev pub case_ofproto_get_vlan_c : Case
case_ofproto_get_vlan_c = record {
  handler = ecall_ofproto_get_vlan_c;
  takes = take_scalar uint8 uint8 ∷ [];
  stores = some int;
  after = nothing;
}

abbrev pub case_ofproto_get_vlan_r : Case
case_ofproto_get_vlan_r = record {
  handler = ecall_ofproto_get_vlan_r;
  takes = take_scalar uint8 uint8 ∷ take_pointer ∷ take_scalar int int ∷ [];
  stores = none;
  after = nothing;
}

abbrev pub case_ofproto_get_vlan_usage : Case
case_ofproto_get_vlan_usage = record {
  handler = ecall_ofproto_get_vlan_usage;
  takes =
      take_scalar uint8 uint8
      ∷ take_scalar size size
      ∷ take_pointer
      ∷ take_scalar size size
      ∷ take_scalar size size
      ∷ take_pointer
      ∷ [];
  stores = some size;
  after = nothing;
}

abbrev pub case_ofproto_flush : Case
case_ofproto_flush = record {
  handler = ecall_ofproto_flush;
  takes =
      take_scalar uint8 uint8
      ∷ take_pointer
      ∷ take_pointer
      ∷ take_scalar size size
      ∷ take_scalar size size
      ∷ take_scalar size size
      ∷ take_pointer
      ∷ [];
  stores = some size;
  after = flush_cache;
}

abbrev pub case_ofproto_rule_send_removed : Case
case_ofproto_rule_send_removed = record {
  handler = ecall_ofproto_rule_send_removed;
  takes = take_scalar uint8 uint8 ∷ take_pointer ∷ take_pointer ∷ take_pointer ∷ take_pointer ∷ [];
  stores = none;
  after = nothing;
}
