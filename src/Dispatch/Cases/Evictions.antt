-- ===== src/Dispatch/Cases/Evictions.antt =====
-- The cases of `execute_function`, OFTonSGX/trusted/call-table.c, that are about eviction groups and the choice of a rule to evict.
use ovs_sgx.Prelude.{none, some, [], ◌∷◌}
use ovs_sgx.Dispatch.{
  Case, take_pointer, take_scalar, uint8, uint32, int, size, boolean, heap_node,
  ecall_is_eviction_fields_enabled, ecall_evg_add_rule, ecall_evg_remove_rule,
  ecall_choose_rule_to_evict, ecall_choose_rule_to_evict_p, ecall_oftable_enable_eviction,
  ecall_oftable_disable_eviction, ecall_oftable_enable_eviction_c, ecall_oftable_enable_eviction_r,
  ecall_get_cls_rules_and_enable_eviction, ecall_eviction_group_add_rules, ecall_ofproto_evict,
  ecall_need_to_evict, nothing,
}

abbrev pub case_oftable_disable_eviction : Case
case_oftable_disable_eviction = record {
  handler = ecall_oftable_disable_eviction;
  takes = take_scalar uint8 uint8 ∷ take_scalar uint8 uint8 ∷ [];
  stores = none;
  after = nothing;
}

abbrev pub case_is_eviction_fields_enabled : Case
case_is_eviction_fields_enabled = record {
  handler = ecall_is_eviction_fields_enabled;
  takes = take_scalar uint8 uint8 ∷ take_scalar uint8 uint8 ∷ [];
  stores = some int;
  after = nothing;
}

abbrev pub case_choose_rule_to_evict : Case
case_choose_rule_to_evict = record {
  handler = ecall_choose_rule_to_evict;
  takes = take_scalar uint8 uint8 ∷ take_scalar uint8 uint8 ∷ take_pointer ∷ [];
  stores = none;
  after = nothing;
}

abbrev pub case_choose_rule_to_evict_p : Case
case_choose_rule_to_evict_p = record {
  handler = ecall_choose_rule_to_evict_p;
  takes = take_scalar uint8 uint8 ∷ take_scalar uint8 uint8 ∷ take_pointer ∷ take_pointer ∷ [];
  stores = none;
  after = nothing;
}

abbrev pub case_evg_add_rule : Case
case_evg_add_rule = record {
  handler = ecall_evg_add_rule;
  takes =
      take_scalar uint8 uint8
      ∷ take_scalar uint8 uint8
      ∷ take_pointer
      ∷ take_scalar uint32 uint32
      ∷ take_scalar uint32 uint32
      ∷ take_scalar heap_node heap_node
      ∷ [];
  stores = none;
  after = nothing;
}

abbrev pub case_oftable_enable_eviction : Case
case_oftable_enable_eviction = record {
  handler = ecall_oftable_enable_eviction;
  takes =
      take_scalar uint8 uint8
      ∷ take_scalar uint8 uint8
      ∷ take_pointer
      ∷ take_scalar size size
      ∷ take_scalar uint32 uint32
      ∷ take_pointer
      ∷ [];
  stores = none;
  after = nothing;
}

abbrev pub case_oftable_enable_eviction_c : Case
case_oftable_enable_eviction_c = record {
  handler = ecall_oftable_enable_eviction_c;
  takes = take_scalar uint8 uint8 ∷ take_scalar uint8 uint8 ∷ [];
  stores = some int;
  after = nothing;
}

abbrev pub case_oftable_enable_eviction_r : Case
case_oftable_enable_eviction_r = record {
  handler = ecall_oftable_enable_eviction_r;
  takes =
      take_scalar uint8 uint8 ∷ take_pointer ∷ take_scalar int int ∷ take_scalar uint8 uint8 ∷ [];
  stores = none;
  after = nothing;
}

abbrev pub case_evg_remove_rule : Case
case_evg_remove_rule = record {
  handler = ecall_evg_remove_rule;
  takes = take_scalar uint8 uint8 ∷ take_scalar uint8 uint8 ∷ take_pointer ∷ [];
  stores = none;
  after = nothing;
}

abbrev pub case_get_cls_rules_and_enable_eviction : Case
case_get_cls_rules_and_enable_eviction = record {
  handler = ecall_get_cls_rules_and_enable_eviction;
  takes =
      take_scalar uint8 uint8
      ∷ take_scalar uint8 uint8
      ∷ take_scalar size size
      ∷ take_scalar size size
      ∷ take_pointer
      ∷ take_scalar size size
      ∷ take_pointer
      ∷ take_pointer
      ∷ take_scalar size size
      ∷ take_scalar uint32 uint32
      ∷ take_pointer
      ∷ take_pointer
      ∷ [];
  stores = some size;
  after = nothing;
}

abbrev pub case_eviction_group_add_rules : Case
case_eviction_group_add_rules = record {
  handler = ecall_eviction_group_add_rules;
  takes =
      take_scalar int uint8
      ∷ take_scalar int uint8
      ∷ take_scalar size size
      ∷ take_pointer
      ∷ take_pointer
      ∷ take_pointer
      ∷ take_scalar uint32 uint32
      ∷ [];
  stores = none;
  after = nothing;
}

abbrev pub case_ofproto_evict : Case
case_ofproto_evict = record {
  handler = ecall_ofproto_evict;
  takes =
      take_scalar uint8 uint8
      ∷ take_scalar uint8 int
      ∷ take_scalar size size
      ∷ take_pointer
      ∷ take_pointer
      ∷ take_scalar size size
      ∷ take_pointer
      ∷ [];
  stores = some size;
  after = nothing;
}

abbrev pub case_need_to_evict : Case
case_need_to_evict = record {
  handler = ecall_need_to_evict;
  takes = take_scalar uint8 uint8 ∷ take_scalar uint8 uint8 ∷ [];
  stores = some boolean;
  after = nothing;
}
