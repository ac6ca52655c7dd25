-- ===== src/Dispatch/Cases/Flows.antt =====
-- The cases of `execute_function`, OFTonSGX/trusted/call-table.c, that are about changes and searches of a table's rules.
use ovs_sgx.Prelude.{none, [], ◌∷◌}
use ovs_sgx.Dispatch.{
  Case, take_pointer, take_scalar, uint8, uint16, uint32, unsigned, int, size, boolean, heap_node,
  ecall_oftable_classifier_replace, ecall_cls_remove, ecall_oftable_cls_find_match_exactly,
  ecall_oftable_cls_lookup, ecall_add_flow, ecall_delete_flows, ecall_oftable_configure,
  ecall_oftable_remove_rules, insert_found, remove_argument, remove_listed, remove_replaced,
  nothing,
}

abbrev pub case_oftable_cls_find_match_exactly : Case
case_oftable_cls_find_match_exactly = record {
  handler = ecall_oftable_cls_find_match_exactly;
  takes =
      take_scalar uint8 uint8
      ∷ take_scalar uint8 uint8
      ∷ take_pointer
      ∷ take_scalar unsigned unsigned
      ∷ take_pointer
      ∷ [];
  stores = none;
  after = nothing;
}

abbrev pub case_cls_remove : Case
case_cls_remove = record {
  handler = ecall_cls_remove;
  takes = take_scalar uint8 uint8 ∷ take_scalar uint8 uint8 ∷ take_pointer ∷ [];
  stores = none;
  after = remove_argument 2;
}

abbrev pub case_oftable_classifier_replace : Case
case_oftable_classifier_replace = record {
  handler = ecall_oftable_classifier_replace;
  takes = take_scalar uint8 uint8 ∷ take_scalar uint8 uint8 ∷ take_pointer ∷ take_pointer ∷ [];
  stores = none;
  after = remove_replaced;
}

abbrev pub case_oftable_cls_lookup : Case
case_oftable_cls_lookup = record {
  handler = ecall_oftable_cls_lookup;
  takes =
      take_scalar uint8 uint8
      ∷ take_pointer
      ∷ take_scalar uint8 uint8
      ∷ take_pointer
      ∷ take_pointer
      ∷ [];
  stores = none;
  after = insert_found;
}

abbrev pub case_add_flow : Case
case_add_flow = record {
  handler = ecall_add_flow;
  takes =
      take_scalar uint8 uint8
      ∷ take_scalar uint8 uint8
      ∷ take_pointer
      ∷ take_pointer
      ∷ take_pointer
      ∷ take_pointer
      ∷ take_pointer
      ∷ take_pointer
      ∷ take_pointer
      ∷ take_scalar unsigned unsigned
      ∷ take_scalar uint16 uint16
      ∷ take_scalar uint32 uint32
      ∷ take_scalar uint32 uint32
      ∷ take_scalar heap_node heap_node
      ∷ take_pointer
      ∷ take_scalar int int
      ∷ take_scalar boolean boolean
      ∷ take_pointer
      ∷ take_pointer
      ∷ take_pointer
      ∷ take_pointer
      ∷ take_pointer
      ∷ [];
  stores = none;
  after = nothing;
}

abbrev pub case_delete_flows : Case
case_delete_flows = record {
  handler = ecall_delete_flows;
  takes =
      take_scalar uint8 uint8
      ∷ take_pointer
      ∷ take_pointer
      ∷ take_pointer
      ∷ take_pointer
      ∷ take_pointer
      ∷ take_pointer
      ∷ take_scalar size size
      ∷ [];
  stores = none;
  after = remove_listed 7;
}

abbrev pub case_oftable_configure : Case
case_oftable_configure = record {
  handler = ecall_oftable_configure;
  takes =
      take_scalar uint8 uint8
      ∷ take_scalar uint8 uint8
      ∷ take_pointer
      ∷ take_scalar unsigned unsigned
      ∷ take_pointer
      ∷ take_scalar size size
      ∷ take_pointer
      ∷ take_pointer
      ∷ [];
  stores = none;
  after = nothing;
}

abbrev pub case_oftable_remove_rules : Case
case_oftable_remove_rules = record {
  handler = ecall_oftable_remove_rules;
  takes =
      take_scalar uint8 uint8
      ∷ take_pointer
      ∷ take_pointer
      ∷ take_pointer
      ∷ take_scalar size size
      ∷ [];
  stores = none;
  after = remove_listed 4;
}
