-- ===== src/Dispatch/Cases/Rules.antt =====
-- The cases of `execute_function`, OFTonSGX/trusted/call-table.c, that are about one rule.
use ovs_sgx.Prelude.{none, some, [], ◌∷◌}
use ovs_sgx.Dispatch.{
  Case, take_pointer, take_scalar, uint8, uint32, unsigned, int, ecall_cls_rule_init,
  ecall_cr_rule_overlaps, ecall_cls_rule_destroy, ecall_cls_rule_hash, ecall_cls_rule_equal,
  ecall_cr_priority, ecall_cls_rule_is_loose_match, ecall_cls_rule_format, ecall_rule_calculate_tag,
  ecall_rule_calculate_tag_s, remove_argument, nothing,
}

abbrev pub case_cls_rule_init : Case
case_cls_rule_init = record {
  handler = ecall_cls_rule_init;
  takes =
      take_scalar uint8 uint8 ∷ take_pointer ∷ take_pointer ∷ take_scalar unsigned unsigned ∷ [];
  stores = none;
  after = nothing;
}

abbrev pub case_cls_rule_destroy : Case
case_cls_rule_destroy = record {
  handler = ecall_cls_rule_destroy;
  takes = take_scalar int uint8 ∷ take_pointer ∷ [];
  stores = none;
  after = remove_argument 1;
}

abbrev pub case_cr_rule_overlaps : Case
case_cr_rule_overlaps = record {
  handler = ecall_cr_rule_overlaps;
  takes = take_scalar uint8 uint8 ∷ take_scalar uint8 uint8 ∷ take_pointer ∷ [];
  stores = some int;
  after = nothing;
}

abbrev pub case_cr_priority : Case
case_cr_priority = record {
  handler = ecall_cr_priority;
  takes = take_scalar uint8 uint8 ∷ take_pointer ∷ [];
  stores = some unsigned;
  after = nothing;
}

abbrev pub case_cls_rule_format : Case
case_cls_rule_format = record {
  handler = ecall_cls_rule_format;
  takes = take_scalar uint8 uint8 ∷ take_pointer ∷ take_pointer ∷ [];
  stores = some unsigned;
  after = nothing;
}

abbrev pub case_cls_rule_hash : Case
case_cls_rule_hash = record {
  handler = ecall_cls_rule_hash;
  takes = take_scalar uint8 uint8 ∷ take_pointer ∷ take_scalar uint32 uint32 ∷ [];
  stores = some uint32;
  after = nothing;
}

abbrev pub case_cls_rule_equal : Case
case_cls_rule_equal = record {
  handler = ecall_cls_rule_equal;
  takes = take_scalar uint8 uint8 ∷ take_pointer ∷ take_pointer ∷ [];
  stores = some int;
  after = nothing;
}

abbrev pub case_cls_rule_is_loose_match : Case
case_cls_rule_is_loose_match = record {
  handler = ecall_cls_rule_is_loose_match;
  takes = take_scalar uint8 uint8 ∷ take_pointer ∷ take_pointer ∷ [];
  stores = some int;
  after = nothing;
}

abbrev pub case_rule_calculate_tag : Case
case_rule_calculate_tag = record {
  handler = ecall_rule_calculate_tag;
  takes = take_scalar uint8 uint8 ∷ take_pointer ∷ take_pointer ∷ take_scalar uint8 uint8 ∷ [];
  stores = some uint32;
  after = nothing;
}

abbrev pub case_rule_calculate_tag_s : Case
case_rule_calculate_tag_s = record {
  handler = ecall_rule_calculate_tag_s;
  takes = take_scalar uint8 uint8 ∷ take_scalar uint8 int ∷ take_pointer ∷ [];
  stores = some uint32;
  after = nothing;
}
