-- ===== src/Dispatch/Cases/Collections.antt =====
-- The cases of `execute_function`, OFTonSGX/trusted/call-table.c, that are about collections of rules.
use ovs_sgx.Prelude.{none, some, [], ◌∷◌}
use ovs_sgx.Dispatch.{
  Case, take_pointer, take_scalar, uint8, unsigned, int, size, ecall_collect_rules_loose_c,
  ecall_collect_rules_loose_r, ecall_collect_rules_strict_c, ecall_collect_rules_strict_r,
  ecall_collect_ofmonitor_util_c, ecall_collect_ofmonitor_util_r, ecall_collect_rules_loose,
  ecall_collect_rules_strict, ecall_collect_rules_loose_stats_request, nothing,
}

abbrev pub case_collect_rules_loose_c : Case
case_collect_rules_loose_c = record {
  handler = ecall_collect_rules_loose_c;
  takes =
      take_scalar uint8 uint8 ∷ take_scalar uint8 int ∷ take_scalar uint8 uint8 ∷ take_pointer ∷ [];
  stores = some int;
  after = nothing;
}

abbrev pub case_collect_rules_loose_r : Case
case_collect_rules_loose_r = record {
  handler = ecall_collect_rules_loose_r;
  takes =
      take_scalar uint8 uint8
      ∷ take_scalar uint8 int
      ∷ take_pointer
      ∷ take_scalar int int
      ∷ take_scalar uint8 uint8
      ∷ take_pointer
      ∷ [];
  stores = none;
  after = nothing;
}

abbrev pub case_collect_ofmonitor_util_c : Case
case_collect_ofmonitor_util_c = record {
  handler = ecall_collect_ofmonitor_util_c;
  takes =
      take_scalar uint8 uint8 ∷ take_scalar uint8 int ∷ take_scalar uint8 uint8 ∷ take_pointer ∷ [];
  stores = some int;
  after = nothing;
}

abbrev pub case_collect_ofmonitor_util_r : Case
case_collect_ofmonitor_util_r = record {
  handler = ecall_collect_ofmonitor_util_r;
  takes =
      take_scalar uint8 uint8
      ∷ take_scalar uint8 int
      ∷ take_pointer
      ∷ take_scalar int int
      ∷ take_scalar uint8 uint8
      ∷ take_pointer
      ∷ [];
  stores = none;
  after = nothing;
}

abbrev pub case_collect_rules_strict_c : Case
case_collect_rules_strict_c = record {
  handler = ecall_collect_rules_strict_c;
  takes =
      take_scalar uint8 uint8
      ∷ take_scalar uint8 int
      ∷ take_scalar uint8 uint8
      ∷ take_pointer
      ∷ take_scalar unsigned unsigned
      ∷ [];
  stores = some int;
  after = nothing;
}

abbrev pub case_collect_rules_strict_r : Case
case_collect_rules_strict_r = record {
  handler = ecall_collect_rules_strict_r;
  takes =
      take_scalar uint8 uint8
      ∷ take_scalar uint8 int
      ∷ take_pointer
      ∷ take_scalar int int
      ∷ take_scalar uint8 uint8
      ∷ take_pointer
      ∷ take_scalar unsigned unsigned
      ∷ [];
  stores = none;
  after = nothing;
}

abbrev pub case_collect_rules_loose : Case
case_collect_rules_loose = record {
  handler = ecall_collect_rules_loose;
  takes =
      take_scalar uint8 uint8
      ∷ take_scalar uint8 uint8
      ∷ take_scalar int int
      ∷ take_scalar size size
      ∷ take_pointer
      ∷ take_pointer
      ∷ take_pointer
      ∷ take_scalar size size
      ∷ take_pointer
      ∷ take_pointer
      ∷ [];
  stores = some size;
  after = nothing;
}

abbrev pub case_collect_rules_strict : Case
case_collect_rules_strict = record {
  handler = ecall_collect_rules_strict;
  takes =
      take_scalar int uint8
      ∷ take_scalar int uint8
      ∷ take_scalar int int
      ∷ take_pointer
      ∷ take_scalar unsigned unsigned
      ∷ take_pointer
      ∷ take_pointer
      ∷ take_pointer
      ∷ take_scalar size size
      ∷ [];
  stores = some size;
  after = nothing;
}

abbrev pub case_collect_rules_loose_stats_request : Case
case_collect_rules_loose_stats_request = record {
  handler = ecall_collect_rules_loose_stats_request;
  takes =
      take_scalar uint8 uint8
      ∷ take_scalar uint8 uint8
      ∷ take_scalar int int
      ∷ take_scalar size size
      ∷ take_scalar size size
      ∷ take_pointer
      ∷ take_pointer
      ∷ take_pointer
      ∷ take_pointer
      ∷ take_pointer
      ∷ [];
  stores = some size;
  after = nothing;
}
