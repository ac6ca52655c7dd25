-- ===== src/Dispatch/Cases/Tables.antt =====
-- The cases of `execute_function`, OFTonSGX/trusted/call-table.c, that are about a table's settings.
use ovs_sgx.Prelude.{none, some, [], ◌∷◌}
use ovs_sgx.Dispatch.{
  Case, take_pointer, take_scalar, uint8, unsigned, int, oftable_flags, size,
  ecall_oftable_set_readonly, ecall_oftable_is_readonly, ecall_oftable_get_flags,
  ecall_oftable_cls_count, ecall_oftable_mflows, ecall_oftable_mflows_set, ecall_oftable_name,
  ecall_oftable_update_taggable, ecall_oftable_is_other_table, ecall_oftable_hidden_check,
  ecall_oftable_set_name, flush_if_changed, nothing,
}

abbrev pub case_oftable_is_readonly : Case
case_oftable_is_readonly = record {
  handler = ecall_oftable_is_readonly;
  takes = take_scalar uint8 uint8 ∷ take_scalar uint8 uint8 ∷ [];
  stores = some int;
  after = nothing;
}

abbrev pub case_oftable_set_readonly : Case
case_oftable_set_readonly = record {
  handler = ecall_oftable_set_readonly;
  takes = take_scalar uint8 uint8 ∷ take_scalar uint8 uint8 ∷ [];
  stores = none;
  after = nothing;
}

abbrev pub case_oftable_set_name : Case
case_oftable_set_name = record {
  handler = ecall_oftable_set_name;
  takes = take_scalar uint8 uint8 ∷ take_scalar uint8 uint8 ∷ take_pointer ∷ [];
  stores = none;
  after = nothing;
}

abbrev pub case_oftable_mflows_set : Case
case_oftable_mflows_set = record {
  handler = ecall_oftable_mflows_set;
  takes = take_scalar uint8 uint8 ∷ take_scalar uint8 uint8 ∷ take_scalar unsigned unsigned ∷ [];
  stores = none;
  after = nothing;
}

abbrev pub case_oftable_cls_count : Case
case_oftable_cls_count = record {
  handler = ecall_oftable_cls_count;
  takes = take_scalar uint8 uint8 ∷ take_scalar uint8 uint8 ∷ [];
  stores = some int;
  after = nothing;
}

abbrev pub case_oftable_mflows : Case
case_oftable_mflows = record {
  handler = ecall_oftable_mflows;
  takes = take_scalar uint8 uint8 ∷ take_scalar uint8 uint8 ∷ [];
  stores = some unsigned;
  after = nothing;
}

abbrev pub case_oftable_get_flags : Case
case_oftable_get_flags = record {
  handler = ecall_oftable_get_flags;
  takes = take_scalar uint8 uint8 ∷ take_scalar uint8 uint8 ∷ [];
  stores = some oftable_flags;
  after = nothing;
}

abbrev pub case_oftable_name : Case
case_oftable_name = record {
  handler = ecall_oftable_name;
  takes =
      take_scalar uint8 uint8 ∷ take_scalar uint8 uint8 ∷ take_pointer ∷ take_scalar size size ∷ [];
  stores = none;
  after = nothing;
}

abbrev pub case_oftable_hidden_check : Case
case_oftable_hidden_check = record {
  handler = ecall_oftable_hidden_check;
  takes = take_scalar uint8 uint8 ∷ [];
  stores = none;
  after = nothing;
}

abbrev pub case_oftable_update_taggable : Case
case_oftable_update_taggable = record {
  handler = ecall_oftable_update_taggable;
  takes = take_scalar uint8 uint8 ∷ take_scalar uint8 uint8 ∷ [];
  stores = some int;
  after = flush_if_changed;
}

abbrev pub case_oftable_is_other_table : Case
case_oftable_is_other_table = record {
  handler = ecall_oftable_is_other_table;
  takes = take_scalar uint8 uint8 ∷ take_scalar uint8 int ∷ [];
  stores = some int;
  after = nothing;
}
