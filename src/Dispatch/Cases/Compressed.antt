-- ===== src/Dispatch/Cases/Compressed.antt =====
-- The cases of `execute_function`, OFTonSGX/trusted/call-table.c, that are about the compressed flow of one rule.
use ovs_sgx.Prelude.{none, some, [], ◌∷◌}
use ovs_sgx.Dispatch.{
  Case, take_pointer, take_scalar, uint8, uint16, ecall_minimatch_expand, ecall_miniflow_expand,
  ecall_minimask_get_vid_mask, ecall_miniflow_get_vid, ecall_minimatch_expand_and_get_priority,
  ecall_miniflow_expand_and_tag, nothing,
}

abbrev pub case_minimatch_expand : Case
case_minimatch_expand = record {
  handler = ecall_minimatch_expand;
  takes = take_scalar uint8 uint8 ∷ take_pointer ∷ take_pointer ∷ [];
  stores = none;
  after = nothing;
}

abbrev pub case_minimask_get_vid_mask : Case
case_minimask_get_vid_mask = record {
  handler = ecall_minimask_get_vid_mask;
  takes = take_scalar uint8 uint8 ∷ take_pointer ∷ [];
  stores = some uint16;
  after = nothing;
}

abbrev pub case_miniflow_get_vid : Case
case_miniflow_get_vid = record {
  handler = ecall_miniflow_get_vid;
  takes = take_scalar uint8 uint8 ∷ take_pointer ∷ [];
  stores = some uint16;
  after = nothing;
}

abbrev pub case_miniflow_expand : Case
case_miniflow_expand = record {
  handler = ecall_miniflow_expand;
  takes = take_scalar uint8 uint8 ∷ take_pointer ∷ take_pointer ∷ [];
  stores = none;
  after = nothing;
}

abbrev pub case_minimatch_expand_and_get_priority : Case
case_minimatch_expand_and_get_priority = record {
  handler = ecall_minimatch_expand_and_get_priority;
  takes = take_scalar uint8 uint8 ∷ take_pointer ∷ take_pointer ∷ take_pointer ∷ [];
  stores = none;
  after = nothing;
}

abbrev pub case_miniflow_expand_and_tag : Case
case_miniflow_expand_and_tag = record {
  handler = ecall_miniflow_expand_and_tag;
  takes = take_scalar uint8 uint8 ∷ take_pointer ∷ take_pointer ∷ take_scalar uint8 uint8 ∷ [];
  stores = none;
  after = nothing;
}
