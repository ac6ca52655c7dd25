-- ===== src/Dispatch/Compressed.antt =====
-- The calls of OFTonSGX/untrusted/app.c that are about the compressed flow of one rule: for each, the pointers that its hot call
-- passes and the arguments that its direct call passes.
use ovs_sgx.Prelude.{ℕ, true, false, none, some, [], ◌∷◌}
use ovs_sgx.Dispatch.{
  Wrapper, pointer, parameter, uint16, uint32, uint8, ecall_minimatch_expand, ecall_miniflow_expand,
  ecall_minimask_get_vid_mask, ecall_miniflow_get_vid, ecall_minimatch_expand_and_get_priority,
  ecall_miniflow_expand_and_tag,
}

-- `SGX_minimatch_expand`
unfoldable pub sgx_minimatch_expand : ℕ → ℕ → ℕ → Wrapper
sgx_minimatch_expand bridge_id ut_cr dst = record {
  id = ecall_minimatch_expand;
  async = false;
  args = parameter uint8 bridge_id ∷ pointer ut_cr ∷ pointer dst ∷ [];
  n_args = 3;
  ret = none;
  returned = false;
  direct = bridge_id ∷ ut_cr ∷ dst ∷ [];
}

-- `SGX_miniflow_expand`
unfoldable pub sgx_miniflow_expand : ℕ → ℕ → ℕ → Wrapper
sgx_miniflow_expand bridge_id ut_cr flow = record {
  id = ecall_miniflow_expand;
  async = false;
  args = parameter uint8 bridge_id ∷ pointer ut_cr ∷ pointer flow ∷ [];
  n_args = 3;
  ret = none;
  returned = false;
  direct = bridge_id ∷ ut_cr ∷ flow ∷ [];
}

-- `SGX_minimask_get_vid_mask`
unfoldable pub sgx_minimask_get_vid_mask : ℕ → ℕ → Wrapper
sgx_minimask_get_vid_mask bridge_id ut_cr = record {
  id = ecall_minimask_get_vid_mask;
  async = false;
  args = parameter uint8 bridge_id ∷ pointer ut_cr ∷ [];
  n_args = 2;
  ret = some uint16;
  returned = true;
  direct = bridge_id ∷ ut_cr ∷ [];
}

-- `SGX_miniflow_get_vid`
unfoldable pub sgx_miniflow_get_vid : ℕ → ℕ → Wrapper
sgx_miniflow_get_vid bridge_id ut_cr = record {
  id = ecall_miniflow_get_vid;
  async = false;
  args = parameter uint8 bridge_id ∷ pointer ut_cr ∷ [];
  n_args = 2;
  ret = some uint16;
  returned = true;
  direct = bridge_id ∷ ut_cr ∷ [];
}

-- `SGX_minimatch_expand_and_get_priority`
unfoldable pub sgx_minimatch_expand_and_get_priority : ℕ → ℕ → ℕ → ℕ → Wrapper
sgx_minimatch_expand_and_get_priority bridge_id ut_cr match priority = record {
  id = ecall_minimatch_expand_and_get_priority;
  async = false;
  args = parameter uint8 bridge_id ∷ pointer ut_cr ∷ pointer match ∷ pointer priority ∷ [];
  n_args = 4;
  ret = none;
  returned = false;
  direct = bridge_id ∷ ut_cr ∷ match ∷ priority ∷ [];
}

-- `SGX_miniflow_expand_and_tag`
unfoldable pub sgx_miniflow_expand_and_tag : ℕ → ℕ → ℕ → ℕ → Wrapper
sgx_miniflow_expand_and_tag bridge_id ut_cr flow table_id = record {
  id = ecall_miniflow_expand_and_tag;
  async = false;
  args = parameter uint8 bridge_id ∷ pointer ut_cr ∷ pointer flow ∷ parameter uint8 table_id ∷ [];
  n_args = 4;
  ret = some uint32;
  returned = true;
  direct = bridge_id ∷ ut_cr ∷ flow ∷ table_id ∷ [];
}
