-- ===== src/Dispatch/Examples.antt =====
-- Calls of OFTonSGX/untrusted/app.c at concrete arguments.
use ovs_sgx.Prelude.{
  ℕ, ◌+◌, ◌%◌, ◌/◌, ◌*◌, ◌≤◌, ◌≡◌, refl, true, List, [], ◌∷◌, none, some, length, if◌then◌else◌,
  arith,
}
use ovs_sgx.Memory.{Page, SharedMemory}
use ovs_sgx.HashMap.Totals.{weight, is_node}
use ovs_sgx.Cache.{FlowCache, flow_map_cache_init, flow_map_cache_is_valid}
use ovs_sgx.Cache.Run.{calls}
use ovs_sgx.Dispatch.{width, ecall_oftable_set_readonly}
use ovs_sgx.Dispatch.Rings.{
  Ring, Scalars, RingName, uint8s, ring, pass_all, pass, next, resolve, element_type,
}
use ovs_sgx.Dispatch.Rings.Written.{IsRing, written, writes}
use ovs_sgx.Dispatch.Arguments.{cell_of}
use ovs_sgx.Dispatch.Cases.{case_of}
use ovs_sgx.Dispatch.Invocations.{
  Invocation, readonly_set, cls_rule_init, cls_remove, flush_c, cls_lookup,
}
use ovs_sgx.Dispatch.Wrappers.{wrapper_of}
use ovs_sgx.Dispatch.Execute.{
  values, hot_call, further_calls, direct_call, execute_function, execute_case, take_arguments,
  take_argument, load,
}
use ovs_sgx.Dispatch.Matching.{is_unhandled}
use ovs_sgx.Dispatch.Delivery.{written_by, written_by_all, hot_call-direct}
use ovs_sgx.Dispatch.Returns.{hot_result, direct_result, is_half_set, is_unset, hot_result-direct}
use ovs_sgx.Dispatch.Caching.{Outcome, all_cache_calls, dispatched-valid}

abbrev full_ring : Ring
full_ring = record { cells = λ _. 0; idx = 19 }

abbrev some_scalars : Scalars
some_scalars = record {
  uint8_ts = full_ring;
  unsigned_ts = full_ring;
  void_ts = full_ring;
  uint32_ts = full_ring;
  heap_node_ts = full_ring;
}

abbrev batch : List Invocation
batch = cls_rule_init 1 640 704 32768 ∷ cls_remove 1 3 640 ∷ readonly_set 1 4 ∷ []

are_rings : (k : RingName) → IsRing (ring k some_scalars)
unfolding ring
are_rings uint8s = omega arith
are_rings k = omega arith

are_few :
    (k : RingName)
    → length (written_by k true (readonly_set 1 2)) + length (written_by_all k true batch) ≤ 20
unfolding written_by written_by_all written writes wrapper_of
are_few uint8s = omega arith
are_few k = omega arith

hot_call-direct_example :
    execute_function
      (λ _. 255)
      (further_calls true batch (hot_call true (readonly_set 1 2) some_scalars).0)
      (hot_call true (readonly_set 1 2) some_scalars).1
    ≡ (if is_unhandled (readonly_set 1 2) then none else some (direct_call (readonly_set 1 2)))
unfolding case_of wrapper_of cell_of values width
hot_call-direct_example =
    hot_call-direct true (readonly_set 1 2) batch some_scalars (λ _. 255) are_rings are_few
      ((omega arith, omega arith, omega arith), ((omega arith, omega arith, omega arith), tt))

hot_result-direct_example : hot_result (flush_c 1) 12884901888 7 ≡ (
    if is_half_set (flush_c 1)
    then some (7 % 4294967296 + 4294967296 * (12884901888 / 4294967296))
    else if is_unset (flush_c 1)
    then some 12884901888
    else direct_result (flush_c 1) 7)
hot_result-direct_example = hot_result-direct (flush_c 1) 12884901888 7 (omega arith)

abbrev raw_page : Page
raw_page = record { bytes = 0; size = 0; status = 0; pending_deallocation = 0 }

abbrev found_rule : Outcome
found_rule = record {
  result = 0;
  ut_cr = 640;
  ut_crs = λ i. 640 + i;
  hash = 5;
  raw = raw_page;
  raw' = raw_page;
  bytes_at = λ _. 0 ∷ 0 ∷ 0 ∷ 0 ∷ 0 ∷ 0 ∷ 0 ∷ 0 ∷ [];
}

abbrev three_calls : List (Invocation × Outcome)
three_calls =
    (cls_lookup 1 512 2 768 832, found_rule)
    ∷ (cls_remove 1 2 640, found_rule)
    ∷ (flush_c 1, found_rule)
    ∷ []

abbrev no_pages : SharedMemory
no_pages = record { pages = λ _. raw_page; cap = 10; allocated = λ _. 0; default_page_sz = 64 }

abbrev two_entries : List ℕ
two_entries = 4096 ∷ 8192 ∷ []

two_entries_differ : (x : ℕ) → weight (is_node x) two_entries ≤ 1
two_entries_differ x = ground arith

dispatched-valid_example :
    (c : FlowCache) × (calls
        (all_cache_calls three_calls)
        (flow_map_cache_init two_entries (λ _. 0) (some no_pages))
      ≡ some c)
    × (flow_map_cache_is_valid c ≡ true)
unfolding case_of wrapper_of
dispatched-valid_example =
    dispatched-valid two_entries (λ _. 0) (some no_pages) three_calls two_entries_differ
      (omega arith) (tt, ((λ e. omega arith), (tt, tt)))

-- A batched call of which the arguments were overwritten before it was executed
overwritten_arguments :
    execute_function
      (λ _. 0)
      (further_calls true
        (readonly_set 1 1
          ∷ readonly_set 1 2
          ∷ readonly_set 1 3
          ∷ readonly_set 1 4
          ∷ readonly_set 1 5
          ∷ readonly_set 1 6
          ∷ readonly_set 1 7
          ∷ readonly_set 1 8
          ∷ readonly_set 1 9
          ∷ readonly_set 2 9
          ∷ [])
        (hot_call true (readonly_set 0 0) some_scalars).0)
      (hot_call true (readonly_set 0 0) some_scalars).1
    ≡ some (record { handler = ecall_oftable_set_readonly; arguments = 2 ∷ 9 ∷ [] })
unfolding execute_function execute_case take_arguments take_argument load values width further_calls
    hot_call pass_all pass next resolve ring element_type wrapper_of case_of
overwritten_arguments = refl
