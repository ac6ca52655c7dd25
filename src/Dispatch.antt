-- ===== src/Dispatch.antt =====
-- How the switch's calls reach the enclave's handlers: the wrappers of OFTonSGX/untrusted/app.c, the
-- rings of scalars of OFTonSGX/untrusted/hotcall-untrusted.h and the dispatcher of
-- OFTonSGX/trusted/call-table.c. A pointer argument is an opaque number; a scalar is the number of its
-- bytes, least significant first, an `int` by its bit pattern and a heap node by its bytes.

pub mod Rings
pub mod Rules
pub mod Tables
pub mod Evictions
pub mod Collections
pub mod Statistics
pub mod Compressed
pub mod Flows
pub mod Bridges
pub mod Cases
pub mod Invocations
pub mod Wrappers
pub mod Execute
pub mod Arguments
pub mod Matching
pub mod Delivery
pub mod Returns
pub mod Caching
mod Examples
use ovs_sgx.Prelude.{ℕ, Bool, List, Option}

-- The C types of the scalars that are passed
pub data Scalar : Type 0 where
  uint8 : Scalar
  uint16 : Scalar
  uint32 : Scalar
  unsigned : Scalar
  int : Scalar
  oftable_flags : Scalar
  size : Scalar
  boolean : Scalar
  heap_node : Scalar

-- `sizeof`, on x86-64
unfoldable pub width : Scalar → ℕ
width uint8 = 1
width uint16 = 2
width uint32 = 4
width unsigned = 4
width int = 4
width oftable_flags = 4
width size = 8
width boolean = 1
width heap_node = 16

-- The `hotcall_` macros: the functions of the enclave
pub data FunctionId : Type 0 where
  ecall_async_test : FunctionId
  ecall_myenclave_sample : FunctionId
  ecall_ofproto_init_tables : FunctionId
  ecall_oftable_set_readonly : FunctionId
  ecall_oftable_is_readonly : FunctionId
  ecall_cls_rule_init : FunctionId
  ecall_cr_rule_overlaps : FunctionId
  ecall_cls_rule_destroy : FunctionId
  ecall_cls_rule_hash : FunctionId
  ecall_cls_rule_equal : FunctionId
  ecall_oftable_classifier_replace : FunctionId
  ecall_oftable_get_flags : FunctionId
  ecall_oftable_cls_count : FunctionId
  ecall_is_eviction_fields_enabled : FunctionId
  ecall_evg_group_resize : FunctionId
  ecall_evg_add_rule : FunctionId
  ecall_evg_remove_rule : FunctionId
  ecall_cls_remove : FunctionId
  ecall_choose_rule_to_evict : FunctionId
  ecall_oftable_mflows : FunctionId
  ecall_choose_rule_to_evict_p : FunctionId
  ecall_minimatch_expand : FunctionId
  ecall_cr_priority : FunctionId
  ecall_oftable_cls_find_match_exactly : FunctionId
  ecall_collect_rules_loose_c : FunctionId
  ecall_collect_rules_loose_r : FunctionId
  ecall_collect_rules_strict_c : FunctionId
  ecall_collect_rules_strict_r : FunctionId
  ecall_oftable_enable_eviction : FunctionId
  ecall_oftable_disable_eviction : FunctionId
  ecall_oftable_enable_eviction_c : FunctionId
  ecall_oftable_enable_eviction_r : FunctionId
  ecall_oftable_mflows_set : FunctionId
  ecall_ofproto_destroy : FunctionId
  ecall_total_rules : FunctionId
  ecall_oftable_name : FunctionId
  ecall_collect_ofmonitor_util_c : FunctionId
  ecall_collect_ofmonitor_util_r : FunctionId
  ecall_cls_rule_is_loose_match : FunctionId
  ecall_flush_c : FunctionId
  ecall_flush_r : FunctionId
  ecall_flow_stats_c : FunctionId
  ecall_flow_stats_r : FunctionId
  ecall_oftable_cls_lookup : FunctionId
  ecall_cls_rule_priority : FunctionId
  ecall_dpif_destroy_c : FunctionId
  ecall_dpif_destroy_r : FunctionId
  ecall_cls_rule_format : FunctionId
  ecall_miniflow_expand : FunctionId
  ecall_rule_calculate_tag : FunctionId
  ecall_oftable_update_taggable : FunctionId
  ecall_oftable_is_other_table : FunctionId
  ecall_rule_calculate_tag_s : FunctionId
  ecall_oftable_hidden_check : FunctionId
  ecall_oftable_set_name : FunctionId
  ecall_minimask_get_vid_mask : FunctionId
  ecall_miniflow_get_vid : FunctionId
  ecall_ofproto_get_vlan_c : FunctionId
  ecall_ofproto_get_vlan_r : FunctionId
  ecall_oftable_get_cls_rules : FunctionId
  ecall_get_cls_rules_and_enable_eviction : FunctionId
  ecall_eviction_group_add_rules : FunctionId
  ecall_ofproto_get_vlan_usage : FunctionId
  ecall_ofproto_flush : FunctionId
  ecall_ofproto_evict : FunctionId
  ecall_add_flow : FunctionId
  ecall_collect_rules_loose : FunctionId
  ecall_collect_rules_strict : FunctionId
  ecall_delete_flows : FunctionId
  ecall_oftable_configure : FunctionId
  ecall_need_to_evict : FunctionId
  ecall_collect_rules_loose_stats_request : FunctionId
  ecall_ofproto_rule_send_removed : FunctionId
  ecall_oftable_remove_rules : FunctionId
  ecall_ofproto_evict_get_rest : FunctionId
  ecall_cls_rules_format : FunctionId
  ecall_minimatch_expand_and_get_priority : FunctionId
  ecall_miniflow_expand_and_tag : FunctionId

-- What a wrapper writes into one entry of `args`: a pointer that it was given, the address of its own
-- parameter, or, by `next_uint8(x)` and the like, where the call may be batched, the address of a copy.
pub data Passed : Type 0 where
  pointer : (p : ℕ) → Passed
  parameter : (t : Scalar) (x : ℕ) → Passed
  next_uint8 : (x : ℕ) → Passed
  next_unsigned : (x : ℕ) → Passed
  next_uint32 : (x : ℕ) → Passed
  next_heapnode : (x : ℕ) → Passed
  next_voidptr : (p : ℕ) → Passed

-- A wrapper at its arguments: the hot call that it makes, with the type of the variable for the return
-- value, whether it returns that variable, and the arguments of its direct call.
pub record Wrapper : Type 0 where
  pub id : FunctionId
  pub async : Bool
  pub args : List Passed
  pub n_args : ℕ
  pub ret : Option Scalar
  pub returned : Bool
  pub direct : List ℕ

-- How a case of the dispatcher takes one argument: a pointer by a cast, a scalar through a pointer to
-- one type, converted to the type of the handler's parameter.
pub data Take : Type 0 where
  take_pointer : Take
  take_scalar : (t u : Scalar) → Take

-- What a case does to the flow cache once the handler has returned; a number says which argument is the
-- rule, or the length of the list of rules.
pub data AfterCall : Type 0 where
  nothing : AfterCall
  remove_argument : (ut_cr : ℕ) → AfterCall
  remove_replaced : AfterCall
  remove_listed : (n : ℕ) → AfterCall
  flush_cache : AfterCall
  flush_if_changed : AfterCall
  insert_found : AfterCall

-- One case of the `switch`: the handler, its arguments, the type through which its result is stored.
pub record Case : Type 0 where
  pub handler : FunctionId
  pub takes : List Take
  pub stores : Option Scalar
  pub after : AfterCall
