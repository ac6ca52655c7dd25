-- ===== src/Dispatch/Cases.antt =====
-- The `switch` of `execute_function`, OFTonSGX/trusted/call-table.c: none is its default.
pub mod Tables
pub mod Rules
pub mod Evictions
pub mod Statistics
pub mod Bridges
pub mod Flows
pub mod Collections
pub mod Compressed
use ovs_sgx.Prelude.{Option, none, some}
use ovs_sgx.Dispatch.{
  FunctionId, Case, ecall_oftable_is_readonly, ecall_cls_rule_init, ecall_cls_rule_destroy,
  ecall_cr_rule_overlaps, ecall_oftable_set_readonly, ecall_oftable_set_name,
  ecall_oftable_disable_eviction, ecall_oftable_mflows_set, ecall_oftable_cls_count,
  ecall_oftable_mflows, ecall_is_eviction_fields_enabled, ecall_flush_c, ecall_flush_r,
  ecall_ofproto_destroy, ecall_total_rules, ecall_oftable_cls_find_match_exactly, ecall_cr_priority,
  ecall_oftable_get_flags, ecall_oftable_name, ecall_collect_rules_loose_c,
  ecall_collect_rules_loose_r, ecall_minimatch_expand, ecall_cls_rule_format, ecall_flow_stats_c,
  ecall_flow_stats_r, ecall_cls_rule_hash, ecall_cls_rule_equal, ecall_choose_rule_to_evict,
  ecall_choose_rule_to_evict_p, ecall_collect_ofmonitor_util_c, ecall_collect_ofmonitor_util_r,
  ecall_cls_rule_is_loose_match, ecall_minimask_get_vid_mask, ecall_miniflow_get_vid,
  ecall_evg_add_rule, ecall_oftable_enable_eviction, ecall_oftable_enable_eviction_c,
  ecall_oftable_enable_eviction_r, ecall_cls_remove, ecall_oftable_classifier_replace,
  ecall_ofproto_get_vlan_c, ecall_ofproto_get_vlan_r, ecall_collect_rules_strict_c,
  ecall_collect_rules_strict_r, ecall_oftable_hidden_check, ecall_miniflow_expand,
  ecall_rule_calculate_tag, ecall_rule_calculate_tag_s, ecall_oftable_update_taggable,
  ecall_oftable_is_other_table, ecall_oftable_cls_lookup, ecall_evg_remove_rule,
  ecall_dpif_destroy_c, ecall_dpif_destroy_r, ecall_oftable_get_cls_rules,
  ecall_get_cls_rules_and_enable_eviction, ecall_eviction_group_add_rules,
  ecall_ofproto_get_vlan_usage, ecall_ofproto_flush, ecall_ofproto_evict, ecall_add_flow,
  ecall_collect_rules_loose, ecall_collect_rules_strict, ecall_delete_flows,
  ecall_oftable_configure, ecall_need_to_evict, ecall_collect_rules_loose_stats_request,
  ecall_ofproto_rule_send_removed, ecall_oftable_remove_rules,
  ecall_minimatch_expand_and_get_priority, ecall_miniflow_expand_and_tag,
}
use ovs_sgx.Dispatch.Cases.Tables.{
  case_oftable_is_readonly, case_oftable_set_readonly, case_oftable_set_name,
  case_oftable_mflows_set, case_oftable_cls_count, case_oftable_mflows, case_oftable_get_flags,
  case_oftable_name, case_oftable_hidden_check, case_oftable_update_taggable,
  case_oftable_is_other_table,
}
use ovs_sgx.Dispatch.Cases.Rules.{
  case_cls_rule_init, case_cls_rule_destroy, case_cr_rule_overlaps, case_cr_priority,
  case_cls_rule_format, case_cls_rule_hash, case_cls_rule_equal, case_cls_rule_is_loose_match,
  case_rule_calculate_tag, case_rule_calculate_tag_s,
}
use ovs_sgx.Dispatch.Cases.Evictions.{
  case_oftable_disable_eviction, case_is_eviction_fields_enabled, case_choose_rule_to_evict,
  case_choose_rule_to_evict_p, case_evg_add_rule, case_oftable_enable_eviction,
  case_oftable_enable_eviction_c, case_oftable_enable_eviction_r, case_evg_remove_rule,
  case_get_cls_rules_and_enable_eviction, case_eviction_group_add_rules, case_ofproto_evict,
  case_need_to_evict,
}
use ovs_sgx.Dispatch.Cases.Statistics.{
  case_flush_c, case_flush_r, case_flow_stats_c, case_flow_stats_r, case_dpif_destroy_c,
  case_dpif_destroy_r, case_oftable_get_cls_rules,
}
use ovs_sgx.Dispatch.Cases.Bridges.{
  case_ofproto_destroy, case_total_rules, case_ofproto_get_vlan_c, case_ofproto_get_vlan_r,
  case_ofproto_get_vlan_usage, case_ofproto_flush, case_ofproto_rule_send_removed,
}
use ovs_sgx.Dispatch.Cases.Flows.{
  case_oftable_cls_find_match_exactly, case_cls_remove, case_oftable_classifier_replace,
  case_oftable_cls_lookup, case_add_flow, case_delete_flows, case_oftable_configure,
  case_oftable_remove_rules,
}
use ovs_sgx.Dispatch.Cases.Collections.{
  case_collect_rules_loose_c, case_collect_rules_loose_r, case_collect_ofmonitor_util_c,
  case_collect_ofmonitor_util_r, case_collect_rules_strict_c, case_collect_rules_strict_r,
  case_collect_rules_loose, case_collect_rules_strict, case_collect_rules_loose_stats_request,
}
use ovs_sgx.Dispatch.Cases.Compressed.{
  case_minimatch_expand, case_minimask_get_vid_mask, case_miniflow_get_vid, case_miniflow_expand,
  case_minimatch_expand_and_get_priority, case_miniflow_expand_and_tag,
}

unfoldable pub case_of : FunctionId → Option Case
case_of ecall_oftable_is_readonly = some case_oftable_is_readonly
case_of ecall_cls_rule_init = some case_cls_rule_init
case_of ecall_cls_rule_destroy = some case_cls_rule_destroy
case_of ecall_cr_rule_overlaps = some case_cr_rule_overlaps
case_of ecall_oftable_set_readonly = some case_oftable_set_readonly
case_of ecall_oftable_set_name = some case_oftable_set_name
case_of ecall_oftable_disable_eviction = some case_oftable_disable_eviction
case_of ecall_oftable_mflows_set = some case_oftable_mflows_set
case_of ecall_oftable_cls_count = some case_oftable_cls_count
case_of ecall_oftable_mflows = some case_oftable_mflows
case_of ecall_is_eviction_fields_enabled = some case_is_eviction_fields_enabled
case_of ecall_flush_c = some case_flush_c
case_of ecall_flush_r = some case_flush_r
case_of ecall_ofproto_destroy = some case_ofproto_destroy
case_of ecall_total_rules = some case_total_rules
case_of ecall_oftable_cls_find_match_exactly = some case_oftable_cls_find_match_exactly
case_of ecall_cr_priority = some case_cr_priority
case_of ecall_oftable_get_flags = some case_oftable_get_flags
case_of ecall_oftable_name = some case_oftable_name
case_of ecall_collect_rules_loose_c = some case_collect_rules_loose_c
case_of ecall_collect_rules_loose_r = some case_collect_rules_loose_r
case_of ecall_minimatch_expand = some case_minimatch_expand
case_of ecall_cls_rule_format = some case_cls_rule_format
case_of ecall_flow_stats_c = some case_flow_stats_c
case_of ecall_flow_stats_r = some case_flow_stats_r
case_of ecall_cls_rule_hash = some case_cls_rule_hash
case_of ecall_cls_rule_equal = some case_cls_rule_equal
case_of ecall_choose_rule_to_evict = some case_choose_rule_to_evict
case_of ecall_choose_rule_to_evict_p = some case_choose_rule_to_evict_p
case_of ecall_collect_ofmonitor_util_c = some case_collect_ofmonitor_util_c
case_of ecall_collect_ofmonitor_util_r = some case_collect_ofmonitor_util_r
case_of ecall_cls_rule_is_loose_match = some case_cls_rule_is_loose_match
case_of ecall_minimask_get_vid_mask = some case_minimask_get_vid_mask
case_of ecall_miniflow_get_vid = some case_miniflow_get_vid
case_of ecall_evg_add_rule = some case_evg_add_rule
case_of ecall_oftable_enable_eviction = some case_oftable_enable_eviction
case_of ecall_oftable_enable_eviction_c = some case_oftable_enable_eviction_c
case_of ecall_oftable_enable_eviction_r = some case_oftable_enable_eviction_r
case_of ecall_cls_remove = some case_cls_remove
case_of ecall_oftable_classifier_replace = some case_oftable_classifier_replace
case_of ecall_ofproto_get_vlan_c = some case_ofproto_get_vlan_c
case_of ecall_ofproto_get_vlan_r = some case_ofproto_get_vlan_r
case_of ecall_collect_rules_strict_c = some case_collect_rules_strict_c
case_of ecall_collect_rules_strict_r = some case_collect_rules_strict_r
case_of ecall_oftable_hidden_check = some case_oftable_hidden_check
case_of ecall_miniflow_expand = some case_miniflow_expand
case_of ecall_rule_calculate_tag = some case_rule_calculate_tag
case_of ecall_rule_calculate_tag_s = some case_rule_calculate_tag_s
case_of ecall_oftable_update_taggable = some case_oftable_update_taggable
case_of ecall_oftable_is_other_table = some case_oftable_is_other_table
case_of ecall_oftable_cls_lookup = some case_oftable_cls_lookup
case_of ecall_evg_remove_rule = some case_evg_remove_rule
case_of ecall_dpif_destroy_c = some case_dpif_destroy_c
case_of ecall_dpif_destroy_r = some case_dpif_destroy_r
case_of ecall_oftable_get_cls_rules = some case_oftable_get_cls_rules
case_of ecall_get_cls_rules_and_enable_eviction = some case_get_cls_rules_and_enable_eviction
case_of ecall_eviction_group_add_rules = some case_eviction_group_add_rules
case_of ecall_ofproto_get_vlan_usage = some case_ofproto_get_vlan_usage
case_of ecall_ofproto_flush = some case_ofproto_flush
case_of ecall_ofproto_evict = some case_ofproto_evict
case_of ecall_add_flow = some case_add_flow
case_of ecall_collect_rules_loose = some case_collect_rules_loose
case_of ecall_collect_rules_strict = some case_collect_rules_strict
case_of ecall_delete_flows = some case_delete_flows
case_of ecall_oftable_configure = some case_oftable_configure
case_of ecall_need_to_evict = some case_need_to_evict
case_of ecall_collect_rules_loose_stats_request = some case_collect_rules_loose_stats_request
case_of ecall_ofproto_rule_send_removed = some case_ofproto_rule_send_removed
case_of ecall_oftable_remove_rules = some case_oftable_remove_rules
case_of ecall_minimatch_expand_and_get_priority = some case_minimatch_expand_and_get_priority
case_of ecall_miniflow_expand_and_tag = some case_miniflow_expand_and_tag
case_of other = none
