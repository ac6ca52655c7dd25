-- ===== src/Dispatch/Wrappers.antt =====
-- The wrappers of OFTonSGX/untrusted/app.c by the calls that the switch can make.
use ovs_sgx.Dispatch.{Wrapper}
use ovs_sgx.Dispatch.Invocations.{
  Invocation, readonly_set, istable_readonly, cls_rule_init, cr_rule_overlaps, cls_rule_destroy,
  cls_rule_hash, cls_rule_equal, classifier_replace, rule_get_flags, cls_count,
  eviction_fields_enable, evg_add_rule, evg_remove_rule, cls_remove, choose_rule_to_evict,
  choose_rule_to_evict_p, table_mflows, table_mflows_set, minimatch_expand, cr_priority,
  cls_find_match_exactly, collect_rules_loose_c, collect_rules_loose_r, collect_rules_strict_c,
  collect_rules_strict_r, oftable_enable_eviction_c, oftable_enable_eviction_r,
  collect_ofmonitor_util_c, collect_ofmonitor_util_r, oftable_enable_eviction,
  oftable_disable_eviction, ofproto_destroy, total_rules, table_name, cls_rule_is_loose_match,
  flush_c, flush_r, flow_stats_c, flow_stats_r, cls_lookup, dpif_destroy_c, dpif_destroy_r,
  cls_rule_format, miniflow_expand, rule_calculate_tag, table_update_taggable, is_sgx_other_table,
  rule_calculate_tag_s, oftable_check_hidden, oftable_set_name, minimask_get_vid_mask,
  miniflow_get_vid, ofproto_get_vlan_usage_c, ofproto_get_vlan_usage_r, get_cls_rules,
  get_cls_rules_and_enable_eviction, eviction_group_add_rules, ofproto_get_vlan_usage,
  ofproto_flush, ofproto_evict, add_flow, collect_rules_strict, collect_rules_loose, delete_flows,
  configure_table, need_to_evict, collect_rules_loose_stats_request, ofproto_rule_send_removed,
  remove_rules, cls_rules_format, minimatch_expand_and_get_priority, miniflow_expand_and_tag,
}
use ovs_sgx.Dispatch.Tables.{
  sgx_readonly_set, sgx_istable_readonly, sgx_rule_get_flags, sgx_cls_count, sgx_table_mflows,
  sgx_table_mflows_set, sgx_table_name, sgx_table_update_taggable, sgx_is_sgx_other_table,
  sgx_oftable_check_hidden, sgx_oftable_set_name,
}
use ovs_sgx.Dispatch.Rules.{
  sgx_cls_rule_init, sgx_cr_rule_overlaps, sgx_cls_rule_destroy, sgx_cls_rule_hash,
  sgx_cls_rule_equal, sgx_cr_priority, sgx_cls_rule_is_loose_match, sgx_cls_rule_format,
  sgx_rule_calculate_tag, sgx_rule_calculate_tag_s, sgx_cls_rules_format,
}
use ovs_sgx.Dispatch.Flows.{
  sgx_classifier_replace, sgx_cls_remove, sgx_cls_find_match_exactly, sgx_cls_lookup, sgx_add_flow,
  sgx_delete_flows, sgx_configure_table, sgx_remove_rules,
}
use ovs_sgx.Dispatch.Evictions.{
  sgx_eviction_fields_enable, sgx_evg_add_rule, sgx_evg_remove_rule, sgx_choose_rule_to_evict,
  sgx_choose_rule_to_evict_p, sgx_oftable_enable_eviction_c, sgx_oftable_enable_eviction_r,
  sgx_oftable_enable_eviction, sgx_oftable_disable_eviction, sgx_get_cls_rules_and_enable_eviction,
  sgx_eviction_group_add_rules, sgx_ofproto_evict, sgx_need_to_evict,
}
use ovs_sgx.Dispatch.Compressed.{
  sgx_minimatch_expand, sgx_miniflow_expand, sgx_minimask_get_vid_mask, sgx_miniflow_get_vid,
  sgx_minimatch_expand_and_get_priority, sgx_miniflow_expand_and_tag,
}
use ovs_sgx.Dispatch.Collections.{
  sgx_collect_rules_loose_c, sgx_collect_rules_loose_r, sgx_collect_rules_strict_c,
  sgx_collect_rules_strict_r, sgx_collect_ofmonitor_util_c, sgx_collect_ofmonitor_util_r,
  sgx_collect_rules_strict, sgx_collect_rules_loose, sgx_collect_rules_loose_stats_request,
}
use ovs_sgx.Dispatch.Bridges.{
  sgx_ofproto_destroy, sgx_total_rules, sgx_ofproto_get_vlan_usage_c, sgx_ofproto_get_vlan_usage_r,
  sgx_ofproto_get_vlan_usage, sgx_ofproto_flush, sgx_ofproto_rule_send_removed,
}
use ovs_sgx.Dispatch.Statistics.{
  sgx_flush_c, sgx_flush_r, sgx_flow_stats_c, sgx_flow_stats_r, sgx_dpif_destroy_c,
  sgx_dpif_destroy_r, sgx_get_cls_rules,
}

unfoldable pub wrapper_of : Invocation → Wrapper
unfolding sgx_readonly_set sgx_istable_readonly sgx_cls_rule_init sgx_cr_rule_overlaps
    sgx_cls_rule_destroy sgx_cls_rule_hash sgx_cls_rule_equal sgx_classifier_replace
    sgx_rule_get_flags sgx_cls_count sgx_eviction_fields_enable sgx_evg_add_rule sgx_evg_remove_rule
    sgx_cls_remove sgx_choose_rule_to_evict sgx_choose_rule_to_evict_p sgx_table_mflows
    sgx_table_mflows_set sgx_minimatch_expand sgx_cr_priority sgx_cls_find_match_exactly
    sgx_collect_rules_loose_c sgx_collect_rules_loose_r sgx_collect_rules_strict_c
    sgx_collect_rules_strict_r sgx_oftable_enable_eviction_c sgx_oftable_enable_eviction_r
    sgx_collect_ofmonitor_util_c sgx_collect_ofmonitor_util_r sgx_oftable_enable_eviction
    sgx_oftable_disable_eviction sgx_ofproto_destroy sgx_total_rules sgx_table_name
    sgx_cls_rule_is_loose_match sgx_flush_c sgx_flush_r sgx_flow_stats_c sgx_flow_stats_r
    sgx_cls_lookup sgx_dpif_destroy_c sgx_dpif_destroy_r sgx_cls_rule_format sgx_miniflow_expand
    sgx_rule_calculate_tag sgx_table_update_taggable sgx_is_sgx_other_table sgx_rule_calculate_tag_s
    sgx_oftable_check_hidden sgx_oftable_set_name sgx_minimask_get_vid_mask sgx_miniflow_get_vid
    sgx_ofproto_get_vlan_usage_c sgx_ofproto_get_vlan_usage_r sgx_get_cls_rules
    sgx_get_cls_rules_and_enable_eviction sgx_eviction_group_add_rules sgx_ofproto_get_vlan_usage
    sgx_ofproto_flush sgx_ofproto_evict sgx_add_flow sgx_collect_rules_strict
    sgx_collect_rules_loose sgx_delete_flows sgx_configure_table sgx_need_to_evict
    sgx_collect_rules_loose_stats_request sgx_ofproto_rule_send_removed sgx_remove_rules
    sgx_cls_rules_format sgx_minimatch_expand_and_get_priority sgx_miniflow_expand_and_tag
wrapper_of (readonly_set bridge_id table_id) = sgx_readonly_set bridge_id table_id
wrapper_of (istable_readonly bridge_id table_id) = sgx_istable_readonly bridge_id table_id
wrapper_of (cls_rule_init bridge_id o_cls_rule match priority) =
    sgx_cls_rule_init bridge_id o_cls_rule match priority
wrapper_of (cr_rule_overlaps bridge_id table_id ut_cr) =
    sgx_cr_rule_overlaps bridge_id table_id ut_cr
wrapper_of (cls_rule_destroy bridge_id ut_cr) = sgx_cls_rule_destroy bridge_id ut_cr
wrapper_of (cls_rule_hash bridge_id ut_cr basis) = sgx_cls_rule_hash bridge_id ut_cr basis
wrapper_of (cls_rule_equal bridge_id ut_cr_a ut_cr_b) = sgx_cls_rule_equal bridge_id ut_cr_a ut_cr_b
wrapper_of (classifier_replace bridge_id table_id ut_cr_insert ut_cr_remove) =
    sgx_classifier_replace bridge_id table_id ut_cr_insert ut_cr_remove
wrapper_of (rule_get_flags bridge_id table_id) = sgx_rule_get_flags bridge_id table_id
wrapper_of (cls_count bridge_id table_id) = sgx_cls_count bridge_id table_id
wrapper_of (eviction_fields_enable bridge_id table_id) =
    sgx_eviction_fields_enable bridge_id table_id
wrapper_of (evg_add_rule bridge_id table_id ut_cr priority rule_evict_prioriy rule_evg_node) =
    sgx_evg_add_rule bridge_id table_id ut_cr priority rule_evict_prioriy rule_evg_node
wrapper_of (evg_remove_rule bridge_id table_id ut_cr) = sgx_evg_remove_rule bridge_id table_id ut_cr
wrapper_of (cls_remove bridge_id table_id ut_cr) = sgx_cls_remove bridge_id table_id ut_cr
wrapper_of (choose_rule_to_evict bridge_id table_id ut_cr_victim) =
    sgx_choose_rule_to_evict bridge_id table_id ut_cr_victim
wrapper_of (choose_rule_to_evict_p bridge_id table_id ut_cr_victim ut_cr_replacer) =
    sgx_choose_rule_to_evict_p bridge_id table_id ut_cr_victim ut_cr_replacer
wrapper_of (table_mflows bridge_id table_id) = sgx_table_mflows bridge_id table_id
wrapper_of (table_mflows_set bridge_id table_id new_value) =
    sgx_table_mflows_set bridge_id table_id new_value
wrapper_of (minimatch_expand bridge_id ut_cr dst) = sgx_minimatch_expand bridge_id ut_cr dst
wrapper_of (cr_priority bridge_id ut_cr) = sgx_cr_priority bridge_id ut_cr
wrapper_of (cls_find_match_exactly bridge_id table_id target priority ut_cr) =
    sgx_cls_find_match_exactly bridge_id table_id target priority ut_cr
wrapper_of (collect_rules_loose_c bridge_id ofproto_n_tables table_id match) =
    sgx_collect_rules_loose_c bridge_id ofproto_n_tables table_id match
wrapper_of (collect_rules_loose_r bridge_id ofproto_n_tables buf elem table_id match) =
    sgx_collect_rules_loose_r bridge_id ofproto_n_tables buf elem table_id match
wrapper_of (collect_rules_strict_c bridge_id ofproto_n_tables table_id match priority) =
    sgx_collect_rules_strict_c bridge_id ofproto_n_tables table_id match priority
wrapper_of (collect_rules_strict_r bridge_id ofproto_n_tables buf elem table_id match priority) =
    sgx_collect_rules_strict_r bridge_id ofproto_n_tables buf elem table_id match priority
wrapper_of (oftable_enable_eviction_c bridge_id table_id) =
    sgx_oftable_enable_eviction_c bridge_id table_id
wrapper_of (oftable_enable_eviction_r bridge_id buf elem table_id) =
    sgx_oftable_enable_eviction_r bridge_id buf elem table_id
wrapper_of (collect_ofmonitor_util_c bridge_id ofproto_n_tables table_id match) =
    sgx_collect_ofmonitor_util_c bridge_id ofproto_n_tables table_id match
wrapper_of (collect_ofmonitor_util_r bridge_id ofproto_n_tables buf elem table_id match) =
    sgx_collect_ofmonitor_util_r bridge_id ofproto_n_tables buf elem table_id match
wrapper_of (oftable_enable_eviction bridge_id table_id fields n_fields random_v no_change) =
    sgx_oftable_enable_eviction bridge_id table_id fields n_fields random_v no_change
wrapper_of (oftable_disable_eviction bridge_id table_id) =
    sgx_oftable_disable_eviction bridge_id table_id
wrapper_of (ofproto_destroy bridge_id) = sgx_ofproto_destroy bridge_id
wrapper_of (total_rules bridge_id) = sgx_total_rules bridge_id
wrapper_of (table_name bridge_id table_id buf len) = sgx_table_name bridge_id table_id buf len
wrapper_of (cls_rule_is_loose_match bridge_id ut_cr criteria) =
    sgx_cls_rule_is_loose_match bridge_id ut_cr criteria
wrapper_of (flush_c bridge_id) = sgx_flush_c bridge_id
wrapper_of (flush_r bridge_id buf elem) = sgx_flush_r bridge_id buf elem
wrapper_of (flow_stats_c bridge_id) = sgx_flow_stats_c bridge_id
wrapper_of (flow_stats_r bridge_id buf elem) = sgx_flow_stats_r bridge_id buf elem
wrapper_of (cls_lookup bridge_id ut_cr table_id flow wc) =
    sgx_cls_lookup bridge_id ut_cr table_id flow wc
wrapper_of (dpif_destroy_c bridge_id) = sgx_dpif_destroy_c bridge_id
wrapper_of (dpif_destroy_r bridge_id buf elem) = sgx_dpif_destroy_r bridge_id buf elem
wrapper_of (cls_rule_format bridge_id ut_cr megamatch) =
    sgx_cls_rule_format bridge_id ut_cr megamatch
wrapper_of (miniflow_expand bridge_id ut_cr flow) = sgx_miniflow_expand bridge_id ut_cr flow
wrapper_of (rule_calculate_tag bridge_id ut_cr flow table_id) =
    sgx_rule_calculate_tag bridge_id ut_cr flow table_id
wrapper_of (table_update_taggable bridge_id table_id) = sgx_table_update_taggable bridge_id table_id
wrapper_of (is_sgx_other_table bridge_id table_id) = sgx_is_sgx_other_table bridge_id table_id
wrapper_of (rule_calculate_tag_s bridge_id table_id flow) =
    sgx_rule_calculate_tag_s bridge_id table_id flow
wrapper_of (oftable_check_hidden bridge_id) = sgx_oftable_check_hidden bridge_id
wrapper_of (oftable_set_name bridge_id table_id name) = sgx_oftable_set_name bridge_id table_id name
wrapper_of (minimask_get_vid_mask bridge_id ut_cr) = sgx_minimask_get_vid_mask bridge_id ut_cr
wrapper_of (miniflow_get_vid bridge_id ut_cr) = sgx_miniflow_get_vid bridge_id ut_cr
wrapper_of (ofproto_get_vlan_usage_c bridge_id) = sgx_ofproto_get_vlan_usage_c bridge_id
wrapper_of (ofproto_get_vlan_usage_r bridge_id buf elem) =
    sgx_ofproto_get_vlan_usage_r bridge_id buf elem
wrapper_of (get_cls_rules bridge_id table_id start_index end_index buf buf_size n_rules) =
    sgx_get_cls_rules bridge_id table_id start_index end_index buf buf_size n_rules
wrapper_of
      (get_cls_rules_and_enable_eviction bridge_id table_id start_index end_index buf buf_size
        n_rules fields n_fields random_v no_change is_eviction_fields_enabled) =
    sgx_get_cls_rules_and_enable_eviction bridge_id table_id start_index end_index buf buf_size
      n_rules fields n_fields random_v no_change is_eviction_fields_enabled
wrapper_of
      (eviction_group_add_rules bridge_id table_id n ut_crs evg_nodes rule_priorities
        group_priority) =
    sgx_eviction_group_add_rules bridge_id table_id n ut_crs evg_nodes rule_priorities
      group_priority
wrapper_of (ofproto_get_vlan_usage bridge_id buf_size vlan_buffer start_index end_index n_vlan) =
    sgx_ofproto_get_vlan_usage bridge_id buf_size vlan_buffer start_index end_index n_vlan
wrapper_of (ofproto_flush bridge_id ut_crs hashes buf_size start_index end_index n_rules) =
    sgx_ofproto_flush bridge_id ut_crs hashes buf_size start_index end_index n_rules
wrapper_of
      (ofproto_evict bridge_id ofproto_n_tables start_index hashes ut_crs buf_size n_evictions) =
    sgx_ofproto_evict bridge_id ofproto_n_tables start_index hashes ut_crs buf_size n_evictions
wrapper_of
      (add_flow bridge_id table_id cr victim evict match evict_rule_hash vid vid_mask priority flags
        group_eviction_priority rule_eviction_priority eviction_node pending_deletions n_pending
        has_timeout table_overflow is_rule_modifiable is_rule_overlapping is_deletion_pending
        is_read_only) =
    sgx_add_flow bridge_id table_id cr victim evict match evict_rule_hash vid vid_mask priority
      flags group_eviction_priority rule_eviction_priority eviction_node pending_deletions n_pending
      has_timeout table_overflow is_rule_modifiable is_rule_overlapping is_deletion_pending
      is_read_only
wrapper_of
      (collect_rules_strict bridge_id table_id n_tables match priority rule_is_hidden_buffer
        cls_rule_buffer rule_is_modifiable buffer_size) =
    sgx_collect_rules_strict bridge_id table_id n_tables match priority rule_is_hidden_buffer
      cls_rule_buffer rule_is_modifiable buffer_size
wrapper_of
      (collect_rules_loose bridge_id table_id ofproto_n_tables start_index match
        rule_is_hidden_buffer cls_rule_buffer buffer_size rule_is_modifiable n_rules) =
    sgx_collect_rules_loose bridge_id table_id ofproto_n_tables start_index match
      rule_is_hidden_buffer cls_rule_buffer buffer_size rule_is_modifiable n_rules
wrapper_of
      (delete_flows bridge_id rule_table_ids ut_crs rule_is_hidden rule_hashes rule_priorities match
        n) =
    sgx_delete_flows bridge_id rule_table_ids ut_crs rule_is_hidden rule_hashes rule_priorities
      match n
wrapper_of
      (configure_table bridge_id table_id name max_flows groups n_groups need_to_evict'
        is_read_only) =
    sgx_configure_table bridge_id table_id name max_flows groups n_groups need_to_evict'
      is_read_only
wrapper_of (need_to_evict bridge_id table_id) = sgx_need_to_evict bridge_id table_id
wrapper_of
      (collect_rules_loose_stats_request bridge_id table_id n_tables start_index buffer_size match
        ut_crs matches priorities n_rules) =
    sgx_collect_rules_loose_stats_request bridge_id table_id n_tables start_index buffer_size match
      ut_crs matches priorities n_rules
wrapper_of (ofproto_rule_send_removed bridge_id cr match priority rule_is_hidden) =
    sgx_ofproto_rule_send_removed bridge_id cr match priority rule_is_hidden
wrapper_of (remove_rules bridge_id table_ids ut_crs is_hidden n_rules) =
    sgx_remove_rules bridge_id table_ids ut_crs is_hidden n_rules
wrapper_of (cls_rules_format bridge_id ut_crs megamatches n) =
    sgx_cls_rules_format bridge_id ut_crs megamatches n
wrapper_of (minimatch_expand_and_get_priority bridge_id ut_cr match priority) =
    sgx_minimatch_expand_and_get_priority bridge_id ut_cr match priority
wrapper_of (miniflow_expand_and_tag bridge_id ut_cr flow table_id) =
    sgx_miniflow_expand_and_tag bridge_id ut_cr flow table_id
