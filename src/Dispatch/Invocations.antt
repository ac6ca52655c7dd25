-- ===== src/Dispatch/Invocations.antt =====
-- The calls that the switch can make by the wrappers of OFTonSGX/untrusted/app.c, with their arguments.
use ovs_sgx.Prelude.{ℕ}

pub data Invocation : Type 0 where
  readonly_set : (bridge_id table_id : ℕ) → Invocation
  istable_readonly : (bridge_id table_id : ℕ) → Invocation
  cls_rule_init : (bridge_id o_cls_rule match priority : ℕ) → Invocation
  cr_rule_overlaps : (bridge_id table_id ut_cr : ℕ) → Invocation
  cls_rule_destroy : (bridge_id ut_cr : ℕ) → Invocation
  cls_rule_hash : (bridge_id ut_cr basis : ℕ) → Invocation
  cls_rule_equal : (bridge_id ut_cr_a ut_cr_b : ℕ) → Invocation
  classifier_replace : (bridge_id table_id ut_cr_insert ut_cr_remove : ℕ) → Invocation
  rule_get_flags : (bridge_id table_id : ℕ) → Invocation
  cls_count : (bridge_id table_id : ℕ) → Invocation
  eviction_fields_enable : (bridge_id table_id : ℕ) → Invocation
  evg_add_rule :
      (bridge_id table_id ut_cr priority rule_evict_prioriy rule_evg_node : ℕ) → Invocation
  evg_remove_rule : (bridge_id table_id ut_cr : ℕ) → Invocation
  cls_remove : (bridge_id table_id ut_cr : ℕ) → Invocation
  choose_rule_to_evict : (bridge_id table_id ut_cr_victim : ℕ) → Invocation
  choose_rule_to_evict_p : (bridge_id table_id ut_cr_victim ut_cr_replacer : ℕ) → Invocation
  table_mflows : (bridge_id table_id : ℕ) → Invocation
  table_mflows_set : (bridge_id table_id new_value : ℕ) → Invocation
  minimatch_expand : (bridge_id ut_cr dst : ℕ) → Invocation
  cr_priority : (bridge_id ut_cr : ℕ) → Invocation
  cls_find_match_exactly : (bridge_id table_id target priority ut_cr : ℕ) → Invocation
  collect_rules_loose_c : (bridge_id ofproto_n_tables table_id match : ℕ) → Invocation
  collect_rules_loose_r : (bridge_id ofproto_n_tables buf elem table_id match : ℕ) → Invocation
  collect_rules_strict_c : (bridge_id ofproto_n_tables table_id match priority : ℕ) → Invocation
  collect_rules_strict_r :
      (bridge_id ofproto_n_tables buf elem table_id match priority : ℕ) → Invocation
  oftable_enable_eviction_c : (bridge_id table_id : ℕ) → Invocation
  oftable_enable_eviction_r : (bridge_id buf elem table_id : ℕ) → Invocation
  collect_ofmonitor_util_c : (bridge_id ofproto_n_tables table_id match : ℕ) → Invocation
  collect_ofmonitor_util_r : (bridge_id ofproto_n_tables buf elem table_id match : ℕ) → Invocation
  oftable_enable_eviction : (bridge_id table_id fields n_fields random_v no_change : ℕ) → Invocation
  oftable_disable_eviction : (bridge_id table_id : ℕ) → Invocation
  ofproto_destroy : (bridge_id : ℕ) → Invocation
  total_rules : (bridge_id : ℕ) → Invocation
  table_name : (bridge_id table_id buf len : ℕ) → Invocation
  cls_rule_is_loose_match : (bridge_id ut_cr criteria : ℕ) → Invocation
  flush_c : (bridge_id : ℕ) → Invocation
  flush_r : (bridge_id buf elem : ℕ) → Invocation
  flow_stats_c : (bridge_id : ℕ) → Invocation
  flow_stats_r : (bridge_id buf elem : ℕ) → Invocation
  cls_lookup : (bridge_id ut_cr table_id flow wc : ℕ) → Invocation
  dpif_destroy_c : (bridge_id : ℕ) → Invocation
  dpif_destroy_r : (bridge_id buf elem : ℕ) → Invocation
  cls_rule_format : (bridge_id ut_cr megamatch : ℕ) → Invocation
  miniflow_expand : (bridge_id ut_cr flow : ℕ) → Invocation
  rule_calculate_tag : (bridge_id ut_cr flow table_id : ℕ) → Invocation
  table_update_taggable : (bridge_id table_id : ℕ) → Invocation
  is_sgx_other_table : (bridge_id table_id : ℕ) → Invocation
  rule_calculate_tag_s : (bridge_id table_id flow : ℕ) → Invocation
  oftable_check_hidden : (bridge_id : ℕ) → Invocation
  oftable_set_name : (bridge_id table_id name : ℕ) → Invocation
  minimask_get_vid_mask : (bridge_id ut_cr : ℕ) → Invocation
  miniflow_get_vid : (bridge_id ut_cr : ℕ) → Invocation
  ofproto_get_vlan_usage_c : (bridge_id : ℕ) → Invocation
  ofproto_get_vlan_usage_r : (bridge_id buf elem : ℕ) → Invocation
  get_cls_rules : (bridge_id table_id start_index end_index buf buf_size n_rules : ℕ) → Invocation
  get_cls_rules_and_enable_eviction :
      (bridge_id table_id start_index end_index buf buf_size n_rules fields n_fields random_v
        no_change is_eviction_fields_enabled : ℕ)
      → Invocation
  eviction_group_add_rules :
      (bridge_id table_id n ut_crs evg_nodes rule_priorities group_priority : ℕ) → Invocation
  ofproto_get_vlan_usage :
      (bridge_id buf_size vlan_buffer start_index end_index n_vlan : ℕ) → Invocation
  ofproto_flush : (bridge_id ut_crs hashes buf_size start_index end_index n_rules : ℕ) → Invocation
  ofproto_evict :
      (bridge_id ofproto_n_tables start_index hashes ut_crs buf_size n_evictions : ℕ) → Invocation
  add_flow :
      (bridge_id table_id cr victim evict match evict_rule_hash vid vid_mask priority flags
        group_eviction_priority rule_eviction_priority eviction_node pending_deletions n_pending
        has_timeout table_overflow is_rule_modifiable is_rule_overlapping is_deletion_pending
        is_read_only : ℕ)
      → Invocation
  collect_rules_strict :
      (bridge_id table_id n_tables match priority rule_is_hidden_buffer cls_rule_buffer
        rule_is_modifiable buffer_size : ℕ)
      → Invocation
  collect_rules_loose :
      (bridge_id table_id ofproto_n_tables start_index match rule_is_hidden_buffer cls_rule_buffer
        buffer_size rule_is_modifiable n_rules : ℕ)
      → Invocation
  delete_flows :
      (bridge_id rule_table_ids ut_crs rule_is_hidden rule_hashes rule_priorities match n : ℕ)
      → Invocation
  configure_table :
      (bridge_id table_id name max_flows groups n_groups need_to_evict is_read_only : ℕ)
      → Invocation
  need_to_evict : (bridge_id table_id : ℕ) → Invocation
  collect_rules_loose_stats_request :
      (bridge_id table_id n_tables start_index buffer_size match ut_crs matches priorities
        n_rules : ℕ)
      → Invocation
  ofproto_rule_send_removed : (bridge_id cr match priority rule_is_hidden : ℕ) → Invocation
  remove_rules : (bridge_id table_ids ut_crs is_hidden n_rules : ℕ) → Invocation
  cls_rules_format : (bridge_id ut_crs megamatches n : ℕ) → Invocation
  minimatch_expand_and_get_priority : (bridge_id ut_cr match priority : ℕ) → Invocation
  miniflow_expand_and_tag : (bridge_id ut_cr flow table_id : ℕ) → Invocation
