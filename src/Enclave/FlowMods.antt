-- ===== src/Enclave/FlowMods.antt =====
-- OFTonSGX/trusted/oftable/oftable.c and ofproto/ofproto.c: the handlers that add, remove and
-- configure flows, each a sequence of the other handlers.
pub mod Rejected
use ovs_sgx.Prelude.{
  ℕ, Bool, true, false, ◌&&◌, Option, none, some, List, [], ◌∷◌, ◌==◌, ltb, bit_and,
}
use ovs_sgx.Classifier.{ClsRule, Match}
use ovs_sgx.Enclave.State.{Subfield, Oftable, M, pure, ◌>>=◌, ◌>>◌, when, get_rule}
use ovs_sgx.Enclave.Rules.{
  rule_of, ecall_cls_rule_init, ecall_cls_rule_equal, ecall_cls_rule_destroy,
  ecall_cr_rule_overlaps, ecall_cr_priority, ecall_cls_remove, ecall_cls_rule_hash,
  ecall_minimatch_expand, ecall_miniflow_get_vid, ecall_minimask_get_vid_mask,
}
use ovs_sgx.Enclave.Tables.{
  ecall_oftable_is_readonly, ecall_oftable_set_name, ecall_oftable_mflows_set,
  ecall_oftable_classifier_replace, ecall_oftable_cls_count, ecall_oftable_mflows,
}
use ovs_sgx.Enclave.Eviction.{
  ecall_oftable_disable_eviction, ecall_need_to_evict, ecall_evg_remove_rule, ecall_evg_add_rule,
  ecall_is_eviction_fields_enabled, ecall_choose_rule_to_evict_p,
}

-- What ecall_add_flow reports. The error cases are the flags that it sets before it returns; the
-- last case has the rule that was replaced, the rule that was evicted with its hash, whether the
-- table overflowed, and the VLAN id and its mask. `victim_kept` is `*is_rule_modifiable = false`.
pub data AddResult : Type 0 where
  read_only deletion_pending overlapping : AddResult
  victim_kept : ℕ → AddResult
  added : Option ℕ → Option (ℕ × ℕ) → Bool → ℕ → ℕ → AddResult

-- The loop over the pending deletions.
unfoldable pub is_pending : ℕ → List ℕ → M Bool
unfolding ecall_cls_rule_equal
is_pending cr [] = pure false
is_pending cr (p ∷ ps) = do
  same ← ecall_cls_rule_equal cr p
  elim same [ true ↦ pure true | false ↦ is_pending cr ps ]

-- A rule is chosen only if the table has too many; it leaves the table and its group.
unfoldable pub evict_overflow : ℕ → ℕ → M (Bool × Option (ℕ × ℕ))
unfolding ecall_oftable_cls_count ecall_oftable_mflows ecall_choose_rule_to_evict_p ecall_cls_remove
    ecall_evg_remove_rule ecall_cls_rule_hash
evict_overflow id cr = do
  count ← ecall_oftable_cls_count id
  limit ← ecall_oftable_mflows id
  elim (ltb limit count) [
    | false ↦ pure (false, none)
    | true ↦ do
      chosen ← ecall_choose_rule_to_evict_p id cr
      elim chosen [
        | none ↦ pure (true, none)
        | some evict ↦ do
          ecall_cls_remove id evict
          ecall_evg_remove_rule id evict
          hash ← ecall_cls_rule_hash evict id
          pure (true, some (evict, hash))
      ]
  ]

unfoldable pub remove_victim : ℕ → Option ℕ → M (Unit {0})
unfolding ecall_evg_remove_rule
remove_victim id none = pure tt
remove_victim id (some victim) = ecall_evg_remove_rule id victim

-- The end of ecall_add_flow, from the second test of the table's flags on.
unfoldable pub finish_add : ℕ → ℕ → Option ℕ → M AddResult
unfolding ecall_oftable_is_readonly evict_overflow ecall_miniflow_get_vid
    ecall_minimask_get_vid_mask
finish_add id cr victim = do
  readonly ← ecall_oftable_is_readonly id
  elim victim [
    | some v ↦ elim readonly [ true ↦ pure (victim_kept v) | false ↦ rest ]
    | none ↦ rest
  ]
  where
    rest : M AddResult
    rest = do
      (overflow, evicted) ← evict_overflow id cr
      vid ← ecall_miniflow_get_vid cr
      mask ← ecall_minimask_get_vid_mask cr
      pure (added victim evicted overflow vid mask)

module _ (group_hash : Oftable → ClsRule → ℕ) where
  -- The parameters follow the handler: the table, the new rule's untrusted address, its match and
  -- priority, the request's flags, the two eviction priorities, the pending deletions, and whether
  -- the rule has a timeout.
  unfoldable pub ecall_add_flow : ℕ → ℕ → Match → ℕ → ℕ → ℕ → ℕ → List ℕ → Bool → M AddResult
  unfolding ecall_oftable_is_readonly ecall_cls_rule_init is_pending ecall_cls_rule_destroy
      ecall_cr_rule_overlaps ecall_oftable_classifier_replace remove_victim
      ecall_is_eviction_fields_enabled ecall_evg_add_rule finish_add
  ecall_add_flow id cr match priority flags group_priority rule_priority pending has_timeout = do
    readonly ← ecall_oftable_is_readonly id
    elim readonly [
      | true ↦ pure read_only
      | false ↦ do
        ecall_cls_rule_init cr match priority
        deleted ← is_pending cr pending
        elim deleted [
          | true ↦ ecall_cls_rule_destroy cr >> pure deletion_pending
          | false ↦ do
            overlaps ← check_overlap
            elim overlaps [
              | true ↦ ecall_cls_rule_destroy cr >> pure overlapping
              | false ↦ do
                victim ← ecall_oftable_classifier_replace id cr
                remove_victim id victim
                enabled ← ecall_is_eviction_fields_enabled id
                when (enabled && has_timeout)
                    (ecall_evg_add_rule group_hash id cr group_priority rule_priority)
                finish_add id cr victim
            ]
        ]
    ]
    where
      -- OFPFF_CHECK_OVERLAP is bit 1.
      check_overlap : M Bool
      check_overlap = elim (bit_and flags 2 == 0) [
        | true ↦ pure false
        | false ↦ ecall_cr_rule_overlaps id cr
      ]

-- One round of ecall_delete_flows.
pub record Deleted : Type 0 where
  pub rule_is_hidden : Bool
  pub match : Match
  pub priority : ℕ
  pub hash : ℕ

unfoldable pub ecall_delete_flows : List (ℕ × ℕ) → M (List Deleted)
unfolding rule_of ecall_cr_priority ecall_minimatch_expand ecall_cls_rule_hash ecall_cls_remove
    ecall_evg_remove_rule
ecall_delete_flows [] = pure []
ecall_delete_flows ((id, cls_rule) ∷ rest) = do
  a ← rule_of cls_rule
  r ← get_rule a
  let rule = r.o_cls_rule
  priority ← ecall_cr_priority rule
  match ← ecall_minimatch_expand rule
  hash ← ecall_cls_rule_hash rule id
  ecall_cls_remove id rule
  ecall_evg_remove_rule id rule
  more ← ecall_delete_flows rest
  pure (
      record {
        rule_is_hidden = ltb 0xffff priority;
        match = match;
        priority = priority;
        hash = hash;
      }
      ∷ more)

-- Whether each rule was hidden.
unfoldable pub ecall_oftable_remove_rules : List (ℕ × ℕ) → M (List Bool)
unfolding ecall_cr_priority ecall_cls_remove ecall_evg_remove_rule ecall_cls_rule_destroy
ecall_oftable_remove_rules [] = pure []
ecall_oftable_remove_rules ((id, rule) ∷ rest) = do
  priority ← ecall_cr_priority rule
  ecall_cls_remove id rule
  ecall_evg_remove_rule id rule
  ecall_cls_rule_destroy rule
  more ← ecall_oftable_remove_rules rest
  pure (ltb 0xffff priority ∷ more)

-- What ecall_oftable_configure reports: `*is_read_only`, nothing, or `*need_to_evict`.
pub data ConfigureResult : Type 0 where
  is_read_only has_groups : ConfigureResult
  configured : Bool → ConfigureResult

unfoldable pub ecall_oftable_configure :
    ℕ → ℕ → Option (List ℕ) → ℕ → Option (List Subfield) → M ConfigureResult
unfolding ecall_oftable_set_name ecall_oftable_is_readonly ecall_oftable_disable_eviction
    ecall_oftable_mflows_set ecall_need_to_evict
ecall_oftable_configure bridge_id id name max_flows groups = do
  ecall_oftable_set_name bridge_id id name
  readonly ← ecall_oftable_is_readonly id
  elim readonly [
    | true ↦ pure is_read_only
    | false ↦ elim groups [
      | some _ ↦ pure has_groups
      | none ↦ do
        ecall_oftable_disable_eviction id
        ecall_oftable_mflows_set id max_flows
        need ← ecall_need_to_evict id
        pure (configured need)
    ]
  ]

-- `*rule_is_hidden`, and the match and priority of a rule that is not hidden.
unfoldable pub ecall_ofproto_rule_send_removed : ℕ → M (Option (Match × ℕ))
unfolding ecall_cr_priority ecall_minimatch_expand
ecall_ofproto_rule_send_removed cr = do
  pr ← ecall_cr_priority cr
  elim (ltb 0xffff pr) [
    | true ↦ pure none
    | false ↦ do m ← ecall_minimatch_expand cr; pure (some (m, pr))
  ]
