-- ===== src/Enclave/Collect.antt =====
-- The handlers of OFTonSGX/trusted that fill a buffer with the rules that a cursor visits:
-- oftable/oftable.c, stats/stats.c, dpif/dpif.c, eviction/eviction.c and ofproto/ofproto.c.
-- A buffer is the list of the values that the loop writes, in order; `none` stands for a null buffer,
-- with which a handler only counts.
pub mod Bounds
use ovs_sgx.Prelude.{
  ℕ, zero, suc, ◌+◌, ◌-◌, ◌%◌, ◌^◌, Bool, true, false, not, ◌&&◌, ◌||◌, Option, none, some, List,
  [], ◌∷◌, ◌++◌, map, ◌==◌, ltb, leb, if◌then◌else◌, length,
}
use ovs_sgx.Classifier.{
  ClsRule, Match, Minimatch, cls_cursor_rules, classifier_find_rule_exactly, minimatch_init,
  minimatch_clone,
}
use ovs_sgx.Enclave.State.{
  Oftable, Bridge, SgxClsRule, M, pure, ◌>>=◌, ◌>>◌, get_table, is_hidden, is_readonly,
}
use ovs_sgx.Enclave.Rules.{ecall_cr_priority, ecall_minimatch_expand}
use ovs_sgx.Enclave.Tables.{matching_tables, ecall_oftable_get_flags}

-- The loop `if (p > elem) return p; buf[p] = ...; p++;`.
unfoldable pub fill : ℕ → ℕ → List ℕ → List ℕ
fill p elem [] = []
fill p elem (x ∷ xs) = if ltb elem p then [] else x ∷ fill (p + 1) elem xs

-- A handler's result: the count that it returns and what it writes.
unfoldable pub collect : Option ℕ → List ℕ → ℕ × List ℕ
unfolding fill
collect none xs = (length xs, [])
collect (some elem) xs = (length (fill 0 elem xs), fill 0 elem xs)

-- `rule->o_cls_rule` of the rules that a cursor visits.
unfoldable pub o_cls_rules : Bridge → List ClsRule → List ℕ
o_cls_rules b [] = []
o_cls_rules b (r ∷ rs) = (b.rule r.address).o_cls_rule ∷ o_cls_rules b rs

-- All the rules of the tables from `i` on, for `rounds` tables, less those that are skipped.
unfoldable pub rules_from : Bridge → (Oftable → Bool) → ℕ → ℕ → List ℕ
unfolding o_cls_rules cls_cursor_rules
rules_from b skip i zero = []
rules_from b skip i (suc rounds) =
    (if skip (b.oftables i) then [] else o_cls_rules b (cls_cursor_rules (b.oftables i).cls none))
    ++ rules_from b skip (i + 1) rounds

unfoldable pub ecall_flow_stats_r : Bridge → Option ℕ → ℕ × List ℕ
unfolding collect rules_from
ecall_flow_stats_r b buf = collect buf (rules_from b (λ _. false) 0 b.n_tables)

unfoldable pub ecall_flow_stats_c : Bridge → ℕ
unfolding ecall_flow_stats_r
ecall_flow_stats_c b = (ecall_flow_stats_r b none).0

unfoldable pub ecall_dpif_destroy_r : Bridge → Option ℕ → ℕ × List ℕ
unfolding collect rules_from
ecall_dpif_destroy_r b buf = collect buf (rules_from b (λ _. false) 0 b.n_tables)

unfoldable pub ecall_dpif_destroy_c : Bridge → ℕ
unfolding ecall_dpif_destroy_r
ecall_dpif_destroy_c b = (ecall_dpif_destroy_r b none).0

unfoldable pub ecall_flush_r : Bridge → Option ℕ → ℕ × List ℕ
unfolding collect rules_from is_hidden
ecall_flush_r b buf = collect buf (rules_from b is_hidden 0 b.n_tables)

unfoldable pub ecall_flush_c : Bridge → ℕ
unfolding ecall_flush_r
ecall_flush_c b = (ecall_flush_r b none).0

unfoldable pub ecall_oftable_enable_eviction_r : Bridge → Option ℕ → ℕ → ℕ × List ℕ
unfolding collect o_cls_rules cls_cursor_rules
ecall_oftable_enable_eviction_r b buf id =
    collect buf (o_cls_rules b (cls_cursor_rules (b.oftables id).cls none))

unfoldable pub ecall_oftable_enable_eviction_c : Bridge → ℕ → ℕ
unfolding ecall_oftable_enable_eviction_r
ecall_oftable_enable_eviction_c b id = (ecall_oftable_enable_eviction_r b none id).0

-- The temporary rule of a request.
abbrev pub request : Minimatch → ℕ → ClsRule
request m priority = record { address = 0; hash = 0; match = m; priority = priority }

-- The rules of the given tables that the request matches loosely.
unfoldable pub loose_rules : Bridge → ClsRule → List ℕ → List ℕ
unfolding o_cls_rules cls_cursor_rules
loose_rules b target [] = []
loose_rules b target (i ∷ ids) =
    o_cls_rules b (cls_cursor_rules (b.oftables i).cls (some target)) ++ loose_rules b target ids

unfoldable pub ecall_collect_rules_loose_r : Bridge → ℕ → Option ℕ → ℕ → Match → ℕ × List ℕ
unfolding collect loose_rules minimatch_init matching_tables
ecall_collect_rules_loose_r b n_tables buf table_id match = collect buf (
    loose_rules b (request (minimatch_init match) 0) (matching_tables b.oftables n_tables table_id))

unfoldable pub ecall_collect_rules_loose_c : Bridge → ℕ → ℕ → Match → ℕ
unfolding ecall_collect_rules_loose_r
ecall_collect_rules_loose_c b n_tables table_id match =
    (ecall_collect_rules_loose_r b n_tables none table_id match).0

unfoldable pub ecall_collect_ofmonitor_util_r : Bridge → ℕ → Option ℕ → ℕ → Minimatch → ℕ × List ℕ
unfolding collect loose_rules minimatch_clone matching_tables
ecall_collect_ofmonitor_util_r b n_tables buf table_id match = collect buf (
    loose_rules b (request (minimatch_clone match) 0)
      (matching_tables b.oftables n_tables table_id))

unfoldable pub ecall_collect_ofmonitor_util_c : Bridge → ℕ → ℕ → Minimatch → ℕ
unfolding ecall_collect_ofmonitor_util_r
ecall_collect_ofmonitor_util_c b n_tables table_id match =
    (ecall_collect_ofmonitor_util_r b n_tables none table_id match).0

-- At most one rule of each table is exactly the request's.
unfoldable pub strict_rules : Bridge → ClsRule → List ℕ → List ℕ
unfolding classifier_find_rule_exactly
strict_rules b target [] = []
strict_rules b target (i ∷ ids) = elim (classifier_find_rule_exactly (b.oftables i).cls target) [
  | none ↦ strict_rules b target ids
  | some r ↦ (b.rule r.address).o_cls_rule ∷ strict_rules b target ids
]

unfoldable pub ecall_collect_rules_strict_r : Bridge → ℕ → Option ℕ → ℕ → Match → ℕ → ℕ × List ℕ
unfolding collect strict_rules minimatch_init matching_tables
ecall_collect_rules_strict_r b n_tables buf table_id match priority = collect buf (
    strict_rules b (request (minimatch_init match) priority)
      (matching_tables b.oftables n_tables table_id))

unfoldable pub ecall_collect_rules_strict_c : Bridge → ℕ → ℕ → Match → ℕ → ℕ
unfolding ecall_collect_rules_strict_r
ecall_collect_rules_strict_c b n_tables table_id match priority =
    (ecall_collect_rules_strict_r b n_tables none table_id match priority).0
