-- ===== src/Classifier/Search.antt =====
-- OFTonSGX/trusted/lib/classifier.c: classifier_lookup, the search for an exact twin, and the overlap check.
use ovs_sgx.Prelude.{
  ℕ, Bool, false, ◌&&◌, ◌||◌, Option, none, some, List, [], ◌∷◌, ltb, leb, ◌==◌, if◌then◌else◌,
}
use ovs_sgx.Flow.{
  Flow, Minimask, Wildcards, miniflow_hash_in_minimask, miniflow_equal_in_minimask,
  flow_wildcards_fold_minimask,
}
use ovs_sgx.Flow.Masks.{minimask_combine}
use ovs_sgx.Classifier.Data.{
  Match, ClsRule, Chain, ClsTable, Classifier, minimatch_init, rules_in_list, find_match,
  find_equal, find_table,
}

-- The wildcards are folded only where the caller passes them.
unfoldable pub fold_wc : Option Wildcards → Minimask → Option Wildcards
unfolding flow_wildcards_fold_minimask
fold_wc none mask = none
fold_wc (some wc) mask = some (flow_wildcards_fold_minimask wc mask)

-- The rule of a later table replaces the best one only if its priority is higher.
unfoldable pub better : Option ClsRule → ClsRule → ClsRule
better none best = best
better (some rule) best = if ltb best.priority rule.priority then rule else best

-- The inner loop of classifier_lookup, with the best rule so far.
unfoldable pub lookup_better :
    List ClsTable → Flow → ClsRule → Option Wildcards → ClsRule × Option Wildcards
unfolding better fold_wc
lookup_better [] flow best wc = (best, wc)
lookup_better (t ∷ ts) flow best wc =
    let found = better (find_match t flow) best in
    let rest = lookup_better ts flow found (fold_wc wc t.mask) in
    if leb t.max_priority best.priority then (best, wc) else rest

unfoldable pub lookup_first :
    List ClsTable → Flow → Option Wildcards → Option ClsRule × Option Wildcards
unfolding lookup_better fold_wc
lookup_first [] flow wc = (none, wc)
lookup_first (t ∷ ts) flow wc = elim (find_match t flow) [
  | none ↦ lookup_first ts flow (fold_wc wc t.mask)
  | some rule ↦ let (best, wc') = lookup_better ts flow rule (fold_wc wc t.mask) in (some best, wc')
]

unfoldable pub classifier_lookup :
    Classifier → Flow → Option Wildcards → Option ClsRule × Option Wildcards
unfolding lookup_first
classifier_lookup cls flow wc = lookup_first cls.tables flow wc

-- The scan of classifier_find_rule_exactly.
unfoldable pub exact_in_list : ℕ → Chain → Option ClsRule
exact_in_list priority [] = none
exact_in_list priority (rule ∷ rest) =
    if leb rule.priority priority
    then (if priority == rule.priority then some rule else none)
    else exact_in_list priority rest

unfoldable pub classifier_find_rule_exactly : Classifier → ClsRule → Option ClsRule
unfolding find_table find_equal exact_in_list rules_in_list
classifier_find_rule_exactly cls target = elim (find_table cls target.match.mask) [
  | none ↦ none
  | some place ↦
      if ltb place.table.max_priority target.priority
      then none
      else (let hash = miniflow_hash_in_minimask target.match.flow target.match.mask 0 in
          elim (find_equal place.table target.match.flow hash) [
            | none ↦ none
            | some chain ↦ exact_in_list target.priority (rules_in_list chain)
          ])
]

-- A temporary rule stands for the match.
unfoldable pub classifier_find_match_exactly : Classifier → Match → ℕ → Option ClsRule
unfolding classifier_find_rule_exactly minimatch_init
classifier_find_match_exactly cls target priority =
    classifier_find_rule_exactly cls
      (record { address = 0; hash = 0; match = minimatch_init target; priority = priority })

unfoldable pub overlap_in_list : ClsRule → Minimask → Chain → Bool
overlap_in_list target mask [] = false
overlap_in_list target mask (rule ∷ rest) =
    if ltb rule.priority target.priority
    then false
    else (rule.priority == target.priority
          && miniflow_equal_in_minimask target.match.flow rule.match.flow mask
        || overlap_in_list target mask rest)

unfoldable pub overlap_in_rules : ClsRule → Minimask → List Chain → Bool
unfolding overlap_in_list rules_in_list
overlap_in_rules target mask [] = false
overlap_in_rules target mask (chain ∷ chains) =
    overlap_in_list target mask (rules_in_list chain) || overlap_in_rules target mask chains

unfoldable pub overlap_in_tables : ClsRule → List ClsTable → Bool
unfolding overlap_in_rules
overlap_in_tables target [] = false
overlap_in_tables target (t ∷ ts) =
    if ltb t.max_priority target.priority
    then false
    else (overlap_in_rules target (minimask_combine target.match.mask t.mask) t.rules
        || overlap_in_tables target ts)

unfoldable pub classifier_rule_overlaps : Classifier → ClsRule → Bool
unfolding overlap_in_tables
classifier_rule_overlaps cls target = overlap_in_tables target cls.tables
