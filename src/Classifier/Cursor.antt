-- ===== src/Classifier/Cursor.antt =====
-- OFTonSGX/trusted/lib/classifier.c: loose matches and the cursor over the rules of a classifier.
use ovs_sgx.Prelude.{Bool, true, not, ◌&&◌, Option, none, some, List, [], ◌∷◌, ◌++◌, if◌then◌else◌}
use ovs_sgx.Flow.{miniflow_equal_in_minimask}
use ovs_sgx.Flow.Masks.{minimask_has_extra}
use ovs_sgx.Classifier.Data.{
  Minimatch, ClsRule, Chain, ClsTable, Classifier, rules_in_list, cls_rule_is_catchall,
}

unfoldable pub cls_rule_is_loose_match : ClsRule → Minimatch → Bool
cls_rule_is_loose_match rule criteria =
    not (minimask_has_extra rule.match.mask criteria.mask)
    && miniflow_equal_in_minimask rule.match.flow criteria.flow criteria.mask

-- cls_cursor_init drops a target that matches everything.
unfoldable pub cls_cursor_init : Option ClsRule → Option ClsRule
unfolding cls_rule_is_catchall
cls_cursor_init none = none
cls_cursor_init (some target) = if cls_rule_is_catchall target then none else some target

unfoldable pub rule_matches : ClsRule → Option ClsRule → Bool
rule_matches rule none = true
rule_matches rule (some target) =
    miniflow_equal_in_minimask rule.match.flow target.match.flow target.match.mask

-- search_table skips a table whose mask has extra wildcards.
unfoldable pub searches_table : ClsTable → Option ClsRule → Bool
searches_table table none = true
searches_table table (some target) = not (minimask_has_extra table.mask target.match.mask)

unfoldable pub cursor_in_rules : Option ClsRule → List Chain → List ClsRule
unfolding rule_matches rules_in_list
cursor_in_rules target [] = []
cursor_in_rules target ([] ∷ chains) = cursor_in_rules target chains
cursor_in_rules target ((head ∷ rest) ∷ chains) =
    if rule_matches head target
    then rules_in_list (head ∷ rest) ++ cursor_in_rules target chains
    else cursor_in_rules target chains

unfoldable pub cursor_in_tables : Option ClsRule → List ClsTable → List ClsRule
unfolding cursor_in_rules searches_table
cursor_in_tables target [] = []
cursor_in_tables target (t ∷ ts) =
    if searches_table t target
    then cursor_in_rules target t.rules ++ cursor_in_tables target ts
    else cursor_in_tables target ts

-- The rules that CLS_CURSOR_FOR_EACH visits, in order.
unfoldable pub cls_cursor_rules : Classifier → Option ClsRule → List ClsRule
unfolding cursor_in_tables cls_cursor_init
cls_cursor_rules cls target = cursor_in_tables (cls_cursor_init target) cls.tables
