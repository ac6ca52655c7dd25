-- ===== src/Enclave/Examples.antt =====
-- A bridge of two tables, the first with two rules in one group and the second hidden, and the
-- theorems of the handlers at it.
use ovs_sgx.Prelude.{
  ℕ, ◌+◌, ◌-◌, ◌^◌, ◌≤◌, ◌<◌, ◌≡◌, arith, refl, true, none, some, Option, List, map, [], ◌∷◌,
  get_or, take, drop, length, ◌==◌, if◌then◌else◌, false, ltb,
}
use ovs_sgx.Hash.{u32}
use ovs_sgx.Heap.{Heap, heap_remove, heap_change}
use ovs_sgx.Flow.{miniflow_init}
use ovs_sgx.Classifier.{
  classifier_count, ClsRule, Match, Classifier, cls_rule_init, classifier_init, classifier_replace,
  cls_cursor_rules,
}
use ovs_sgx.Enclave.State.{Oftable, Bridge}
use ovs_sgx.Enclave.Rules.Nodes.{Distinct}
use ovs_sgx.Enclave.Rules.Undo.{IsNew}
use ovs_sgx.Enclave.Rules.{
  first_with_hash, grown, sgx_rule_from_ut_cr, ecall_cls_rule_init, ecall_cr_priority,
}
use ovs_sgx.Enclave.Rules.Lookup.{cls_rule_init-lookup}
use ovs_sgx.Enclave.Tables.{oftable_init, matching_tables, matching_from, first_matching_table}
use ovs_sgx.Enclave.Tables.Walk.{visible_from, matching_tables_lem}
use ovs_sgx.Enclave.Collect.{
  o_cls_rules, ecall_flow_stats_r, ecall_flow_stats_c, ecall_flush_r, ecall_flush_c,
  ecall_dpif_destroy_c, ecall_dpif_destroy_r, ecall_oftable_enable_eviction_c,
  ecall_oftable_enable_eviction_r, ecall_collect_rules_loose_r, ecall_collect_rules_loose_c,
  ecall_collect_rules_strict_c, ecall_collect_rules_strict_r,
}
use ovs_sgx.Enclave.Collect.Bounds.{Overruns, collectors-Overruns}
use ovs_sgx.Enclave.Windows.{ecall_oftable_get_cls_rules}
use ovs_sgx.Enclave.Windows.Slices.{take_end, table_rules, get_cls_rules-slice}
use ovs_sgx.Enclave.Eviction.{ecall_choose_rule_to_evict, ecall_need_to_evict}
use ovs_sgx.Enclave.Run.{Ends}
use ovs_sgx.Enclave.Evict.{as_int, evict_rounds, ecall_ofproto_evict}
use ovs_sgx.Enclave.Evict.Limits.{Stops, evict_rounds-Stops}
use ovs_sgx.Enclave.Eviction.Choice.{IsChoice, groups, choose_rule_to_evict-IsChoice}
use ovs_sgx.Prelude.{Bool}
use ovs_sgx.Classifier.{cls_rule_equal, classifier_rule_overlaps}
use ovs_sgx.Flow.{miniflow_equal_in_minimask}
use ovs_sgx.Flow.Masks.{minimask_combine}
use ovs_sgx.Enclave.Eviction.{ecall_choose_rule_to_evict_p}
use ovs_sgx.Enclave.Eviction.Replacer.{immune, choose_rule_to_evict_p-IsChoice}
use ovs_sgx.Enclave.FlowMods.{
  AddResult, read_only, deletion_pending, overlapping, victim_kept, added, ecall_add_flow,
}
use ovs_sgx.Enclave.FlowMods.Rejected.{IsTraceless, add_flow-IsTraceless}

-- A flow of two words, with a mask of the first.
abbrev request : ℕ → Match
request w = record { flow = w ∷ 0 ∷ []; wc = 0xffffffff ∷ 0 ∷ [] }

abbrev trusted : ℕ → ℕ → ℕ → ClsRule
trusted address w priority =
    cls_rule_init
      (record {
        address = address;
        hash = 0;
        match = record { flow = miniflow_init []; mask = miniflow_init [] };
        priority = 0;
      })
      (request w) priority

abbrev cls : Classifier
cls =
    (classifier_replace (classifier_replace classifier_init (trusted 1 7 10)).0 (trusted 2 9 20)).0

-- The heap with one node.
abbrev one_node : ℕ → Heap
one_node a = record {
  array = λ i. get_or (0 ∷ a ∷ []) i 0;
  n = 1;
  allocated = 1;
  idx = λ x. if x == a then 1 else 0;
  priority = λ _. 0;
}

-- The heap with nodes 1 and 2.
abbrev two_nodes : Heap
two_nodes = record {
  array = λ i. get_or (0 ∷ 1 ∷ 2 ∷ []) i 0;
  n = 2;
  allocated = 3;
  idx = λ x. x;
  priority = λ _. 0;
}

abbrev table_0 : Oftable
table_0 = record oftable_init {
  cls = cls;
  eviction_fields = some [];
  groups_by_id = (55, 30) ∷ [];
  groups_by_size = one_node 30;
}

abbrev table_1 : Oftable
table_1 = record oftable_init { flags = 1 }

-- The untrusted address of the rule at `a` is `1000 + a`; rule 1 is immune.
abbrev bridge : Bridge
bridge = record {
  n_tables = 2;
  oftables = λ i. if i == 0 then table_0 else table_1;
  cls_rules = (u32 1001, 1) ∷ (u32 1002, 2) ∷ [];
  cls_mask = 3;
  rule = λ a. record {
    o_cls_rule = 1000 + a;
    cls_rule = if a == 1 then trusted 1 7 10 else trusted 2 9 20;
    evict_group = some 30;
    evictable = if a == 1 then false else true;
  };
  group = λ _. two_nodes;
  fresh = 40;
  random = λ _. 0;
  drawn = 0;
}

rules-table_0 : table_rules bridge 0 ≡ 1001 ∷ 1002 ∷ []
unfolding cls_rule_init classifier_replace classifier_init cls_cursor_rules oftable_init o_cls_rules
rules-table_0 = refl

cls_rule_init-lookup_example :
    (b' : Bridge) × (ecall_cls_rule_init 1003 (request 11) 30 bridge ≡ some (tt, b'))
    × ((x : ℕ)
        → sgx_rule_from_ut_cr x b'
          ≡ (if u32 1003 == u32 x then some bridge.fresh else sgx_rule_from_ut_cr x bridge))
    × Distinct b'.cls_rules
    × ((b'.rule bridge.fresh).o_cls_rule ≡ 1003)
    × (ecall_cr_priority 1003 b' ≡ some (30, b'))
    × ((b'.rule bridge.fresh).evictable ≡ true)
    × ((b'.rule bridge.fresh).evict_group ≡ none)
unfolding sgx_rule_from_ut_cr first_with_hash
cls_rule_init-lookup_example =
    cls_rule_init-lookup bridge 1003 (request 11) 30 (refl, (refl, tt)) refl

-- Where the second rule of a map has the low 32 bits of the first, the map is expanded and the first
-- still answers.
abbrev one_rule : Bridge
one_rule = record bridge { cls_rules = (1003, 1) ∷ []; cls_mask = 0 }

abbrev answer : Option (Unit {0} × Bridge) → Option ℕ
answer none = none
answer (some (x, b)) = sgx_rule_from_ut_cr (2 ^ 32 + 1003) b

first_rule_answers : answer (ecall_cls_rule_init (2 ^ 32 + 1003) (request 11) 30 one_rule) ≡ some 1
unfolding ecall_cls_rule_init grown sgx_rule_from_ut_cr
first_rule_answers = refl

matching_tables_example :
    (matching_from 9 bridge.oftables 2 0xff (first_matching_table bridge.oftables 2 0xff)
      ≡ matching_tables bridge.oftables 2 0xff)
    × (matching_tables bridge.oftables 2 0xff ≡ (
        if 0xff == 0xff
        then visible_from bridge.oftables 0 2
        else if ltb 0xff 2
        then 0xff ∷ []
        else []))
matching_tables_example = matching_tables_lem bridge.oftables 2 0xff 9 (omega arith) (omega arith)

get_cls_rules-slice_example :
    ((ecall_oftable_get_cls_rules bridge 0 1 none 5).0
      ≡ take 5 (drop 1 (take_end none (table_rules bridge 0))))
    × ((ecall_oftable_get_cls_rules bridge 0 1 none 5).1 ≡ length (table_rules bridge 0))
get_cls_rules-slice_example = get_cls_rules-slice bridge 0 1 none 5

choose_rule_to_evict-IsChoice_example :
    (o : Option ℕ) × (ecall_choose_rule_to_evict 0 bridge ≡ some (o, bridge))
    × IsChoice bridge (groups bridge 0) o
choose_rule_to_evict-IsChoice_example = choose_rule_to_evict-IsChoice bridge 0 refl

evict_rounds-Stops_example :
    Ends (Stops 0 3) (evict_rounds 4 (2 ^ 31 + 2) (2 ^ 31 - 1) 0 bridge)
    × ((2 ^ 32 - 1 < 2 ^ 31) → 3 ≡ 2 - (2 ^ 32 - 1))
    × ((2 ^ 31 ≤ 2 ^ 32 - 1) → (2 < 3) × (ecall_need_to_evict 0 bridge ≡ some (false, bridge)))
unfolding cls_rule_init classifier_replace classifier_init classifier_count oftable_init as_int
evict_rounds-Stops_example = evict_rounds-Stops bridge 0 [] refl (omega arith) (omega arith)

-- The table has no limit and no rule too many, and its one evictable rule is evicted all the same.
abbrev batch : Option (List ℕ × ℕ × ℕ)
batch = elim (ecall_ofproto_evict (λ _ _. 55) 1 0 bridge) [
  | none ↦ none
  | some ((evicted, n, total), _) ↦ some (map (λ e. e.rule) evicted, n, total)
]

batch-evicted : batch ≡ some (1002 ∷ [], 1, 3)
unfolding ecall_ofproto_evict cls_rule_init classifier_replace classifier_init oftable_init
    heap_remove heap_change
batch-evicted = refl

collectors-Overruns_example :
    Overruns 1 (ecall_flow_stats_c bridge) (ecall_flow_stats_r bridge (some 1))
    × Overruns 1 (ecall_dpif_destroy_c bridge) (ecall_dpif_destroy_r bridge (some 1))
    × Overruns 1 (ecall_flush_c bridge) (ecall_flush_r bridge (some 1))
    × Overruns 1
        (ecall_oftable_enable_eviction_c bridge 0)
        (ecall_oftable_enable_eviction_r bridge (some 1) 0)
    × Overruns 1
        (ecall_collect_rules_loose_c bridge 2 0xff (request 7))
        (ecall_collect_rules_loose_r bridge 2 (some 1) 0xff (request 7))
    × Overruns 1
        (ecall_collect_rules_strict_c bridge 2 0xff (request 7) 10)
        (ecall_collect_rules_strict_r bridge 2 (some 1) 0xff (request 7) 10)
collectors-Overruns_example = collectors-Overruns bridge 1 0 2 0xff 10 (request 7)

abbrev chosen : (o : Option (Option ℕ × Bridge)) → Option ℕ
chosen none = none
chosen (some (o, b)) = o

evict-rule_2 : chosen (ecall_choose_rule_to_evict 0 bridge) ≡ some 1002
unfolding ecall_choose_rule_to_evict oftable_init
evict-rule_2 = refl

choose_rule_to_evict_p-IsChoice_example :
    (o : Option ℕ) × (b' : Bridge) × (ecall_choose_rule_to_evict_p 0 1002 bridge ≡ some (o, b'))
    × IsChoice (immune bridge 2) (groups bridge 0) o
    × ((x : ℕ) → b'.rule x ≡ bridge.rule x)
unfolding sgx_rule_from_ut_cr
choose_rule_to_evict_p-IsChoice_example = choose_rule_to_evict_p-IsChoice bridge 0 1002 2 refl refl

abbrev one_group : Oftable → ClsRule → ℕ
one_group t r = 55

abbrev is_overlapping : Option (AddResult × Bridge) → Bool
is_overlapping none = false
is_overlapping (some (r, b)) = elim r [
  | read_only ↦ false
  | deletion_pending ↦ false
  | overlapping ↦ true
  | victim_kept v ↦ false
  | added v e o i m ↦ false
]

-- A flow that overlaps rule 1.
add_overlapping :
    is_overlapping (ecall_add_flow one_group 0 1003 (request 7) 10 2 0 0 (1002 ∷ []) true bridge)
    ≡ true
unfolding ecall_add_flow oftable_init cls_rule_equal classifier_rule_overlaps
    miniflow_equal_in_minimask minimask_combine
add_overlapping = refl

bridge-IsNew : IsNew bridge 1003
unfolding sgx_rule_from_ut_cr first_with_hash
bridge-IsNew = record {
  distinct = (refl, (refl, tt));
  missing = refl;
  unused = ((λ e. omega arith), ((λ e. omega arith), tt));
}

add_flow-IsTraceless_example :
    IsTraceless bridge
      (ecall_add_flow one_group 0 1003 (request 7) 10 2 0 0 (1002 ∷ []) true bridge)
add_flow-IsTraceless_example =
    add_flow-IsTraceless one_group bridge 0 1003 (request 7) 10 2 0 0 (1002 ∷ []) true bridge-IsNew
