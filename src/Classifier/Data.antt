-- ===== src/Classifier/Data.antt =====
-- OFTonSGX/trusted/lib/classifier.h, match.c and the rules, chains and searches of classifier.c. A null dereference
-- is `none`. A rule's `address` tells pointers apart.
use ovs_sgx.Prelude.{ℕ, Bool, ◌&&◌, Option, none, some, List, [], ◌∷◌, ltb, ◌==◌, if◌then◌else◌}
use ovs_sgx.Hash.{hash_int}
use ovs_sgx.Flow.{
  Flow, Miniflow, Minimask, Wildcards, miniflow_init, minimask_init, miniflow_clone, miniflow_equal,
  minimask_equal, miniflow_hash, minimask_hash, flow_hash_in_minimask,
  miniflow_equal_flow_in_minimask, miniflow_expand, minimask_expand, flow_u32s,
}
use ovs_sgx.Flow.Masks.{minimask_is_catchall}

-- `struct match`: a flow and its wildcards.
pub record Match : Type 0 where
  pub flow : Flow
  pub wc : Wildcards

pub record Minimatch : Type 0 where
  pub flow : Miniflow
  pub mask : Minimask

-- `struct cls_rule`; `hash` is `hmap_node.hash`.
pub record ClsRule : Type 0 where
  pub address : ℕ
  pub hash : ℕ
  pub match : Minimatch
  pub priority : ℕ

abbrev pub Chain : Type 0
Chain = List ClsRule

pub record ClsTable : Type 0 where
  pub rules : List Chain
  pub mask : Minimask
  pub n_table_rules : ℕ
  pub max_priority : ℕ
  pub max_count : ℕ

pub record Classifier : Type 0 where
  pub n_rules : ℕ
  pub tables : List ClsTable

unfoldable pub minimatch_init : Match → Minimatch
unfolding miniflow_init minimask_init
minimatch_init src = record { flow = miniflow_init src.flow; mask = minimask_init src.wc }

unfoldable pub minimatch_clone : Minimatch → Minimatch
unfolding miniflow_clone
minimatch_clone src = record { flow = miniflow_clone src.flow; mask = miniflow_clone src.mask }

unfoldable pub minimatch_expand : Minimatch → Match
unfolding miniflow_expand minimask_expand
minimatch_expand src = record {
  flow = miniflow_expand flow_u32s src.flow;
  wc = minimask_expand flow_u32s src.mask;
}

unfoldable pub minimatch_equal : Minimatch → Minimatch → Bool
unfolding miniflow_equal minimask_equal
minimatch_equal a b = miniflow_equal a.flow b.flow && minimask_equal a.mask b.mask

unfoldable pub minimatch_hash : Minimatch → ℕ → ℕ
unfolding miniflow_hash minimask_hash
minimatch_hash m basis = miniflow_hash m.flow (minimask_hash m.mask basis)

unfoldable pub cls_rule_init : ClsRule → Match → ℕ → ClsRule
unfolding minimatch_init
cls_rule_init rule m priority = record rule { match = minimatch_init m; priority = priority }

unfoldable pub cls_rule_init_from_minimatch : ClsRule → Minimatch → ℕ → ClsRule
unfolding minimatch_clone
cls_rule_init_from_minimatch rule m priority = record rule {
  match = minimatch_clone m;
  priority = priority;
}

unfoldable pub cls_rule_equal : ClsRule → ClsRule → Bool
unfolding minimatch_equal
cls_rule_equal a b = a.priority == b.priority && minimatch_equal a.match b.match

unfoldable pub cls_rule_hash : ClsRule → ℕ → ℕ
unfolding minimatch_hash hash_int
cls_rule_hash rule basis = minimatch_hash rule.match (hash_int rule.priority basis)

unfoldable pub cls_rule_is_catchall : ClsRule → Bool
unfolding minimask_is_catchall
cls_rule_is_catchall rule = minimask_is_catchall rule.match.mask

unfoldable pub classifier_init : Classifier
classifier_init = record { n_rules = 0; tables = [] }

unfoldable pub classifier_is_empty : Classifier → Bool
classifier_is_empty cls = cls.n_rules == 0

unfoldable pub classifier_count : Classifier → ℕ
classifier_count cls = cls.n_rules

-- The rules that FOR_EACH_RULE_IN_LIST visits: next_rule_in_list stops where the priority does not
-- fall, as it does when the circular list comes round to its head.
unfoldable pub rules_in_list : Chain → Chain
rules_in_list [] = []
rules_in_list (r ∷ []) = r ∷ []
rules_in_list (r ∷ s ∷ rest) =
    if ltb s.priority r.priority then r ∷ rules_in_list (s ∷ rest) else r ∷ []

-- The first chain whose head passes a test.
unfoldable pub find_chain : (ClsRule → Bool) → List Chain → Option Chain
find_chain test [] = none
find_chain test ([] ∷ chains) = find_chain test chains
find_chain test ((head ∷ rest) ∷ chains) =
    if test head then some (head ∷ rest) else find_chain test chains

unfoldable pub head_of : Option Chain → Option ClsRule
head_of none = none
head_of (some []) = none
head_of (some (head ∷ rest)) = some head

unfoldable pub find_match : ClsTable → Flow → Option ClsRule
unfolding find_chain head_of flow_hash_in_minimask miniflow_equal_flow_in_minimask
find_match table flow =
    let hash = flow_hash_in_minimask flow table.mask 0 in
    head_of (
      find_chain
        (λ rule.
          rule.hash == hash && miniflow_equal_flow_in_minimask rule.match.flow flow table.mask)
        table.rules)

-- The test of find_equal.
unfoldable pub is_equal : Miniflow → ℕ → ClsRule → Bool
unfolding miniflow_equal
is_equal flow hash head = head.hash == hash && miniflow_equal head.match.flow flow

unfoldable pub find_equal : ClsTable → Miniflow → ℕ → Option Chain
unfolding find_chain is_equal
find_equal table flow hash = find_chain (is_equal flow hash) table.rules

-- A table, with the tables before it, the nearest first, and those after it.
pub record Place : Type 0 where
  pub before : List ClsTable
  pub table : ClsTable
  pub after : List ClsTable

-- The bucket of the mask's hash holds every table with that mask.
unfoldable pub find_table_from : List ClsTable → Minimask → List ClsTable → Option Place
find_table_from before mask [] = none
find_table_from before mask (t ∷ ts) =
    if minimask_equal mask t.mask
    then some (record { before = before; table = t; after = ts })
    else find_table_from (t ∷ before) mask ts

unfoldable pub find_table : Classifier → Minimask → Option Place
unfolding find_table_from minimask_equal
find_table cls mask = find_table_from [] mask cls.tables

unfoldable pub rev_onto : List ClsTable → List ClsTable → List ClsTable
rev_onto [] ts = ts
rev_onto (b ∷ bs) ts = rev_onto bs (b ∷ ts)
