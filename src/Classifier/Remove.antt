-- ===== src/Classifier/Remove.antt =====
-- OFTonSGX/trusted/lib/classifier.c: classifier_remove and what it calls.
use ovs_sgx.Prelude.{
  ℕ, ◌+◌, ◌-◌, ◌%◌, ◌^◌, Option, none, some, List, [], ◌∷◌, ltb, leb, ◌==◌, if◌then◌else◌,
}
use ovs_sgx.Classifier.Data.{ClsRule, Chain, ClsTable, Classifier, Place, find_table, rev_onto}

-- list_remove: the rule leaves its chain, wherever it stands; an empty chain leaves the map.
unfoldable pub remove_from_chain : ℕ → Chain → Chain
remove_from_chain address [] = []
remove_from_chain address (r ∷ rest) =
    if r.address == address then rest else r ∷ remove_from_chain address rest

unfoldable pub remove_from_rules : ℕ → List Chain → List Chain
unfolding remove_from_chain
remove_from_rules address [] = []
remove_from_rules address (chain ∷ chains) = elim (remove_from_chain address chain) [
  | [] ↦ remove_from_rules address chains
  | r ∷ rest ↦ (r ∷ rest) ∷ remove_from_rules address chains
]

-- The loop over the heads that finds the new greatest priority and its count.
unfoldable pub recount : List Chain → ℕ → ℕ → ℕ × ℕ
recount [] top count = (top, count)
recount ([] ∷ chains) top count = recount chains top count
recount ((head ∷ rest) ∷ chains) top count =
    if ltb top head.priority
    then recount chains head.priority 1
    else recount chains top (if head.priority == top then (count + 1) % 2 ^ 32 else count)

-- LIST_FOR_EACH_CONTINUE of update_tables_after_removal: `table` is put just before the next table
-- whose priority is as low, or at the back.
unfoldable pub move_later : ClsTable → List ClsTable → List ClsTable
move_later table [] = table ∷ []
move_later table (iter ∷ after) =
    if leb iter.max_priority table.max_priority
    then table ∷ iter ∷ after
    else iter ∷ move_later table after

unfoldable pub update_tables_after_removal : Place → ℕ → List ClsTable
unfolding recount move_later rev_onto
update_tables_after_removal place del_priority =
    let t = place.table in
    let count = (t.max_count + 2 ^ 32 - 1) % 2 ^ 32 in
    if del_priority == t.max_priority
    then (if count == 0
        then (let (top, count') = recount t.rules 0 0 in
            rev_onto place.before
              (move_later (record t { max_priority = top; max_count = count' }) place.after))
        else rev_onto place.before (record t { max_count = count } ∷ place.after))
    else rev_onto place.before (t ∷ place.after)

-- destroy_table takes the table out of both containers.
unfoldable pub classifier_remove : Classifier → ClsRule → Option Classifier
unfolding find_table remove_from_rules update_tables_after_removal rev_onto
classifier_remove cls rule = elim (find_table cls rule.match.mask) [
  | none ↦ none
  | some place ↦
      let t = record place.table {
        rules = remove_from_rules rule.address place.table.rules;
        n_table_rules = place.table.n_table_rules - 1;
      } in
      some (record {
        n_rules = cls.n_rules - 1;
        tables =
            if place.table.n_table_rules == 1
            then rev_onto place.before place.after
            else update_tables_after_removal (record place { table = t }) rule.priority;
      })
]
