-- ===== src/Classifier/Insert.antt =====
-- OFTonSGX/trusted/lib/classifier.c: classifier_replace and what it calls.
use ovs_sgx.Prelude.{
  ℕ, ◌+◌, ◌%◌, ◌^◌, Option, none, some, List, [], ◌∷◌, ◌++◌, ltb, leb, ◌==◌, if◌then◌else◌,
}
use ovs_sgx.Flow.{Minimask, miniflow_clone, miniflow_hash_in_minimask}
use ovs_sgx.Classifier.Data.{
  ClsRule, Chain, ClsTable, Classifier, Place, is_equal, find_table, rev_onto,
}

-- insert_table: a zeroed table at the back of the list.
unfoldable pub insert_table : Classifier → Minimask → Place
unfolding rev_onto miniflow_clone
insert_table cls mask = record {
  before = rev_onto cls.tables [];
  table = record {
    rules = [];
    mask = miniflow_clone mask;
    n_table_rules = 0;
    max_priority = 0;
    max_count = 0;
  };
  after = [];
}

-- The scan of insert_rule along the chain of the new rule's twins, with the rule that is replaced.
-- Where no rule of the list has a priority as low, the new rule goes to the end of the chain.
unfoldable pub insert_in_chain : ClsRule → Chain → Chain × Option ClsRule
insert_in_chain new [] = (new ∷ [], none)
insert_in_chain new (rule ∷ []) =
    if leb rule.priority new.priority
    then (if new.priority == rule.priority then (new ∷ [], some rule) else (new ∷ rule ∷ [], none))
    else (rule ∷ new ∷ [], none)
insert_in_chain new (rule ∷ next ∷ rest) =
    if leb rule.priority new.priority
    then (if new.priority == rule.priority
        then (new ∷ next ∷ rest, some rule)
        else (new ∷ rule ∷ next ∷ rest, none))
    else (let (chain, old) = insert_in_chain new (next ∷ rest) in
        if ltb next.priority rule.priority
        then (rule ∷ chain, old)
        else (rule ∷ next ∷ rest ++ new ∷ [], none))

-- The chain that find_equal found is replaced; a new one goes to the end.
unfoldable pub insert_in_rules : ClsRule → List Chain → List Chain × Option ClsRule
unfolding insert_in_chain is_equal
insert_in_rules new [] = ((new ∷ []) ∷ [], none)
insert_in_rules new ([] ∷ chains) = let (cs, old) = insert_in_rules new chains in ([] ∷ cs, old)
insert_in_rules new ((head ∷ rest) ∷ chains) =
    let (chain, replaced) = insert_in_chain new (head ∷ rest) in
    let (cs, old) = insert_in_rules new chains in
    if is_equal new.match.flow new.hash head
    then (chain ∷ chains, replaced)
    else ((head ∷ rest) ∷ cs, old)

-- LIST_FOR_EACH_REVERSE_CONTINUE of update_tables_after_insertion: `table` is put just after the
-- nearest table before it whose priority is as high, or in front.
unfoldable pub move_earlier : ClsTable → List ClsTable → List ClsTable → List ClsTable
unfolding rev_onto
move_earlier table [] after = table ∷ after
move_earlier table (iter ∷ before) after =
    if leb table.max_priority iter.max_priority
    then rev_onto before (iter ∷ table ∷ after)
    else move_earlier table before (iter ∷ after)

unfoldable pub update_tables_after_insertion : Place → ℕ → List ClsTable
unfolding move_earlier rev_onto
update_tables_after_insertion place new_priority =
    let t = place.table in
    if new_priority == t.max_priority
    then rev_onto place.before (record t { max_count = (t.max_count + 1) % 2 ^ 32 } ∷ place.after)
    else if ltb t.max_priority new_priority
    then move_earlier (record t { max_priority = new_priority; max_count = 1 }) place.before
        place.after
    else rev_onto place.before (t ∷ place.after)

-- insert_rule stores the hash in the new rule first.
unfoldable pub with_hash : ClsRule → ClsRule
unfolding miniflow_hash_in_minimask
with_hash new = record new { hash = miniflow_hash_in_minimask new.match.flow new.match.mask 0 }

-- The classifier with the table's new rules, and the rule that the new one displaces.
unfoldable pub put_rules :
    Classifier → Place → ℕ → List Chain → Option ClsRule → Classifier × Option ClsRule
unfolding update_tables_after_insertion rev_onto
put_rules cls place priority rules (some r) = (
  record cls {
    tables = rev_onto place.before (record place.table { rules = rules } ∷ place.after);
  },
  some r,
)
put_rules cls place priority rules none =
    let grown = record place.table {
      rules = rules;
      n_table_rules = place.table.n_table_rules + 1;
    } in
    (
      record {
        n_rules = cls.n_rules + 1;
        tables = update_tables_after_insertion (record place { table = grown }) priority;
      },
      none,
    )

unfoldable pub replace_at : Classifier → Place → ClsRule → Classifier × Option ClsRule
unfolding insert_in_rules put_rules with_hash
replace_at cls place rule =
    let (rules, old) = insert_in_rules (with_hash rule) place.table.rules in
    put_rules cls place rule.priority rules old

unfoldable pub classifier_replace : Classifier → ClsRule → Classifier × Option ClsRule
unfolding find_table insert_table replace_at
classifier_replace cls rule = elim (find_table cls rule.match.mask) [
  | none ↦ replace_at cls (insert_table cls rule.match.mask) rule
  | some place ↦ replace_at cls place rule
]
