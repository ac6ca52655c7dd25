-- ===== src/Classifier/Replaced.antt =====
-- classifier_replace of classifier.c keeps a classifier well-formed.
use ovs_sgx.Prelude.{
  ℕ, ◌+◌, ◌^◌, ◌≤◌, ◌<◌, ◌≡◌, sym, refl, ap, arith, subst, Bool-cases, inl, inr, true, Option, none,
  some, List, [], ◌∷◌, ◌++◌, All,
}
use ovs_sgx.Flow.{Minimask, miniflow_hash_in_minimask, minimask_equal}
use ovs_sgx.Flow.Expand.{IsWellFormed, miniflow_clone_lem}
use ovs_sgx.Flow.Equal.{miniflow_equal_iff}
use ovs_sgx.Classifier.Data.{
  ClsRule, Chain, ClsTable, Classifier, Place, rev_onto, find_table, find_table_from,
}
use ovs_sgx.Classifier.Insert.{
  insert_in_rules, insert_table, with_hash, put_rules, replace_at, classifier_replace,
}
use ovs_sgx.Classifier.Invariant.{Head, IsNormal, IsTable, IsSorted, IsClassifier}
use ovs_sgx.Classifier.Order.{Below, All-rev_onto, rev_onto-All, rev_onto-rev_onto}
use ovs_sgx.Classifier.Moves.{all_tables, same_place, update_tables_after_insertion-IsSorted}
use ovs_sgx.Classifier.RulesInsert.{
  insert_in_rules-All, insert_in_rules-AreRules, insert_in_chain-Head,
}
use ovs_sgx.Classifier.Counts.{insert_in_rules-Counted}
use ovs_sgx.Classifier.Replace.{IsGrown, IsPlaced, update-All, replaced-All}

-- A chain's head bounded by `p` stays so with a new rule of at most that priority.
bounded_after :
    (new : ClsRule) (m : ℕ) (cs : List Chain)
    → All (Head (λ r. r.priority ≤ m)) cs
    → (p : ℕ) → m ≤ p
    → new.priority ≤ p
    → All (Head (λ r. r.priority ≤ p)) (insert_in_rules new cs).0
bounded_after new m cs v p h k =
    insert_in_rules-All (Head (λ r. r.priority ≤ p)) new cs k
      (λ head rest _ b. insert_in_chain-Head (λ r. r.priority ≤ p) new head rest k b) (raise cs v)
  where
    raise :
        (cs : List Chain)
        → All (Head (λ r. r.priority ≤ m)) cs
        → All (Head (λ r. r.priority ≤ p)) cs
    raise [] v = tt
    raise ([] ∷ cs) v = absurd v.0
    raise ((head ∷ rest) ∷ cs) v = (omega (arith, v.0, h), raise cs v.1)

with_hash-IsNormal :
    (mask : Minimask) (rule : ClsRule) → IsNormal mask rule → IsNormal mask (with_hash rule)
unfolding with_hash
with_hash-IsNormal mask rule n = record {
  full = n.full;
  compressed = n.compressed;
  size = n.size;
  masked = n.masked;
}

table-IsGrown :
    (t : ClsTable) (rule : ClsRule)
    → IsTable t
    → IsNormal rule.match.mask rule
    → t.mask ≡ rule.match.mask
    → IsGrown t rule.priority
        (insert_in_rules (with_hash rule) t.rules).0
        (insert_in_rules (with_hash rule) t.rules).1
unfolding with_hash
table-IsGrown t rule v n e = record {
  are_rules =
      insert_in_rules-AreRules t.mask (with_hash rule) v.well_formed
        (with_hash-IsNormal t.mask rule (subst (λ x. IsNormal x rule) (sym e) n))
        (ap (λ x. miniflow_hash_in_minimask rule.match.flow x 0) (sym e)) t.rules v.rules;
  bounded = bounded_after (with_hash rule) t.max_priority t.rules v.bounded;
  counted = insert_in_rules-Counted (with_hash rule) t.max_priority t.rules v.bounded;
}

grown-IsClassifier :
    (cls : Classifier) (place : Place) (new : ℕ) (rules : List Chain) (old : Option ClsRule)
    → IsPlaced place
    → place.table.max_count + 1 < 2 ^ 32
    → IsGrown place.table new rules old
    → IsClassifier (put_rules cls place new rules old).0
unfolding put_rules
grown-IsClassifier cls place new rules (some r) v c g = record {
  tables = replaced-All place new rules r v g;
  sorted = same_place place _ refl v.sorted;
}
grown-IsClassifier cls place new rules none v c g =
    let grown : ClsTable = record place.table {
      rules = rules;
      n_table_rules = place.table.n_table_rules + 1;
    } in
    record {
      tables = update-All place new (place.table.n_table_rules + 1) rules v c g;
      sorted =
          update_tables_after_insertion-IsSorted (record place { table = grown }) new
            (same_place place grown refl v.sorted);
    }

replace_at-IsClassifier :
    (cls : Classifier) (place : Place) (rule : ClsRule)
    → IsPlaced place
    → place.table.max_count + 1 < 2 ^ 32
    → IsNormal rule.match.mask rule
    → place.table.mask ≡ rule.match.mask
    → IsClassifier (replace_at cls place rule).0
unfolding replace_at
replace_at-IsClassifier cls place rule v c n e =
    let (_, y) = All-rev_onto IsTable place.before (place.table ∷ place.after) v.tables in
    grown-IsClassifier cls place rule.priority _ _ v c (table-IsGrown place.table rule y.0 n e)

-- The place of a table that find_table finds.
abbrev IsFound : List ClsTable → Minimask → Option Place → Type 0
IsFound ts mask none = Unit
IsFound ts mask (some place) =
    (ts ≡ all_tables place) × (minimask_equal mask place.table.mask ≡ true)

find_table_from-IsFound :
    (bs : List ClsTable) (mask : Minimask) (ts : List ClsTable)
    → IsFound (rev_onto bs ts) mask (find_table_from bs mask ts)
unfolding find_table_from rev_onto
find_table_from-IsFound bs mask [] = tt
find_table_from-IsFound bs mask (t ∷ ts) = elim (Bool-cases (minimask_equal mask t.mask)) [
  | inl e ↦ rw e (refl, e)
  | inr e ↦ rw e (find_table_from-IsFound (t ∷ bs) mask ts)
]

found-IsPlaced :
    (cls : Classifier) (place : Place)
    → IsClassifier cls
    → cls.tables ≡ all_tables place
    → IsPlaced place
found-IsPlaced cls place v e = record {
  tables = subst (All IsTable) e v.tables;
  sorted = subst IsSorted e v.sorted;
}

last-IsSorted :
    (ts : List ClsTable) (t : ClsTable) → t.max_priority ≡ 0 → IsSorted ts → IsSorted (ts ++ t ∷ [])
last-IsSorted [] t e s = (tt, tt)
last-IsSorted (u ∷ ts) t e s = (below ts s.0, last-IsSorted ts t e s.1)
  where
    below : (ts : List ClsTable) → Below u.max_priority ts → Below u.max_priority (ts ++ t ∷ [])
    below [] b = (omega (arith, e), tt)
    below (x ∷ ts) b = (b.0, below ts b.1)

-- insert_table puts an empty table at the end.
insert_table-IsPlaced :
    (cls : Classifier) (mask : Minimask)
    → IsClassifier cls
    → IsWellFormed mask
    → IsPlaced (insert_table cls mask)
unfolding insert_table
insert_table-IsPlaced cls mask v w = record {
  tables =
      rev_onto-All IsTable (rev_onto cls.tables []) _
        (rev_onto-All IsTable cls.tables [] v.tables tt)
        (
          record {
            well_formed = subst IsWellFormed (sym (miniflow_clone_lem mask w)) w;
            rules = record { chains = tt; hashed = tt; normal = tt; distinct = tt };
            bounded = tt;
            counted = refl;
          },
          tt,
        );
  sorted =
      rw (rev_onto-rev_onto cls.tables [] ((insert_table cls mask).table ∷ []))
        (last-IsSorted cls.tables _ refl v.sorted);
}

insert_table-count :
    (cls : Classifier) (mask : Minimask) → (insert_table cls mask).table.max_count + 1 < 2 ^ 32
unfolding insert_table
insert_table-count cls mask = omega arith

insert_table-mask :
    (cls : Classifier) (mask : Minimask)
    → IsWellFormed mask
    → (insert_table cls mask).table.mask ≡ mask
unfolding insert_table
insert_table-mask cls mask w = miniflow_clone_lem mask w

replaced_in-IsClassifier :
    (cls : Classifier) (rule : ClsRule) (o : Option Place)
    → IsClassifier cls
    → IsWellFormed rule.match.mask
    → IsNormal rule.match.mask rule
    → All (λ t. t.max_count + 1 < 2 ^ 32) cls.tables
    → IsFound cls.tables rule.match.mask o
    → IsClassifier
        (elim o as (λ _. Classifier × Option ClsRule) [
          | none ↦ replace_at cls (insert_table cls rule.match.mask) rule
          | some place ↦ replace_at cls place rule
        ]).0
unfolding minimask_equal
replaced_in-IsClassifier cls rule none v w n c f =
    replace_at-IsClassifier cls (insert_table cls rule.match.mask) rule
      (insert_table-IsPlaced cls rule.match.mask v w) (insert_table-count cls rule.match.mask) n
      (insert_table-mask cls rule.match.mask w)
replaced_in-IsClassifier cls rule (some place) v w n c f =
    let placed = found-IsPlaced cls place v f.0 in
    let (_, y) = All-rev_onto IsTable place.before (place.table ∷ place.after) placed.tables in
    let (_, z) =
      All-rev_onto (λ t. t.max_count + 1 < 2 ^ 32) place.before (place.table ∷ place.after)
        (subst (All (λ t. t.max_count + 1 < 2 ^ 32)) f.0 c) in
    replace_at-IsClassifier cls place rule placed z.0 n
      (sym ((miniflow_equal_iff rule.match.mask place.table.mask w y.0.well_formed).0 f.1))

-- Putting a normal rule into a well-formed classifier with classifier_replace, whether it replaces a
-- rule or not and whether its mask is new or not, leaves the classifier well-formed, if no table's
-- count of rules of greatest priority is about to exceed 32 bits.
pub classifier_replace-IsClassifier :
    (cls : Classifier) (rule : ClsRule)
    → IsClassifier cls
    → IsWellFormed rule.match.mask
    → IsNormal rule.match.mask rule
    → All (λ t. t.max_count + 1 < 2 ^ 32) cls.tables
    → IsClassifier (classifier_replace cls rule).0
unfolding classifier_replace find_table
classifier_replace-IsClassifier cls rule v w n c =
    replaced_in-IsClassifier cls rule (find_table cls rule.match.mask) v w n c
      (find_table_from-IsFound [] rule.match.mask cls.tables)
