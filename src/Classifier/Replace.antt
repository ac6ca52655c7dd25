-- ===== src/Classifier/Replace.antt =====
-- classifier_replace of classifier.c keeps a classifier well-formed.
use ovs_sgx.Prelude.{
  ℕ, ◌+◌, ◌^◌, ◌≤◌, ◌<◌, ◌≡◌, ◌∙◌, sym, arith, Bool-cases, inl, inr, Option, none, some, List, ◌∷◌,
  All, ltb, ltb→lt, ◌==◌, ==_iff,
}
use ovs_sgx.Classifier.Data.{ClsRule, Chain, ClsTable, Place, rev_onto}
use ovs_sgx.Classifier.Insert.{update_tables_after_insertion}
use ovs_sgx.Classifier.Invariant.{Head, AreRules, IsTable, IsSorted}
use ovs_sgx.Classifier.Order.{All-rev_onto, rev_onto-All, move_earlier-All}
use ovs_sgx.Classifier.Moves.{all_tables}
use ovs_sgx.Classifier.Counts.{Counted}

-- What is known of a table's rules once a rule of priority `new` is in them.
pub record IsGrown (t : ClsTable) (new : ℕ) (rules : List Chain) (old : Option ClsRule)
    : Type 0 where
  pub are_rules : AreRules t.mask rules
  pub bounded : (p : ℕ) → t.max_priority ≤ p → new ≤ p → All (Head (λ r. r.priority ≤ p)) rules
  pub counted : Counted new t.max_priority t.rules rules old

-- The tables of the classifier, with the place of one of them.
pub record IsPlaced (place : Place) : Type 0 where
  pub tables : All IsTable (all_tables place)
  pub sorted : IsSorted (all_tables place)

abbrev table_with : ClsTable → List Chain → ℕ → ClsTable
table_with t rules n = record t { rules = rules; n_table_rules = n }

pub update-All :
    (place : Place) (new n : ℕ) (rules : List Chain)
    → IsPlaced place
    → place.table.max_count + 1 < 2 ^ 32
    → IsGrown place.table new rules none
    → All IsTable (
        update_tables_after_insertion (record place { table = table_with place.table rules n }) new)
unfolding update_tables_after_insertion
update-All place new n rules v c g =
    let (x, y) = All-rev_onto IsTable place.before (place.table ∷ place.after) v.tables in
    elim (Bool-cases (new == place.table.max_priority)) [
      | inl e ↦ rw e (
          rev_onto-All IsTable place.before _ x (
            record {
              well_formed = y.0.well_formed;
              rules = g.are_rules;
              bounded = g.bounded place.table.max_priority (omega arith) (ground (arith, e));
              counted =
                  let same : new ≡ place.table.max_priority = (==_iff _ _).0 e in
                  omega (arith, g.counted.0 same, y.0.counted, c);
            },
            y.1,
          ))
      | inr e ↦ elim (Bool-cases (ltb place.table.max_priority new)) [
        | inl f ↦
            rw (e, f)
              (move_earlier-All IsTable _ place.before place.after
                (record {
                  well_formed = y.0.well_formed;
                  rules = g.are_rules;
                  bounded = g.bounded new (omega (arith, ltb→lt _ _ f)) (omega arith);
                  counted = sym (g.counted.2 (ltb→lt _ _ f));
                })
                x y.1)
        | inr f ↦
            rw (e, f)
              (rev_onto-All IsTable place.before _ x (
                record {
                  well_formed = y.0.well_formed;
                  rules = g.are_rules;
                  bounded = g.bounded place.table.max_priority (omega arith) (ground (arith, f));
                  counted = y.0.counted ∙ sym (g.counted.1 (ground (arith, e, f)));
                },
                y.1,
              ))
      ]
    ]

pub replaced-All :
    (place : Place) (new : ℕ) (rules : List Chain) (r : ClsRule)
    → IsPlaced place
    → IsGrown place.table new rules (some r)
    → All IsTable (rev_onto place.before (record place.table { rules = rules } ∷ place.after))
replaced-All place new rules r v g =
    let (x, y) = All-rev_onto IsTable place.before (place.table ∷ place.after) v.tables in
    rev_onto-All IsTable place.before _ x (
      record {
        well_formed = y.0.well_formed;
        rules = g.are_rules;
        bounded = g.bounded place.table.max_priority (omega arith) g.counted.0;
        counted = y.0.counted ∙ sym g.counted.1;
      },
      y.1,
    )
