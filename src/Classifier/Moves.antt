-- ===== src/Classifier/Moves.antt =====
-- update_tables_after_insertion and update_tables_after_removal of classifier.c keep the tables in
-- order of priority.
use ovs_sgx.Prelude.{
  ℕ, ◌+◌, ◌-◌, ◌%◌, ◌^◌, ◌≤◌, ◌≡◌, refl, arith, Bool-cases, inl, inr, List, [], ◌∷◌, All, leb, ltb,
  leb→le, leb→gt, ltb→lt, ◌==◌,
}
use ovs_sgx.Classifier.Data.{ClsTable, Chain, Place, rev_onto}
use ovs_sgx.Classifier.Insert.{update_tables_after_insertion}
use ovs_sgx.Classifier.Remove.{recount, move_later, update_tables_after_removal}
use ovs_sgx.Classifier.Invariant.{IsSorted, Head}
use ovs_sgx.Classifier.Order.{
  Below, Below-le, IsSorted-rev_onto, rev_onto-IsSorted, move_earlier-IsSorted,
}

-- The tables of a classifier with a table at its place.
abbrev pub all_tables : Place → List ClsTable
all_tables place = rev_onto place.before (place.table ∷ place.after)

-- A table that keeps its greatest priority may stay.
pub same_place :
    (place : Place) (t : ClsTable)
    → t.max_priority ≡ place.table.max_priority
    → IsSorted (all_tables place)
    → IsSorted (rev_onto place.before (t ∷ place.after))
same_place place t e s =
    let w = IsSorted-rev_onto place.before (place.table ∷ place.after) s in
    rev_onto-IsSorted place.before (place.table ∷ place.after) (t ∷ place.after) s (rw e w)
      (λ p x. (omega (arith, x.0, e), x.1))

-- Without the table, the others are in order.
without_table :
    (place : Place) → IsSorted (all_tables place) → IsSorted (rev_onto place.before place.after)
without_table place s =
    let w = IsSorted-rev_onto place.before (place.table ∷ place.after) s in
    rev_onto-IsSorted place.before (place.table ∷ place.after) place.after s w.1 (λ p x. x.1)

-- After a rule of any priority is added to a table, update_tables_after_insertion leaves the tables
-- in order of falling greatest priority.
pub update_tables_after_insertion-IsSorted :
    (place : Place) (new_priority : ℕ)
    → IsSorted (all_tables place)
    → IsSorted (update_tables_after_insertion place new_priority)
unfolding update_tables_after_insertion
update_tables_after_insertion-IsSorted place new_priority s =
    elim (Bool-cases (new_priority == place.table.max_priority)) [
      | inl e ↦ rw e (same_place place _ refl s)
      | inr e ↦ elim (Bool-cases (ltb place.table.max_priority new_priority)) [
        | inl f ↦
            rw (e, f)
              (let w = IsSorted-rev_onto place.before (place.table ∷ place.after) s in
                let h : place.table.max_priority ≤ new_priority = omega (arith, ltb→lt _ _ f) in
                move_earlier-IsSorted _ place.before place.after (without_table place s)
                  (Below-le _ _ place.after h w.0))
        | inr f ↦ rw (e, f) s
      ]
    ]

-- The table finds its place among the lower tables.
move_later-Below :
    (p : ℕ) (t : ClsTable) (after : List ClsTable)
    → t.max_priority ≤ p
    → Below p after
    → Below p (move_later t after)
unfolding move_later
move_later-Below p t [] h b = (h, tt)
move_later-Below p t (iter ∷ after) h b = elim (Bool-cases (leb iter.max_priority t.max_priority)) [
  | inl e ↦ rw e (h, b)
  | inr e ↦ rw e (b.0, move_later-Below p t after h b.1)
]

move_later-IsSorted :
    (t : ClsTable) (after : List ClsTable) → IsSorted after → IsSorted (move_later t after)
unfolding move_later
move_later-IsSorted t [] s = (tt, tt)
move_later-IsSorted t (iter ∷ after) s = elim (Bool-cases (leb iter.max_priority t.max_priority)) [
  | inl e ↦ rw e (
      let h : iter.max_priority ≤ t.max_priority = leb→le _ _ e in
      ((h, Below-le _ _ after h s.0), s))
  | inr e ↦ rw e (
      let h : t.max_priority ≤ iter.max_priority = omega (arith, leb→gt _ _ e) in
      (move_later-Below _ t after h s.0, move_later-IsSorted t after s.1))
]

-- The new greatest priority is not above a bound of the heads.
recount-le :
    (p : ℕ) (rules : List Chain) (top count : ℕ)
    → All (Head (λ r. r.priority ≤ p)) rules
    → top ≤ p
    → (recount rules top count).0 ≤ p
unfolding recount
recount-le p [] top count v h = h
recount-le p ([] ∷ rules) top count v h = absurd v.0
recount-le p ((head ∷ rest) ∷ rules) top count v h = elim (Bool-cases (ltb top head.priority)) [
  | inl e ↦ rw e (recount-le p rules head.priority 1 v.1 v.0)
  | inr e ↦ rw e (recount-le p rules top _ v.1 h)
]

-- After a rule of any priority is removed from a table, whose rules have no higher priority than the
-- table's greatest one, update_tables_after_removal leaves the tables in order of falling greatest
-- priority.
pub update_tables_after_removal-IsSorted :
    (place : Place) (del_priority : ℕ)
    → All (Head (λ r. r.priority ≤ place.table.max_priority)) place.table.rules
    → IsSorted (all_tables place)
    → IsSorted (update_tables_after_removal place del_priority)
unfolding update_tables_after_removal
update_tables_after_removal-IsSorted place del_priority v s =
    elim (Bool-cases (del_priority == place.table.max_priority)) [
      | inl e ↦ elim (Bool-cases ((place.table.max_count + 2 ^ 32 - 1) % 2 ^ 32 == 0)) [
        | inl f ↦
            rw (e, f)
              (let w = IsSorted-rev_onto place.before (place.table ∷ place.after) s in
                let h = recount-le place.table.max_priority place.table.rules 0 0 v (omega arith) in
                rev_onto-IsSorted place.before (place.table ∷ place.after) _ s
                  (move_later-IsSorted _ place.after w.1)
                  (λ p x. move_later-Below p _ place.after (omega (arith, x.0, h)) x.1))
        | inr f ↦ rw (e, f) (same_place place _ refl s)
      ]
      | inr e ↦ rw e s
    ]
