-- ===== src/Enclave/Tables/Walk.antt =====
-- The tables that FOR_EACH_MATCHING_TABLE visits.
use ovs_sgx.Prelude.{
  ℕ, zero, suc, ◌+◌, ◌-◌, ◌%◌, ◌≤◌, ◌<◌, ◌≡◌, ◌∙◌, sym, refl, ap, false, none, List, [], ◌∷◌, arith,
  Bool-cases, inl, inr, ltb, ==_iff, ◌==◌, if◌then◌else◌,
}
use ovs_sgx.Enclave.State.{Oftable, is_hidden}
use ovs_sgx.Enclave.Tables.{
  next_visible_table, first_matching_table, next_matching_table, matching_from, matching_tables,
}

-- The tables from `i` on, of `rounds` tables, that are not hidden.
abbrev pub visible_from : (ℕ → Oftable) → ℕ → ℕ → List ℕ
visible_from tables i zero = []
visible_from tables i (suc rounds) =
    if is_hidden (tables i)
    then visible_from tables (i + 1) rounds
    else i ∷ visible_from tables (i + 1) rounds

walk_visible :
    (fuel : ℕ) (tables : ℕ → Oftable) (n i rounds : ℕ)
    → n ≤ 255
    → i + rounds ≡ n
    → rounds < fuel
    → matching_from fuel tables n 0xff (next_visible_table tables i rounds)
      ≡ visible_from tables i rounds
unfolding matching_from next_matching_table next_visible_table
walk_visible zero tables n i rounds s p q = absurd (omega arith)
walk_visible (suc fuel) tables n i zero s p q = refl
walk_visible (suc fuel) tables n i (suc rounds) s p q = elim (Bool-cases (is_hidden (tables i))) [
  | inl e ↦ rw e (walk_visible (suc fuel) tables n (i + 1) rounds s (omega arith) (omega arith))
  | inr e ↦
      let next : (i + 1) % 256 ≡ i + 1 = omega arith in
      let left : n - (i + 1) ≡ rounds = omega arith in
      rw (e, next, left)
        (ap (◌∷◌ i) (walk_visible fuel tables n (i + 1) rounds s (omega arith) (omega arith)))
]

matching_from_lem :
    (tables : ℕ → Oftable) (n table_id fuel : ℕ)
    → n ≤ 255
    → n < fuel
    → matching_from fuel tables n table_id (first_matching_table tables n table_id) ≡ (
        if table_id == 0xff
        then visible_from tables 0 n
        else if ltb table_id n
        then table_id ∷ []
        else [])
unfolding first_matching_table matching_from next_matching_table
matching_from_lem tables n table_id zero s f = absurd (omega arith)
matching_from_lem tables n table_id (suc fuel) s f = elim (Bool-cases (table_id == 0xff)) [
  | inl e ↦
      let all : table_id ≡ 255 = (==_iff table_id 255).0 e in
      rw all (walk_visible (suc fuel) tables n 0 n s (omega arith) (omega arith))
  | inr e ↦ rw e (elim (Bool-cases (ltb table_id n)) [
    | inl f ↦ rw (f, e) (stop fuel table_id e)
    | inr f ↦ rw f refl
  ])
]
  where
    stop : (fuel i : ℕ) → (i == 0xff) ≡ false → (i ∷ matching_from fuel tables n i none) ≡ i ∷ []
    stop zero i e = refl
    stop (suc fuel) i e = refl

-- In a bridge of at most 255 tables, FOR_EACH_MATCHING_TABLE ends, and visits, for the table number
-- 0xff, every table that is not hidden, in order, and for another number that table alone, hidden or
-- not, if the bridge has it. Any number of rounds from `n + 1` on gives the same.
pub matching_tables_lem :
    (tables : ℕ → Oftable) (n table_id fuel : ℕ)
    → n ≤ 255
    → n < fuel
    → (matching_from fuel tables n table_id (first_matching_table tables n table_id)
        ≡ matching_tables tables n table_id)
      × (matching_tables tables n table_id ≡ (
          if table_id == 0xff
          then visible_from tables 0 n
          else if ltb table_id n
          then table_id ∷ []
          else []))
unfolding matching_tables
matching_tables_lem tables n table_id fuel s f =
    let ended = matching_from_lem tables n table_id (n + 1) s (omega arith) in
    (matching_from_lem tables n table_id fuel s f ∙ sym ended, ended)
