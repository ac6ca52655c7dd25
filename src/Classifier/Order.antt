-- ===== src/Classifier/Order.antt =====
-- The list of the tables stays in order of priority where classifier.c moves a table.
use ovs_sgx.Prelude.{
  ℕ, ◌≤◌, ◌≡◌, refl, arith, Bool-cases, inl, inr, List, [], ◌∷◌, ◌++◌, All, leb, leb→le, leb→gt,
}
use ovs_sgx.Classifier.Data.{ClsTable, rev_onto}
use ovs_sgx.Classifier.Insert.{move_earlier}
use ovs_sgx.Classifier.Invariant.{IsSorted}

-- No table's greatest priority is above a bound.
abbrev pub Below : ℕ → List ClsTable → Type 0
Below p ts = All (λ u. u.max_priority ≤ p) ts

pub IsSorted-rev_onto : (bs ts : List ClsTable) → IsSorted (rev_onto bs ts) → IsSorted ts
unfolding rev_onto
IsSorted-rev_onto [] ts s = s
IsSorted-rev_onto (b ∷ bs) ts s = (IsSorted-rev_onto bs (b ∷ ts) s).1

-- The tables after a point may change to lower ones.
pub rev_onto-IsSorted :
    (bs ts us : List ClsTable)
    → IsSorted (rev_onto bs ts)
    → IsSorted us
    → ((p : ℕ) → Below p ts → Below p us)
    → IsSorted (rev_onto bs us)
unfolding rev_onto
rev_onto-IsSorted [] ts us s v f = v
rev_onto-IsSorted (b ∷ bs) ts us s v f =
    let w = IsSorted-rev_onto bs (b ∷ ts) s in
    rev_onto-IsSorted bs (b ∷ ts) (b ∷ us) s (f b.max_priority w.0, v) (λ p x. (x.0, f p x.1))

pub rev_onto-rev_onto :
    (xs ys zs : List ClsTable) → rev_onto (rev_onto xs ys) zs ≡ rev_onto ys (xs ++ zs)
unfolding rev_onto
rev_onto-rev_onto [] ys zs = refl
rev_onto-rev_onto (x ∷ xs) ys zs = rev_onto-rev_onto xs (x ∷ ys) zs

pub Below-le : (p q : ℕ) (ts : List ClsTable) → p ≤ q → Below p ts → Below q ts
Below-le p q [] h b = tt
Below-le p q (t ∷ ts) h b = (omega (arith, b.0), Below-le p q ts h b.1)

-- The table finds its place before the tables that it overtakes.
pub move_earlier-IsSorted :
    (t : ClsTable) (before after : List ClsTable)
    → IsSorted (rev_onto before after)
    → Below t.max_priority after
    → IsSorted (move_earlier t before after)
unfolding move_earlier rev_onto
move_earlier-IsSorted t [] after s b = (b, s)
move_earlier-IsSorted t (iter ∷ before) after s b =
    elim (Bool-cases (leb t.max_priority iter.max_priority)) [
      | inl e ↦ rw e (
          let w = IsSorted-rev_onto before (iter ∷ after) s in
          let h : t.max_priority ≤ iter.max_priority = leb→le _ _ e in
          rev_onto-IsSorted before (iter ∷ after) (iter ∷ t ∷ after) s ((h, w.0), (b, w.1))
            (λ p x. (x.0, (omega (arith, x.0), x.1))))
      | inr e ↦
          rw e (move_earlier-IsSorted t before (iter ∷ after) s (omega (arith, leb→gt _ _ e), b))
    ]

module _ (P : ClsTable → Type 0) where
  pub All-rev_onto : (bs ts : List ClsTable) → All P (rev_onto bs ts) → All P bs × All P ts
  unfolding rev_onto
  All-rev_onto [] ts a = (tt, a)
  All-rev_onto (b ∷ bs) ts a = let (x, y) = All-rev_onto bs (b ∷ ts) a in ((y.0, x), y.1)

  pub rev_onto-All : (bs ts : List ClsTable) → All P bs → All P ts → All P (rev_onto bs ts)
  unfolding rev_onto
  rev_onto-All [] ts x y = y
  rev_onto-All (b ∷ bs) ts x y = rev_onto-All bs (b ∷ ts) x.1 (x.0, y)

  pub move_earlier-All :
      (t : ClsTable) (before after : List ClsTable)
      → P t
      → All P before
      → All P after
      → All P (move_earlier t before after)
  unfolding move_earlier
  move_earlier-All t [] after p x y = (p, y)
  move_earlier-All t (iter ∷ before) after p x y =
      elim (Bool-cases (leb t.max_priority iter.max_priority)) [
        | inl e ↦ rw e (rev_onto-All before (iter ∷ t ∷ after) x.1 (x.0, (p, y)))
        | inr e ↦ rw e (move_earlier-All t before (iter ∷ after) p x.1 (x.0, y))
      ]
