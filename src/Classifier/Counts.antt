-- ===== src/Classifier/Counts.antt =====
-- The number of heads of greatest priority after insert_rule of classifier.c.
use ovs_sgx.Prelude.{
  ℕ, ◌+◌, ◌≤◌, ◌<◌, ◌≡◌, refl, arith, Bool-cases, inl, inr, Option, none, some, List, [], ◌∷◌, ◌⊎◌,
  All, leb, ltb, leb→gt, ◌==◌, ==_iff, if◌then◌else◌,
}
use ovs_sgx.Classifier.Data.{ClsRule, Chain, is_equal}
use ovs_sgx.Classifier.Insert.{insert_in_chain, insert_in_rules}
use ovs_sgx.Classifier.Invariant.{Head, count_heads}

-- What an insertion does to the head of a chain, where `old` is the rule that it replaces.
abbrev HeadCase : ClsRule → ClsRule → Chain → Option ClsRule → Type 0
HeadCase new head c old =
    ((new.priority < head.priority) × Head (λ x. x ≡ head) c)
    ⊎ ((new.priority ≡ head.priority) × (old ≡ some head) × Head (λ x. x ≡ new) c)
    ⊎ ((head.priority < new.priority) × (old ≡ none) × Head (λ x. x ≡ new) c)

head_case :
    (new head : ClsRule) (rest : Chain)
    → HeadCase new head (insert_in_chain new (head ∷ rest)).0 (insert_in_chain new (head ∷ rest)).1
unfolding insert_in_chain
head_case new head [] = elim (Bool-cases (leb head.priority new.priority)) [
  | inl e ↦ elim (Bool-cases (new.priority == head.priority)) [
    | inl f ↦ rw (e, f) (inr (inl ((==_iff _ _).0 f, refl, refl)))
    | inr f ↦ rw (e, f) (inr (inr (ground (arith, e, f), refl, refl)))
  ]
  | inr e ↦ rw e (inl (leb→gt _ _ e, refl))
]
head_case new head (next ∷ rest) = elim (Bool-cases (leb head.priority new.priority)) [
  | inl e ↦ elim (Bool-cases (new.priority == head.priority)) [
    | inl f ↦ rw (e, f) (inr (inl ((==_iff _ _).0 f, refl, refl)))
    | inr f ↦ rw (e, f) (inr (inr (ground (arith, e, f), refl, refl)))
  ]
  | inr e ↦ elim (Bool-cases (ltb next.priority head.priority)) [
    | inl f ↦ rw (e, f) (inl (leb→gt _ _ e, refl))
    | inr f ↦ rw (e, f) (inl (leb→gt _ _ e, refl))
  ]
]

-- A chain counts by its head.
count_heads-Head :
    (p : ℕ) (r : ClsRule) (c : Chain) (cs : List Chain)
    → Head (λ x. x ≡ r) c
    → count_heads p (c ∷ cs) ≡ (if r.priority == p then count_heads p cs + 1 else count_heads p cs)
count_heads-Head p r [] cs e = absurd e
count_heads-Head p r (x ∷ c) cs e = rw e refl

count_heads-above :
    (m p : ℕ) (cs : List Chain) → All (Head (λ r. r.priority ≤ m)) cs → m < p → count_heads p cs ≡ 0
count_heads-above m p [] v h = refl
count_heads-above m p ([] ∷ cs) v h = absurd v.0
count_heads-above m p ((head ∷ rest) ∷ cs) v h = ground (arith, v.0, count_heads-above m p cs v.1 h)

-- The heads of priority `m`, where no head has a higher one, and those of a new priority above.
abbrev pub Counted : ℕ → ℕ → List Chain → List Chain → Option ClsRule → Type 0
Counted new m cs ds (some r) = (new ≤ m) × (count_heads m ds ≡ count_heads m cs)
Counted new m cs ds none =
    (new ≡ m → count_heads m ds ≡ count_heads m cs + 1)
    × (new < m → count_heads m ds ≡ count_heads m cs)
    × (m < new → count_heads new ds ≡ 1)

Counted-here :
    (new head : ClsRule) (m : ℕ) (rest c : Chain) (cs : List Chain) (old : Option ClsRule)
    → head.priority ≤ m
    → All (Head (λ r. r.priority ≤ m)) cs
    → HeadCase new head c old
    → Counted new.priority m ((head ∷ rest) ∷ cs) (c ∷ cs) old
Counted-here new head m rest c cs none b v (inl (p, q)) = (
  λ e. absurd (omega (arith, p, e, b)),
  λ e. rw (count_heads-Head m head c cs q) refl,
  λ e. absurd (omega (arith, p, e, b)),
)
Counted-here new head m rest c cs (some r) b v (inl (p, q)) =
    (omega (arith, p, b), rw (count_heads-Head m head c cs q) refl)
Counted-here new head m rest c cs none b v (inr (inl (p, q, s))) = absurd cc
Counted-here new head m rest c cs (some r) b v (inr (inl (p, q, s))) =
    (omega (arith, p, b), rw (count_heads-Head m new c cs s, p) refl)
Counted-here new head m rest c cs none b v (inr (inr (p, q, s))) = (
  λ e. rw (count_heads-Head m new c cs s) (ground (arith, p, e, b)),
  λ e. rw (count_heads-Head m new c cs s) (ground (arith, p, e, b)),
  λ e.
      rw (count_heads-Head new.priority new c cs s)
        (ground (arith, count_heads-above m new.priority cs v e)),
)
Counted-here new head m rest c cs (some r) b v (inr (inr (p, q, s))) = absurd cc

Counted-later :
    (new m : ℕ) (head : ClsRule) (rest : Chain) (cs ds : List Chain) (old : Option ClsRule)
    → head.priority ≤ m
    → Counted new m cs ds old
    → Counted new m ((head ∷ rest) ∷ cs) ((head ∷ rest) ∷ ds) old
Counted-later new m head rest cs ds none b v =
    (λ e. ground (arith, v.0 e), λ e. ground (arith, v.1 e), λ e. ground (arith, v.2 e, b, e))
Counted-later new m head rest cs ds (some r) b v = (v.0, ground (arith, v.1))

pub insert_in_rules-Counted :
    (new : ClsRule) (m : ℕ) (cs : List Chain)
    → All (Head (λ r. r.priority ≤ m)) cs
    → Counted new.priority m cs (insert_in_rules new cs).0 (insert_in_rules new cs).1
unfolding insert_in_rules
insert_in_rules-Counted new m [] v = (λ e. ground arith, λ e. ground arith, λ e. ground arith)
insert_in_rules-Counted new m ([] ∷ cs) v = absurd v.0
insert_in_rules-Counted new m ((head ∷ rest) ∷ cs) v =
    elim (Bool-cases (is_equal new.match.flow new.hash head)) [
      | inl e ↦ rw e (Counted-here new head m rest _ cs _ v.0 v.1 (head_case new head rest))
      | inr e ↦ rw e (
          Counted-later new.priority m head rest cs (insert_in_rules new cs).0 _ v.0
            (insert_in_rules-Counted new m cs v.1))
    ]
