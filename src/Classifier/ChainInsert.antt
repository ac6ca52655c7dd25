-- ===== src/Classifier/ChainInsert.antt =====
-- The chain of a rule's twins after insert_rule of classifier.c.
use ovs_sgx.Prelude.{
  ◌≤◌, ◌<◌, ◌≡◌, ◌∙◌, sym, arith, Bool-cases, inl, inr, true, [], ◌∷◌, All, leb, ltb, leb→le,
  leb→gt, ◌==◌,
}
use ovs_sgx.Classifier.Data.{ClsRule, Chain}
use ovs_sgx.Classifier.Insert.{insert_in_chain}
use ovs_sgx.Classifier.Invariant.{IsChain}

-- The rules of the chain satisfy what the old ones and the new one do.
pub insert_in_chain-All :
    (P : ClsRule → Type 0) (new : ClsRule) (c : Chain)
    → IsChain c
    → P new
    → All P c
    → All P (insert_in_chain new c).0
unfolding insert_in_chain
insert_in_chain-All P new [] v p a = (p, tt)
insert_in_chain-All P new (rule ∷ []) v p a = elim (Bool-cases (leb rule.priority new.priority)) [
  | inl e ↦ elim (Bool-cases (new.priority == rule.priority)) [
    | inl f ↦ rw (e, f) (p, tt)
    | inr f ↦ rw (e, f) (p, a)
  ]
  | inr e ↦ rw e (a.0, (p, tt))
]
insert_in_chain-All P new (rule ∷ next ∷ rest) v p a =
    elim (Bool-cases (leb rule.priority new.priority)) [
      | inl e ↦ elim (Bool-cases (new.priority == rule.priority)) [
        | inl f ↦ rw (e, f) (p, a.1)
        | inr f ↦ rw (e, f) (p, a)
      ]
      | inr e ↦
          let low : ltb next.priority rule.priority ≡ true = ground (arith, v.0.0.0) in
          rw (e, low) (a.0, insert_in_chain-All P new (next ∷ rest) v.1 p a.1)
    ]

-- A bound and a match that hold of a chain's rules hold under a greater bound and an equal match.
lower :
    (a b : ClsRule) (c : Chain)
    → a.priority ≤ b.priority
    → a.match.flow ≡ b.match.flow
    → All (λ s. (s.priority < a.priority) × (s.match.flow ≡ a.match.flow)) c
    → All (λ s. (s.priority < b.priority) × (s.match.flow ≡ b.match.flow)) c
lower a b [] h m v = tt
lower a b (r ∷ c) h m v = ((omega (arith, v.0.0), v.0.1 ∙ m), lower a b c h m v.1)

-- Where the rules of a chain in strictly falling priority match what the new rule matches, insert_rule
-- leaves such a chain.
pub insert_in_chain-IsChain :
    (new : ClsRule) (c : Chain)
    → IsChain c
    → All (λ s. s.match.flow ≡ new.match.flow) c
    → IsChain (insert_in_chain new c).0
unfolding insert_in_chain
insert_in_chain-IsChain new [] v m = (tt, tt)
insert_in_chain-IsChain new (rule ∷ []) v m = elim (Bool-cases (leb rule.priority new.priority)) [
  | inl e ↦ elim (Bool-cases (new.priority == rule.priority)) [
    | inl f ↦ rw (e, f) (tt, tt)
    | inr f ↦ rw (e, f) (((ground (arith, e, f), m.0), tt), v)
  ]
  | inr e ↦ rw e (((leb→gt _ _ e, sym m.0), tt), (tt, tt))
]
insert_in_chain-IsChain new (rule ∷ next ∷ rest) v m =
    elim (Bool-cases (leb rule.priority new.priority)) [
      | inl e ↦
          let h : rule.priority ≤ new.priority = leb→le _ _ e in
          let below = lower rule new (next ∷ rest) h m.0 v.0 in
          elim (Bool-cases (new.priority == rule.priority)) [
            | inl f ↦ rw (e, f) (below, v.1)
            | inr f ↦ rw (e, f) (((ground (arith, e, f), m.0), below), v)
          ]
      | inr e ↦
          let low : ltb next.priority rule.priority ≡ true = ground (arith, v.0.0.0) in
          let rest_below =
            insert_in_chain-All
              (λ s. (s.priority < rule.priority) × (s.match.flow ≡ rule.match.flow)) new
              (next ∷ rest) v.1 (leb→gt _ _ e, sym m.0) v.0 in
          rw (e, low) (rest_below, insert_in_chain-IsChain new (next ∷ rest) v.1 m.1)
    ]
