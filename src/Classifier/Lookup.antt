-- ===== src/Classifier/Lookup.antt =====
-- classifier_lookup returns a rule of highest priority among those that match the packet.
use ovs_sgx.Prelude.{
  ◌≤◌, ◌≡◌, ◌∙◌, sym, ap, refl, Option, none, some, ◌⊎◌, inl, inr, List, [], ◌∷◌, All, Any,
  Any-elim, arith, Bool-cases, Option-cases, leb, ltb, leb→le, ltb→lt, ltb→ge, if◌then◌else◌,
}
use ovs_sgx.Flow.{Flow, Wildcards}
use ovs_sgx.Classifier.Data.{ClsRule, Chain, ClsTable, find_match}
use ovs_sgx.Classifier.Search.{better, fold_wc, lookup_better, lookup_first}
use ovs_sgx.Classifier.Invariant.{Head, IsTable, IsSorted}
use ovs_sgx.Classifier.FindMatch.{find_match-found}

-- The answer of one table is no better than the answer.
abbrev pub AtMost : Option ClsRule → ClsRule → Type 0
AtMost none best = Unit
AtMost (some r) best = r.priority ≤ best.priority

-- The rules that `find_match` can return are bounded by the table's priority.
find_match-bounded :
    (t : ClsTable) (flow : Flow) (best : ClsRule)
    → IsTable t
    → t.max_priority ≤ best.priority
    → AtMost (find_match t flow) best
find_match-bounded t flow best v le = elim (Option-cases (find_match t flow)) [
  | inl e ↦ rw e tt
  | inr (r, e) ↦ rw e (Any-elim t.rules (bound r) v.bounded (find_match-found t flow r e).1)
]
  where
    bound :
        (r : ClsRule) (c : Chain)
        → Head (λ h. h.priority ≤ t.max_priority) c
        → Head (λ h. h ≡ r) c
        → r.priority ≤ best.priority
    bound r [] p q = absurd p
    bound r (h ∷ c) p q = rw (← q) (omega arith)

-- What the loop over the further tables establishes of the rule that it returns.
record IsBetter (ts : List ClsTable) (flow : Flow) (start best : ClsRule) : Type 0 where
  no_worse : start.priority ≤ best.priority
  greatest : All (λ t. AtMost (find_match t flow) best) ts
  origin : (best ≡ start) ⊎ Any (λ t. find_match t flow ≡ some best) ts

AtMost-mono :
    (o : Option ClsRule) (a b : ClsRule) → AtMost o a → a.priority ≤ b.priority → AtMost o b
AtMost-mono none a b p q = tt
AtMost-mono (some r) a b p q = omega arith

better_lem :
    (o : Option ClsRule) (best : ClsRule)
    → (best.priority ≤ (better o best).priority)
      × AtMost o (better o best)
      × ((better o best ≡ best) ⊎ (o ≡ some (better o best)))
unfolding better
better_lem none best = (omega arith, tt, inl refl)
better_lem (some rule) best = elim (Bool-cases (ltb best.priority rule.priority)) [
  | inl e ↦ rw e (omega (arith, ltb→lt _ _ e), omega arith, inr refl)
  | inr e ↦ rw e (omega arith, ltb→ge _ _ e, inl refl)
]

lookup_better-step :
    (t : ClsTable) (ts : List ClsTable) (flow : Flow) (best : ClsRule) (wc : Option Wildcards)
    → lookup_better (t ∷ ts) flow best wc ≡ (
        if leb t.max_priority best.priority
        then (best, wc)
        else lookup_better ts flow (better (find_match t flow) best) (fold_wc wc t.mask))
unfolding lookup_better
lookup_better-step t ts flow best wc = refl

lookup_better-IsBetter :
    (ts : List ClsTable) (flow : Flow) (best : ClsRule) (wc : Option Wildcards)
    → All IsTable ts
    → IsSorted ts
    → IsBetter ts flow best (lookup_better ts flow best wc).0
lookup_better-IsBetter [] flow best wc v s = record {
  no_worse = unfold lookup_better in omega arith;
  greatest = tt;
  origin = inl (unfold lookup_better in refl);
}
lookup_better-IsBetter (t ∷ ts) flow best wc v s =
    rw (lookup_better-step t ts flow best wc)
      (elim (Bool-cases (leb t.max_priority best.priority)) [
        | inl e ↦ rw e (record {
          no_worse = omega arith;
          greatest = (
            find_match-bounded t flow best v.0 (leb→le _ _ e),
            rest_bounded ts v.1 s.0 (leb→le _ _ e),
          );
          origin = inl refl;
        })
        | inr e ↦ rw e (
            let (up, here, which) = better_lem (find_match t flow) best in
            let ih =
              lookup_better-IsBetter ts flow (better (find_match t flow) best) (fold_wc wc t.mask)
                v.1 s.1 in
            record {
              no_worse = omega (arith, ih.no_worse);
              greatest = (AtMost-mono _ _ _ here ih.no_worse, ih.greatest);
              origin = from ih.origin which;
            })
      ])
  where
    rest_bounded :
        (us : List ClsTable)
        → All IsTable us
        → All (λ u. u.max_priority ≤ t.max_priority) us
        → t.max_priority ≤ best.priority
        → All (λ u. AtMost (find_match u flow) best) us
    rest_bounded [] x y le = tt
    rest_bounded (u ∷ us) x y le =
        (find_match-bounded u flow best x.0 (omega arith), rest_bounded us x.1 y.1 le)

    from :
        {b c : ClsRule}
        → ((b ≡ c) ⊎ Any (λ u. find_match u flow ≡ some b) ts)
        → ((c ≡ best) ⊎ (find_match t flow ≡ some c))
        → (b ≡ best) ⊎ Any (λ u. find_match u flow ≡ some b) (t ∷ ts)
    from (inl p) (inl q) = inl (p ∙ q)
    from (inl p) (inr q) = inr (inl (q ∙ ap some (sym p)))
    from (inr p) q = inr (inr p)

-- What classifier_lookup returns: a rule of highest priority among the tables' answers, or none if
-- no table has an answer.
abbrev pub IsAnswer : List ClsTable → Flow → Option ClsRule → Type 0
IsAnswer ts flow none = All (λ t. find_match t flow ≡ none) ts
IsAnswer ts flow (some best) =
    All (λ t. AtMost (find_match t flow) best) ts × Any (λ t. find_match t flow ≡ some best) ts

pub lookup_first-IsAnswer :
    (ts : List ClsTable) (flow : Flow) (wc : Option Wildcards)
    → All IsTable ts
    → IsSorted ts
    → IsAnswer ts flow (lookup_first ts flow wc).0
unfolding lookup_first
lookup_first-IsAnswer [] flow wc v s = tt
lookup_first-IsAnswer (t ∷ ts) flow wc v s = elim (Option-cases (find_match t flow)) [
  | inl e ↦
      rw (e, lookup_first)
        (skip (lookup_first ts flow (fold_wc wc t.mask)).0 e
          (lookup_first-IsAnswer ts flow (fold_wc wc t.mask) v.1 s.1))
  | inr (r, e) ↦
      let b = lookup_better-IsBetter ts flow r (fold_wc wc t.mask) v.1 s.1 in
      rw (e, lookup_first) ((rw e b.no_worse, b.greatest), first b.origin e)
]
  where
    skip :
        (o : Option ClsRule)
        → find_match t flow ≡ none
        → IsAnswer ts flow o
        → IsAnswer (t ∷ ts) flow o
    skip none e a = (e, a)
    skip (some best) e a = ((rw e tt, a.0), inr a.1)

    first :
        {b r : ClsRule}
        → ((b ≡ r) ⊎ Any (λ u. find_match u flow ≡ some b) ts)
        → find_match t flow ≡ some r
        → Any (λ u. find_match u flow ≡ some b) (t ∷ ts)
    first (inl p) e = inl (e ∙ ap some (sym p))
    first (inr p) e = inr p
