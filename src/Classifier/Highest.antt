-- ===== src/Classifier/Highest.antt =====
-- The contract of classifier_lookup over all the rules of a well-formed classifier.
use ovs_sgx.Prelude.{
  ◌≤◌, ◌<◌, ◌≡◌, ap, refl, Option, none, some, inl, inr, List, [], ◌∷◌, All, Any, Any-elim, arith,
}
use ovs_sgx.Flow.{Flow, Minimask, Wildcards}
use ovs_sgx.Classifier.Data.{ClsRule, Chain, ClsTable, Classifier, find_match}
use ovs_sgx.Classifier.Search.{classifier_lookup}
use ovs_sgx.Classifier.Invariant.{Head, Matches, IsTable, IsClassifier, IsChain}
use ovs_sgx.Classifier.FindMatch.{find_match-found, find_match_unique}
use ovs_sgx.Classifier.Lookup.{AtMost, IsAnswer, lookup_first-IsAnswer}

-- The rule stands in the chain, in a chain of the table.
abbrev pub InChain : ClsRule → Chain → Type 0
InChain r c = Any (λ x. x ≡ r) c

abbrev pub InTable : ClsRule → ClsTable → Type 0
InTable r t = Any (InChain r) t.rules

-- The rule stands in the table and matches the packet.
abbrev pub IsCandidate : Flow → ClsRule → ClsTable → Type 0
IsCandidate flow r t = InTable r t × Matches t.mask flow r

-- The answer is a matching rule of highest priority, or there is no matching rule.
abbrev pub IsHighest : Classifier → Flow → Option ClsRule → Type 0
IsHighest cls flow none = (r : ClsRule) → Any (IsCandidate flow r) cls.tables → ⊥
IsHighest cls flow (some best) =
    Any (IsCandidate flow best) cls.tables
    × ((r : ClsRule) → Any (IsCandidate flow r) cls.tables → r.priority ≤ best.priority)

-- A rule of a chain matches what the head matches, and has no higher priority.
chain-Head :
    (mask : Minimask) (flow : Flow) (r : ClsRule) (c : Chain)
    → IsChain c
    → InChain r c
    → Matches mask flow r
    → Head (λ h. Matches mask flow h × (r.priority ≤ h.priority)) c
chain-Head mask flow r [] v a m = absurd a
chain-Head mask flow r (h ∷ c) v (inl p) m = (rw p m, rw p (omega arith))
chain-Head mask flow r (h ∷ c) v (inr p) m = Any-elim c below v.0 p
  where
    below :
        (s : ClsRule)
        → (s.priority < h.priority) × (s.match.flow ≡ h.match.flow)
        → s ≡ r
        → Matches mask flow h × (r.priority ≤ h.priority)
    below s (lt, same) e =
        (rw (← same, ap (λ (x : ClsRule). x.match.flow) e) m, rw (← e) (omega arith))

-- The head of a matching rule's chain.
candidate-Head :
    (mask : Minimask) (flow : Flow) (r : ClsRule) (cs : List Chain)
    → All IsChain cs
    → Any (InChain r) cs
    → Matches mask flow r
    → (h : ClsRule) × Any (Head (λ x. x ≡ h)) cs × Matches mask flow h × (r.priority ≤ h.priority)
candidate-Head mask flow r [] v a m = absurd a
candidate-Head mask flow r ([] ∷ cs) v (inl a) m = absurd a
candidate-Head mask flow r ((h ∷ c) ∷ cs) v (inl a) m =
    let (p, q) = chain-Head mask flow r (h ∷ c) v.0 a m in (h, inl refl, p, q)
candidate-Head mask flow r (c ∷ cs) v (inr a) m =
    let (h, b, p, q) = candidate-Head mask flow r cs v.1 a m in (h, inr b, p, q)

-- The table of a matching rule answers with a rule that is at least as high.
candidate-answer :
    (t : ClsTable) (flow : Flow) (r best : ClsRule)
    → IsTable t
    → IsCandidate flow r t
    → AtMost (find_match t flow) best
    → r.priority ≤ best.priority
candidate-answer t flow r best v (a, m) le =
    let (h, b, n, up) = candidate-Head t.mask flow r t.rules v.rules.chains a m in
    let le' : h.priority ≤ best.priority = rw (find_match_unique t flow h v b n) at le in
    omega arith

candidate_found :
    (t : ClsTable) (flow : Flow) (r : ClsRule)
    → IsTable t
    → IsCandidate flow r t
    → find_match t flow ≡ none
    → ⊥
candidate_found t flow r v (a, m) e =
    let (h, b, n, up) = candidate-Head t.mask flow r t.rules v.rules.chains a m in
    let found = find_match_unique t flow h v b n in cc

Head-in : (r : ClsRule) (c : Chain) → Head (λ h. h ≡ r) c → InChain r c
Head-in r [] p = p
Head-in r (h ∷ c) p = inl p

heads_in : (r : ClsRule) (cs : List Chain) → Any (Head (λ h. h ≡ r)) cs → Any (InChain r) cs
heads_in r [] a = absurd a
heads_in r (c ∷ cs) (inl a) = inl (Head-in r c a)
heads_in r (c ∷ cs) (inr a) = inr (heads_in r cs a)

answer-IsHighest :
    (cls : Classifier) (flow : Flow) (o : Option ClsRule)
    → IsClassifier cls
    → IsAnswer cls.tables flow o
    → IsHighest cls flow o
answer-IsHighest cls flow none v a = λ r c. nowhere r cls.tables v.tables a c
  where
    nowhere :
        (r : ClsRule) (ts : List ClsTable)
        → All IsTable ts
        → All (λ t. find_match t flow ≡ none) ts
        → Any (IsCandidate flow r) ts
        → ⊥
    nowhere r [] x y z = z
    nowhere r (t ∷ ts) x y (inl z) = candidate_found t flow r x.0 z y.0
    nowhere r (t ∷ ts) x y (inr z) = nowhere r ts x.1 y.1 z
answer-IsHighest cls flow (some best) v a =
    (there cls.tables a.1, λ r c. highest r cls.tables v.tables a.0 c)
  where
    there :
        (ts : List ClsTable)
        → Any (λ t. find_match t flow ≡ some best) ts
        → Any (IsCandidate flow best) ts
    there [] z = z
    there (t ∷ ts) (inl e) =
        let (m, b) = find_match-found t flow best e in inl (heads_in best t.rules b, m)
    there (t ∷ ts) (inr z) = inr (there ts z)

    highest :
        (r : ClsRule) (ts : List ClsTable)
        → All IsTable ts
        → All (λ t. AtMost (find_match t flow) best) ts
        → Any (IsCandidate flow r) ts
        → r.priority ≤ best.priority
    highest r [] x y z = absurd z
    highest r (t ∷ ts) x y (inl z) = candidate-answer t flow r best x.0 z y.0
    highest r (t ∷ ts) x y (inr z) = highest r ts x.1 y.1 z

-- In a well-formed classifier, classifier_lookup returns a rule of the classifier that matches the
-- packet and has the highest priority among the rules that do, and none only if no rule matches.
pub classifier_lookup-IsHighest :
    (cls : Classifier) (flow : Flow) (wc : Option Wildcards)
    → IsClassifier cls
    → IsHighest cls flow (classifier_lookup cls flow wc).0
unfolding classifier_lookup
classifier_lookup-IsHighest cls flow wc v =
    answer-IsHighest cls flow _ v (lookup_first-IsAnswer cls.tables flow wc v.tables v.sorted)
