-- ===== src/Classifier/FindMatch.antt =====
-- find_match finds the head that matches a packet, exactly when there is one.
use ovs_sgx.Prelude.{
  ◌≡◌, ◌∙◌, sym, ap, refl, Bool, true, false, ◌&&◌, some, ◌⊎◌, inl, inr, List, [], ◌∷◌, All, Any,
  All-Any, Any-elim, arith, Bool-cases, ◌==◌, ==_refl,
}
use ovs_sgx.Flow.{
  Flow, Minimask, miniflow_equal_flow_in_minimask, miniflow_hash_in_minimask, flow_hash_in_minimask,
}
use ovs_sgx.Flow.Masked.{hash-equal_in_minimask}
use ovs_sgx.Classifier.Data.{ClsRule, Chain, ClsTable, find_chain, head_of, find_match}
use ovs_sgx.Classifier.Invariant.{Head, Matches, IsApart, IsDistinct, IsTable}

-- The head of the chain that the search returns passes the test, and is the head of a chain.
find_chain-found :
    (test : ClsRule → Bool) (cs : List Chain) (r : ClsRule)
    → head_of (find_chain test cs) ≡ some r
    → (test r ≡ true) × Any (Head (λ h. h ≡ r)) cs
unfolding find_chain head_of
find_chain-found test [] r h = cc
find_chain-found test ([] ∷ cs) r h = let (p, q) = find_chain-found test cs r h in (p, inr q)
find_chain-found test ((head ∷ rest) ∷ cs) r h = elim (Bool-cases (test head)) [
  | inl e ↦
      let h' : head_of (some (head ∷ rest)) ≡ some r = rw e at h in
      let same : head ≡ r = cc in (ap test (sym same) ∙ e, inl same)
  | inr e ↦ let (p, q) = find_chain-found test cs r (rw e at h) in (p, inr q)
]

-- Where some head passes the test, the search returns a chain.
find_chain-finds :
    (test : ClsRule → Bool) (cs : List Chain)
    → Any (Head (λ h. test h ≡ true)) cs
    → (r : ClsRule) × (head_of (find_chain test cs) ≡ some r)
unfolding find_chain head_of
find_chain-finds test [] a = absurd a
find_chain-finds test ([] ∷ cs) (inl a) = absurd a
find_chain-finds test ([] ∷ cs) (inr a) = find_chain-finds test cs a
find_chain-finds test ((head ∷ rest) ∷ cs) a = elim (Bool-cases (test head)) [
  | inl e ↦ (head, rw e refl)
  | inr e ↦ rw e (find_chain-finds test cs (later a e))
]
  where
    later :
        (test head ≡ true) ⊎ Any (Head (λ h. test h ≡ true)) cs
        → test head ≡ false
        → Any (Head (λ h. test h ≡ true)) cs
    later (inl p) e = cc
    later (inr p) e = p

and_parts : (a b : Bool) → (a && b) ≡ true → (a ≡ true) × (b ≡ true)
and_parts a b h = (ground arith, ground arith)

-- A rule that find_match returns heads a chain of the table and matches the packet.
pub find_match-found :
    (t : ClsTable) (flow : Flow) (r : ClsRule)
    → find_match t flow ≡ some r
    → Matches t.mask flow r × Any (Head (λ h. h ≡ r)) t.rules
unfolding find_match
find_match-found t flow r h =
    let (p, q) = find_chain-found _ t.rules r h in ((and_parts _ _ p).1, q)

-- If a head of the table matches the packet, find_match returns a rule.
pub find_match-finds :
    (t : ClsTable) (flow : Flow)
    → IsTable t
    → Any (Head (Matches t.mask flow)) t.rules
    → (r : ClsRule) × (find_match t flow ≡ some r)
unfolding find_match
find_match-finds t flow v a = find_chain-finds _ t.rules (All-Any t.rules pass v.rules.hashed a)
  where
    pass :
        (c : Chain)
        → Head (λ r. r.hash ≡ miniflow_hash_in_minimask r.match.flow t.mask 0) c
        → Head (Matches t.mask flow) c
        → Head
            (λ h.
              (h.hash == flow_hash_in_minimask flow t.mask 0
                && miniflow_equal_flow_in_minimask h.match.flow flow t.mask)
              ≡ true)
            c
    pass [] p q = p
    pass (head ∷ rest) p q =
        let e = p ∙ hash-equal_in_minimask head.match.flow flow t.mask 0 q in
        rw (e, ==_refl, q) refl

apart_from :
    (mask : Minimask) (flow : Flow) (c : Chain) (cs : List Chain) (a b : ClsRule)
    → All (IsApart mask c) cs
    → Head (λ h. h ≡ a) c
    → Any (Head (λ h. h ≡ b)) cs
    → Matches mask flow a
    → Matches mask flow b
    → ⊥
apart_from mask flow [] cs a b v p q m n = p
apart_from mask flow (head ∷ rest) cs a b v p q m n = Any-elim cs differ v q
  where
    differ : (d : Chain) → IsApart mask (head ∷ rest) d → Head (λ h. h ≡ b) d → ⊥
    differ [] x y = y
    differ (other ∷ others) x y = x flow (rw (← p) at m) (rw (← y) at n)

-- No two heads of a table match one packet.
unique_match :
    (mask : Minimask) (flow : Flow) (cs : List Chain) (a b : ClsRule)
    → IsDistinct mask cs
    → Any (Head (λ h. h ≡ a)) cs
    → Any (Head (λ h. h ≡ b)) cs
    → Matches mask flow a
    → Matches mask flow b
    → a ≡ b
unique_match mask flow [] a b v p q m n = absurd p
unique_match mask flow ([] ∷ cs) a b v (inl p) q m n = absurd p
unique_match mask flow ([] ∷ cs) a b v (inr p) (inl q) m n = absurd q
unique_match mask flow ((h ∷ c) ∷ cs) a b v (inl p) (inl q) m n = sym p ∙ q
unique_match mask flow ((h ∷ c) ∷ cs) a b v (inl p) (inr q) m n =
    absurd (apart_from mask flow (h ∷ c) cs a b v.0 p q m n)
unique_match mask flow ((h ∷ c) ∷ cs) a b v (inr p) (inl q) m n =
    absurd (apart_from mask flow (h ∷ c) cs b a v.0 q p n m)
unique_match mask flow (c ∷ cs) a b v (inr p) (inr q) m n =
    unique_match mask flow cs a b v.1 p q m n

-- find_match returns the one head of a well-formed table that matches the packet.
pub find_match_unique :
    (t : ClsTable) (flow : Flow) (r : ClsRule)
    → IsTable t
    → Any (Head (λ h. h ≡ r)) t.rules
    → Matches t.mask flow r
    → find_match t flow ≡ some r
find_match_unique t flow r v a m =
    let (found, e) = find_match-finds t flow v (All-Any t.rules matching (whole t.rules) a) in
    let (n, b) = find_match-found t flow found e in
    e ∙ ap some (unique_match t.mask flow t.rules found r v.rules.distinct b a n m)
  where
    whole : (cs : List Chain) → All (λ c. Unit {0}) cs
    whole [] = tt
    whole (c ∷ cs) = (tt, whole cs)

    matching : (c : Chain) → Unit {0} → Head (λ h. h ≡ r) c → Head (Matches t.mask flow) c
    matching [] u p = p
    matching (head ∷ rest) u p = rw p m
