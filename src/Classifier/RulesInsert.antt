-- ===== src/Classifier/RulesInsert.antt =====
-- The rules of a table after insert_rule of classifier.c.
use ovs_sgx.Prelude.{◌<◌, ◌≡◌, ◌∙◌, Bool-cases, inl, inr, true, List, [], ◌∷◌, All, leb, ltb, ◌==◌}
use ovs_sgx.Flow.{Flow, Minimask, miniflow_hash_in_minimask}
use ovs_sgx.Flow.Expand.{IsWellFormed}
use ovs_sgx.Classifier.Data.{ClsRule, Chain, is_equal}
use ovs_sgx.Classifier.Insert.{insert_in_chain, insert_in_rules}
use ovs_sgx.Classifier.Invariant.{Head, Matches, IsNormal, IsChain, IsApart, IsDistinct, AreRules}
use ovs_sgx.Classifier.ChainInsert.{insert_in_chain-IsChain}
use ovs_sgx.Classifier.Twins.{passed-IsApart, found-twin}

-- The head of the chain afterwards is the old head or the new rule.
pub insert_in_chain-Head :
    (P : ClsRule → Type 0) (new head : ClsRule) (rest : Chain)
    → P new
    → P head
    → Head P (insert_in_chain new (head ∷ rest)).0
unfolding insert_in_chain
insert_in_chain-Head P new head [] p q = elim (Bool-cases (leb head.priority new.priority)) [
  | inl e ↦ elim (Bool-cases (new.priority == head.priority)) [
    | inl f ↦ rw (e, f) p
    | inr f ↦ rw (e, f) p
  ]
  | inr e ↦ rw e q
]
insert_in_chain-Head P new head (next ∷ rest) p q =
    elim (Bool-cases (leb head.priority new.priority)) [
      | inl e ↦ elim (Bool-cases (new.priority == head.priority)) [
        | inl f ↦ rw (e, f) p
        | inr f ↦ rw (e, f) p
      ]
      | inr e ↦ elim (Bool-cases (ltb next.priority head.priority)) [
        | inl f ↦ rw (e, f) q
        | inr f ↦ rw (e, f) q
      ]
    ]

pub insert_in_rules-All :
    (Q : Chain → Type 0) (new : ClsRule) (cs : List Chain)
    → Q (new ∷ [])
    → ((head : ClsRule) (rest : Chain)
        → is_equal new.match.flow new.hash head ≡ true
        → Q (head ∷ rest)
        → Q (insert_in_chain new (head ∷ rest)).0)
    → All Q cs
    → All Q (insert_in_rules new cs).0
unfolding insert_in_rules
insert_in_rules-All Q new [] n f a = (n, tt)
insert_in_rules-All Q new ([] ∷ cs) n f a = (a.0, insert_in_rules-All Q new cs n f a.1)
insert_in_rules-All Q new ((head ∷ rest) ∷ cs) n f a =
    elim (Bool-cases (is_equal new.match.flow new.hash head)) [
      | inl e ↦ rw e (f head rest e a.0, a.1)
      | inr e ↦ rw e (a.0, insert_in_rules-All Q new cs n f a.1)
    ]

-- What a chain of a table is, by itself.
pub record IsGood (mask : Minimask) (c : Chain) : Type 0 where
  pub chain : IsChain c
  pub hashed : Head (λ r. r.hash ≡ miniflow_hash_in_minimask r.match.flow mask 0) c
  pub normal : Head (IsNormal mask) c

IsGood-chains : (mask : Minimask) (cs : List Chain) → AreRules mask cs → All (IsGood mask) cs
IsGood-chains mask cs v = zip cs v.chains v.hashed v.normal
  where
    zip :
        (cs : List Chain)
        → All IsChain cs
        → All (Head (λ r. r.hash ≡ miniflow_hash_in_minimask r.match.flow mask 0)) cs
        → All (Head (IsNormal mask)) cs
        → All (IsGood mask) cs
    zip [] x y z = tt
    zip (c ∷ cs) x y z = (record { chain = x.0; hashed = y.0; normal = z.0 }, zip cs x.1 y.1 z.1)

good_rules :
    (mask : Minimask) (cs : List Chain)
    → All (IsGood mask) cs
    → IsDistinct mask cs
    → AreRules mask cs
good_rules mask cs v d = record {
  chains = chains cs v;
  hashed = hashed cs v;
  normal = normal cs v;
  distinct = d;
}
  where
    chains : (cs : List Chain) → All (IsGood mask) cs → All IsChain cs
    chains [] v = tt
    chains (c ∷ cs) v = (v.0.chain, chains cs v.1)

    hashed :
        (cs : List Chain)
        → All (IsGood mask) cs
        → All (Head (λ r. r.hash ≡ miniflow_hash_in_minimask r.match.flow mask 0)) cs
    hashed [] v = tt
    hashed (c ∷ cs) v = (v.0.hashed, hashed cs v.1)

    normal : (cs : List Chain) → All (IsGood mask) cs → All (Head (IsNormal mask)) cs
    normal [] v = tt
    normal (c ∷ cs) v = (v.0.normal, normal cs v.1)

module _ (mask : Minimask) (new : ClsRule) (w : IsWellFormed mask) (m : IsNormal mask new)
    (h : new.hash ≡ miniflow_hash_in_minimask new.match.flow mask 0) where
  -- The rules of the chain that find_equal found match what the new rule matches.
  twins :
      (head : ClsRule) (rest : Chain)
      → head.match.flow ≡ new.match.flow
      → All (λ s. (s.priority < head.priority) × (s.match.flow ≡ head.match.flow)) rest
      → All (λ s. s.match.flow ≡ new.match.flow) rest
  twins head [] e v = tt
  twins head (s ∷ rest) e v = (v.0.1 ∙ e, twins head rest e v.1)

  insert_in_chain-IsGood :
      (head : ClsRule) (rest : Chain)
      → is_equal new.match.flow new.hash head ≡ true
      → IsGood mask (head ∷ rest)
      → IsGood mask (insert_in_chain new (head ∷ rest)).0
  insert_in_chain-IsGood head rest e v =
      let twin = found-twin mask new head m v.normal e in
      record {
        chain =
            insert_in_chain-IsChain new (head ∷ rest) v.chain
              (twin, twins head rest twin v.chain.0);
        hashed = insert_in_chain-Head _ new head rest h v.hashed;
        normal = insert_in_chain-Head (IsNormal mask) new head rest m v.normal;
      }

  -- A chain apart from another one is apart from it after the insertion.
  IsApart-before :
      (head : ClsRule) (rest d : Chain)
      → head.match.flow ≡ new.match.flow
      → IsApart mask (head ∷ rest) d
      → IsApart mask (insert_in_chain new (head ∷ rest)).0 d
  IsApart-before head rest d twin a =
      insert_in_chain-Head (λ x. Head (λ b. (f : Flow) → Matches mask f x → Matches mask f b → ⊥) d)
        new head rest (moved d a) a
    where
      moved :
          (d : Chain)
          → Head (λ b. (f : Flow) → Matches mask f head → Matches mask f b → ⊥) d
          → Head (λ b. (f : Flow) → Matches mask f new → Matches mask f b → ⊥) d
      moved [] a = a
      moved (b ∷ d) a = λ f p q. a f (rw twin p) q

  IsApart-after :
      (head : ClsRule) (rest d : Chain)
      → head.match.flow ≡ new.match.flow
      → IsApart mask d (head ∷ rest)
      → IsApart mask d (insert_in_chain new (head ∷ rest)).0
  IsApart-after head rest [] twin a = a
  IsApart-after head rest (b ∷ d) twin a =
      insert_in_chain-Head (λ x. (f : Flow) → Matches mask f b → Matches mask f x → ⊥) new head rest
        (λ f p q. a f p (rw twin q)) a

  rules-IsDistinct :
      (cs : List Chain)
      → All (IsGood mask) cs
      → IsDistinct mask cs
      → IsDistinct mask (insert_in_rules new cs).0
  unfolding insert_in_rules
  rules-IsDistinct [] v d = (tt, tt)
  rules-IsDistinct ([] ∷ cs) v d = absurd v.0.normal
  rules-IsDistinct ((head ∷ rest) ∷ cs) v d =
      elim (Bool-cases (is_equal new.match.flow new.hash head)) [
        | inl e ↦ rw e (apart_from_all cs (found-twin mask new head m v.0.normal e) d.0, d.1)
        | inr e ↦ rw e (
          still_apart cs v.1 d.0
              (λ f p q. passed-IsApart mask new head f w m v.0.normal h v.0.hashed e q p),
          rules-IsDistinct cs v.1 d.1,
        )
      ]
    where
      apart_from_all :
          (cs : List Chain)
          → head.match.flow ≡ new.match.flow
          → All (IsApart mask (head ∷ rest)) cs
          → All (IsApart mask (insert_in_chain new (head ∷ rest)).0) cs
      apart_from_all [] twin a = tt
      apart_from_all (d ∷ cs) twin a =
          (IsApart-before head rest d twin a.0, apart_from_all cs twin a.1)

      still_apart :
          (cs : List Chain)
          → All (IsGood mask) cs
          → All (IsApart mask (head ∷ rest)) cs
          → ((f : Flow) → Matches mask f head → Matches mask f new → ⊥)
          → All (IsApart mask (head ∷ rest)) (insert_in_rules new cs).0
      still_apart [] v a n = (n, tt)
      still_apart ([] ∷ cs) v a n = absurd v.0.normal
      still_apart ((other ∷ others) ∷ cs) v a n =
          elim (Bool-cases (is_equal new.match.flow new.hash other)) [
            | inl e ↦ rw e (
              IsApart-after other others (head ∷ rest) (found-twin mask new other m v.0.normal e)
                  a.0,
              a.1,
            )
            | inr e ↦ rw e (a.0, still_apart cs v.1 a.1 n)
          ]

  -- insert_rule keeps a table's chains ordered, hashed, normal and apart.
  pub insert_in_rules-AreRules :
      (cs : List Chain) → AreRules mask cs → AreRules mask (insert_in_rules new cs).0
  insert_in_rules-AreRules cs v =
      let good = IsGood-chains mask cs v in
      good_rules mask _
        (insert_in_rules-All (IsGood mask) new cs
          (record { chain = (tt, tt); hashed = h; normal = m }) insert_in_chain-IsGood good)
        (rules-IsDistinct cs good v.distinct)
