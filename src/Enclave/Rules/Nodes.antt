-- ===== src/Enclave/Rules/Nodes.antt =====
-- The nodes of the map from untrusted addresses to trusted rules, through an insertion that expands the
-- map.
use ovs_sgx.Prelude.{
  ℕ, ◌≡◌, ◌≢◌, refl, ap, ◌∙◌, inl, inr, false, Option, none, some, List, [], ◌∷◌, ◌==◌, ◌&&◌, ◌/◌,
  ltb, length, ==_iff, ==_refl, Bool-cases, All, arith,
}
use ovs_sgx.HashMap.{calc_mask}
use ovs_sgx.Enclave.Rules.{first_with_hash, unlink, reinsert, grown}

-- No two nodes have the same hash.
abbrev pub Distinct : List (ℕ × ℕ) → Type 0
Distinct [] = Unit
Distinct ((h, a) ∷ nodes) = (first_with_hash h nodes ≡ none) × Distinct nodes

abbrev or_found : Option ℕ → Option ℕ → Option ℕ
or_found none p = p
or_found (some a) p = some a

reinsert-found :
    (hash : ℕ) (nodes tmp : List (ℕ × ℕ))
    → Distinct nodes
    → first_with_hash hash (reinsert nodes tmp)
      ≡ or_found (first_with_hash hash nodes) (first_with_hash hash tmp)
unfolding reinsert first_with_hash
reinsert-found hash [] tmp d = refl
reinsert-found hash ((h, a) ∷ nodes) tmp (n, d) = elim (Bool-cases (h == hash)) [
  | inl e ↦
      let same : h ≡ hash = (==_iff h hash).0 e in
      let missing : first_with_hash hash nodes ≡ none = rw same at n in
      reinsert-found hash nodes ((h, a) ∷ tmp) d ∙ rw (e, missing) refl
  | inr e ↦ reinsert-found hash nodes ((h, a) ∷ tmp) d ∙ rw e refl
]

or_found-none : (o : Option ℕ) → or_found o none ≡ o
or_found-none none = refl
or_found-none (some a) = refl

pub reinsert_all-found :
    (hash : ℕ) (nodes : List (ℕ × ℕ))
    → Distinct nodes
    → first_with_hash hash (reinsert nodes []) ≡ first_with_hash hash nodes
unfolding first_with_hash
reinsert_all-found hash nodes d =
    reinsert-found hash nodes [] d ∙ or_found-none (first_with_hash hash nodes)

-- Expanding the map changes no answer.
pub grown-found :
    (mask hash : ℕ) (nodes : List (ℕ × ℕ))
    → Distinct nodes
    → first_with_hash hash (grown mask nodes).0 ≡ first_with_hash hash nodes
unfolding grown
grown-found mask hash nodes d =
    elim (Bool-cases (ltb mask (length nodes / 2) && ltb mask (calc_mask (length nodes)))) [
      | inl e ↦ rw e (reinsert_all-found hash nodes d)
      | inr e ↦ rw e refl
    ]

-- Hashes that are not among `tmp`
abbrev Apart : List (ℕ × ℕ) → List (ℕ × ℕ) → Type 0
Apart nodes tmp = All (λ (n : ℕ × ℕ). first_with_hash n.0 tmp ≡ none) nodes

Apart-more :
    (h a : ℕ) (nodes tmp : List (ℕ × ℕ))
    → first_with_hash h nodes ≡ none
    → Apart nodes tmp
    → Apart nodes ((h, a) ∷ tmp)
unfolding first_with_hash
Apart-more h a [] tmp q r = tt
Apart-more h a ((k, x) ∷ nodes) tmp q (r, rs) = elim (Bool-cases (k == h)) [
  | inl e ↦ absurd (ground (arith, e))
  | inr e ↦
      let other : (h == k) ≡ false = ground arith in
      (rw other r, Apart-more h a nodes tmp (rw e at q) rs)
]

reinsert-Distinct :
    (nodes tmp : List (ℕ × ℕ))
    → Distinct nodes
    → Distinct tmp
    → Apart nodes tmp
    → Distinct (reinsert nodes tmp)
unfolding reinsert
reinsert-Distinct [] tmp d t p = t
reinsert-Distinct ((h, a) ∷ nodes) tmp (n, d) t (p, ps) =
    reinsert-Distinct nodes ((h, a) ∷ tmp) d (p, t) (Apart-more h a nodes tmp n ps)

Apart-nil : (nodes : List (ℕ × ℕ)) → Apart nodes []
unfolding first_with_hash
Apart-nil [] = tt
Apart-nil (n ∷ nodes) = (refl, Apart-nil nodes)

pub grown-Distinct :
    (mask : ℕ) (nodes : List (ℕ × ℕ)) → Distinct nodes → Distinct (grown mask nodes).0
unfolding grown
grown-Distinct mask nodes d =
    elim (Bool-cases (ltb mask (length nodes / 2) && ltb mask (calc_mask (length nodes)))) [
      | inl e ↦ rw e (reinsert-Distinct nodes [] d tt (Apart-nil nodes))
      | inr e ↦ rw e d
    ]

-- No node is at the address.
abbrev pub Unused : ℕ → List (ℕ × ℕ) → Type 0
Unused a nodes = All (λ (n : ℕ × ℕ). n.1 ≢ a) nodes

unlink-reinsert :
    (a : ℕ) (nodes tmp : List (ℕ × ℕ))
    → Unused a nodes
    → unlink a (reinsert nodes tmp) ≡ reinsert nodes (unlink a tmp)
unfolding unlink reinsert
unlink-reinsert a [] tmp u = refl
unlink-reinsert a ((h, x) ∷ nodes) tmp (p, u) = elim (Bool-cases (x == a)) [
  | inl e ↦ absurd (p ((==_iff x a).0 e))
  | inr e ↦ unlink-reinsert a nodes ((h, x) ∷ tmp) u ∙ rw e refl
]

-- Taking the node out again that was inserted gives the old answers.
pub unlink-grown :
    (mask hash h a : ℕ) (nodes : List (ℕ × ℕ))
    → Distinct nodes
    → Unused a nodes
    → first_with_hash hash (unlink a (grown mask ((h, a) ∷ nodes)).0) ≡ first_with_hash hash nodes
unfolding grown unlink reinsert
unlink-grown mask hash h a nodes d u =
    elim (Bool-cases
      (ltb mask (length ((h, a) ∷ nodes) / 2) && ltb mask (calc_mask (length ((h, a) ∷ nodes))))) [
        | inl e ↦ rw e (
            ap (first_with_hash hash)
              (unlink-reinsert a nodes ((h, a) ∷ []) u ∙ rw (==_refl a) refl)
            ∙ reinsert_all-found hash nodes d)
        | inr e ↦ rw (e, ==_refl a) refl
      ]
