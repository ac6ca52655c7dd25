-- ===== src/Memory/Loops.antt =====
-- What the loops over the pages of OFTonSGX/trusted/shared-memory-trusted.c find.
use ovs_sgx.Prelude.{
  le_cases, ℕ, zero, suc, ◌+◌, ◌≤◌, ◌<◌, ◌≡◌, ◌⊎◌, inl, inr, refl, subst, Bool, true, false, Option,
  none, some, if◌then◌else◌, arith,
}
use ovs_sgx.Memory.{first_page_from, last_page_from}

pub if_some :
    (b : Bool) (i k : ℕ) (o : Option ℕ)
    → (if b then some i else o) ≡ some k
    → ((b ≡ true) × (i ≡ k)) ⊎ ((b ≡ false) × (o ≡ some k))
if_some true i k o e = inl (refl, ground arith)
if_some false i k o e = inr (refl, e)

pub if_none :
    (b : Bool) (i : ℕ) (o : Option ℕ) → (if b then some i else o) ≡ none → (b ≡ false) × (o ≡ none)
if_none true i o e = absurd (ground arith)
if_none false i o e = (refl, e)

-- What the two loops find.
pub first_page_from-passes :
    (test : ℕ → Bool) (n i k : ℕ)
    → first_page_from test n i ≡ some k
    → (test k ≡ true) × (i ≤ k) × (k < i + n)
unfolding first_page_from
first_page_from-passes test zero i k e = absurd (ground arith)
first_page_from-passes test (suc n) i k e =
    elim (if_some (test i) i k (first_page_from test n (suc i)) e) [
      | inl (t, same) ↦ (subst (λ j. test j ≡ true) same t, omega arith, omega arith)
      | inr (f, e') ↦
          let (t, p, q) = first_page_from-passes test n (suc i) k e' in
          (t, omega arith, omega arith)
    ]

pub first_page_from-none :
    (test : ℕ → Bool) (n i : ℕ)
    → first_page_from test n i ≡ none
    → (k : ℕ) → i ≤ k
    → k < i + n
    → test k ≡ false
unfolding first_page_from
first_page_from-none test zero i e k p q = absurd (omega arith)
first_page_from-none test (suc n) i e k p q =
    let (f, e') = if_none (test i) i (first_page_from test n (suc i)) e in
    elim (le_cases i k p) [
      | inl same ↦ subst (λ j. test j ≡ false) same f
      | inr lt ↦ first_page_from-none test n (suc i) e' k lt (omega arith)
    ]

pub first_page_from-fails :
    (test : ℕ → Bool) (n i : ℕ)
    → ((k : ℕ) → i ≤ k → k < i + n → test k ≡ false)
    → first_page_from test n i ≡ none
unfolding first_page_from
first_page_from-fails test zero i h = refl
first_page_from-fails test (suc n) i h =
    rw (h i (omega arith) (omega arith))
      (first_page_from-fails test n (suc i) (λ k p q. h k (omega arith) (omega arith)))

-- The last index that passes, or what was found before.
pub last_page_from-passes :
    (test : ℕ → Bool) (n i : ℕ) (found : Option ℕ) (k : ℕ)
    → last_page_from test n i found ≡ some k
    → ((test k ≡ true) × (k < i + n)) ⊎ (found ≡ some k)
unfolding last_page_from
last_page_from-passes test zero i found k e = inr e
last_page_from-passes test (suc n) i found k e =
    elim (last_page_from-passes test n (suc i) (if test i then some i else found) k e) [
      | inl (t, p) ↦ inl (t, omega arith)
      | inr f ↦ elim (if_some (test i) i k found f) [
        | inl (t, same) ↦ inl (subst (λ j. test j ≡ true) same t, omega arith)
        | inr (u, e') ↦ inr e'
      ]
    ]

pub last_page_from-none :
    (test : ℕ → Bool) (n i : ℕ) (found : Option ℕ)
    → last_page_from test n i found ≡ none
    → found ≡ none
unfolding last_page_from
last_page_from-none test zero i found e = e
last_page_from-none test (suc n) i found e =
    (if_none (test i) i found
      (last_page_from-none test n (suc i) (if test i then some i else found) e)).1

pub last_page_from-fails :
    (test : ℕ → Bool) (n i : ℕ)
    → ((k : ℕ) → i ≤ k → k < i + n → test k ≡ false)
    → last_page_from test n i none ≡ none
unfolding last_page_from
last_page_from-fails test zero i h = refl
last_page_from-fails test (suc n) i h =
    rw (h i (omega arith) (omega arith))
      (last_page_from-fails test n (suc i) (λ k p q. h k (omega arith) (omega arith)))
