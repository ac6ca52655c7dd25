-- ===== src/Flow/Equal.antt =====
-- miniflow_equal of flow.c compares compressed flows.
use ovs_sgx.Prelude.{
  ℕ, zero, suc, ◌≡◌, ◌∙◌, ◌↔◌, ◌⊎◌, sym, refl, ap, arith, Bool, Bool-cases, inl, inr, true, false,
  List, [], ◌∷◌, length, get_or, ◌==◌, ==_iff, ==_refl,
}
use ovs_sgx.Flow.{
  Flow, Miniflow, popcount, same_bits, same_words, miniflow_equal, miniflow_n_values,
}
use ovs_sgx.Flow.Expand.{IsWellFormed}

same_bits_refl : (m : List Bool) → same_bits m m ≡ true
unfolding same_bits
same_bits_refl [] = refl
same_bits_refl (true ∷ m) = same_bits_refl m
same_bits_refl (false ∷ m) = same_bits_refl m

same_bits-≡ : (m n : List Bool) → same_bits m n ≡ true → m ≡ n
unfolding same_bits
same_bits-≡ [] [] h = refl
same_bits-≡ [] (y ∷ n) h = cc
same_bits-≡ (x ∷ m) [] h = cc
same_bits-≡ (true ∷ m) (true ∷ n) h = ap (◌∷◌ true) (same_bits-≡ m n h)
same_bits-≡ (true ∷ m) (false ∷ n) h = cc
same_bits-≡ (false ∷ m) (true ∷ n) h = cc
same_bits-≡ (false ∷ m) (false ∷ n) h = ap (◌∷◌ false) (same_bits-≡ m n h)

same_words_refl : (n : ℕ) (vs : List ℕ) → length vs ≡ n → same_words n vs vs ≡ true
unfolding same_words
same_words_refl zero vs h = refl
same_words_refl (suc n) [] h = absurd (omega arith)
same_words_refl (suc n) (v ∷ vs) h = rw (==_refl v) (same_words_refl n vs (omega arith))

same_words-≡ :
    (n : ℕ) (vs us : List ℕ) → length vs ≡ n → length us ≡ n → same_words n vs us ≡ true → vs ≡ us
unfolding same_words
same_words-≡ zero [] [] p q h = refl
same_words-≡ zero [] (u ∷ us) p q h = absurd (omega arith)
same_words-≡ zero (v ∷ vs) us p q h = absurd (omega arith)
same_words-≡ (suc n) [] us p q h = absurd (omega arith)
same_words-≡ (suc n) (v ∷ vs) [] p q h = absurd (omega arith)
same_words-≡ (suc n) (v ∷ vs) (u ∷ us) p q h = elim (Bool-cases (v == u)) [
  | inl e ↦
      let same : v ≡ u = (==_iff v u).0 e in
      rw same (ap (◌∷◌ u) (same_words-≡ n vs us (omega arith) (omega arith) (rw e at h)))
  | inr e ↦ absurd (differ (rw e at h))
]
  where
    differ : false ≡ true → ⊥
    differ e = cc

same_flow : (a b : Miniflow) → a.map ≡ b.map → a.values ≡ b.values → a ≡ b
same_flow a b p q = λ i. record { map = p i; values = q i }

-- Two well-formed compressed flows are equal exactly when miniflow_equal says so.
pub miniflow_equal_iff :
    (a b : Miniflow) → IsWellFormed a → IsWellFormed b → (miniflow_equal a b ≡ true) ↔ (a ≡ b)
unfolding miniflow_equal miniflow_n_values
miniflow_equal_iff a b v w = (
  λ h. to h (Bool-cases (same_bits a.map b.map)),
  λ e. rw (← e, same_bits_refl a.map) (same_words_refl (popcount a.map) a.values v),
)
  where
    to :
        miniflow_equal a b ≡ true
        → (same_bits a.map b.map ≡ true) ⊎ (same_bits a.map b.map ≡ false)
        → a ≡ b
    to h (inl e) =
        let p = same_bits-≡ a.map b.map e in
        same_flow a b p
          (same_words-≡ (popcount a.map) a.values b.values v (w ∙ ap popcount (sym p)) (rw e at h))
    to h (inr e) = absurd (differ (rw e at h))
      where
        differ : false ≡ true → ⊥
        differ x = cc

pub flow_ext : (f g : Flow) → length f ≡ length g → ((i : ℕ) → get_or f i 0 ≡ get_or g i 0) → f ≡ g
flow_ext [] [] l h = refl
flow_ext [] (y ∷ g) l h = absurd (omega arith)
flow_ext (x ∷ f) [] l h = absurd (omega arith)
flow_ext (x ∷ f) (y ∷ g) l h =
    let p : x ≡ y = h 0 in rw p (ap (◌∷◌ y) (flow_ext f g (omega arith) (λ i. h (suc i))))
