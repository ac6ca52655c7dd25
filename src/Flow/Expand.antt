-- ===== src/Flow/Expand.antt =====
-- A compressed flow has the words of the flow that it was made from, and expands to it.
use ovs_sgx.Prelude.{ℕ, zero, suc, ◌≡◌, refl, ap, List, [], ◌∷◌, length, get_or, arith}
use ovs_sgx.Prelude.Bits.{zero-or}
use ovs_sgx.Flow.{
  Flow, Miniflow, popcount, first_words, miniflow_init, miniflow_get, flow_union_with_miniflow,
  miniflow_expand, miniflow_clone,
}

-- The values are as many as the set bits.
abbrev pub IsWellFormed : Miniflow → Type 0
IsWellFormed f = length f.values ≡ popcount f.map

pub miniflow_init-IsWellFormed : (f : Flow) → IsWellFormed (miniflow_init f)
unfolding miniflow_init popcount
miniflow_init-IsWellFormed [] = refl
miniflow_init-IsWellFormed (w ∷ ws) = ground (arith, miniflow_init-IsWellFormed ws)

-- The words of a compressed flow are those of the flow, and zero past its end.
pub miniflow_get-init : (f : Flow) (i : ℕ) → miniflow_get (miniflow_init f) i ≡ get_or f i 0
unfolding miniflow_get miniflow_init
miniflow_get-init [] i = refl
miniflow_get-init (w ∷ ws) zero = ground arith
miniflow_get-init (w ∷ ws) (suc i) = ground (arith, miniflow_get-init ws i)

-- Compressing a flow and expanding it gives the flow.
pub expand-init : (f : Flow) → miniflow_expand (length f) (miniflow_init f) ≡ f
unfolding miniflow_expand flow_union_with_miniflow miniflow_init
expand-init [] = refl
expand-init (w ∷ ws) = ground (arith, expand-init ws, zero-or w)

first_words_all : (n : ℕ) (vs : List ℕ) → length vs ≡ n → first_words n vs ≡ vs
unfolding first_words
first_words_all zero [] h = refl
first_words_all zero (v ∷ vs) h = absurd (omega arith)
first_words_all (suc n) [] h = refl
first_words_all (suc n) (v ∷ vs) h = ap (◌∷◌ v) (first_words_all n vs (omega arith))

-- A clone of a well-formed compressed flow is the same flow.
pub miniflow_clone_lem : (f : Miniflow) → IsWellFormed f → miniflow_clone f ≡ f
unfolding miniflow_clone
miniflow_clone_lem f h =
    λ i. record { map = f.map; values = first_words_all (popcount f.map) f.values h i }
