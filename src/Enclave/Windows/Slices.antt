-- ===== src/Enclave/Windows/Slices.antt =====
-- The piece of the rules that ecall_oftable_get_cls_rules hands out.
use ovs_sgx.Prelude.{
  ℕ, zero, suc, ◌+◌, ◌-◌, ◌≡◌, ◌∙◌, sym, refl, Option, none, some, List, [], ◌∷◌, arith, length,
  take, drop, take-nil,
}
use ovs_sgx.Enclave.State.{Bridge}
use ovs_sgx.Classifier.{cls_cursor_rules}
use ovs_sgx.Enclave.Collect.{o_cls_rules}
use ovs_sgx.Enclave.Windows.{is_outside, window, ecall_oftable_get_cls_rules}

-- The rules up to an end; -1 is no end.
abbrev pub take_end : Option ℕ → List ℕ → List ℕ
take_end none xs = xs
take_end (some end) xs = take end xs

window-total :
    (start : ℕ) (end : Option ℕ) (size n i : ℕ) (xs : List ℕ)
    → (window start end size n i xs).1 ≡ i + length xs
unfolding window
window-total start end size n i [] = omega arith
window-total start end size n i (x ∷ xs) = ground (
  arith,
  window-total start end size n (i + 1) xs,
  window-total start end size (n + 1) (i + 1) xs,
)

nothing : (k s : ℕ) (e : Option ℕ) → take k (drop s (take_end e [])) ≡ []
nothing zero s e = refl
nothing (suc k) zero none = refl
nothing (suc k) zero (some zero) = refl
nothing (suc k) zero (some (suc e)) = refl
nothing (suc k) (suc s) none = refl
nothing (suc k) (suc s) (some zero) = refl
nothing (suc k) (suc s) (some (suc e)) = refl

module _ (start size : ℕ) where
  -- With no end: `s` rules are still to be skipped, and `k` still fit.
  open_slice :
      (n i k s : ℕ) (xs : List ℕ)
      → n + k ≡ size
      → start - i ≡ s
      → (window start none size n i xs).0 ≡ take k (drop s xs)
  unfolding window is_outside
  open_slice n i k s [] p q = sym (nothing k s none)
  open_slice n i k (suc s) (x ∷ xs) p q = ground (arith, open_slice n (i + 1) k s xs p)
  open_slice n i zero zero (x ∷ xs) p q = ground (arith, open_slice n (i + 1) zero zero xs p)
  open_slice n i (suc k) zero (x ∷ xs) p q = ground (arith, open_slice (n + 1) (i + 1) k zero xs)

  -- With an end, `e` rules ahead.
  closed_slice :
      (end n i k s e : ℕ) (xs : List ℕ)
      → n + k ≡ size
      → start - i ≡ s
      → end - i ≡ e
      → (window start (some end) size n i xs).0 ≡ take k (drop s (take e xs))
  unfolding window is_outside
  closed_slice end n i k s e [] p q r = sym (nothing k s (some e))
  closed_slice end n i k (suc s) (suc e) (x ∷ xs) p q r =
      ground (arith, closed_slice end n (i + 1) k s e xs p)
  closed_slice end n i k (suc s) zero (x ∷ xs) p q r =
      ground (
        arith,
        closed_slice end n (i + 1) k s zero xs p,
        nothing k s (some zero),
        take-nil {A = ℕ} k,
      )
  closed_slice end n i k zero zero (x ∷ xs) p q r =
      ground (arith, closed_slice end n (i + 1) k zero zero xs p)
  closed_slice end n i zero zero (suc e) (x ∷ xs) p q r =
      ground (arith, closed_slice end n (i + 1) zero zero e xs p)
  closed_slice end n i (suc k) zero (suc e) (x ∷ xs) p q r =
      ground (arith, closed_slice end (n + 1) (i + 1) k zero e xs)

  window-slice :
      (end : Option ℕ) (xs : List ℕ)
      → (window start end size 0 0 xs).0 ≡ take size (drop start (take_end end xs))
  window-slice none xs = open_slice 0 0 size start xs (omega arith) (omega arith)
  window-slice (some end) xs =
      closed_slice end 0 0 size start end xs (omega arith) (omega arith) (omega arith)

-- The rules of a table, in the cursor's order.
abbrev pub table_rules : Bridge → ℕ → List ℕ
table_rules b id = o_cls_rules b (cls_cursor_rules (b.oftables id).cls none)

-- ecall_oftable_get_cls_rules writes the rules of the table from the start index up to the end
-- index, as many as the buffer holds, in the cursor's order, and counts all the rules of the table.
pub get_cls_rules-slice :
    (b : Bridge) (id start : ℕ) (end : Option ℕ) (size : ℕ)
    → ((ecall_oftable_get_cls_rules b id start end size).0
        ≡ take size (drop start (take_end end (table_rules b id))))
      × ((ecall_oftable_get_cls_rules b id start end size).1 ≡ length (table_rules b id))
unfolding ecall_oftable_get_cls_rules
get_cls_rules-slice b id start end size = (
  window-slice start size end (table_rules b id),
  window-total start end size 0 0 (table_rules b id) ∙ omega arith,
)
