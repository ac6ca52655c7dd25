-- ===== src/Flow/Combine.antt =====
-- The masks that minimask_combine and minimask_has_extra compute, word by word.
use native.Mathlib.Nat.{zero-add, add-zero}
use ovs_sgx.Prelude.{
  ℕ, zero, suc, ◌+◌, ◌≡◌, ◌∙◌, sym, ◌↔◌, refl, Bool, true, false, List, [], ◌∷◌, bit_and, arith,
  ◌&&◌, ◌||◌, if◌then◌else◌, Bool-cases, inl, inr,
}
use ovs_sgx.Prelude.Bits.{zero-and, and-zero}
use ovs_sgx.Flow.{Miniflow, Minimask, miniflow_get, get_bit}
use ovs_sgx.Flow.Masks.{combine_from, minimask_combine, extra_from, minimask_has_extra}
use ovs_sgx.Flow.Masked.{shift}

get-combine_from :
    (ofs : ℕ) (get : ℕ → ℕ) (xs ys : List Bool) (i : ℕ)
    → miniflow_get
        (record { map = (combine_from ofs get xs ys).0; values = (combine_from ofs get xs ys).1 })
        i
      ≡ (if get_bit xs i && get_bit ys i then get (ofs + i) else 0)
unfolding miniflow_get combine_from
get-combine_from ofs get [] ys i = refl
get-combine_from ofs get (x ∷ xs) [] i = ground arith
get-combine_from ofs get (x ∷ xs) (y ∷ ys) zero = rw add-zero (ground arith)
get-combine_from ofs get (x ∷ xs) (y ∷ ys) (suc i) =
    rw (← shift ofs i) (ground (arith, get-combine_from (ofs + 1) get xs ys i))

clear_bit : (a : Miniflow) (i : ℕ) → get_bit a.map i ≡ false → miniflow_get a i ≡ 0
unfolding miniflow_get
clear_bit a i h = rw h

either_clear :
    (p q : Bool) (x y : ℕ)
    → (p ≡ false → x ≡ 0)
    → (q ≡ false → y ≡ 0)
    → (if p && q then bit_and x y else 0) ≡ bit_and x y
either_clear true true x y h k = refl
either_clear true false x y h k = rw (k refl) (sym (and-zero x))
either_clear false q x y h k = rw (h refl) (sym (zero-and y))

-- A word of the combined mask is the conjunction of the two masks' words.
pub miniflow_get-combine :
    (a b : Minimask) (i : ℕ)
    → miniflow_get (minimask_combine a b) i ≡ bit_and (miniflow_get a i) (miniflow_get b i)
unfolding minimask_combine
miniflow_get-combine a b i =
    get-combine_from 0 (λ ofs. bit_and (miniflow_get a ofs) (miniflow_get b ofs)) a.map b.map i
    ∙ rw zero-add
        (either_clear (get_bit a.map i) (get_bit b.map i) _ _ (clear_bit a i) (clear_bit b i))

extra_from_none :
    (ofs : ℕ) (test : ℕ → Bool) (xs ys : List Bool)
    → extra_from ofs test xs ys ≡ false
    → (i : ℕ) → (get_bit xs i || get_bit ys i) ≡ true
    → test (ofs + i) ≡ false
unfolding extra_from get_bit
extra_from_none ofs test [] [] h i e = cc
extra_from_none ofs test (x ∷ xs) [] h zero e = rw add-zero (ground arith)
extra_from_none ofs test (x ∷ xs) [] h (suc i) e =
    rw (← shift ofs i) (extra_from_none (ofs + 1) test xs [] (ground arith) i e)
extra_from_none ofs test [] (y ∷ ys) h zero e = rw add-zero (ground arith)
extra_from_none ofs test [] (y ∷ ys) h (suc i) e =
    rw (← shift ofs i) (extra_from_none (ofs + 1) test [] ys (ground arith) i e)
extra_from_none ofs test (x ∷ xs) (y ∷ ys) h zero e = rw add-zero (ground arith)
extra_from_none ofs test (x ∷ xs) (y ∷ ys) h (suc i) e =
    rw (← shift ofs i) (extra_from_none (ofs + 1) test xs ys (ground arith) i e)

none-extra_from :
    (ofs : ℕ) (test : ℕ → Bool) (xs ys : List Bool)
    → ((i : ℕ) → test (ofs + i) ≡ false)
    → extra_from ofs test xs ys ≡ false
unfolding extra_from
none-extra_from ofs test [] [] h = refl
none-extra_from ofs test (x ∷ xs) [] h =
    ground (
      arith,
      rw add-zero at (h 0),
      none-extra_from (ofs + 1) test xs [] (λ i. rw shift (h (suc i))),
    )
none-extra_from ofs test [] (y ∷ ys) h =
    ground (
      arith,
      rw add-zero at (h 0),
      none-extra_from (ofs + 1) test [] ys (λ i. rw shift (h (suc i))),
    )
none-extra_from ofs test (x ∷ xs) (y ∷ ys) h =
    ground (
      arith,
      rw add-zero at (h 0),
      none-extra_from (ofs + 1) test xs ys (λ i. rw shift (h (suc i))),
    )

-- A mask has no extra wildcards over another exactly when each of its words has all the bits of the
-- other's word.
pub minimask_has_extra_iff :
    (a b : Minimask)
    → (minimask_has_extra a b ≡ false)
      ↔ ((i : ℕ) → bit_and (miniflow_get a i) (miniflow_get b i) ≡ miniflow_get b i)
unfolding minimask_has_extra
minimask_has_extra_iff a b = (
  λ h i. elim (Bool-cases (get_bit b.map i)) [
    | inr e ↦ rw (clear_bit b i e) (and-zero _)
    | inl e ↦
        let found : (get_bit a.map i || get_bit b.map i) ≡ true = ground arith in
        let t = rw zero-add at (extra_from_none 0 _ a.map b.map h i found) in ground arith
  ],
  λ h. none-extra_from 0 _ a.map b.map (λ i. rw (zero-add, h i) (ground arith)),
)
