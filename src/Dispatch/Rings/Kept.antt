-- ===== src/Dispatch/Rings/Kept.antt =====
-- The rings of scalars of OFTonSGX/untrusted/hotcall-untrusted.h over many puts: how long a slot keeps
-- its scalar.
use ovs_sgx.Prelude.{
  ℕ, ◌+◌, ◌%◌, ◌≤◌, ◌<◌, ◌≡◌, refl, ◌∙◌, List, [], ◌∷◌, ◌++◌, update_ne, sym, ◌≢◌, ◌-◌, length,
  arith,
}
use ovs_sgx.Dispatch.Rings.{Ring, slot_of, next}

-- One scalar after another is put into a ring.
unfoldable pub puts : Ring → List ℕ → Ring
puts r [] = r
puts r (x ∷ xs) = puts (next r x) xs

pub puts-append : (r : Ring) (xs ys : List ℕ) → puts r (xs ++ ys) ≡ puts (puts r xs) ys
unfolding puts
puts-append r [] ys = refl
puts-append r (x ∷ xs) ys = puts-append (next r x) xs ys

next_slot : (r : Ring) (x : ℕ) → r.idx ≤ 20 → slot_of (next r x) ≡ (slot_of r + 1) % 20
unfolding next
next_slot r x h = ground arith

slot-lt : (r : Ring) → r.idx ≤ 20 → slot_of r < 20
slot-lt r h = ground arith

pub next-idx : (r : Ring) (x : ℕ) → r.idx ≤ 20 → (next r x).idx ≤ 20
unfolding next
next-idx r x h = ground arith

own_slot : (r : Ring) (x : ℕ) → (next r x).cells (slot_of r) ≡ x
unfolding next
own_slot r x = ground arith

other_slot : (r : Ring) (x s : ℕ) → s ≢ slot_of r → (next r x).cells s ≡ r.cells s
unfolding next
other_slot r x s h = update_ne r.cells (slot_of r) s x (λ e. h (sym e))

-- A slot that is `d` puts ahead keeps its scalar through `d` puts.
ahead :
    (xs : List ℕ) (r : Ring) (s d : ℕ)
    → r.idx ≤ 20
    → d < 20
    → s ≡ (slot_of r + d) % 20
    → length xs ≤ d
    → (puts r xs).cells s ≡ r.cells s
unfolding puts
ahead [] r s d h l e n = refl
ahead (x ∷ xs) r s d h l e n =
    ahead xs (next r x) s (d - 1) (next-idx r x h) (omega arith)
      (omega (arith, next_slot r x h, slot-lt r h)) (omega arith)
    ∙ other_slot r x s (omega (arith, slot-lt r h))

-- A scalar that is put stays in its slot until twenty have been put.
pub puts_slot :
    (r : Ring) (x : ℕ) (xs : List ℕ)
    → r.idx ≤ 20
    → length (x ∷ xs) ≤ 20
    → (puts r (x ∷ xs)).cells (slot_of r) ≡ x
unfolding puts
puts_slot r x xs h n =
    ahead xs (next r x) (slot_of r) 19 (next-idx r x h) (omega arith)
      (omega (arith, next_slot r x h, slot-lt r h)) (omega arith)
    ∙ own_slot r x
