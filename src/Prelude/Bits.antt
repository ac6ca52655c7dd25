-- ===== src/Prelude/Bits.antt =====
-- `bit_and`, `bit_or` and `bit_xor` at variables: the law of the lowest digit, and the laws that
-- the comparisons under a mask need.
use Prim.Native.Nat.{
  ℕ, zero, suc, ◌+◌, ◌*◌, ◌/◌, ◌%◌, ◌≤◌, min, max, bit_and, bit_or, bit_xor, digits, bitwise,
  differ, bit_and-bitwise, bit_or-bitwise, bit_xor-bitwise,
}
use mathlib.Core.Path.{◌≡◌, refl}
use mathlib.Core.Logic.{◌↔◌}
use native.Mathlib.Nat.{le_refl}
use native.Mathlib.Omega.{arith}

-- The operations recur on binary digits with the first number as fuel. More fuel changes nothing.
module _ (rest : ℕ → ℕ) (op : ℕ → ℕ → ℕ) where
  digits_enough : (n m a b : ℕ) → a ≤ n → a ≤ m → digits rest op n a b ≡ digits rest op m a b
  digits_enough zero zero a b p q = refl
  digits_enough zero (suc m) zero b p q = refl
  digits_enough (suc n) zero zero b p q = refl
  digits_enough (suc n) (suc m) zero b p q = refl
  digits_enough zero (suc m) (suc a) b p q = absurd (omega arith)
  digits_enough (suc n) zero (suc a) b p q = absurd (omega arith)
  digits_enough (suc n) (suc m) (suc a) b p q =
      rw (digits_enough n m (suc a / 2) (b / 2) (omega arith) (omega arith))

  bitwise_digit :
      (a b : ℕ)
      → bitwise rest op (suc a) b ≡ bitwise rest op (suc a / 2) (b / 2) * 2 + op (suc a % 2) (b % 2)
  bitwise_digit a b =
      omega (arith, digits_enough a (suc a / 2) (suc a / 2) (b / 2) (omega arith) (le_refl _))

pub and_digit : (a b : ℕ) → bit_and a b ≡ bit_and (a / 2) (b / 2) * 2 + min (a % 2) (b % 2)
and_digit zero b = simp bit_and-bitwise (omega arith)
and_digit (suc a) b = simp bit_and-bitwise (bitwise_digit (λ y. 0) min a b)

pub or_digit : (a b : ℕ) → bit_or a b ≡ bit_or (a / 2) (b / 2) * 2 + max (a % 2) (b % 2)
or_digit zero b = simp bit_or-bitwise (omega arith)
or_digit (suc a) b = simp bit_or-bitwise (bitwise_digit (λ y. y) max a b)

pub xor_digit : (a b : ℕ) → bit_xor a b ≡ bit_xor (a / 2) (b / 2) * 2 + (a % 2 + b % 2) % 2
xor_digit zero b = simp bit_xor-bitwise (omega arith)
xor_digit (suc a) b =
    simp bit_xor-bitwise
      (omega (arith, bitwise_digit (λ y. y) differ a b, differ_lem (suc a % 2) (b % 2)))
  where
    differ_lem : (x y : ℕ) → x ≤ 1 → y ≤ 1 → differ x y ≡ (x + y) % 2
    differ_lem zero zero p q = refl
    differ_lem zero (suc y) p q = ground arith
    differ_lem (suc x) zero p q = ground arith
    differ_lem (suc x) (suc y) p q = ground arith

pub zero-or : (b : ℕ) → bit_or 0 b ≡ b
zero-or b = bit_or-bitwise 0 b

pub zero-and : (b : ℕ) → bit_and 0 b ≡ 0
zero-and b = bit_and-bitwise 0 b

and-zero_below : (n a : ℕ) → a ≤ n → bit_and a 0 ≡ 0
and-zero_below n zero h = refl
and-zero_below zero (suc a) h = absurd (omega arith)
and-zero_below (suc n) (suc a) h =
    omega (arith, and_digit (suc a) 0, and-zero_below n (suc a / 2) (omega arith))

pub and-zero : (a : ℕ) → bit_and a 0 ≡ 0
and-zero a = and-zero_below a a (le_refl a)

same_below : (n x y p : ℕ) → p ≤ n → (bit_and (bit_xor x y) p ≡ 0) ↔ (bit_and x p ≡ bit_and y p)
same_below n x y zero h = (λ _. omega (arith, and-zero x, and-zero y), λ _. and-zero (bit_xor x y))
same_below zero x y (suc p) h = absurd (omega arith)
same_below (suc n) x y (suc p) h =
    let ih = same_below n (x / 2) (y / 2) (suc p / 2) (omega arith) in
    let top : bit_xor x y / 2 ≡ bit_xor (x / 2) (y / 2) = omega (arith, xor_digit x y) in
    let low : bit_xor x y % 2 ≡ (x % 2 + y % 2) % 2 = omega (arith, xor_digit x y) in
    let dx = and_digit x (suc p) in
    let dy = and_digit y (suc p) in
    let d : bit_and (bit_xor x y) (suc p)
        ≡ bit_and (bit_xor (x / 2) (y / 2)) (suc p / 2) * 2
          + min ((x % 2 + y % 2) % 2) (suc p % 2) =
      rw (← top, ← low) (and_digit (bit_xor x y) (suc p)) in
    (
      λ e. let e' = ih.0 (omega arith) in omega arith,
      λ e. let e' = ih.1 (omega arith) in omega arith,
    )

-- Two words differ at no bit of a mask exactly when they agree under it.
pub and_xor_iff : (x y p : ℕ) → (bit_and (bit_xor x y) p ≡ 0) ↔ (bit_and x p ≡ bit_and y p)
and_xor_iff x y p = same_below p x y p (le_refl p)
