-- ===== src/Dispatch/Arguments.antt =====
-- When a case of `execute_function`, OFTonSGX/trusted/call-table.c, takes its arguments as they were
-- passed.
use ovs_sgx.Prelude.{
  ℕ, suc, ◌+◌, ◌*◌, ◌%◌, ◌^◌, ◌<◌, ◌≡◌, refl, ap, subst, ◌⊎◌, inl, inr, ◌==◌, Bool, true, false,
  ◌&&◌, ◌||◌, List, [], ◌∷◌, some, map, arith,
}
use native.Mathlib.Nat.{mod-eq_of_lt, add-mul-mod_self_left}
use ovs_sgx.Dispatch.{
  Scalar, uint8, uint32, unsigned, heap_node, width, Take, take_pointer, take_scalar, Passed,
  pointer, parameter, next_uint8, next_unsigned, next_uint32, next_heapnode, next_voidptr,
}
use ovs_sgx.Dispatch.Rings.{Cell, scalar, pointed}
use ovs_sgx.Dispatch.Execute.{values, load, take_argument, take_arguments}

-- What an entry of `args` points to
unfoldable pub cell_of : Passed → Cell
cell_of (pointer p) = pointed p
cell_of (parameter t x) = scalar t x
cell_of (next_uint8 x) = scalar uint8 x
cell_of (next_unsigned x) = scalar unsigned x
cell_of (next_uint32 x) = scalar uint32 x
cell_of (next_heapnode x) = scalar heap_node x
cell_of (next_voidptr p) = pointed p

unfoldable pub value : Cell → ℕ
value (scalar t x) = x
value (pointed p) = p

-- A scalar may be read by a pointer of its own width; a byte as a word, if it becomes a byte again; a
-- word as a byte.
unfoldable pub suits : Scalar → Scalar → Scalar → Bool
unfolding width
suits w t u =
    width w == width t
    || (width w == 1 && width t == 4 && width u == 1)
    || (width w == 4 && width t == 1)

unfoldable pub accepts : Take → Cell → Bool
unfolding suits
accepts take_pointer (pointed p) = true
accepts take_pointer (scalar w x) = false
accepts (take_scalar t u) (pointed p) = false
accepts (take_scalar t u) (scalar w x) = suits w t u

unfoldable pub accepts_all : List Take → List Cell → Bool
unfolding accepts
accepts_all [] [] = true
accepts_all [] (c ∷ cs) = false
accepts_all (t ∷ ts) [] = false
accepts_all (t ∷ ts) (c ∷ cs) = accepts t c && accepts_all ts cs

and_true : (a b : Bool) → (a && b) ≡ true → (a ≡ true) × (b ≡ true)
and_true true true h = (refl, refl)
and_true true false h = cc
and_true false b h = cc

-- A scalar fits its own type, the type that it is read by and the type of the handler's parameter.
abbrev pub Fits : Take → Cell → Type 0
Fits (take_scalar t u) (scalar w x) = (x < values w) × (x < values t) × (x < values u)
Fits other c = Unit

abbrev pub Fit : List Take → List Cell → Type 0
Fit (t ∷ ts) (c ∷ cs) = Fits t c × Fit ts cs
Fit ts cs = Unit

load_same :
    (w t u : Scalar) (x b : ℕ)
    → width w ≡ width t
    → x < values w
    → x < values u
    → load w x t u b ≡ x
unfolding load values
load_same w t u x b e p q =
    rw (← e) (rw (add-mul-mod_self_left x (256 ^ width w) b) (rw (mod-eq_of_lt p) (mod-eq_of_lt q)))

byte_as_word : (x b : ℕ) → x < 256 → ((x + 256 * b) % 4294967296) % 256 ≡ x
byte_as_word x b h = omega arith

word_as_byte : (x b : ℕ) → x < 256 → (x + 4294967296 * b) % 256 ≡ x
word_as_byte x b h = omega arith

load_byte :
    (w t u : Scalar) (x b : ℕ)
    → width w ≡ 1
    → width t ≡ 4
    → width u ≡ 1
    → x < values w
    → load w x t u b ≡ x
unfolding load values
load_byte w t u x b e f g p = rw (e, f, g) (byte_as_word x b (subst (λ (n : ℕ). x < 256 ^ n) e p))

load_word :
    (w t u : Scalar) (x b : ℕ)
    → width w ≡ 4
    → width t ≡ 1
    → x < values t
    → x < values u
    → load w x t u b ≡ x
unfolding load values
load_word w t u x b e f p q =
    rw (e, f) (rw (word_as_byte x b (subst (λ (n : ℕ). x < 256 ^ n) f p)) (mod-eq_of_lt q))

suits_cases :
    (a b c : ℕ)
    → (a == b || (a == 1 && b == 4 && c == 1) || (a == 4 && b == 1)) ≡ true
    → (a ≡ b) ⊎ ((a ≡ 1) × (b ≡ 4) × (c ≡ 1)) ⊎ ((a ≡ 4) × (b ≡ 1))
suits_cases a b c h = ground arith

-- A scalar that fits is read as it was passed, whatever follows it in memory.
load-suits :
    (w t u : Scalar) (x b : ℕ)
    → suits w t u ≡ true
    → (x < values w) × (x < values t) × (x < values u)
    → load w x t u b ≡ x
unfolding suits
load-suits w t u x b h (p, q, r) = elim (suits_cases (width w) (width t) (width u) h) [
  | inl e ↦ load_same w t u x b e p r
  | inr (inl (e, f, g)) ↦ load_byte w t u x b e f g p
  | inr (inr (e, f)) ↦ load_word w t u x b e f q r
]

take_fitting :
    (t : Take) (c : Cell) (b : ℕ)
    → accepts t c ≡ true
    → Fits t c
    → take_argument t c b ≡ some (value c)
unfolding take_argument accepts value
take_fitting take_pointer (pointed p) b h f = refl
take_fitting take_pointer (scalar w x) b h f = cc
take_fitting (take_scalar t u) (pointed p) b h f = cc
take_fitting (take_scalar t u) (scalar w x) b h f = ap some (load-suits w t u x b h f)

-- Arguments that fit are taken as they were passed.
pub take_arguments_lem :
    (ts : List Take) (cs : List Cell) (beyond : ℕ → ℕ)
    → accepts_all ts cs ≡ true
    → Fit ts cs
    → take_arguments ts cs beyond ≡ some (map value cs)
unfolding take_arguments accepts_all
take_arguments_lem [] [] beyond h f = refl
take_arguments_lem [] (c ∷ cs) beyond h f = cc
take_arguments_lem (t ∷ ts) [] beyond h f = cc
take_arguments_lem (t ∷ ts) (c ∷ cs) beyond h f =
    let (p, q) = and_true (accepts t c) (accepts_all ts cs) h in
    rw (
      take_fitting t c (beyond 0) p f.0,
      take_arguments_lem ts cs (λ i. beyond (suc i)) q f.1,
      take_arguments,
    )
