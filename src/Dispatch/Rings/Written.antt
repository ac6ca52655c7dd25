-- ===== src/Dispatch/Rings/Written.antt =====
-- What a call writes into the rings of scalars of OFTonSGX/untrusted/hotcall-untrusted.h, and what its
-- arguments point to after further calls.
use ovs_sgx.Prelude.{
  ℕ, ◌+◌, ◌≤◌, ◌≡◌, refl, sym, ap, subst, ◌∙◌, Bool, true, false, List, [], ◌∷◌, ◌++◌, map, length,
  length-append, arith,
}
use mathlib.Core.List.{append_assoc}
use ovs_sgx.Dispatch.{
  Passed, uint8, unsigned, uint32, heap_node, pointer, parameter, next_uint8, next_unsigned,
  next_uint32, next_heapnode, next_voidptr,
}
use ovs_sgx.Dispatch.Rings.{
  Ring, Scalars, RingName, uint8s, unsigneds, voids, uint32s, heap_nodes, ring, slot_of, next, pass,
  pass_all, resolve, element_type, scalar,
}
use ovs_sgx.Dispatch.Rings.Kept.{puts, puts-append, puts_slot, next-idx}
use ovs_sgx.Dispatch.Arguments.{cell_of}

-- The scalars that one argument puts into a ring
unfoldable pub writes : RingName → Passed → List ℕ
writes uint8s (next_uint8 x) = x ∷ []
writes unsigneds (next_unsigned x) = x ∷ []
writes voids (next_voidptr p) = p ∷ []
writes uint32s (next_uint32 x) = x ∷ []
writes heap_nodes (next_heapnode x) = x ∷ []
writes k p = []

-- The scalars that the arguments of one call put into a ring, if the call is batched
unfoldable pub written : RingName → Bool → List Passed → List ℕ
written k false ps = []
written k true [] = []
written k true (p ∷ ps) = writes k p ++ written k true ps

abbrev pub IsRing : Ring → Type 0
IsRing r = r.idx ≤ 20

ring-pass :
    (k : RingName) (p : Passed) (s : Scalars)
    → ring k (pass true p s).0 ≡ puts (ring k s) (writes k p)
unfolding ring pass puts writes
ring-pass uint8s (pointer p) s = refl
ring-pass uint8s p s = refl
ring-pass unsigneds (pointer p) s = refl
ring-pass unsigneds p s = refl
ring-pass voids (pointer p) s = refl
ring-pass voids p s = refl
ring-pass uint32s (pointer p) s = refl
ring-pass uint32s p s = refl
ring-pass heap_nodes (pointer p) s = refl
ring-pass heap_nodes p s = refl

pass_local : (p : Passed) (s : Scalars) → (pass false p s).0 ≡ s
unfolding pass
pass_local (pointer p) s = refl
pass_local p s = refl

pass_local_cell : (p : Passed) (s s' : Scalars) → resolve s' (pass false p s).1 ≡ cell_of p
unfolding pass resolve cell_of
pass_local_cell (pointer p) s s' = refl
pass_local_cell p s s' = refl

cons_eq : {A : Type 0} {x y : A} {xs ys : List A} → x ≡ y → xs ≡ ys → (x ∷ xs) ≡ (y ∷ ys)
cons_eq e f = rw (e, f)

pub ring-pass_all :
    (k : RingName) (a : Bool) (ps : List Passed) (s : Scalars)
    → ring k (pass_all a ps s).0 ≡ puts (ring k s) (written k a ps)
unfolding pass_all written puts
ring-pass_all k false [] s = refl
ring-pass_all k false (p ∷ ps) s =
    ring-pass_all k false ps (pass false p s).0 ∙ ap (ring k) (pass_local p s)
ring-pass_all k true [] s = refl
ring-pass_all k true (p ∷ ps) s =
    ring-pass_all k true ps (pass true p s).0
    ∙ ap (λ r. puts r (written k true ps)) (ring-pass k p s)
    ∙ sym (puts-append (ring k s) (writes k p) (written k true ps))

-- What the ring holds that a call's first argument stands in, after all that is put later
head_cell :
    (p : Passed) (s s' : Scalars) (rest : RingName → List ℕ)
    → ((k : RingName) → IsRing (ring k s))
    → ((k : RingName) → ring k s' ≡ puts (ring k s) (writes k p ++ rest k))
    → ((k : RingName) → length (writes k p ++ rest k) ≤ 20)
    → resolve s' (pass true p s).1 ≡ cell_of p
unfolding pass resolve cell_of writes element_type ring
head_cell (pointer p) s s' rest h e n = refl
head_cell (parameter t x) s s' rest h e n = refl
head_cell (next_uint8 x) s s' rest h e n = ap (scalar uint8) (
    ap (λ (r : Ring). r.cells (slot_of s.uint8_ts)) (e uint8s)
    ∙ puts_slot s.uint8_ts x (rest uint8s) (h uint8s) (n uint8s))
head_cell (next_unsigned x) s s' rest h e n = ap (scalar unsigned) (
    ap (λ (r : Ring). r.cells (slot_of s.unsigned_ts)) (e unsigneds)
    ∙ puts_slot s.unsigned_ts x (rest unsigneds) (h unsigneds) (n unsigneds))
head_cell (next_uint32 x) s s' rest h e n = ap (scalar uint32) (
    ap (λ (r : Ring). r.cells (slot_of s.uint32_ts)) (e uint32s)
    ∙ puts_slot s.uint32_ts x (rest uint32s) (h uint32s) (n uint32s))
head_cell (next_heapnode x) s s' rest h e n = ap (scalar heap_node) (
    ap (λ (r : Ring). r.cells (slot_of s.heap_node_ts)) (e heap_nodes)
    ∙ puts_slot s.heap_node_ts x (rest heap_nodes) (h heap_nodes) (n heap_nodes))
head_cell (next_voidptr p) s s' rest h e n = refl

puts-IsRing : (xs : List ℕ) (r : Ring) → IsRing r → IsRing (puts r xs)
unfolding puts
puts-IsRing [] r h = h
puts-IsRing (x ∷ xs) r h = puts-IsRing xs (next r x) (next-idx r x h)

pub pass_all-IsRing :
    (k : RingName) (a : Bool) (ps : List Passed) (s : Scalars)
    → IsRing (ring k s)
    → IsRing (ring k (pass_all a ps s).0)
pass_all-IsRing k a ps s h =
    subst IsRing (sym (ring-pass_all k a ps s)) (puts-IsRing (written k a ps) (ring k s) h)

cells_local :
    (ps : List Passed) (s s' : Scalars) → map (resolve s') (pass_all false ps s).1 ≡ map cell_of ps
unfolding pass_all
cells_local [] s s' = refl
cells_local (p ∷ ps) s s' = cons_eq (pass_local_cell p s s') (cells_local ps (pass false p s).0 s')

-- The arguments of a call point to what was passed for as long as at most twenty scalars of a kind have
-- been put since it began.
pub cells_passed :
    (a : Bool) (ps : List Passed) (s s' : Scalars) (later : RingName → List ℕ)
    → ((k : RingName) → IsRing (ring k s))
    → ((k : RingName) → ring k s' ≡ puts (ring k s) (written k a ps ++ later k))
    → ((k : RingName) → length (written k a ps) + length (later k) ≤ 20)
    → map (resolve s') (pass_all a ps s).1 ≡ map cell_of ps
unfolding pass_all written
cells_passed false ps s s' later h e n = cells_local ps s s'
cells_passed true [] s s' later h e n = refl
cells_passed true (p ∷ ps) s s' later h e n =
    let rest : RingName → List ℕ = λ k. written k true ps ++ later k in
    let e' : (k : RingName) → ring k s' ≡ puts (ring k s) (writes k p ++ rest k) =
      λ k. e k ∙ ap (puts (ring k s)) (append_assoc (writes k p) (written k true ps) (later k)) in
    cons_eq
      (head_cell p s s' rest h e' (λ k. omega (
        arith,
        n k,
        length-append (writes k p) (rest k),
        length-append (written k true ps) (later k),
        length-append (writes k p) (written k true ps),
      )))
      (cells_passed true ps (pass true p s).0 s' later
        (λ k. subst IsRing (sym (ring-pass k p s)) (puts-IsRing (writes k p) (ring k s) (h k)))
        (λ k.
          e' k
          ∙ puts-append (ring k s) (writes k p) (rest k)
          ∙ ap (λ (r : Ring). puts r (rest k)) (sym (ring-pass k p s)))
        (λ k. omega (arith, n k, length-append (writes k p) (written k true ps))))
