-- ===== src/Flow/Masked.antt =====
-- Comparing and hashing flows under a mask.
use mathlib.Core.Path.{fun_ext}
use native.Mathlib.Nat.{add-zero, zero-add}
use ovs_sgx.Prelude.{
  ℕ, zero, suc, ◌+◌, ◌≡◌, ◌↔◌, refl, Bool, true, false, List, [], ◌∷◌, get_or, bit_and, arith,
  length, bit_xor,
}
use ovs_sgx.Prelude.Bits.{and_xor_iff, and-zero}
use ovs_sgx.Flow.{
  Flow, Miniflow, Minimask, popcount, miniflow_init, miniflow_get, equal_at, hash_at, set_bits,
  miniflow_equal_in_minimask, miniflow_equal_flow_in_minimask, miniflow_hash_in_minimask,
  flow_hash_in_minimask,
}
use ovs_sgx.Flow.Expand.{miniflow_get-init, IsWellFormed}

pub shift : (ofs i : ℕ) → ofs + 1 + i ≡ ofs + suc i
shift ofs i = omega arith

-- Comparing a compressed flow with a flow under a mask is comparing it with that flow compressed.
pub equal_in_minimask-init :
    (a : Miniflow) (f : Flow) (mask : Minimask)
    → miniflow_equal_flow_in_minimask a f mask ≡ miniflow_equal_in_minimask a (miniflow_init f) mask
unfolding miniflow_equal_flow_in_minimask miniflow_equal_in_minimask
equal_in_minimask-init a f mask =
    let same : miniflow_get (miniflow_init f) ≡ (λ ofs. get_or f ofs 0) =
      fun_ext (miniflow_get-init f) in
    rw same refl

-- The two hash functions under a mask give the same hash, of a flow and of that flow compressed.
pub hash_in_minimask-init :
    (f : Flow) (mask : Minimask) (basis : ℕ)
    → miniflow_hash_in_minimask (miniflow_init f) mask basis ≡ flow_hash_in_minimask f mask basis
unfolding flow_hash_in_minimask miniflow_hash_in_minimask
hash_in_minimask-init f mask basis =
    let same : miniflow_get (miniflow_init f) ≡ (λ ofs. get_or f ofs 0) =
      fun_ext (miniflow_get-init f) in
    rw same refl

hash_at_same :
    (x y : ℕ → ℕ) (bits : List (ℕ × ℕ)) (hash : ℕ)
    → equal_at x y bits ≡ true
    → hash_at x bits hash ≡ hash_at y bits hash
unfolding equal_at hash_at
hash_at_same x y [] hash h = refl
hash_at_same x y ((ofs, p) ∷ rest) hash h =
    let agree : bit_and (x ofs) p ≡ bit_and (y ofs) p =
      (and_xor_iff (x ofs) (y ofs) p).0 (ground arith) in
    rw agree (hash_at_same x y rest _ (ground arith))

-- A flow that a compressed flow matches under a mask has its hash: a rule that matches is in the
-- bucket that find_match searches.
pub hash-equal_in_minimask :
    (a : Miniflow) (f : Flow) (mask : Minimask) (basis : ℕ)
    → miniflow_equal_flow_in_minimask a f mask ≡ true
    → miniflow_hash_in_minimask a mask basis ≡ flow_hash_in_minimask f mask basis
unfolding miniflow_equal_flow_in_minimask miniflow_hash_in_minimask flow_hash_in_minimask
hash-equal_in_minimask a f mask basis h =
    rw
      (hash_at_same (miniflow_get a) (λ ofs. get_or f ofs 0) (set_bits 0 mask.map mask.values) basis
        h)
      refl

-- One direction for a single position and the rest, by the loop's two words.
equal_at-agree :
    (ofs : ℕ) (x y : ℕ → ℕ) (map : List Bool) (values : List ℕ) (i : ℕ)
    → length values ≡ popcount map
    → equal_at x y (set_bits ofs map values) ≡ true
    → bit_and (x (ofs + i)) (miniflow_get (record { map = map; values = values }) i)
      ≡ bit_and (y (ofs + i)) (miniflow_get (record { map = map; values = values }) i)
unfolding equal_at set_bits miniflow_get popcount
equal_at-agree ofs x y [] vs i w h = simp (and-zero)
equal_at-agree ofs x y (true ∷ m) [] i w h = absurd (omega arith)
equal_at-agree ofs x y (true ∷ m) (v ∷ vs) zero w h =
    rw add-zero ((and_xor_iff (x ofs) (y ofs) v).0 (ground arith))
equal_at-agree ofs x y (true ∷ m) (v ∷ vs) (suc i) w h =
    rw (← shift ofs i) (equal_at-agree (ofs + 1) x y m vs i (omega arith) (ground arith))
equal_at-agree ofs x y (false ∷ m) vs zero w h = simp (and-zero)
equal_at-agree ofs x y (false ∷ m) vs (suc i) w h =
    rw (← shift ofs i) (equal_at-agree (ofs + 1) x y m vs i w h)

agree-equal_at :
    (ofs : ℕ) (x y : ℕ → ℕ) (map : List Bool) (values : List ℕ)
    → length values ≡ popcount map
    → ((i : ℕ)
        → bit_and (x (ofs + i)) (miniflow_get (record { map = map; values = values }) i)
          ≡ bit_and (y (ofs + i)) (miniflow_get (record { map = map; values = values }) i))
    → equal_at x y (set_bits ofs map values) ≡ true
unfolding equal_at set_bits miniflow_get popcount
agree-equal_at ofs x y [] vs w h = refl
agree-equal_at ofs x y (true ∷ m) [] w h = absurd (omega arith)
agree-equal_at ofs x y (true ∷ m) (v ∷ vs) w h =
    let here : bit_and (bit_xor (x ofs) (y ofs)) v ≡ 0 =
      (and_xor_iff (x ofs) (y ofs) v).1 (rw add-zero at (h 0)) in
    let rest =
      agree-equal_at (ofs + 1) x y m vs (omega arith) (λ i. rw (shift ofs i) (h (suc i))) in
    ground (arith, here, rest)
agree-equal_at ofs x y (false ∷ m) vs w h =
    agree-equal_at (ofs + 1) x y m vs w (λ i. rw (shift ofs i) (h (suc i)))

-- For a well-formed mask, a compressed flow matches a flow exactly when every word of the two agrees
-- under the mask's word.
pub equal_in_minimask_iff :
    (a : Miniflow) (f : Flow) (mask : Minimask)
    → IsWellFormed mask
    → (miniflow_equal_flow_in_minimask a f mask ≡ true) ↔ (
        (i : ℕ)
        → bit_and (miniflow_get a i) (miniflow_get mask i)
          ≡ bit_and (get_or f i 0) (miniflow_get mask i))
unfolding miniflow_equal_flow_in_minimask
equal_in_minimask_iff a f mask w = (
  λ h i.
      simp zero-add at
        (equal_at-agree 0 (miniflow_get a) (λ ofs. get_or f ofs 0) mask.map mask.values i w h),
  λ h.
      agree-equal_at 0 (miniflow_get a) (λ ofs. get_or f ofs 0) mask.map mask.values w
        (λ i. simp zero-add (h i)),
)
