-- ===== src/Flow/Examples.antt =====
-- Flows of three words, and the theorems at them.
use ovs_sgx.Prelude.{ℕ, ◌≡◌, ◌↔◌, refl, true, [], ◌∷◌, get_or, bit_and}
use ovs_sgx.Flow.{
  Flow, miniflow_init, minimask_init, miniflow_get, miniflow_equal_flow_in_minimask,
  miniflow_hash_in_minimask, flow_hash_in_minimask, miniflow_expand,
}
use ovs_sgx.Flow.Expand.{miniflow_init-IsWellFormed, expand-init}
use ovs_sgx.Flow.Masked.{hash-equal_in_minimask, equal_in_minimask_iff}
use ovs_sgx.Flow.{miniflow_equal}
use ovs_sgx.Flow.Equal.{miniflow_equal_iff}

abbrev packet : Flow
packet = 0x11223344 ∷ 0 ∷ 0xaabbccdd ∷ []

-- The same packet in the bits that `wildcards` fixes.
abbrev other : Flow
other = 0x11220000 ∷ 7 ∷ 0xaabbccdd ∷ []

abbrev wildcards : Flow
wildcards = 0xffff0000 ∷ 0 ∷ 0xffffffff ∷ []

matches :
    miniflow_equal_flow_in_minimask (miniflow_init packet) other (minimask_init wildcards) ≡ true
unfolding miniflow_equal_flow_in_minimask miniflow_init minimask_init
matches = refl

expand-init_example : miniflow_expand 3 (miniflow_init packet) ≡ packet
expand-init_example = expand-init packet

hash-equal_in_minimask_example :
    miniflow_hash_in_minimask (miniflow_init packet) (minimask_init wildcards) 0
    ≡ flow_hash_in_minimask other (minimask_init wildcards) 0
hash-equal_in_minimask_example =
    hash-equal_in_minimask (miniflow_init packet) other (minimask_init wildcards) 0 matches

equal_in_minimask_example :
    (miniflow_equal_flow_in_minimask (miniflow_init packet) other (miniflow_init wildcards) ≡ true)
    ↔ ((i : ℕ)
        → bit_and (miniflow_get (miniflow_init packet) i) (miniflow_get (miniflow_init wildcards) i)
          ≡ bit_and (get_or other i 0) (miniflow_get (miniflow_init wildcards) i))
equal_in_minimask_example =
    equal_in_minimask_iff (miniflow_init packet) other (miniflow_init wildcards)
      (miniflow_init-IsWellFormed wildcards)

miniflow_equal_example :
    (miniflow_equal (miniflow_init packet) (miniflow_init other) ≡ true)
    ↔ (miniflow_init packet ≡ miniflow_init other)
miniflow_equal_example =
    miniflow_equal_iff (miniflow_init packet) (miniflow_init other)
      (miniflow_init-IsWellFormed packet) (miniflow_init-IsWellFormed other)
