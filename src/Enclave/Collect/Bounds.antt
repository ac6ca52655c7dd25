-- ===== src/Enclave/Collect/Bounds.antt =====
-- How much the collecting handlers write.
use ovs_sgx.Prelude.{
  ℕ, zero, suc, ◌+◌, ◌≡◌, min, refl, none, some, List, [], ◌∷◌, arith, length, take,
}
use ovs_sgx.Enclave.State.{Bridge}
use ovs_sgx.Classifier.{Match}
use ovs_sgx.Enclave.Collect.{
  fill, collect, ecall_flow_stats_r, ecall_flow_stats_c, ecall_flush_r, ecall_flush_c,
  ecall_collect_rules_loose_r, ecall_collect_rules_loose_c, ecall_dpif_destroy_c,
  ecall_dpif_destroy_r, ecall_oftable_enable_eviction_c, ecall_oftable_enable_eviction_r,
  ecall_collect_rules_strict_c, ecall_collect_rules_strict_r,
}

-- The loop stops only past the index `elem`, so it writes up to `elem + 1` values.
fill-take : (p elem : ℕ) (xs : List ℕ) (k : ℕ) → p + k ≡ elem + 1 → fill p elem xs ≡ take k xs
unfolding fill
fill-take p elem [] zero h = refl
fill-take p elem [] (suc k) h = refl
fill-take p elem (x ∷ xs) zero h = ground arith
fill-take p elem (x ∷ xs) (suc k) h = ground (arith, fill-take (p + 1) elem xs k)

length-take : (k : ℕ) (xs : List ℕ) → length (take k xs) ≡ min k (length xs)
length-take zero xs = omega arith
length-take (suc k) [] = omega arith
length-take (suc k) (x ∷ xs) = omega (arith, length-take k xs)

-- What a handler returns with a buffer of `elem` entries, if it counts `count` rules without one:
-- the number of values that it writes, one more than fits where there are more rules.
abbrev pub Overruns : ℕ → ℕ → ℕ × List ℕ → Type 0
Overruns elem count r = (r.0 ≡ min (elem + 1) count) × (length r.1 ≡ min (elem + 1) count)

collect-Overruns :
    (elem : ℕ) (xs : List ℕ) → Overruns elem (collect none xs).0 (collect (some elem) xs)
unfolding collect
collect-Overruns elem xs =
    let e = fill-take 0 elem xs (elem + 1) (omega arith) in
    rw e (length-take (elem + 1) xs, length-take (elem + 1) xs)

-- Called with a buffer and the size `elem`, each of six collecting handlers (flow statistics, datapath
-- destruction, flush, eviction, loose and strict collection) writes and returns as many rules as its
-- count handler counts, but at most `elem + 1`.
pub collectors-Overruns :
    (b : Bridge) (elem id n_tables table_id priority : ℕ) (match : Match)
    → Overruns elem (ecall_flow_stats_c b) (ecall_flow_stats_r b (some elem))
      × Overruns elem (ecall_dpif_destroy_c b) (ecall_dpif_destroy_r b (some elem))
      × Overruns elem (ecall_flush_c b) (ecall_flush_r b (some elem))
      × Overruns elem
          (ecall_oftable_enable_eviction_c b id)
          (ecall_oftable_enable_eviction_r b (some elem) id)
      × Overruns elem
          (ecall_collect_rules_loose_c b n_tables table_id match)
          (ecall_collect_rules_loose_r b n_tables (some elem) table_id match)
      × Overruns elem
          (ecall_collect_rules_strict_c b n_tables table_id match priority)
          (ecall_collect_rules_strict_r b n_tables (some elem) table_id match priority)
unfolding ecall_flow_stats_c ecall_dpif_destroy_c ecall_flush_c ecall_oftable_enable_eviction_c
    ecall_collect_rules_loose_c ecall_collect_rules_strict_c
collectors-Overruns b elem id n_tables table_id priority match = (
  collect-Overruns elem _,
  collect-Overruns elem _,
  collect-Overruns elem _,
  collect-Overruns elem _,
  collect-Overruns elem _,
  collect-Overruns elem _,
)
