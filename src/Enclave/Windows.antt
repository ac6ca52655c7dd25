-- ===== src/Enclave/Windows.antt =====
-- The handlers of OFTonSGX/trusted that hand out the rules in pieces: ecall_oftable_get_cls_rules and
-- ecall_collect_rules_loose of oftable/oftable.c, and the statistics request of stats/stats.c.
pub mod Slices
use ovs_sgx.Prelude.{
  ℕ, zero, suc, ◌+◌, ◌-◌, ◌%◌, ◌^◌, Bool, true, false, not, ◌&&◌, ◌||◌, Option, none, some, List,
  [], ◌∷◌, ◌++◌, map, ◌==◌, ltb, leb, if◌then◌else◌, length,
}
use ovs_sgx.Classifier.{ClsRule, Match, cls_cursor_rules, minimatch_init}
use ovs_sgx.Enclave.State.{Oftable, Bridge, M, pure, ◌>>=◌, ◌>>◌, get_table, is_readonly}
use ovs_sgx.Enclave.Rules.{ecall_cr_priority, ecall_minimatch_expand}
use ovs_sgx.Enclave.Tables.{matching_tables}
use ovs_sgx.Enclave.Collect.{o_cls_rules, loose_rules, request}

-- `is_outside_range`; an end of -1 is no end.
unfoldable pub is_outside : ℕ → Option ℕ → ℕ → Bool
is_outside start none i = ltb i start
is_outside start (some end) i = ltb i start || leb end i

-- The loop of ecall_oftable_get_cls_rules: what it writes, and the index that it ends with.
unfoldable pub window : ℕ → Option ℕ → ℕ → ℕ → ℕ → List ℕ → List ℕ × ℕ
unfolding is_outside
window start end size n i [] = ([], i)
window start end size n i (x ∷ xs) =
    let skip = is_outside start end i || leb size n in
    let (written, total) = window start end size (if skip then n else n + 1) (i + 1) xs in
    (if skip then written else x ∷ written, total)

-- The rules written and `*n_rules`.
unfoldable pub ecall_oftable_get_cls_rules : Bridge → ℕ → ℕ → Option ℕ → ℕ → List ℕ × ℕ
unfolding window o_cls_rules cls_cursor_rules
ecall_oftable_get_cls_rules b id start end size =
    window start end size 0 0 (o_cls_rules b (cls_cursor_rules (b.oftables id).cls none))

-- One entry of the three buffers of ecall_collect_rules_loose. OpenFlow's own priorities fit 16
-- bits; a rule above them is hidden.
pub record LooseEntry : Type 0 where
  pub cls_rule : ℕ
  pub rule_is_hidden : Bool
  pub rule_is_modifiable : Bool

unfoldable pub loose_window : ℕ → ℕ → ℕ → ℕ → ℕ → List ℕ → M (List LooseEntry × ℕ)
unfolding ecall_cr_priority is_readonly
loose_window table_id start size n count [] = pure ([], count)
loose_window table_id start size n count (x ∷ xs) =
    let skip = leb size n || ltb count start in
    let rest = loose_window table_id start size (if skip then n else n + 1) (count + 1) xs in
    if skip then rest else (do
      p ← ecall_cr_priority x
      t ← get_table table_id
      (entries, total) ← rest
      pure (
        record {
          cls_rule = x;
          rule_is_hidden = ltb 0xffff p;
          rule_is_modifiable = not (is_readonly t);
        }
            ∷ entries,
        total,
      ))

unfoldable pub ecall_collect_rules_loose : ℕ → ℕ → ℕ → Match → ℕ → M (List LooseEntry × ℕ)
unfolding loose_window loose_rules minimatch_init matching_tables
ecall_collect_rules_loose table_id n_tables start match size b =
    loose_window table_id start size 0 0
      (loose_rules b (request (minimatch_init match) 0)
        (matching_tables b.oftables n_tables table_id))
      b

-- One entry of the buffers of the statistics request.
pub record StatsEntry : Type 0 where
  pub cls_rule : ℕ
  pub priority : ℕ
  pub match : Match

-- Hidden rules are neither written nor counted.
unfoldable pub stats_window : ℕ → ℕ → ℕ → ℕ → List ℕ → M (List StatsEntry × ℕ)
unfolding ecall_cr_priority ecall_minimatch_expand
stats_window start size n count [] = pure ([], count)
stats_window start size n count (x ∷ xs) = ecall_cr_priority x >>= λ p. elim (ltb 0xffff p) [
  | true ↦ stats_window start size n count xs
  | false ↦ elim (leb size n || ltb count start) [
    | true ↦ stats_window start size n (count + 1) xs
    | false ↦ do
      m ← ecall_minimatch_expand x
      (entries, total) ← stats_window start size (n + 1) (count + 1) xs
      pure (record { cls_rule = x; priority = p; match = m } ∷ entries, total)
  ]
]

unfoldable pub ecall_collect_rules_loose_stats_request :
    ℕ → ℕ → ℕ → ℕ → Match → M (List StatsEntry × ℕ)
unfolding stats_window loose_rules minimatch_init matching_tables
ecall_collect_rules_loose_stats_request table_id n_tables start size match b =
    stats_window start size 0 0
      (loose_rules b (request (minimatch_init match) 0)
        (matching_tables b.oftables n_tables table_id))
      b
