-- ===== src/Enclave/Flush.antt =====
-- ecall_ofproto_flush of OFTonSGX/trusted/ofproto/ofproto.c and ecall_get_cls_rules_and_enable_eviction
-- of eviction/eviction.c.
use ovs_sgx.Prelude.{
  ℕ, zero, suc, ◌+◌, Bool, true, false, not, ◌||◌, Option, none, some, List, [], ◌∷◌, ◌++◌, leb,
  length,
}
use ovs_sgx.Classifier.{cls_cursor_rules}
use ovs_sgx.Enclave.State.{Subfield, M, pure, ◌>>=◌, ◌>>◌, get_table, is_hidden}
use ovs_sgx.Enclave.Rules.{ecall_cls_rule_hash, ecall_cls_remove}
use ovs_sgx.Enclave.Collect.{o_cls_rules}
use ovs_sgx.Enclave.Windows.{ecall_oftable_get_cls_rules}
use ovs_sgx.Enclave.Eviction.{
  ecall_evg_remove_rule, ecall_oftable_enable_eviction, ecall_is_eviction_fields_enabled,
}

-- The rules of table `i`, while `n` are in the buffers of `size`: those that are flushed, with their
-- hashes. The cursor fetches the next rule before the body removes the current one.
unfoldable pub flush_rules : ℕ → ℕ → ℕ → List ℕ → M (List (ℕ × ℕ))
unfolding ecall_cls_rule_hash ecall_cls_remove ecall_evg_remove_rule
flush_rules i size n [] = pure []
flush_rules i size n (rule ∷ rules) = elim (leb size n) [
  | true ↦ flush_rules i size n rules
  | false ↦ do
    hash ← ecall_cls_rule_hash rule i
    ecall_cls_remove i rule
    ecall_evg_remove_rule i rule
    rest ← flush_rules i size (n + 1) rules
    pure ((rule, hash) ∷ rest)
]

abbrev pub rules_of : ℕ → M (List ℕ)
rules_of i b = some (o_cls_rules b (cls_cursor_rules (b.oftables i).cls none), b)

-- The tables from `i` on: what is flushed, and how many rules there were.
unfoldable pub flush_tables : ℕ → ℕ → ℕ → ℕ → M (List (ℕ × ℕ) × ℕ)
unfolding flush_rules o_cls_rules cls_cursor_rules is_hidden
flush_tables zero i size n = pure ([], 0)
flush_tables (suc rounds) i size n = do
  t ← get_table i
  elim (is_hidden t) [
    | true ↦ flush_tables rounds (i + 1) size n
    | false ↦ do
      rules ← rules_of i
      flushed ← flush_rules i size n rules
      (rest, count) ← flush_tables rounds (i + 1) size (n + length flushed)
      pure (flushed ++ rest, length rules + count)
  ]

abbrev pub n_tables_of : M ℕ
n_tables_of b = some (b.n_tables, b)

-- The rules with their hashes, and `*n_rules`.
unfoldable pub ecall_ofproto_flush : ℕ → M (List (ℕ × ℕ) × ℕ)
unfolding flush_tables
ecall_ofproto_flush buf_size = do n ← n_tables_of; flush_tables n 0 buf_size 0

-- The results of ecall_get_cls_rules_and_enable_eviction; the rules with `*n_rules` only where it
-- collects them.
pub record Enabled : Type 0 where
  pub no_change : Bool
  pub is_eviction_fields_enabled : Bool
  pub rules : Option (List ℕ × ℕ)

abbrev pub all_rules : ℕ → ℕ → M (List ℕ × ℕ)
all_rules id size b = some (ecall_oftable_get_cls_rules b id 0 none size, b)

unfoldable pub ecall_get_cls_rules_and_enable_eviction : ℕ → List Subfield → ℕ → ℕ → M Enabled
unfolding ecall_oftable_enable_eviction ecall_is_eviction_fields_enabled ecall_oftable_get_cls_rules
ecall_get_cls_rules_and_enable_eviction id fields random_v buf_size = do
  no_change ← ecall_oftable_enable_eviction id fields random_v
  enabled ← ecall_is_eviction_fields_enabled id
  elim (no_change || not enabled) [
    | true ↦
        pure (record { no_change = no_change; is_eviction_fields_enabled = enabled; rules = none })
    | false ↦ do
      rules ← all_rules id buf_size
      pure (record {
        no_change = no_change;
        is_eviction_fields_enabled = enabled;
        rules = some rules;
      })
  ]
