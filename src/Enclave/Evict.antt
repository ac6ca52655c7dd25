-- ===== src/Enclave/Evict.antt =====
-- The batch eviction of OFTonSGX/trusted/eviction/eviction.c: ecall_ofproto_evict. The group hash is a
-- parameter, as in Eviction. There are at most 255 tables, as OpenFlow has, so the number of a table
-- fits the array that keeps it.
pub mod Limits
use ovs_sgx.Prelude.{
  ℕ, zero, suc, ◌+◌, ◌-◌, ◌%◌, ◌^◌, Bool, true, false, Option, none, some, List, [], ◌∷◌, ◌++◌, ltb,
  if◌then◌else◌, length, drop,
}
use ovs_sgx.Heap.{Heap}
use ovs_sgx.Classifier.{ClsRule, classifier_count}
use ovs_sgx.Enclave.State.{
  Oftable, Bridge, M, pure, ◌>>=◌, ◌>>◌, deref, get_table, get_rule, get_group,
}
use ovs_sgx.Enclave.Rules.{rule_of, ecall_cls_rule_hash}
use ovs_sgx.Enclave.Eviction.{
  ecall_is_eviction_fields_enabled, ecall_choose_rule_to_evict, ecall_evg_remove_rule,
  ecall_evg_add_rule,
}

-- The `int` that an unsigned number becomes, counted from -2^31: the order of these numbers is that of
-- the values.
unfoldable pub as_int : ℕ → ℕ
as_int x = if ltb x (2 ^ 31) then x + 2 ^ 31 else x - 2 ^ 31

-- A rule that is evicted, with its table, its hash, and the priorities of its group and its node
pub record Evicted : Type 0 where
  pub rule : ℕ
  pub table_id : ℕ
  pub rule_hash : ℕ
  pub group_prio : ℕ
  pub rule_prio : ℕ

-- What is noted of a rule before it leaves its group
unfoldable pub note_rule : ℕ → ℕ → M Evicted
unfolding rule_of ecall_cls_rule_hash
note_rule id rule = do
  hash ← ecall_cls_rule_hash rule id
  a ← rule_of rule
  r ← get_rule a
  evg ← deref r.evict_group
  t ← get_table id
  h ← get_group evg
  pure (record {
    rule = rule;
    table_id = id;
    rule_hash = hash;
    group_prio = t.groups_by_size.priority evg;
    rule_prio = h.priority a;
  })

-- `while (count > max_flows)`, with fuel. `count - max_flows` rounds are enough, since `count` falls.
unfoldable pub evict_rounds : ℕ → ℕ → ℕ → ℕ → M (List Evicted)
unfolding ecall_choose_rule_to_evict note_rule ecall_evg_remove_rule
evict_rounds zero count max_flows id = pure []
evict_rounds (suc fuel) count max_flows id = elim (ltb max_flows count) [
  | false ↦ pure []
  | true ↦ ecall_choose_rule_to_evict id >>= λ tmp. elim tmp [
    | none ↦ pure []
    | some rule ↦ do
      e ← note_rule id rule
      ecall_evg_remove_rule id rule
      rest ← evict_rounds fuel (count - 1) max_flows id
      pure (e ∷ rest)
  ]
]

-- `rules_in_table > max_flows ? rules_in_table - max_flows : 0`; none where the difference of the two
-- overflows an `int`
unfoldable pub nr_evictions : ℕ → ℕ → M ℕ
nr_evictions count max_flows =
    if ltb (count - max_flows) (2 ^ 31) then pure (count - max_flows) else λ _. none

-- The tables from `id` on: what is evicted, and `total_nr_evictions`
unfoldable pub evict_tables : ℕ → ℕ → M (List Evicted × ℕ)
unfolding ecall_is_eviction_fields_enabled classifier_count evict_rounds as_int nr_evictions
evict_tables zero id = pure ([], 0)
evict_tables (suc tables) id = ecall_is_eviction_fields_enabled id >>= λ enabled. elim enabled [
  | false ↦ evict_tables tables (id + 1)
  | true ↦ do
    t ← get_table id
    let count = as_int (classifier_count t.cls)
    let max_flows = as_int t.max_flows
    n ← nr_evictions count max_flows
    evicted ← evict_rounds (suc (count - max_flows)) count max_flows id
    (rest, total) ← evict_tables tables (id + 1)
    pure (evicted ++ rest, n + total)
]

module _ (group_hash : Oftable → ClsRule → ℕ) where
  -- The second loop puts the rules back into groups.
  unfoldable pub put_back : List Evicted → M (Unit {0})
  unfolding ecall_evg_add_rule
  put_back [] = pure tt
  put_back (e ∷ es) =
      ecall_evg_add_rule group_hash e.table_id e.rule e.group_prio e.rule_prio >> put_back es

  -- The rules from `start_index` on, which are written to the buffers whatever their size, the value
  -- returned, which wraps where fewer are evicted, and `*n_evictions`
  unfoldable pub ecall_ofproto_evict : ℕ → ℕ → M (List Evicted × ℕ × ℕ)
  unfolding evict_tables put_back
  ecall_ofproto_evict n_tables start_index = do
    (evicted, total) ← evict_tables n_tables 0
    put_back evicted
    pure (drop start_index evicted, (length evicted + 2 ^ 64 - start_index) % 2 ^ 64, total)
