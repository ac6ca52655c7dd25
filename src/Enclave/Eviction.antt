-- ===== src/Enclave/Eviction.antt =====
-- OFTonSGX/trusted/eviction/eviction.c: the eviction groups of a table, and the choice of a rule to
-- evict. eviction_group_hash_rule, over the fields of meta-flow.c, is the parameter `group_hash`.
pub mod Choice
pub mod Replacer
use ovs_sgx.Prelude.{
  ℕ, zero, suc, ◌+◌, ◌-◌, ◌*◌, ◌%◌, ◌^◌, min, bit_or, Bool, true, false, not, ◌&&◌, ◌||◌, Option,
  none, some, List, [], ◌∷◌, ◌++◌, ◌==◌, ltb, leb, if◌then◌else◌,
}
use ovs_sgx.Hash.{u32}
use ovs_sgx.Heap.{
  Heap, heap_init, heap_insert, heap_remove, heap_change, heap_count, heap_is_empty, heap_pop,
}
use ovs_sgx.Classifier.{ClsRule, classifier_count}
use ovs_sgx.Enclave.State.{
  Subfield, Oftable, SgxClsRule, Bridge, M, pure, ◌>>=◌, ◌>>◌, when, deref, get_table, put_table,
  get_rule, put_rule, get_group, put_group, malloc, random_uint16,
}
use ovs_sgx.Enclave.Rules.{first_with_hash, unlink, rule_of}

unfoldable pub ecall_is_eviction_fields_enabled : ℕ → M Bool
ecall_is_eviction_fields_enabled id = do
  t ← get_table id
  pure (elim t.eviction_fields [ none ↦ false | some _ ↦ true ])

-- `(MIN(UINT16_MAX, n_rules) << 16) | random_uint16()`, as the 32 bits that the heap keeps.
unfoldable pub size_priority : ℕ → ℕ → ℕ
size_priority n_rules r = u32 (bit_or (min 0xffff n_rules * 2 ^ 16) r)

unfoldable pub sgx_evg_group_resize : ℕ → ℕ → ℕ → M (Unit {0})
sgx_evg_group_resize id priority evg = do
  t ← get_table id
  put_table id (record t { groups_by_size = heap_change t.groups_by_size evg priority })

-- The group of an id, or a new one.
unfoldable pub sgx_evg_find : ℕ → ℕ → ℕ → M ℕ
unfolding first_with_hash heap_init
sgx_evg_find id evg_id priority = do
  t ← get_table id
  elim (first_with_hash evg_id t.groups_by_id) [
    | some evg ↦ pure evg
    | none ↦ do
      evg ← malloc
      put_table id (record t {
        groups_by_id = (evg_id, evg) ∷ t.groups_by_id;
        groups_by_size = heap_insert t.groups_by_size evg priority;
      })
      rules ← get_group evg
      put_group evg (heap_init rules)
      pure evg
  ]

-- The rules of the group lose it one by one, the last of the heap's array first.
unfoldable pub drop_rules : ℕ → ℕ → M (Unit {0})
unfolding heap_pop
drop_rules zero evg = pure tt
drop_rules (suc n) evg = do
  h ← get_group evg
  let (a, rest) = heap_pop h
  put_group evg rest
  r ← get_rule a
  put_rule a (record r { evict_group = none })
  drop_rules n evg

unfoldable pub sgx_evg_destroy : ℕ → ℕ → M (Unit {0})
unfolding drop_rules unlink
sgx_evg_destroy id evg = do
  h ← get_group evg
  drop_rules h.n evg
  t ← get_table id
  put_table id (record t {
    groups_by_id = unlink evg t.groups_by_id;
    groups_by_size = heap_remove t.groups_by_size evg;
  })

unfoldable pub destroy_groups : ℕ → List (ℕ × ℕ) → M (Unit {0})
unfolding sgx_evg_destroy
destroy_groups id [] = pure tt
destroy_groups id ((h, evg) ∷ rest) = sgx_evg_destroy id evg >> destroy_groups id rest

unfoldable pub ecall_oftable_disable_eviction : ℕ → M (Unit {0})
unfolding destroy_groups
ecall_oftable_disable_eviction id = do
  t ← get_table id
  elim t.eviction_fields [
    | none ↦ pure tt
    | some _ ↦ do
      destroy_groups id t.groups_by_id
      t' ← get_table id
      put_table id (record t' { eviction_fields = none })
  ]

unfoldable pub same_fields : List Subfield → List Subfield → Bool
same_fields [] [] = true
same_fields [] (g ∷ gs) = false
same_fields (f ∷ fs) [] = false
same_fields (f ∷ fs) (g ∷ gs) =
    f.field == g.field && f.ofs == g.ofs && f.n_bits == g.n_bits && same_fields fs gs

unfoldable pub is_unchanged : List Subfield → Option (List Subfield) → Bool
unfolding same_fields
is_unchanged fields none = false
is_unchanged fields (some old) = same_fields fields old

-- Returns `*no_change`.
unfoldable pub ecall_oftable_enable_eviction : ℕ → List Subfield → ℕ → M Bool
unfolding is_unchanged ecall_oftable_disable_eviction heap_init
ecall_oftable_enable_eviction id fields random_v = do
  t ← get_table id
  elim (is_unchanged fields t.eviction_fields) [
    | true ↦ pure true
    | false ↦ do
      ecall_oftable_disable_eviction id
      t' ← get_table id
      put_table id (record t' {
        eviction_fields = some fields;
        group_id_basis = random_v;
        groups_by_id = [];
        groups_by_size = heap_init t'.groups_by_size;
      })
      pure false
  ]

unfoldable pub ecall_need_to_evict : ℕ → M Bool
unfolding ecall_is_eviction_fields_enabled classifier_count
ecall_need_to_evict id = do
  enabled ← ecall_is_eviction_fields_enabled id
  t ← get_table id
  pure (enabled && ltb t.max_flows (classifier_count t.cls))

-- HEAP_FOR_EACH goes through the array from position 1 up, whatever the priorities: from a node it
-- goes on to the position after the node's own `idx`, which in a heap is where it stands.
unfoldable pub nodes_from : Heap → ℕ → ℕ → List ℕ
nodes_from h i zero = []
nodes_from h i (suc rounds) = h.array i ∷ nodes_from h (i + 1) rounds

unfoldable pub heap_nodes : Heap → List ℕ
unfolding nodes_from
heap_nodes h = nodes_from h 1 h.n

unfoldable pub first_evictable : Bridge → List ℕ → Option ℕ
first_evictable b [] = none
first_evictable b (a ∷ as_) =
    if (b.rule a).evictable then some (b.rule a).o_cls_rule else first_evictable b as_

unfoldable pub or_else : Option ℕ → Option ℕ → Option ℕ
or_else none next = next
or_else (some o) next = some o

unfoldable pub first_in_groups : Bridge → List ℕ → Option ℕ
unfolding first_evictable heap_nodes or_else
first_in_groups b [] = none
first_in_groups b (evg ∷ evgs) =
    or_else (first_evictable b (heap_nodes (b.group evg))) (first_in_groups b evgs)

-- The untrusted address of the rule, or null.
unfoldable pub ecall_choose_rule_to_evict : ℕ → M (Option ℕ)
unfolding first_in_groups heap_nodes
ecall_choose_rule_to_evict id b = elim (b.oftables id).eviction_fields [
  | none ↦ some (none, b)
  | some _ ↦ some (first_in_groups b (heap_nodes (b.oftables id).groups_by_size), b)
]

-- The replacer is immune while the choice is made.
unfoldable pub ecall_choose_rule_to_evict_p : ℕ → ℕ → M (Option ℕ)
unfolding rule_of ecall_choose_rule_to_evict
ecall_choose_rule_to_evict_p id replacer = do
  a ← rule_of replacer
  r ← get_rule a
  put_rule a (record r { evictable = false })
  chosen ← ecall_choose_rule_to_evict id
  r' ← get_rule a
  put_rule a (record r' { evictable = r.evictable })
  pure chosen

unfoldable pub ecall_evg_remove_rule : ℕ → ℕ → M (Unit {0})
unfolding rule_of sgx_evg_destroy sgx_evg_group_resize size_priority heap_is_empty random_uint16
ecall_evg_remove_rule id o_cls_rule = do
  a ← rule_of o_cls_rule
  r ← get_rule a
  elim r.evict_group [
    | none ↦ pure tt
    | some evg ↦ do
      put_rule a (record r { evict_group = none })
      h ← get_group evg
      put_group evg (heap_remove h a)
      h' ← get_group evg
      elim (heap_is_empty h') [
        | true ↦ sgx_evg_destroy id evg
        | false ↦ do x ← random_uint16; sgx_evg_group_resize id (size_priority h'.n x) evg
      ]
  ]

module _ (group_hash : Oftable → ClsRule → ℕ) where
  unfoldable pub ecall_evg_add_rule : ℕ → ℕ → ℕ → ℕ → M (Unit {0})
  unfolding rule_of sgx_evg_find sgx_evg_group_resize size_priority heap_count random_uint16
  ecall_evg_add_rule id o_cls_rule priority rule_priority = do
    a ← rule_of o_cls_rule
    r ← get_rule a
    t ← get_table id
    evg ← sgx_evg_find id (group_hash t r.cls_rule) priority
    put_rule a (record r { evict_group = some evg })
    h ← get_group evg
    put_group evg (heap_insert h a rule_priority)
    h' ← get_group evg
    x ← random_uint16
    sgx_evg_group_resize id (size_priority (heap_count h') x) evg

  -- The rules, each with its priority, all with one group priority.
  unfoldable pub ecall_eviction_group_add_rules : ℕ → List (ℕ × ℕ) → ℕ → M (Unit {0})
  unfolding ecall_evg_add_rule
  ecall_eviction_group_add_rules id [] group_priority = pure tt
  ecall_eviction_group_add_rules id ((rule, priority) ∷ rest) group_priority =
      ecall_evg_add_rule id rule group_priority priority
      >> ecall_eviction_group_add_rules id rest group_priority
