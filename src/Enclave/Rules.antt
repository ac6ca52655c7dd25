-- ===== src/Enclave/Rules.antt =====
-- OFTonSGX/trusted/cls_rule/cls-rule.c: the map from untrusted rule addresses to trusted rules, and
-- the handlers on one rule. The map's key is the address cut to 32 bits.
pub mod Nodes
pub mod Lookup
pub mod Undo
use ovs_sgx.Prelude.{
  ℕ, ◌+◌, ◌/◌, ◌%◌, ◌^◌, Bool, true, false, Option, none, some, List, [], ◌∷◌, ◌==◌, if◌then◌else◌,
  update, ltb, ◌&&◌, length,
}
use ovs_sgx.Hash.{u32}
use ovs_sgx.HashMap.{calc_mask}
use ovs_sgx.Flow.{Flow, Miniflow, flow_u32s, miniflow_expand}
use ovs_sgx.Flow.Masks.{miniflow_get_vid, minimask_get_vid_mask}
use ovs_sgx.Classifier.{
  ClsRule, Match, Minimatch, cls_rule_init, cls_rule_hash, cls_rule_equal, cls_rule_is_loose_match,
  classifier_remove, classifier_rule_overlaps, minimatch_expand,
}
use ovs_sgx.Enclave.State.{
  Bridge, SgxClsRule, M, pure, ◌>>=◌, ◌>>◌, deref, get_table, put_table, get_rule, put_rule, malloc,
}

-- HMAP_FOR_EACH_WITH_HASH returns the first node of the hash.
unfoldable pub first_with_hash : ℕ → List (ℕ × ℕ) → Option ℕ
first_with_hash hash [] = none
first_with_hash hash ((h, a) ∷ nodes) = if h == hash then some a else first_with_hash hash nodes

unfoldable pub sgx_rule_from_ut_cr : ℕ → Bridge → Option ℕ
unfolding first_with_hash
sgx_rule_from_ut_cr out b = first_with_hash (u32 out) b.cls_rules

-- The trusted rule of an untrusted address, which the handlers dereference.
unfoldable pub rule_of : ℕ → M ℕ
unfolding sgx_rule_from_ut_cr
rule_of out b = deref (sgx_rule_from_ut_cr out b) b

-- A zeroed sgx_cls_rule.
abbrev blank : ℕ → SgxClsRule
blank address = record {
  o_cls_rule = 0;
  cls_rule = record {
    address = address;
    hash = 0;
    match = record {
      flow = record { map = []; values = [] };
      mask = record { map = []; values = [] };
    };
    priority = 0;
  };
  evict_group = none;
  evictable = false;
}

-- `resize` puts each node of a chain in front of those before it.
unfoldable pub reinsert : List (ℕ × ℕ) → List (ℕ × ℕ) → List (ℕ × ℕ)
reinsert [] tmp = tmp
reinsert (node ∷ nodes) tmp = reinsert nodes (node ∷ tmp)

-- The end of hmap_insert, which expands the map: its nodes and its mask
unfoldable pub grown : ℕ → List (ℕ × ℕ) → List (ℕ × ℕ) × ℕ
unfolding reinsert calc_mask
grown mask nodes =
    let n = length nodes in
    if ltb mask (n / 2) && ltb mask (calc_mask n)
    then (reinsert nodes [], calc_mask n)
    else (nodes, mask)

unfoldable pub node_insert : ℕ → M ℕ
unfolding grown
node_insert hash = do
  new ← malloc
  put_rule new (blank new)
  λ b.
      let (nodes, mask) = grown b.cls_mask ((hash, new) ∷ b.cls_rules) in
      some (new, record b { cls_rules = nodes; cls_mask = mask })

-- hmap_remove unlinks the node at an address.
unfoldable pub unlink : ℕ → List (ℕ × ℕ) → List (ℕ × ℕ)
unlink a [] = []
unlink a ((h, x) ∷ nodes) = if x == a then nodes else (h, x) ∷ unlink a nodes

unfoldable pub node_delete : ℕ → M (Unit {0})
unfolding rule_of unlink
node_delete out = do a ← rule_of out; λ b. some (tt, record b { cls_rules = unlink a b.cls_rules })

unfoldable pub ecall_cls_rule_init : ℕ → Match → ℕ → M (Unit {0})
unfolding node_insert cls_rule_init
ecall_cls_rule_init o_cls_rule match priority = do
  a ← node_insert (u32 o_cls_rule)
  r ← get_rule a
  put_rule a (record r {
    o_cls_rule = o_cls_rule;
    cls_rule = cls_rule_init r.cls_rule match priority;
    evictable = true;
  })

unfoldable pub ecall_cr_rule_overlaps : ℕ → ℕ → M Bool
unfolding rule_of
ecall_cr_rule_overlaps table_id out = do
  a ← rule_of out
  r ← get_rule a
  t ← get_table table_id
  pure (classifier_rule_overlaps t.cls r.cls_rule)

-- cls_rule_destroy only frees memory; node_delete searches the rule's own untrusted address.
unfoldable pub ecall_cls_rule_destroy : ℕ → M (Unit {0})
unfolding rule_of node_delete
ecall_cls_rule_destroy out = do a ← rule_of out; r ← get_rule a; node_delete r.o_cls_rule

unfoldable pub ecall_cls_rule_hash : ℕ → ℕ → M ℕ
unfolding rule_of
ecall_cls_rule_hash out basis = do
  a ← rule_of out
  r ← get_rule a
  pure (cls_rule_hash r.cls_rule basis)

unfoldable pub ecall_cls_rule_equal : ℕ → ℕ → M Bool
unfolding rule_of
ecall_cls_rule_equal out_a out_b = do
  a ← rule_of out_a
  b ← rule_of out_b
  x ← get_rule a
  y ← get_rule b
  pure (cls_rule_equal x.cls_rule y.cls_rule)

unfoldable pub ecall_cls_remove : ℕ → ℕ → M (Unit {0})
unfolding rule_of
ecall_cls_remove table_id out = do
  a ← rule_of out
  r ← get_rule a
  t ← get_table table_id
  cls ← deref (classifier_remove t.cls r.cls_rule)
  put_table table_id (record t { cls = cls })

unfoldable pub ecall_cr_priority : ℕ → M ℕ
unfolding rule_of
ecall_cr_priority out = do a ← rule_of out; r ← get_rule a; pure r.cls_rule.priority

unfoldable pub ecall_cls_rule_is_loose_match : ℕ → Minimatch → M ℕ
unfolding rule_of
ecall_cls_rule_is_loose_match out criteria = do
  a ← rule_of out
  r ← get_rule a
  pure (if cls_rule_is_loose_match r.cls_rule criteria then 100 else 0)

unfoldable pub ecall_minimatch_expand : ℕ → M Match
unfolding rule_of
ecall_minimatch_expand out = do
  a ← rule_of out
  r ← get_rule a
  pure (minimatch_expand r.cls_rule.match)

-- The expanded match and the priority.
unfoldable pub ecall_cls_rule_format : ℕ → M (Match × ℕ)
unfolding rule_of
ecall_cls_rule_format out = do
  a ← rule_of out
  r ← get_rule a
  pure (minimatch_expand r.cls_rule.match, r.cls_rule.priority)

unfoldable pub ecall_miniflow_expand : ℕ → M Flow
unfolding rule_of
ecall_miniflow_expand out = do
  a ← rule_of out
  r ← get_rule a
  pure (miniflow_expand flow_u32s r.cls_rule.match.flow)

unfoldable pub ecall_minimask_get_vid_mask : ℕ → M ℕ
unfolding rule_of
ecall_minimask_get_vid_mask out = do
  a ← rule_of out
  r ← get_rule a
  pure (minimask_get_vid_mask r.cls_rule.match.mask)

unfoldable pub ecall_miniflow_get_vid : ℕ → M ℕ
unfolding rule_of
ecall_miniflow_get_vid out = do
  a ← rule_of out
  r ← get_rule a
  pure (miniflow_get_vid r.cls_rule.match.flow)

unfoldable pub ecall_minimatch_expand_and_get_priority : ℕ → M (Match × ℕ)
unfolding ecall_minimatch_expand ecall_cr_priority
ecall_minimatch_expand_and_get_priority out = do
  m ← ecall_minimatch_expand out
  p ← ecall_cr_priority out
  pure (m, p)
