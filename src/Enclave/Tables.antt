-- ===== src/Enclave/Tables.antt =====
-- OFTonSGX/trusted/oftable/oftable.c: the tables of a bridge, their flags and names, and the walk
-- over the tables that an OpenFlow request names; ecall_total_rules of ofproto/ofproto.c.
pub mod Walk
use ovs_sgx.Prelude.{
  ℕ, zero, suc, ◌+◌, ◌-◌, ◌%◌, ◌^◌, Bool, true, false, not, ◌&&◌, ◌||◌, Option, none, some, List,
  [], ◌∷◌, ◌==◌, ltb, if◌then◌else◌, update, get_or, length,
}
use ovs_sgx.Heap.{Heap, heap_init}
use ovs_sgx.Classifier.{
  ClsRule, Match, classifier_init, classifier_count, classifier_replace, classifier_lookup,
  classifier_find_match_exactly, with_hash,
}
use ovs_sgx.Flow.{Flow, Wildcards}
use ovs_sgx.Enclave.State.{
  Oftable, Bridge, SgxClsRule, M, pure, ◌>>=◌, ◌>>◌, when, get_table, put_table, get_rule, put_rule,
  is_hidden, is_readonly,
}
use ovs_sgx.Enclave.Rules.{rule_of}

-- UINT_MAX, the limit of a fresh table.
abbrev pub uint_max : ℕ
uint_max = 2 ^ 32 - 1

abbrev pub empty_heap : Heap
empty_heap = record { array = λ _. 0; n = 0; allocated = 0; idx = λ _. 0; priority = λ _. 0 }

unfoldable pub oftable_init : Oftable
unfolding classifier_init
oftable_init = record {
  flags = 0;
  cls = classifier_init;
  name = none;
  max_flows = uint_max;
  eviction_fields = none;
  group_id_basis = 0;
  groups_by_id = [];
  groups_by_size = empty_heap;
}

-- Every table of the new array is initialised, and the map of the rules is emptied.
unfoldable pub ecall_ofproto_init_tables : ℕ → M (Unit {0})
unfolding oftable_init
ecall_ofproto_init_tables n_tables b = some (
  tt,
  record b { n_tables = n_tables; oftables = λ _. oftable_init; cls_rules = []; cls_mask = 0 },
)

unfoldable pub ecall_oftable_get_flags : ℕ → M ℕ
ecall_oftable_get_flags id = do t ← get_table id; pure t.flags

unfoldable pub ecall_oftable_cls_count : ℕ → M ℕ
unfolding classifier_count
ecall_oftable_cls_count id = do t ← get_table id; pure (classifier_count t.cls)

unfoldable pub ecall_oftable_mflows : ℕ → M ℕ
ecall_oftable_mflows id = do t ← get_table id; pure t.max_flows

unfoldable pub ecall_oftable_mflows_set : ℕ → ℕ → M (Unit {0})
ecall_oftable_mflows_set id value = do
  t ← get_table id
  put_table id (record t { max_flows = value })

unfoldable pub ecall_oftable_set_readonly : ℕ → M (Unit {0})
ecall_oftable_set_readonly id = do t ← get_table id; put_table id (record t { flags = 3 })

unfoldable pub ecall_oftable_is_readonly : ℕ → M Bool
unfolding is_readonly
ecall_oftable_is_readonly id = do t ← get_table id; pure (is_readonly t)

-- The loop of ecall_oftable_hidden_check: whether each assertion holds, from table `i` on for
-- `rounds` tables. A hidden table must be followed by hidden tables.
unfoldable pub hidden_from : (ℕ → Oftable) → ℕ → ℕ → Bool
unfolding is_hidden
hidden_from tables i zero = true
hidden_from tables i (suc rounds) =
    (not (is_hidden (tables i)) || is_hidden (tables (i + 1))) && hidden_from tables (i + 1) rounds

unfoldable pub ecall_oftable_hidden_check : M Bool
unfolding hidden_from
ecall_oftable_hidden_check b = some (hidden_from b.oftables 0 (b.n_tables - 1), b)

-- strnlen(name, 32).
unfoldable pub clip : ℕ → List ℕ → List ℕ
clip zero cs = []
clip (suc n) [] = []
clip (suc n) (c ∷ cs) = c ∷ clip n cs

unfoldable pub same_name : List ℕ → List ℕ → Bool
same_name [] ds = true
same_name (c ∷ cs) [] = false
same_name (c ∷ cs) (d ∷ ds) = c == d && same_name cs ds

unfoldable pub is_kept : List ℕ → Option (List ℕ) → Bool
unfolding same_name
is_kept new none = false
is_kept new (some old) = same_name new old

-- The test reads the character of the name at the bridge's number, `name[bridge_id]`; a character
-- past the end reads as 0 here. The stored name is kept where it begins with the new one.
unfoldable pub ecall_oftable_set_name : ℕ → ℕ → Option (List ℕ) → M (Unit {0})
unfolding clip is_kept
ecall_oftable_set_name bridge_id id none = do
  t ← get_table id
  put_table id (record t { name = none })
ecall_oftable_set_name bridge_id id (some name) = do
  t ← get_table id
  let keep = is_kept (clip 32 name) t.name
  put_table id (record t {
    name =
        if get_or name bridge_id 0 == 0 then none else if keep then t.name else some (clip 32 name);
  })

-- The rule's untrusted address; the trusted rule takes its hash in classifier_replace.
unfoldable pub untrusted : Bridge → Option ClsRule → Option ℕ
untrusted b none = none
untrusted b (some r) = some (b.rule r.address).o_cls_rule

unfoldable pub ecall_oftable_classifier_replace : ℕ → ℕ → M (Option ℕ)
unfolding rule_of classifier_replace with_hash untrusted
ecall_oftable_classifier_replace id ut_cr = do
  a ← rule_of ut_cr
  r ← get_rule a
  t ← get_table id
  let (cls, old) = classifier_replace t.cls r.cls_rule
  put_table id (record t { cls = cls })
  put_rule a (record r { cls_rule = with_hash r.cls_rule })
  λ b. some (untrusted b old, b)

unfoldable pub ecall_oftable_cls_find_match_exactly : ℕ → Match → ℕ → M (Option ℕ)
unfolding classifier_find_match_exactly untrusted
ecall_oftable_cls_find_match_exactly id target priority b =
    some (untrusted b (classifier_find_match_exactly (b.oftables id).cls target priority), b)

unfoldable pub ecall_oftable_cls_lookup :
    ℕ → Flow → Option Wildcards → M (Option ℕ × Option Wildcards)
unfolding classifier_lookup untrusted
ecall_oftable_cls_lookup id flow wc b =
    let (rule, wc') = classifier_lookup (b.oftables id).cls flow wc in
    some ((untrusted b rule, wc'), b)

-- next_visible_table: the first table from `i` on, of `rounds` tables, that is not hidden.
unfoldable pub next_visible_table : (ℕ → Oftable) → ℕ → ℕ → Option ℕ
unfolding is_hidden
next_visible_table tables i zero = none
next_visible_table tables i (suc rounds) =
    if is_hidden (tables i) then next_visible_table tables (i + 1) rounds else some i

-- `table_id` 0xff stands for all visible tables. `n` is `ofproto_n_tables`.
unfoldable pub first_matching_table : (ℕ → Oftable) → ℕ → ℕ → Option ℕ
unfolding next_visible_table
first_matching_table tables n table_id =
    if table_id == 0xff
    then next_visible_table tables 0 n
    else if ltb table_id n
    then some table_id
    else none

-- The number after the table's is cut to the 8 bits of the parameter of next_visible_table.
unfoldable pub next_matching_table : (ℕ → Oftable) → ℕ → ℕ → ℕ → Option ℕ
unfolding next_visible_table
next_matching_table tables n table table_id =
    let i = (table + 1) % 2 ^ 8 in
    if table_id == 0xff then next_visible_table tables i (n - i) else none

-- FOR_EACH_MATCHING_TABLE: the tables that the loop visits, with fuel for its rounds.
unfoldable pub matching_from : ℕ → (ℕ → Oftable) → ℕ → ℕ → Option ℕ → List ℕ
unfolding next_matching_table
matching_from zero tables n table_id at = []
matching_from (suc fuel) tables n table_id none = []
matching_from (suc fuel) tables n table_id (some i) =
    i ∷ matching_from fuel tables n table_id (next_matching_table tables n i table_id)

-- Of at most 255 tables, a round moves on to a later one, so `n + 1` rounds are enough. With more, and
-- table 255 visible, the loop begins again at table 0 and does not end.
unfoldable pub matching_tables : (ℕ → Oftable) → ℕ → ℕ → List ℕ
unfolding first_matching_table matching_from
matching_tables tables n table_id =
    matching_from (n + 1) tables n table_id (first_matching_table tables n table_id)

-- The sum is of type unsigned int.
unfoldable pub total_from : (ℕ → Oftable) → ℕ → ℕ → ℕ
unfolding classifier_count
total_from tables i zero = 0
total_from tables i (suc rounds) =
    (classifier_count (tables i).cls + total_from tables (i + 1) rounds) % 2 ^ 32

unfoldable pub ecall_total_rules : M ℕ
unfolding total_from
ecall_total_rules b = some (total_from b.oftables 0 b.n_tables, b)
