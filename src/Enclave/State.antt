-- ===== src/Enclave/State.antt =====
-- The state that OFTonSGX/trusted keeps for one bridge: the entries of SGX_oftables, SGX_n_tables
-- and SGX_hmap_table (enclave.c) under its bridge_id, with the structures of ofproto-provider.h that
-- they lead to, and rand.c. Every handler reads and writes those entries only, so the model's
-- handlers work on one bridge. A null dereference is `none`; a handler is a function from a bridge
-- to its result and the new bridge.
use ovs_sgx.Prelude.{
  ℕ, ◌+◌, ◌%◌, ◌^◌, Bool, true, false, not, Option, none, some, List, update, ◌==◌, bit_and,
}
use ovs_sgx.Heap.{Heap}
use ovs_sgx.Classifier.{ClsRule, Classifier}

-- A subfield of `struct mf_subfield`: the field's number, offset and width.
pub record Subfield : Type 0 where
  pub field : ℕ
  pub ofs : ℕ
  pub n_bits : ℕ

-- `struct oftable`. The groups by id are pairs of a hash and a group's address; the nodes of
-- `groups_by_size` are groups' addresses.
pub record Oftable : Type 0 where
  pub flags : ℕ
  pub cls : Classifier
  pub name : Option (List ℕ)
  pub max_flows : ℕ
  pub eviction_fields : Option (List Subfield)
  pub group_id_basis : ℕ
  pub groups_by_id : List (ℕ × ℕ)
  pub groups_by_size : Heap

-- `struct sgx_cls_rule`: the untrusted address, the trusted rule, and its eviction state.
pub record SgxClsRule : Type 0 where
  pub o_cls_rule : ℕ
  pub cls_rule : ClsRule
  pub evict_group : Option ℕ
  pub evictable : Bool

-- `cls_rules` is the hmap of SGX_hmap_table, with its mask `cls_mask`: pairs of a hash and the address of
-- an sgx_cls_rule. Those with one hash stand in the order of their chain; the order of others is of no
-- consequence.
-- `rule` and `group` are the memory of the rules and of the groups' heaps (`evg->rules`), whose
-- nodes are rules' addresses. `fresh` is the next address that malloc returns, and `random` what
-- sgx_read_rand gives, `drawn` numbers of which are used.
pub record Bridge : Type 0 where
  pub n_tables : ℕ
  pub oftables : ℕ → Oftable
  pub cls_rules : List (ℕ × ℕ)
  pub cls_mask : ℕ
  pub rule : ℕ → SgxClsRule
  pub group : ℕ → Heap
  pub fresh : ℕ
  pub random : ℕ → ℕ
  pub drawn : ℕ

abbrev pub M : Type 0 → Type 0
M A = Bridge → Option (A × Bridge)

abbrev pub pure : {A : Type 0} → A → M A
pure a b = some (a, b)

infixl 5 ◌>>=◌ ◌>>◌
abbrev pub ◌>>=◌ : {A B : Type 0} → M A → (A → M B) → M B
◌>>=◌ m k b = elim (m b) [ none ↦ none | some (a, b') ↦ k a b' ]

abbrev pub ◌>>◌ : {A B : Type 0} → M A → M B → M B
m >> k = m >>= λ _. k

abbrev pub when : Bool → M (Unit {0}) → M (Unit {0})
when true m = m
when false m = pure tt

-- Dereferencing a pointer that may be null.
abbrev pub deref : {A : Type 0} → Option A → M A
deref none b = none
deref (some a) b = some (a, b)

abbrev pub get_table : ℕ → M Oftable
get_table id b = some (b.oftables id, b)

abbrev pub put_table : ℕ → Oftable → M (Unit {0})
put_table id t b = some (tt, record b { oftables = update b.oftables id t })

abbrev pub get_rule : ℕ → M SgxClsRule
get_rule a b = some (b.rule a, b)

abbrev pub put_rule : ℕ → SgxClsRule → M (Unit {0})
put_rule a r b = some (tt, record b { rule = update b.rule a r })

abbrev pub get_group : ℕ → M Heap
get_group g b = some (b.group g, b)

abbrev pub put_group : ℕ → Heap → M (Unit {0})
put_group g h b = some (tt, record b { group = update b.group g h })

-- xmalloc: an address that nothing else has.
abbrev pub malloc : M ℕ
malloc b = some (b.fresh, record b { fresh = b.fresh + 1 })

unfoldable pub random_uint16 : M ℕ
random_uint16 b = some (b.random b.drawn % 2 ^ 16, record b { drawn = b.drawn + 1 })

-- OFTABLE_HIDDEN and OFTABLE_READONLY.
unfoldable pub is_hidden : Oftable → Bool
is_hidden t = not (bit_and t.flags 1 == 0)

unfoldable pub is_readonly : Oftable → Bool
is_readonly t = not (bit_and t.flags 2 == 0)
