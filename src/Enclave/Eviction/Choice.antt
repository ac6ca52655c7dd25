-- ===== src/Enclave/Eviction/Choice.antt =====
-- Which rule the eviction handlers choose.
use ovs_sgx.Prelude.{
  ℕ, ◌≡◌, refl, Bool, true, false, Option, none, some, List, [], ◌∷◌, Bool-cases, inl, inr, All,
  Any,
}
use ovs_sgx.Enclave.State.{Subfield, Bridge}
use ovs_sgx.Enclave.Eviction.{
  heap_nodes, or_else, first_evictable, first_in_groups, ecall_choose_rule_to_evict,
}

-- The rules in the heap of a group; the groups of a table.
abbrev pub group_rules : Bridge → ℕ → List ℕ
group_rules b evg = heap_nodes (b.group evg)

abbrev pub groups : Bridge → ℕ → List ℕ
groups b id = heap_nodes (b.oftables id).groups_by_size

abbrev pub is_evictable : Bridge → ℕ → Bool
is_evictable b a = (b.rule a).evictable

-- The choice is an evictable rule of one of the groups, given by its untrusted address, or there is
-- no evictable rule in the groups.
abbrev pub IsChoice : Bridge → List ℕ → Option ℕ → Type 0
IsChoice b evgs none = All (λ evg. All (λ a. is_evictable b a ≡ false) (group_rules b evg)) evgs
IsChoice b evgs (some o) =
    Any
      (λ evg.
        Any (λ a. ((b.rule a).evictable ≡ true) × ((b.rule a).o_cls_rule ≡ o)) (group_rules b evg))
      evgs

abbrev IsFirst : Bridge → List ℕ → Option ℕ → Type 0
IsFirst b as_ none = All (λ a. is_evictable b a ≡ false) as_
IsFirst b as_ (some o) = Any (λ a. ((b.rule a).evictable ≡ true) × ((b.rule a).o_cls_rule ≡ o)) as_

first_evictable-IsFirst : (b : Bridge) (as_ : List ℕ) → IsFirst b as_ (first_evictable b as_)
unfolding first_evictable
first_evictable-IsFirst b [] = tt
first_evictable-IsFirst b (a ∷ as_) = elim (Bool-cases (b.rule a).evictable) [
  | inl e ↦ rw e (inl (e, refl))
  | inr e ↦ rw e (later (first_evictable b as_) e (first_evictable-IsFirst b as_))
]
  where
    later : (o : Option ℕ) → (b.rule a).evictable ≡ false → IsFirst b as_ o → IsFirst b (a ∷ as_) o
    later none e v = (e, v)
    later (some o) e v = inr v

or_else-IsChoice :
    (b : Bridge) (evg : ℕ) (evgs : List ℕ) (o next : Option ℕ)
    → IsFirst b (group_rules b evg) o
    → IsChoice b evgs next
    → IsChoice b (evg ∷ evgs) (or_else o next)
unfolding or_else
or_else-IsChoice b evg evgs none none v w = (v, w)
or_else-IsChoice b evg evgs none (some o) v w = inr w
or_else-IsChoice b evg evgs (some o) next v w = inl v

first_in_groups-IsChoice : (b : Bridge) (evgs : List ℕ) → IsChoice b evgs (first_in_groups b evgs)
unfolding first_in_groups
first_in_groups-IsChoice b [] = tt
first_in_groups-IsChoice b (evg ∷ evgs) =
    or_else-IsChoice b evg evgs _ _ (first_evictable-IsFirst b (group_rules b evg))
      (first_in_groups-IsChoice b evgs)

choose_rule_to_evict-enabled :
    (b : Bridge) (id : ℕ) {fields : List Subfield}
    → (b.oftables id).eviction_fields ≡ some fields
    → ecall_choose_rule_to_evict id b ≡ some (first_in_groups b (groups b id), b)
unfolding ecall_choose_rule_to_evict
choose_rule_to_evict-enabled b id e = rw (e, ecall_choose_rule_to_evict) refl

-- In a table with eviction, ecall_choose_rule_to_evict returns an evictable rule of one of the
-- table's groups, and none only if every rule of the groups is immune; it changes nothing.
pub choose_rule_to_evict-IsChoice :
    (b : Bridge) (id : ℕ) {fields : List Subfield}
    → (b.oftables id).eviction_fields ≡ some fields
    → (o : Option ℕ) × (ecall_choose_rule_to_evict id b ≡ some (o, b)) × IsChoice b (groups b id) o
choose_rule_to_evict-IsChoice b id e = (
  first_in_groups b (groups b id),
  choose_rule_to_evict-enabled b id e,
  first_in_groups-IsChoice b (groups b id),
)
