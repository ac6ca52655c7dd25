-- ===== src/Dispatch/Returns.antt =====
-- What the wrappers of OFTonSGX/untrusted/app.c return: the variable whose address goes with the call,
-- after the dispatcher of OFTonSGX/trusted/call-table.c has stored the handler's result in it.
use ovs_sgx.Prelude.{
  ℕ, ◌+◌, ◌*◌, ◌/◌, ◌%◌, ◌^◌, ◌<◌, ◌≡◌, refl, sym, ap, ◌∙◌, ◌==◌, ==_iff, Bool, true, false, Option,
  none, some, Bool-cases, inl, inr, if◌then◌else◌, arith,
}
use native.Mathlib.Nat.{add-mul-mod_self_left}
use ovs_sgx.Dispatch.{Scalar, size, int, width}
use ovs_sgx.Dispatch.Cases.{case_of}
use ovs_sgx.Dispatch.Invocations.{
  Invocation, collect_rules_loose_c, collect_rules_strict_c, oftable_enable_eviction_c,
  collect_ofmonitor_util_c, flush_c, flow_stats_c, dpif_destroy_c, ofproto_get_vlan_usage_c,
  miniflow_expand_and_tag, readonly_set,
}
use ovs_sgx.Dispatch.Wrappers.{wrapper_of}
use ovs_sgx.Dispatch.Execute.{values}

-- `*(t *) fc->return_value = v`, where the return value is a variable of type `w` that held `before`
unfoldable pub store : Scalar → Scalar → ℕ → ℕ → ℕ
store w t before v = (v % values t + values t * (before / values t)) % values w

-- The type through which the dispatcher stores the result of the call
unfoldable pub stored : Invocation → Option Scalar
stored i = let w = wrapper_of i in elim (case_of w.id) [ none ↦ none | some c ↦ c.stores ]

-- What a wrapper returns, from the types of its variable and of the store: none, if it returns nothing.
unfoldable pub returned : Bool → Option Scalar → Option Scalar → ℕ → ℕ → Option ℕ
returned false ret stores before v = none
returned true none stores before v = none
returned true (some w) none before v = some before
returned true (some w) (some t) before v = some (store w t before v)

-- What the wrapper of a hot call returns, for the handler's result and what its variable held before
unfoldable pub hot_result : Invocation → ℕ → ℕ → Option ℕ
hot_result i before v = let w = wrapper_of i in returned w.returned w.ret (stored i) before v

-- What the wrapper of a direct call returns: the handler's result, in the variable's type
unfoldable pub direct_result : Invocation → ℕ → Option ℕ
direct_result i v = let w = wrapper_of i in returned w.returned w.ret w.ret 0 v

-- The counts, which are stored as an `int` in a variable of type `size_t` that was never set
unfoldable pub is_half_set : Invocation → Bool
is_half_set (collect_rules_loose_c bridge_id ofproto_n_tables table_id match) = true
is_half_set (collect_rules_strict_c bridge_id ofproto_n_tables table_id match priority) = true
is_half_set (oftable_enable_eviction_c bridge_id table_id) = true
is_half_set (collect_ofmonitor_util_c bridge_id ofproto_n_tables table_id match) = true
is_half_set (flush_c bridge_id) = true
is_half_set (flow_stats_c bridge_id) = true
is_half_set (dpif_destroy_c bridge_id) = true
is_half_set (ofproto_get_vlan_usage_c bridge_id) = true
is_half_set other = false

-- The tag, which is not stored at all
unfoldable pub is_unset : Invocation → Bool
is_unset (miniflow_expand_and_tag bridge_id ut_cr flow table_id) = true
is_unset other = false

agrees : Bool → Option Scalar → Option Scalar → Bool
agrees false ret stores = true
agrees true none stores = true
agrees true (some w) none = false
agrees true (some w) (some t) = width w == width t

store_whole : (w t : Scalar) (before v : ℕ) → width w ≡ width t → store w t before v ≡ store w w 0 v
unfolding store values
store_whole w t before v e = rw (← e) (
    add-mul-mod_self_left (v % 256 ^ width w) (256 ^ width w) (before / 256 ^ width w)
    ∙ sym (add-mul-mod_self_left (v % 256 ^ width w) (256 ^ width w) (0 / 256 ^ width w)))

returned_whole :
    (b : Bool) (ret stores : Option Scalar) (before v : ℕ)
    → agrees b ret stores ≡ true
    → returned b ret stores before v ≡ returned b ret ret 0 v
unfolding returned agrees
returned_whole false ret stores before v h = refl
returned_whole true none stores before v h = refl
returned_whole true (some w) none before v h = cc
returned_whole true (some w) (some t) before v h =
    ap some (store_whole w t before v ((==_iff (width w) (width t)).0 h))

-- Each result is stored in a variable of its width, with the exceptions above.
agrees_all :
    (i : Invocation)
    → is_half_set i ≡ false
    → is_unset i ≡ false
    → agrees (wrapper_of i).returned (wrapper_of i).ret (stored i) ≡ true
unfolding agrees is_half_set is_unset wrapper_of stored case_of width
agrees_all (readonly_set bridge_id table_id) h u = refl
agrees_all (collect_rules_loose_c bridge_id ofproto_n_tables table_id match) h u = cc
agrees_all (collect_rules_strict_c bridge_id ofproto_n_tables table_id match priority) h u = cc
agrees_all (oftable_enable_eviction_c bridge_id table_id) h u = cc
agrees_all (collect_ofmonitor_util_c bridge_id ofproto_n_tables table_id match) h u = cc
agrees_all (flush_c bridge_id) h u = cc
agrees_all (flow_stats_c bridge_id) h u = cc
agrees_all (dpif_destroy_c bridge_id) h u = cc
agrees_all (ofproto_get_vlan_usage_c bridge_id) h u = cc
agrees_all (miniflow_expand_and_tag bridge_id ut_cr flow table_id) h u = cc
agrees_all i h u = refl

whole :
    (i : Invocation) (before v : ℕ)
    → agrees (wrapper_of i).returned (wrapper_of i).ret (stored i) ≡ true
    → hot_result i before v ≡ direct_result i v
unfolding hot_result direct_result
whole i before v h = returned_whole (wrapper_of i).returned (wrapper_of i).ret (stored i) before v h

half_set :
    (i : Invocation) (before v : ℕ)
    → is_half_set i ≡ true
    → hot_result i before v ≡ some (store size int before v)
unfolding hot_result is_half_set wrapper_of stored case_of returned
half_set (collect_rules_loose_c bridge_id ofproto_n_tables table_id match) before v h = refl
half_set (collect_rules_strict_c bridge_id ofproto_n_tables table_id match priority) before v h =
    refl
half_set (oftable_enable_eviction_c bridge_id table_id) before v h = refl
half_set (collect_ofmonitor_util_c bridge_id ofproto_n_tables table_id match) before v h = refl
half_set (flush_c bridge_id) before v h = refl
half_set (flow_stats_c bridge_id) before v h = refl
half_set (dpif_destroy_c bridge_id) before v h = refl
half_set (ofproto_get_vlan_usage_c bridge_id) before v h = refl
half_set i before v h = cc

unset : (i : Invocation) (before v : ℕ) → is_unset i ≡ true → hot_result i before v ≡ some before
unfolding hot_result is_unset wrapper_of stored case_of returned
unset (miniflow_expand_and_tag bridge_id ut_cr flow table_id) before v h = refl
unset i before v h = cc

store_half :
    (before v : ℕ)
    → before < 18446744073709551616
    → store size int before v ≡ v % 4294967296 + 4294967296 * (before / 4294967296)
unfolding store values width
store_half before v h = omega arith

-- The wrapper of a hot call returns what the wrapper of the direct call returns, with these exceptions:
-- the eight counts have the handler's result in their lower four bytes and what the variable happened to
-- hold in the upper four, and the tag is what the variable happened to hold.
pub hot_result-direct :
    (i : Invocation) (before v : ℕ)
    → before < 18446744073709551616
    → hot_result i before v ≡ (
        if is_half_set i
        then some (v % 4294967296 + 4294967296 * (before / 4294967296))
        else if is_unset i
        then some before
        else direct_result i v)
hot_result-direct i before v h = elim (Bool-cases (is_half_set i)) [
  | inl e ↦ rw e (half_set i before v e ∙ ap some (store_half before v h))
  | inr e ↦ rw e (elim (Bool-cases (is_unset i)) [
    | inl u ↦ rw u (unset i before v u)
    | inr u ↦ rw u (whole i before v (agrees_all i e u))
  ])
]
