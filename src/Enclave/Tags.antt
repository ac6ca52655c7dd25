-- ===== src/Enclave/Tags.antt =====
-- Revalidation tags: SGX_table_dpif of OFTonSGX/trusted/enclave.c with ecall_oftable_update_taggable and
-- ecall_oftable_is_other_table of oftable/oftable.c, and the tag handlers of cls_rule/cls-rule.c.
use ovs_sgx.Prelude.{
  ℕ, ◌==◌, Bool, true, false, not, ◌&&◌, ◌||◌, Option, none, some, List, [], ◌∷◌, if◌then◌else◌,
  update, length, leb,
}
use ovs_sgx.Flow.{Flow, Minimask, minimask_equal, flow_hash_in_minimask}
use ovs_sgx.Flow.Masks.{minimask_is_catchall}
use ovs_sgx.Classifier.{ClsTable, Match}
use ovs_sgx.Enclave.State.{Bridge, M, pure, deref, ◌>>=◌, get_rule}
use ovs_sgx.Enclave.Rules.{rule_of, ecall_miniflow_expand, ecall_cls_rule_format}

-- `struct SGX_table_dpif`. A pointer to a classifier's table is the table's mask, which no other table
-- of the classifier has.
pub record TableDpif : Type 0 where
  pub catchall_table : Option Minimask
  pub other_table : Option Minimask
  pub basis : ℕ

abbrev pub same_table : Option Minimask → Option Minimask → Bool
same_table none none = true
same_table none (some b) = false
same_table (some a) none = false
same_table (some a) (some b) = minimask_equal a b

-- The loop over one or two tables: `catchall` and `other`.
unfoldable pub scan_tables :
    List ClsTable → Option Minimask → Option Minimask → Option Minimask × Option Minimask
scan_tables [] catchall other = (catchall, other)
scan_tables (t ∷ ts) catchall none =
    if minimask_is_catchall t.mask
    then scan_tables ts (some t.mask) none
    else scan_tables ts catchall (some t.mask)
scan_tables (t ∷ ts) catchall (some o) =
    if minimask_is_catchall t.mask
    then scan_tables ts (some t.mask) (some o)
    else scan_tables ts catchall none

unfoldable pub taggable_tables : List ClsTable → Option Minimask × Option Minimask
taggable_tables tables =
    if not (length tables == 0) && leb (length tables) 2
    then scan_tables tables none none
    else (none, none)

abbrev pub rev_flow_table : ℕ
rev_flow_table = 4

unfoldable pub ecall_oftable_update_taggable : Bridge → (ℕ → TableDpif) → ℕ → ℕ × (ℕ → TableDpif)
ecall_oftable_update_taggable b dpif table_id =
    let found = taggable_tables (b.oftables table_id).cls.tables in
    let d = dpif table_id in
    if not (same_table d.catchall_table found.0) || not (same_table d.other_table found.1)
    then (
      rev_flow_table,
      update dpif table_id (record d { catchall_table = found.0; other_table = found.1 }),
    )
    else (0, dpif)

unfoldable pub ecall_oftable_is_other_table : (ℕ → TableDpif) → ℕ → ℕ
ecall_oftable_is_other_table dpif id = elim (dpif id).other_table [ none ↦ 0 | some t ↦ 100 ]

-- The tag of a flow under a mask
unfoldable pub tag_of : Minimask → ℕ → Flow → ℕ
tag_of mask basis flow =
    if minimask_is_catchall mask then 0 else flow_hash_in_minimask flow mask basis

unfoldable pub ecall_rule_calculate_tag : (ℕ → TableDpif) → ℕ → Flow → ℕ → M ℕ
unfolding rule_of
ecall_rule_calculate_tag dpif o_cls_rule flow table_id = do
  a ← rule_of o_cls_rule
  r ← get_rule a
  pure (tag_of r.cls_rule.match.mask (dpif table_id).basis flow)

-- Without an `other` table a null pointer is read.
unfoldable pub ecall_rule_calculate_tag_s : (ℕ → TableDpif) → ℕ → Flow → M ℕ
ecall_rule_calculate_tag_s dpif id flow = do
  mask ← deref (dpif id).other_table
  pure (tag_of mask (dpif id).basis flow)

-- The expanded flow and its tag
unfoldable pub ecall_miniflow_expand_and_tag : (ℕ → TableDpif) → ℕ → ℕ → M (Flow × ℕ)
unfolding ecall_miniflow_expand ecall_rule_calculate_tag
ecall_miniflow_expand_and_tag dpif ut_cr table_id = do
  flow ← ecall_miniflow_expand ut_cr
  tag ← ecall_rule_calculate_tag dpif ut_cr flow table_id
  pure (flow, tag)

unfoldable pub ecall_cls_rules_format : List ℕ → M (List (Match × ℕ))
unfolding ecall_cls_rule_format
ecall_cls_rules_format [] = pure []
ecall_cls_rules_format (rule ∷ rules) = do
  m ← ecall_cls_rule_format rule
  ms ← ecall_cls_rules_format rules
  pure (m ∷ ms)
