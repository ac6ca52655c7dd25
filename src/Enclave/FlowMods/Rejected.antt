-- ===== src/Enclave/FlowMods/Rejected.antt =====
-- A flow that ecall_add_flow rejects leaves no trace.
use ovs_sgx.Prelude.{
  ℕ, ◌≡◌, refl, Bool, true, false, Option, none, some, List, [], ◌∷◌, ◌==◌, bit_and, subst, sym,
  ◌&&◌,
}
use ovs_sgx.Classifier.{ClsRule, Match}
use ovs_sgx.Enclave.Run.{Ends, Ends-bind, Reads, Reads-bind, Always, Always-bind}
use ovs_sgx.Enclave.Rules.Undo.{
  Undone, IsAdded, IsNew, cls_rule_equal-Reads, cr_rule_overlaps-Reads, cls_rule_init-IsAdded,
  cls_rule_destroy-Undone,
}
use ovs_sgx.Enclave.Eviction.{ecall_evg_add_rule, ecall_is_eviction_fields_enabled}
use ovs_sgx.Enclave.State.{when, is_readonly, Oftable, Bridge, M, ◌>>=◌, ◌>>◌, pure}
use ovs_sgx.Enclave.Rules.{
  ecall_cls_rule_init, ecall_cls_rule_destroy, ecall_miniflow_get_vid, ecall_minimask_get_vid_mask,
  ecall_cls_rule_equal, ecall_cr_rule_overlaps,
}
use ovs_sgx.Enclave.FlowMods.{
  AddResult, read_only, deletion_pending, overlapping, victim_kept, added, finish_add,
  ecall_add_flow, is_pending, evict_overflow, remove_victim,
}
use ovs_sgx.Enclave.Tables.{ecall_oftable_is_readonly, ecall_oftable_classifier_replace}

pending_test-Reads :
    (cr : ℕ) (ps : List ℕ) (same : Bool)
    → Reads (is_pending cr ps)
    → Reads (elim same [ true ↦ pure true | false ↦ is_pending cr ps ])
pending_test-Reads cr ps true r = λ b. refl
pending_test-Reads cr ps false r = r

is_pending-Reads : (cr : ℕ) (ps : List ℕ) → Reads (is_pending cr ps)
unfolding is_pending
is_pending-Reads cr [] = λ b. refl
is_pending-Reads cr (p ∷ ps) =
    Reads-bind (ecall_cls_rule_equal cr p) _ (cls_rule_equal-Reads cr p)
      (λ same. pending_test-Reads cr ps same (is_pending-Reads cr ps))

abbrev pub IsUndone : Bridge → AddResult → Bridge → Type 0
IsUndone b read_only b' = b' ≡ b
IsUndone b deletion_pending b' = Undone b b'
IsUndone b overlapping b' = Undone b b'
IsUndone b (victim_kept v) b' = Unit
IsUndone b (added victim evicted overflow vid mask) b' = Unit

-- What finish_add does unless it keeps the victim.
abbrev report : ℕ → ℕ → Option ℕ → M AddResult
report id cr victim = do
  o ← evict_overflow id cr
  vid ← ecall_miniflow_get_vid cr
  mask ← ecall_minimask_get_vid_mask cr
  pure (added victim o.1 o.0 vid mask)

report-Always :
    (b : Bridge) (id cr : ℕ) (victim : Option ℕ) → Always (IsUndone b) (report id cr victim)
report-Always b id cr victim = Always-bind (IsUndone b) (evict_overflow id cr) _ (λ o.
    Always-bind (IsUndone b) (ecall_miniflow_get_vid cr) _
      (λ vid. Always-bind (IsUndone b) (ecall_minimask_get_vid_mask cr) _ (λ mask c. tt)))

-- The end of the handler rejects nothing.
finish_add-Always :
    (b : Bridge) (id cr : ℕ) (victim : Option ℕ) → Always (IsUndone b) (finish_add id cr victim)
unfolding finish_add
finish_add-Always b id cr none =
    Always-bind (IsUndone b) (ecall_oftable_is_readonly id) _
      (λ readonly. report-Always b id cr none)
finish_add-Always b id cr (some v) =
    Always-bind (IsUndone b) (ecall_oftable_is_readonly id) _ kept_or_added
  where
    kept_or_added :
        (readonly : Bool)
        → Always
            (IsUndone b)
            (elim readonly [ true ↦ pure (victim_kept v) | false ↦ report id cr (some v) ])
    kept_or_added true = λ c. tt
    kept_or_added false = report-Always b id cr (some v)

-- What holds after ecall_add_flow on the state `b`.
abbrev pub IsTraceless : Bridge → Option (AddResult × Bridge) → Type 0
IsTraceless b o = Ends (IsUndone b) o

-- Destroying the new rule, with the report of a rejection.
rejected-Undone :
    (b c : Bridge) (cr a : ℕ) (r : AddResult)
    → IsAdded b cr a c
    → ((b' : Bridge) → Undone b b' → IsUndone b r b')
    → Ends (IsUndone b) ((ecall_cls_rule_destroy cr >> pure r) c)
rejected-Undone b c cr a r v f =
    Ends-bind _ (IsUndone b) (ecall_cls_rule_destroy cr) _ c (cls_rule_destroy-Undone b c cr a v)
      (λ x b' u. f b' u)

overlap_test-Reads :
    (id cr : ℕ) (skip : Bool)
    → Reads (elim skip [ true ↦ pure false | false ↦ ecall_cr_rule_overlaps id cr ])
overlap_test-Reads id cr true = λ b. refl
overlap_test-Reads id cr false = cr_rule_overlaps-Reads id cr

module _ (group_hash : Oftable → ClsRule → ℕ) (id cr group_priority rule_priority : ℕ)
    (has_timeout : Bool) where
  -- The handler once the rule is accepted.
  abbrev accept : M AddResult
  accept = do
    victim ← ecall_oftable_classifier_replace id cr
    remove_victim id victim
    enabled ← ecall_is_eviction_fields_enabled id
    when (enabled && has_timeout) (ecall_evg_add_rule group_hash id cr group_priority rule_priority)
    finish_add id cr victim

  accept-Always : (b : Bridge) → Always (IsUndone b) accept
  accept-Always b = Always-bind (IsUndone b) (ecall_oftable_classifier_replace id cr) _ (λ victim.
      Always-bind (IsUndone b) (remove_victim id victim) _ (λ _.
        Always-bind (IsUndone b) (ecall_is_eviction_fields_enabled id) _ (λ enabled.
          Always-bind (IsUndone b)
            (when (enabled && has_timeout)
              (ecall_evg_add_rule group_hash id cr group_priority rule_priority))
            _ (λ _. finish_add-Always b id cr victim))))

  abbrev after_overlap : Bool → M AddResult
  after_overlap overlaps = elim overlaps [
    | true ↦ ecall_cls_rule_destroy cr >> pure overlapping
    | false ↦ accept
  ]

  abbrev after_pending : ℕ → Bool → M AddResult
  after_pending flags deleted = elim deleted [
    | true ↦ ecall_cls_rule_destroy cr >> pure deletion_pending
    | false ↦
        elim (bit_and flags 2 == 0) [ true ↦ pure false | false ↦ ecall_cr_rule_overlaps id cr ]
        >>= λ overlaps. after_overlap overlaps
  ]

  abbrev after_readonly : Match → ℕ → ℕ → List ℕ → Bool → M AddResult
  after_readonly m priority flags pending readonly = elim readonly [
    | true ↦ pure read_only
    | false ↦
        ecall_cls_rule_init cr m priority
        >> (is_pending cr pending >>= λ deleted. after_pending flags deleted)
  ]

  after_overlap-Undone :
      (b c : Bridge) (a : ℕ) (overlaps : Bool)
      → IsAdded b cr a c
      → Ends (IsUndone b) (after_overlap overlaps c)
  after_overlap-Undone b c a true v = rejected-Undone b c cr a overlapping v (λ b' u. u)
  after_overlap-Undone b c a false v = accept-Always b c

  after_pending-Undone :
      (b c : Bridge) (a flags : ℕ) (deleted : Bool)
      → IsAdded b cr a c
      → Ends (IsUndone b) (after_pending flags deleted c)
  after_pending-Undone b c a flags true v = rejected-Undone b c cr a deletion_pending v (λ b' u. u)
  after_pending-Undone b c a flags false v =
      Ends-bind _ (IsUndone b)
        (elim (bit_and flags 2 == 0) [ true ↦ pure false | false ↦ ecall_cr_rule_overlaps id cr ]) _
        c (overlap_test-Reads id cr (bit_and flags 2 == 0) c)
        (λ overlaps d e. rw e (after_overlap-Undone b c a overlaps v))

  after_readonly-Undone :
      (b : Bridge) (m : Match) (priority flags : ℕ) (pending : List ℕ) (readonly : Bool)
      → IsNew b cr
      → Ends (IsUndone b) (after_readonly m priority flags pending readonly b)
  after_readonly-Undone b m priority flags pending true k = refl
  after_readonly-Undone b m priority flags pending false k =
      Ends-bind _ (IsUndone b) (ecall_cls_rule_init cr m priority) _ b
        (cls_rule_init-IsAdded b cr m priority k)
        (λ _ c v.
          Ends-bind _ (IsUndone b) (is_pending cr pending) _ c (is_pending-Reads cr pending c)
            (λ deleted d e. rw e (after_pending-Undone b c b.fresh flags deleted v)))

  add_flow-stages :
      (b : Bridge) (m : Match) (priority flags : ℕ) (pending : List ℕ)
      → ecall_add_flow group_hash id cr m priority flags group_priority rule_priority pending
          has_timeout b
        ≡ after_readonly m priority flags pending (is_readonly (b.oftables id)) b
  unfolding ecall_add_flow is_readonly
  add_flow-stages b m priority flags pending = refl

module _ (group_hash : Oftable → ClsRule → ℕ) where
  -- For a rule whose untrusted address shares its low 32 bits with none of the map, in a map in which no
  -- two do, and memory that `malloc` returns only once, unless it dereferences a null pointer: when ecall_add_flow rejects a flow because its table is
  -- read-only, nothing has changed; when it rejects it because an equal rule is to be deleted or because it overlaps another rule, the
  -- tables and the groups are as before, and so is what the map of the rules finds for every address.
  pub add_flow-IsTraceless :
      (b : Bridge) (id cr : ℕ) (m : Match) (priority flags group_priority rule_priority : ℕ)
      (pending : List ℕ) (has_timeout : Bool)
      → IsNew b cr
      → IsTraceless b (
          ecall_add_flow group_hash id cr m priority flags group_priority rule_priority pending
            has_timeout b)
  unfolding ecall_add_flow
  add_flow-IsTraceless b id cr m priority flags group_priority rule_priority pending has_timeout k =
      subst (λ o. IsTraceless b o)
        (sym (
          add_flow-stages group_hash id cr group_priority rule_priority has_timeout b m priority
            flags pending))
        (after_readonly-Undone group_hash id cr group_priority rule_priority has_timeout b m
          priority flags pending (is_readonly (b.oftables id)) k)
