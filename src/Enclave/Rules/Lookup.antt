-- ===== src/Enclave/Rules/Lookup.antt =====
-- The map from untrusted addresses to trusted rules.
use ovs_sgx.Prelude.{ℕ, ◌≡◌, ◌∙◌, refl, ap, true, none, some, ◌∷◌, ◌==◌, ==_refl, if◌then◌else◌}
use ovs_sgx.Hash.{u32}
use ovs_sgx.Classifier.{Match}
use ovs_sgx.Enclave.State.{Bridge, deref, get_rule, pure, ◌>>=◌}
use ovs_sgx.Enclave.Rules.Nodes.{Distinct, grown-found, grown-Distinct}
use ovs_sgx.Enclave.Rules.{
  first_with_hash, sgx_rule_from_ut_cr, ecall_cls_rule_init, ecall_cr_priority, rule_of,
}

rule_of_found :
    (b : Bridge) (o a : ℕ) → sgx_rule_from_ut_cr o b ≡ some a → rule_of o b ≡ some (a, b)
unfolding rule_of
rule_of_found b o a e = ap (λ p. deref p b) e

cr_priority-rule_of :
    (b : Bridge) (o a : ℕ)
    → rule_of o b ≡ some (a, b)
    → ecall_cr_priority o b ≡ some ((b.rule a).cls_rule.priority, b)
unfolding ecall_cr_priority
cr_priority-rule_of b o a e =
    ap
      (λ m. elim m [
        | none ↦ none
        | some (x, c) ↦ (get_rule x >>= λ r. pure (r.cls_rule.priority)) c
      ])
      e

cr_priority_found :
    (b : Bridge) (o a : ℕ)
    → sgx_rule_from_ut_cr o b ≡ some a
    → ecall_cr_priority o b ≡ some ((b.rule a).cls_rule.priority, b)
cr_priority_found b o a e = cr_priority-rule_of b o a (rule_of_found b o a e)

-- For an untrusted address whose low 32 bits no rule of the map shares, in a map in which no two rules
-- share theirs, ecall_cls_rule_init succeeds, also where the map is expanded. Afterwards the new trusted
-- rule answers for every untrusted address with the same low 32 bits, the other addresses find what they
-- found before, and again no two rules share their low 32 bits. The new rule keeps the untrusted
-- address, is evictable and in no group, and ecall_cr_priority answers with the priority given.
pub cls_rule_init-lookup :
    (b : Bridge) (o : ℕ) (m : Match) (priority : ℕ)
    → Distinct b.cls_rules
    → sgx_rule_from_ut_cr o b ≡ none
    → (b' : Bridge) × (ecall_cls_rule_init o m priority b ≡ some (tt, b'))
      × ((x : ℕ)
          → sgx_rule_from_ut_cr x b'
            ≡ (if u32 o == u32 x then some b.fresh else sgx_rule_from_ut_cr x b))
      × Distinct b'.cls_rules
      × ((b'.rule b.fresh).o_cls_rule ≡ o)
      × (ecall_cr_priority o b' ≡ some (priority, b'))
      × ((b'.rule b.fresh).evictable ≡ true)
      × ((b'.rule b.fresh).evict_group ≡ none)
unfolding ecall_cls_rule_init sgx_rule_from_ut_cr first_with_hash
cls_rule_init-lookup b o m priority d q =
    let answer =
      λ (x : ℕ). grown-found b.cls_mask (u32 x) ((u32 o, b.fresh) ∷ b.cls_rules) (q, d) in
    (
      _,
      refl,
      answer,
      grown-Distinct b.cls_mask ((u32 o, b.fresh) ∷ b.cls_rules) (q, d),
      simp ==_refl,
      cr_priority_found _ o b.fresh (answer o ∙ rw (==_refl (u32 o)) refl) ∙ simp ==_refl,
      simp ==_refl,
      simp ==_refl,
    )
