-- ===== src/Enclave/Eviction/Replacer.antt =====
-- The choice of a rule to evict for a rule that is being added.
use ovs_sgx.Prelude.{
  ℕ, ◌≡◌, ◌∙◌, ap, arith, false, Bool-cases, inl, inr, Option, none, some, List, ◌==◌, ==_refl,
  ==_iff, update,
}
use ovs_sgx.Enclave.State.{Subfield, Bridge, M, deref, ◌>>=◌, ◌>>◌, pure, get_rule, put_rule}
use ovs_sgx.Enclave.Rules.{sgx_rule_from_ut_cr, rule_of}
use ovs_sgx.Enclave.Eviction.{ecall_choose_rule_to_evict, ecall_choose_rule_to_evict_p}
use ovs_sgx.Enclave.Eviction.Choice.{IsChoice, groups, choose_rule_to_evict-IsChoice}

-- The bridge with one rule immune to eviction.
abbrev pub immune : Bridge → ℕ → Bridge
immune b a = record b { rule = update b.rule a (record (b.rule a) { evictable = false }) }

-- The handler once the replacer's trusted rule is found.
abbrev choose_without : ℕ → ℕ → M (Option ℕ)
choose_without id a = do
  r ← get_rule a
  put_rule a (record r { evictable = false })
  chosen ← ecall_choose_rule_to_evict id
  r' ← get_rule a
  put_rule a (record r' { evictable = r.evictable })
  pure chosen

found_replacer :
    (b : Bridge) (id replacer a : ℕ)
    → sgx_rule_from_ut_cr replacer b ≡ some a
    → ecall_choose_rule_to_evict_p id replacer b ≡ choose_without id a b
unfolding ecall_choose_rule_to_evict_p rule_of
found_replacer b id replacer a e =
    ap (λ m. elim (deref m b) [ none ↦ none | some (x, c) ↦ choose_without id x c ]) e

restored : Bridge → ℕ → Bridge
restored b a = record b {
  rule =
      update (immune b a).rule a
        (record ((immune b a).rule a) { evictable = (b.rule a).evictable });
}

chosen_without :
    (b : Bridge) (id a : ℕ) (o : Option ℕ)
    → ecall_choose_rule_to_evict id (immune b a) ≡ some (o, immune b a)
    → choose_without id a b ≡ some (o, restored b a)
unfolding restored
chosen_without b id a o e =
    ap
      (λ m. elim m [
        | none ↦ none
        | some (x, c) ↦
            (get_rule a >>= λ r'.
            put_rule a (record r' { evictable = (b.rule a).evictable }) >> pure x)
              c
      ])
      e

rule-restored : (b : Bridge) (a x : ℕ) → (restored b a).rule x ≡ b.rule x
unfolding restored
rule-restored b a x = elim (Bool-cases (x == a)) [
  | inl e ↦ let p : x ≡ a = (==_iff x a).0 e in rw p (simp ==_refl)
  | inr e ↦ ground arith
]

-- In a table with eviction, ecall_choose_rule_to_evict_p returns what is a choice while the replacer,
-- whose trusted rule is `a`, is immune: an evictable rule other than the replacer of one of the table's
-- groups, or none if there is no such rule. Afterwards every rule is as before.
pub choose_rule_to_evict_p-IsChoice :
    (b : Bridge) (id replacer a : ℕ) {fields : List Subfield}
    → sgx_rule_from_ut_cr replacer b ≡ some a
    → (b.oftables id).eviction_fields ≡ some fields
    → (o : Option ℕ) × (b' : Bridge) × (ecall_choose_rule_to_evict_p id replacer b ≡ some (o, b'))
      × IsChoice (immune b a) (groups b id) o
      × ((x : ℕ) → b'.rule x ≡ b.rule x)
choose_rule_to_evict_p-IsChoice b id replacer a e f =
    let (o, g, c) = choose_rule_to_evict-IsChoice (immune b a) id f in
    (
      o,
      restored b a,
      found_replacer b id replacer a e ∙ chosen_without b id a o g,
      c,
      rule-restored b a,
    )
