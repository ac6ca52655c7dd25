-- ===== src/Enclave/Rules/Undo.antt =====
-- Adding a trusted rule and destroying it again, and the handlers on rules that only read.
use ovs_sgx.Prelude.{ℕ, ◌≡◌, refl, Option, none, some, ◌∷◌, ◌∙◌, ==_refl}
use ovs_sgx.Hash.{u32}
use ovs_sgx.Classifier.{Match}
use ovs_sgx.Enclave.Run.{Ends, Ends-bind, Reads, Reads-bind}
use ovs_sgx.Enclave.State.{Bridge, deref}
use ovs_sgx.Enclave.Rules.Nodes.{Distinct, Unused, grown-found, unlink-grown}
use ovs_sgx.Enclave.Rules.{
  first_with_hash, sgx_rule_from_ut_cr, rule_of, ecall_cls_rule_init, ecall_cls_rule_destroy,
  node_delete, unlink, ecall_cls_rule_equal, ecall_cr_rule_overlaps,
}

rule_of-Reads : (cr : ℕ) → Reads (rule_of cr)
unfolding rule_of
rule_of-Reads cr b = found (sgx_rule_from_ut_cr cr b)
  where
    found : (o : Option ℕ) → Ends (λ _ b'. b' ≡ b) (deref o b)
    found none = tt
    found (some a) = refl

pub cls_rule_equal-Reads : (x y : ℕ) → Reads (ecall_cls_rule_equal x y)
unfolding ecall_cls_rule_equal
cls_rule_equal-Reads x y =
    Reads-bind _ _ (rule_of-Reads x) (λ a. Reads-bind _ _ (rule_of-Reads y) (λ b c. refl))

pub cr_rule_overlaps-Reads : (id cr : ℕ) → Reads (ecall_cr_rule_overlaps id cr)
unfolding ecall_cr_rule_overlaps
cr_rule_overlaps-Reads id cr = Reads-bind _ _ (rule_of-Reads cr) (λ a b. refl)

-- The tables, the groups and what the map of the rules finds are as they were.
pub record Undone (b b' : Bridge) : Type 0 where
  pub n_tables : b'.n_tables ≡ b.n_tables
  pub oftables : b'.oftables ≡ b.oftables
  pub cls_rules : (x : ℕ) → sgx_rule_from_ut_cr x b' ≡ sgx_rule_from_ut_cr x b
  pub group : b'.group ≡ b.group

rule_of-found :
    (b : Bridge) (cr a : ℕ)
    → sgx_rule_from_ut_cr cr b ≡ some a
    → Ends (λ x c. (x ≡ a) × (c ≡ b)) (rule_of cr b)
unfolding rule_of
rule_of-found b cr a e = rw e (refl, refl)

-- The state `c` has the new trusted rule `a` of the address `cr`, and is `b` otherwise.
pub record IsAdded (b : Bridge) (cr a : ℕ) (c : Bridge) : Type 0 where
  pub found : sgx_rule_from_ut_cr cr c ≡ some a
  pub own : (c.rule a).o_cls_rule ≡ cr
  pub linked :
      (hash : ℕ) → first_with_hash hash (unlink a c.cls_rules) ≡ first_with_hash hash b.cls_rules
  pub n_tables : c.n_tables ≡ b.n_tables
  pub oftables : c.oftables ≡ b.oftables
  pub group : c.group ≡ b.group

-- No two rules of the map share the low 32 bits of their untrusted addresses, none shares those of `cr`,
-- and `malloc` returns an address at which no rule of the map is.
pub record IsNew (b : Bridge) (cr : ℕ) : Type 0 where
  pub distinct : Distinct b.cls_rules
  pub missing : sgx_rule_from_ut_cr cr b ≡ none
  pub unused : Unused b.fresh b.cls_rules

pub cls_rule_init-IsAdded :
    (b : Bridge) (cr : ℕ) (m : Match) (priority : ℕ)
    → IsNew b cr
    → Ends (λ _ c. IsAdded b cr b.fresh c) (ecall_cls_rule_init cr m priority b)
unfolding ecall_cls_rule_init sgx_rule_from_ut_cr first_with_hash
cls_rule_init-IsAdded b cr m priority k = record {
  found =
      grown-found b.cls_mask (u32 cr) ((u32 cr, b.fresh) ∷ b.cls_rules) (k.missing, k.distinct)
      ∙ rw (==_refl (u32 cr)) refl;
  own = simp ==_refl;
  linked = λ hash. unlink-grown b.cls_mask hash (u32 cr) b.fresh b.cls_rules k.distinct k.unused;
  n_tables = refl;
  oftables = refl;
  group = refl;
}

pub cls_rule_destroy-Undone :
    (b c : Bridge) (cr a : ℕ)
    → IsAdded b cr a c
    → Ends (λ _ b'. Undone b b') (ecall_cls_rule_destroy cr c)
unfolding ecall_cls_rule_destroy node_delete sgx_rule_from_ut_cr
cls_rule_destroy-Undone b c cr a v =
    Ends-bind _ _ (rule_of cr) _ c (rule_of-found c cr a v.found) (λ x d q.
      rw (q.0, q.1, v.own)
        (Ends-bind _ _ (rule_of cr) _ c (rule_of-found c cr a v.found) (λ y e r.
          rw (r.0, r.1)
            (record {
              n_tables = v.n_tables;
              oftables = v.oftables;
              cls_rules = λ x. v.linked (u32 x);
              group = v.group;
            }))))
