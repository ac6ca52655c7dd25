-- ===== src/Enclave/Evict/Limits.antt =====
-- When the loop of ecall_ofproto_evict of OFTonSGX/trusted/eviction/eviction.c over the rules of a table
-- ends, against ecall_need_to_evict of the same file.
use ovs_sgx.Prelude.{
  ℕ, zero, suc, ◌-◌, ◌^◌, ◌≤◌, ◌<◌, ◌≡◌, ◌⊎◌, inl, inr, refl, true, false, Option, none, some, List,
  [], ◌∷◌, length, ltb, Option-cases, arith,
}
use ovs_sgx.Classifier.{classifier_count}
use ovs_sgx.Enclave.Run.{Ends, Ends-bind, Always, Always-bind}
use ovs_sgx.Enclave.State.{Bridge, Subfield, M, pure, ◌>>=◌, ◌>>◌}
use ovs_sgx.Enclave.Eviction.{
  ecall_need_to_evict, ecall_is_eviction_fields_enabled, ecall_choose_rule_to_evict,
  ecall_evg_remove_rule,
}
use ovs_sgx.Enclave.Evict.{Evicted, as_int, evict_rounds, note_rule}

-- As many rules as that have been evicted, or fewer, and there is none left to evict.
abbrev pub Stops : ℕ → ℕ → List Evicted → Bridge → Type 0
Stops id rounds es b =
    (length es ≡ rounds)
    ⊎ ((length es < rounds) × (ecall_choose_rule_to_evict id b ≡ some (none, b)))

choose-Ends :
    (id : ℕ) (b : Bridge)
    → Ends (λ o c. ecall_choose_rule_to_evict id c ≡ some (o, c)) (ecall_choose_rule_to_evict id b)
unfolding ecall_choose_rule_to_evict
choose-Ends id b = elim (Option-cases (b.oftables id).eviction_fields) [
  | inl e ↦ rw (e, Ends) (rw (e, ecall_choose_rule_to_evict) refl)
  | inr (fields, e) ↦ rw (e, Ends) (rw (e, ecall_choose_rule_to_evict) refl)
]

Stops-more :
    (id n : ℕ) (e : Evicted) (es : List Evicted) (b : Bridge)
    → Stops id n es b
    → Stops id (suc n) (e ∷ es) b
Stops-more id n e es b (inl p) = inl (omega (arith, p))
Stops-more id n e es b (inr (p, q)) = inr (omega (arith, p), q)

-- One round of the loop, once a rule is found or not
abbrev round : ℕ → M (List Evicted) → Option ℕ → M (List Evicted)
round id next tmp = elim tmp [
  | none ↦ pure []
  | some rule ↦ do
    e ← note_rule id rule
    ecall_evg_remove_rule id rule
    rest ← next
    pure (e ∷ rest)
]

round-Stops :
    (id n : ℕ) (next : M (List Evicted)) (tmp : Option ℕ) (b : Bridge)
    → Always (Stops id n) next
    → ecall_choose_rule_to_evict id b ≡ some (tmp, b)
    → Ends (Stops id (suc n)) (round id next tmp b)
round-Stops id n next none b k e = inr (omega arith, e)
round-Stops id n next (some rule) b k e =
    Always-bind (Stops id (suc n)) (note_rule id rule) _
      (λ e. Always-bind (Stops id (suc n)) (ecall_evg_remove_rule id rule) _ (λ _ c.
        Ends-bind (Stops id n) (Stops id (suc n)) next _ c (k c)
          (λ es d s. Stops-more id n e es d s)))
      b

rounds-Stops :
    (fuel count max_flows n id : ℕ)
    → count - max_flows ≡ n
    → n < fuel
    → Always (Stops id n) (evict_rounds fuel count max_flows id)
unfolding evict_rounds
rounds-Stops zero count max_flows n id p f b = absurd (omega arith)
rounds-Stops (suc fuel) count max_flows zero id p f b =
    let e : ltb max_flows count ≡ false = ground arith in rw (e, Ends) (inl refl)
rounds-Stops (suc fuel) count max_flows (suc n) id p f b =
    let e : ltb max_flows count ≡ true = ground arith in
    rw (e, Ends)
      (Ends-bind _ (Stops id (suc n)) (ecall_choose_rule_to_evict id) _ b (choose-Ends id b)
        (λ tmp c q.
          round-Stops id n (evict_rounds fuel (count - 1) max_flows id) tmp c
            (rounds-Stops fuel (count - 1) max_flows n id (omega (arith, p)) (omega (arith, f))) q))

as_int_below : (n m : ℕ) → n < 2 ^ 31 → m < 2 ^ 31 → as_int n - as_int m ≡ n - m
unfolding as_int
as_int_below n m p q = ground arith

as_int_above :
    (n m : ℕ) → n < 2 ^ 31 → m < 2 ^ 32 → 2 ^ 31 ≤ m → (n < as_int n - as_int m) × (ltb m n ≡ false)
unfolding as_int
as_int_above n m p q r = (ground arith, ground arith)

-- In a table with eviction groups the loop of the batch eviction ends, and, unless it dereferences a
-- null pointer, only when no rule is left to evict or when as many rules were evicted as the table has
-- above its limit, as the source's ints count them. For a limit below 2^31 these are as many as there are
-- rules above the limit. From 2^31 on, as where no limit was set, they are more than there are rules,
-- although ecall_need_to_evict denies the need to evict.
pub evict_rounds-Stops :
    (b : Bridge) (id : ℕ) (fields : List Subfield)
    → (b.oftables id).eviction_fields ≡ some fields
    → classifier_count (b.oftables id).cls < 2 ^ 31
    → (b.oftables id).max_flows < 2 ^ 32
    → (let count = as_int (classifier_count (b.oftables id).cls) in
        let limit = as_int (b.oftables id).max_flows in
        Ends (Stops id (count - limit)) (evict_rounds (suc (count - limit)) count limit id b)
        × ((b.oftables id).max_flows < 2 ^ 31
            → count - limit ≡ classifier_count (b.oftables id).cls - (b.oftables id).max_flows)
        × (2 ^ 31 ≤ (b.oftables id).max_flows
            → (classifier_count (b.oftables id).cls < count - limit)
              × (ecall_need_to_evict id b ≡ some (false, b))))
unfolding ecall_need_to_evict ecall_is_eviction_fields_enabled
evict_rounds-Stops b id fields e n m =
    let count = as_int (classifier_count (b.oftables id).cls) in
    let limit = as_int (b.oftables id).max_flows in
    (
      rounds-Stops (suc (count - limit)) count limit (count - limit) id refl (omega arith) b,
      as_int_below _ _ n,
      λ r. let (p, q) = as_int_above _ _ n m r in (p, rw (e, q) refl),
    )
