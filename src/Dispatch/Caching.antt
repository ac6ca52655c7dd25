-- ===== src/Dispatch/Caching.antt =====
-- What the dispatcher of OFTonSGX/trusted/call-table.c does to the flow cache of
-- OFTonSGX/trusted/cache-trusted.c around the handlers.
use ovs_sgx.Prelude.{
  ℕ, zero, suc, ◌+◌, ◌≤◌, ◌<◌, ◌≡◌, ◌≢◌, ◌==◌, true, List, [], ◌∷◌, ◌++◌, Option, none, some,
  if◌then◌else◌, Bool-cases, inl, inr, get_or, arith,
}
use ovs_sgx.Memory.{Page, SharedMemory}
use ovs_sgx.HashMap.Totals.{weight, is_node}
use ovs_sgx.Cache.{FlowCache, flow_map_cache_init, flow_map_cache_is_valid}
use ovs_sgx.Cache.Run.{CacheCall, insert, remove, flush, look_up, calls, Proper, calls-valid}
use ovs_sgx.Dispatch.{
  AfterCall, nothing, remove_argument, remove_replaced, remove_listed, flush_cache,
  flush_if_changed, insert_found, Case,
}
use ovs_sgx.Dispatch.Cases.{case_of}
use ovs_sgx.Dispatch.Invocations.{Invocation}
use ovs_sgx.Dispatch.Wrappers.{wrapper_of}

-- What a handler leaves behind: its result, the rule in the variable that it was given the address of,
-- the rules in the array that it was given, and what the cache finds in memory when it is called.
pub record Outcome : Type 0 where
  pub result : ℕ
  pub ut_cr : ℕ
  pub ut_crs : ℕ → ℕ
  pub hash : ℕ
  pub raw : Page
  pub raw' : Page
  pub bytes_at : ℕ → List ℕ

-- `for (size_t i = 0; i < n; ++i)`, with the rounds that are left
unfoldable pub remove_rules : Outcome → ℕ → ℕ → List CacheCall
remove_rules o i zero = []
remove_rules o i (suc n) = remove o.bytes_at (o.ut_crs i) ∷ remove_rules o (suc i) n

-- The calls of the cache's operations, from the arguments of the case and the handler's outcome
unfoldable pub after_handler : AfterCall → List ℕ → Outcome → List CacheCall
after_handler nothing args o = []
after_handler (remove_argument i) args o = remove o.bytes_at (get_or args i 0) ∷ []
after_handler remove_replaced args o = if o.ut_cr == 0 then [] else remove o.bytes_at o.ut_cr ∷ []
after_handler (remove_listed i) args o = remove_rules o 0 (get_or args i 0)
after_handler flush_cache args o = flush ∷ []
after_handler flush_if_changed args o = if o.result == 4 then flush ∷ [] else []
after_handler insert_found args o =
    if o.ut_cr == 0 then [] else insert o.raw o.raw' o.hash o.ut_cr ∷ []

unfoldable pub after_case : Option Case → List ℕ → Outcome → List CacheCall
after_case none args o = []
after_case (some c) args o = after_handler c.after args o

-- The calls of the cache's operations that one call of the switch gives rise to
unfoldable pub cache_calls : Invocation → Outcome → List CacheCall
cache_calls i o = let w = wrapper_of i in after_case (case_of w.id) w.direct o

unfoldable pub all_cache_calls : List (Invocation × Outcome) → List CacheCall
all_cache_calls [] = []
all_cache_calls ((i, o) ∷ is) = cache_calls i o ++ all_cache_calls is

Proper-append : (ks ls : List CacheCall) → Proper ks → Proper ls → Proper (ks ++ ls)
Proper-append [] ls p q = q
Proper-append (insert raw raw' hash ut_cr ∷ ks) ls p q = (p.0, Proper-append ks ls p.1 q)
Proper-append (remove bytes_at ut_cr ∷ ks) ls p q = (p.0, Proper-append ks ls p.1 q)
Proper-append (flush ∷ ks) ls p q = Proper-append ks ls p q
Proper-append (look_up hash ∷ ks) ls p q = Proper-append ks ls p q

-- The rules that the dispatcher passes on to be removed from the cache are not null: the argument of the
-- case, and the rules of the array, as many as the case was given.
abbrev pub AreGiven : AfterCall → List ℕ → Outcome → Type 0
AreGiven nothing args o = Unit
AreGiven (remove_argument i) args o = get_or args i 0 ≢ 0
AreGiven remove_replaced args o = Unit
AreGiven (remove_listed i) args o = (j : ℕ) → j < get_or args i 0 → o.ut_crs j ≢ 0
AreGiven flush_cache args o = Unit
AreGiven flush_if_changed args o = Unit
AreGiven insert_found args o = Unit

abbrev pub GivenByCase : Option Case → List ℕ → Outcome → Type 0
GivenByCase none args o = Unit
GivenByCase (some c) args o = AreGiven c.after args o

abbrev pub GivenBy : Invocation → Outcome → Type 0
GivenBy i o = GivenByCase (case_of (wrapper_of i).id) (wrapper_of i).direct o

abbrev pub AllGiven : List (Invocation × Outcome) → Type 0
AllGiven [] = Unit
AllGiven ((i, o) ∷ is) = GivenBy i o × AllGiven is

remove_rules-Proper :
    (o : Outcome) (i n : ℕ) → ((j : ℕ) → j < i + n → o.ut_crs j ≢ 0) → Proper (remove_rules o i n)
unfolding remove_rules
remove_rules-Proper o i zero g = tt
remove_rules-Proper o i (suc n) g =
    (g i (omega arith), remove_rules-Proper o (suc i) n (λ j p. g j (omega arith)))

after_handler-Proper :
    (a : AfterCall) (args : List ℕ) (o : Outcome)
    → AreGiven a args o
    → Proper (after_handler a args o)
unfolding after_handler
after_handler-Proper nothing args o g = tt
after_handler-Proper (remove_argument i) args o g = (g, tt)
after_handler-Proper remove_replaced args o g = elim (Bool-cases (o.ut_cr == 0)) [
  | inl e ↦ rw e tt
  | inr e ↦ rw e ((λ z. ground arith), tt)
]
after_handler-Proper (remove_listed i) args o g =
    remove_rules-Proper o 0 (get_or args i 0) (λ j p. g j (omega arith))
after_handler-Proper flush_cache args o g = tt
after_handler-Proper flush_if_changed args o g = elim (Bool-cases (o.result == 4)) [
  | inl e ↦ rw e tt
  | inr e ↦ rw e tt
]
after_handler-Proper insert_found args o g = elim (Bool-cases (o.ut_cr == 0)) [
  | inl e ↦ rw e tt
  | inr e ↦ rw e ((λ z. ground arith), tt)
]

after_case-Proper :
    (c : Option Case) (args : List ℕ) (o : Outcome)
    → GivenByCase c args o
    → Proper (after_case c args o)
unfolding after_case
after_case-Proper none args o g = tt
after_case-Proper (some c) args o g = after_handler-Proper c.after args o g

cache_calls-Proper : (i : Invocation) (o : Outcome) → GivenBy i o → Proper (cache_calls i o)
unfolding cache_calls
cache_calls-Proper i o g = after_case-Proper (case_of (wrapper_of i).id) (wrapper_of i).direct o g

all_cache_calls-Proper :
    (is : List (Invocation × Outcome)) → AllGiven is → Proper (all_cache_calls is)
unfolding all_cache_calls
all_cache_calls-Proper [] g = tt
all_cache_calls-Proper ((i, o) ∷ is) g =
    Proper-append (cache_calls i o) (all_cache_calls is) (cache_calls-Proper i o g.0)
      (all_cache_calls-Proper is g.1)

-- Whatever calls the switch makes and whatever the handlers leave behind, the dispatcher never makes the
-- flow cache dereference a null pointer, and the cache's checksum is valid after them: if the rules that
-- are to leave the cache are not null where the switch names them, and for a cache of at least one
-- entry, all different, whatever the shared memory grants. The rules that a handler finds or replaces
-- may be null.
pub dispatched-valid :
    (fresh : List ℕ) (hashes : ℕ → ℕ) (memory : Option SharedMemory)
    (is : List (Invocation × Outcome))
    → ((x : ℕ) → weight (is_node x) fresh ≤ 1)
    → 0 < weight (λ x. 1) fresh
    → AllGiven is
    → (c : FlowCache) × (calls (all_cache_calls is) (flow_map_cache_init fresh hashes memory)
        ≡ some c)
      × (flow_map_cache_is_valid c ≡ true)
dispatched-valid fresh hashes memory is d n g =
    calls-valid fresh hashes memory (all_cache_calls is) d n (all_cache_calls-Proper is g)
