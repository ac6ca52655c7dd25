-- ===== src/Enclave/Run.antt =====
-- What holds after a run of handlers, one after the other.
use ovs_sgx.Prelude.{◌≡◌, Option, none, some}
use ovs_sgx.Enclave.State.{Bridge, M, ◌>>=◌}

-- The result and the state after a run that is not cut off by a null dereference.
abbrev pub Ends : {A : Type 0} → (A → Bridge → Type 0) → Option (A × Bridge) → Type 0
Ends P none = Unit
Ends P (some (a, b)) = P a b

pub Ends-bind :
    {A B : Type 0} (Q : A → Bridge → Type 0) (P : B → Bridge → Type 0) (m : M A) (k : A → M B)
    (b : Bridge)
    → Ends Q (m b)
    → ((a : A) (c : Bridge) → Q a c → Ends P (k a c))
    → Ends P ((m >>= k) b)
Ends-bind {A = A} Q P m k b q f = step (m b) q
  where
    step :
        (o : Option (A × Bridge)) → Ends Q o → Ends P (elim o [ none ↦ none | some (a, c) ↦ k a c ])
    step none q = tt
    step (some (a, c)) q = f a c q

-- A handler that changes nothing.
abbrev pub Reads : {A : Type 0} → M A → Type 0
Reads m = (b : Bridge) → Ends (λ _ b'. b' ≡ b) (m b)

pub Reads-bind :
    {A B : Type 0} (m : M A) (k : A → M B) → Reads m → ((a : A) → Reads (k a)) → Reads (m >>= k)
Reads-bind m k r s b = Ends-bind (λ _ c. c ≡ b) (λ _ c. c ≡ b) m k b (r b) (λ a c e. rw e (s a b))

pub any_end : {A : Type 0} (o : Option (A × Bridge)) → Ends (λ _ _. Unit {0}) o
any_end none = tt
any_end (some (a, b)) = tt

abbrev pub Always : {A : Type 0} → (A → Bridge → Type 0) → M A → Type 0
Always P m = (b : Bridge) → Ends P (m b)

pub Always-bind :
    {A B : Type 0} (P : B → Bridge → Type 0) (m : M A) (k : A → M B)
    → ((a : A) → Always P (k a))
    → Always P (m >>= k)
Always-bind P m k f b = Ends-bind _ P m k b (any_end (m b)) (λ a c _. f a c)
