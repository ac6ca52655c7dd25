-- ===== src/Hotcall/Filled.antt =====
-- What the slots of the ring hold after `get_fcall` or `prepare_hotcall_function` of
-- OFTonSGX/untrusted has filled them, and what a queue of them carries.
use ovs_sgx.Prelude.{
  ℕ, zero, suc, ◌%◌, ◌+◌, ◌<◌, ◌≡◌, ◌≢◌, refl, ap, subst, true, false, List, [], ◌∷◌, ◌++◌, map,
  update, update_self, update_ne, get_or, arith,
}
use ovs_sgx.Hotcall.Calls.{
  get_fcall, prepare_hotcall_function, FunctionCall, Request, store_args, next_arg, rest_args,
  arg_tokens, arg_pointers, fill_call, is_linked,
}

-- A call in a slot carries a request: what the enclave reads of it was written for this request.
abbrev pub Carries : FunctionCall → Request → Type 0
Carries f (Request.hcall c) =
    (f.id ≡ c.function_id)
    × (f.n_args ≡ c.n_args % 256)
    × ((i : ℕ) → i < c.n_args % 256 → f.args i ≡ get_or c.args i 0)
    × (f.return_value ≡ c.ret)
Carries f (Request.ecall e) =
    (f.id ≡ e.function_id)
    × (f.async ≡ e.async)
    × (f.n_args ≡ e.n_args)
    × (f.fmt ≡ e.fmt)
    × ((i : ℕ) → i < arg_tokens e → f.args i ≡ get_or (arg_pointers e) i 0)
    × (e.has_return ≡ true → f.return_value ≡ next_arg e.va)

abbrev pub Carried : List FunctionCall → List Request → Type 0
Carried [] [] = Unit
Carried [] (e ∷ es) = ⊥
Carried (f ∷ fs) [] = ⊥
Carried (f ∷ fs) (e ∷ es) = Carries f e × Carried fs es

pub store_args_below :
    (n i : ℕ) (vs : List ℕ) (args : ℕ → ℕ) (k : ℕ) → k < i → store_args n i vs args k ≡ args k
unfolding store_args
store_args_below zero i vs args k h = refl
store_args_below (suc n) i vs args k h =
    rw (store_args_below n (suc i) (rest_args vs) (update args i (next_arg vs)) k (omega arith))
      (update_ne args i k (next_arg vs) (λ e. omega arith))

pub get_rest : (vs : List ℕ) (j : ℕ) → get_or (rest_args vs) j 0 ≡ get_or vs (suc j) 0
get_rest [] j = refl
get_rest (v ∷ vs) j = refl

pub next_get : (vs : List ℕ) → next_arg vs ≡ get_or vs 0 0
next_get [] = refl
next_get (v ∷ vs) = refl

pub stored :
    (n i : ℕ) (vs : List ℕ) (args : ℕ → ℕ) (j : ℕ)
    → j < n
    → store_args n i vs args (i + j) ≡ get_or vs j 0
unfolding store_args
stored zero i vs args j h = absurd (omega arith)
stored (suc n) i vs args zero h =
    let e : i + 0 ≡ i = omega arith in
    rw
      (
        e,
        store_args_below n (suc i) (rest_args vs) (update args i (next_arg vs)) i (omega arith),
        update_self args i (next_arg vs),
      )
      (next_get vs)
stored (suc n) i vs args (suc j) h =
    let e : i + suc j ≡ suc i + j = omega arith in
    rw (e, stored n (suc i) (rest_args vs) (update args i (next_arg vs)) j (omega arith))
      (get_rest vs j)

pub stored_first :
    (n : ℕ) (vs : List ℕ) (args : ℕ → ℕ) (j : ℕ) → j < n → store_args n 0 vs args j ≡ get_or vs j 0
stored_first n vs args j h =
    let z : 0 + j ≡ j = omega arith in
    subst (λ k. store_args n 0 vs args k ≡ get_or vs j 0) z (stored n 0 vs args j h)

pub fill_call-Carries : (old : FunctionCall) (e : Request) → Carries (fill_call old e) e
unfolding fill_call get_fcall prepare_hotcall_function
fill_call-Carries old (Request.hcall c) =
    (refl, refl, λ i h. stored_first (c.n_args % 256) c.args old.args i h, refl)
fill_call-Carries old (Request.ecall e) = (
  refl,
  refl,
  refl,
  refl,
  λ i h. stored_first (arg_tokens e) (arg_pointers e) old.args i h,
  λ h. rw h refl,
)

pub Carried-snoc :
    (fs : List FunctionCall) (es : List Request) (f : FunctionCall) (e : Request)
    → Carried fs es
    → Carries f e
    → Carried (fs ++ (f ∷ [])) (es ++ (e ∷ []))
Carried-snoc [] [] f e h k = (k, tt)
Carried-snoc [] (d ∷ es) f e h k = absurd h
Carried-snoc (g ∷ fs) [] f e h k = absurd h
Carried-snoc (g ∷ fs) (d ∷ es) f e h k = (h.0, Carried-snoc fs es f e h.1 k)

-- A write to a slot that is not queued leaves the queued calls alone.
pub map_unlinked :
    (fcs : ℕ → FunctionCall) (i : ℕ) (f : FunctionCall) (q : List ℕ)
    → is_linked i q ≡ false
    → map (update fcs i f) (q ++ (i ∷ [])) ≡ map fcs q ++ (f ∷ [])
map_unlinked fcs i f [] h = rw (update_self fcs i f) refl
map_unlinked fcs i f (x ∷ q) h =
    let ne : i ≢ x = ground arith in
    let rest : is_linked i q ≡ false = ground arith in
    rw (update_ne fcs i x f ne) (ap (λ l. fcs x ∷ l) (map_unlinked fcs i f q rest))
