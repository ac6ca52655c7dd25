-- ===== src/Dispatch/Delivery.antt =====
-- What reaches a handler, through the wrappers of OFTonSGX/untrusted/app.c and the dispatcher of
-- OFTonSGX/trusted/call-table.c, when the enclave executes a call after further calls were batched.
use ovs_sgx.Prelude.{
  ℕ, suc, ◌+◌, ◌≤◌, ◌≡◌, refl, sym, ap, subst, ◌∙◌, Bool, ◌&&◌, List, [], ◌∷◌, ◌++◌, Option, none,
  some, map, length, take, if◌then◌else◌, Bool-cases, inl, inr,
}
use ovs_sgx.Dispatch.{Wrapper, Case, Passed}
use ovs_sgx.Dispatch.Rings.{Scalars, RingName, Ring, ring, resolve, pass, pass_all, Cell}
use ovs_sgx.Dispatch.Rings.Kept.{puts, puts-append}
use ovs_sgx.Dispatch.Rings.Written.{IsRing, written, ring-pass_all, cells_passed}
use ovs_sgx.Dispatch.Arguments.{cell_of, Fit, take_arguments_lem}
use ovs_sgx.Dispatch.Cases.{case_of}
use ovs_sgx.Dispatch.Invocations.{Invocation}
use ovs_sgx.Dispatch.Wrappers.{wrapper_of}
use ovs_sgx.Dispatch.Execute.{
  hot_call, further_calls, direct_call, execute_function, execute_case, HotCall,
}
use ovs_sgx.Dispatch.Matching.{is_unhandled, IsMatched, unhandled, matched}

-- The scalars that a call puts into a ring
unfoldable pub written_by : RingName → Bool → Invocation → List ℕ
written_by k batching i = let w = wrapper_of i in written k (batching && w.async) w.args

unfoldable pub written_by_all : RingName → Bool → List Invocation → List ℕ
written_by_all k batching [] = []
written_by_all k batching (i ∷ is) = written_by k batching i ++ written_by_all k batching is

ring-call :
    (k : RingName) (b : Bool) (i : Invocation) (s : Scalars)
    → ring k (hot_call b i s).0 ≡ puts (ring k s) (written_by k b i)
unfolding hot_call written_by
ring-call k b i s = let w = wrapper_of i in ring-pass_all k (b && w.async) w.args s

ring-further :
    (k : RingName) (b : Bool) (is : List Invocation) (s : Scalars)
    → ring k (further_calls b is s) ≡ puts (ring k s) (written_by_all k b is)
unfolding further_calls written_by_all
ring-further k b [] s = unfold puts in refl
ring-further k b (i ∷ is) s =
    ring-further k b is (hot_call b i s).0
    ∙ ap (λ (r : Ring). puts r (written_by_all k b is)) (ring-call k b i s)
    ∙ sym (puts-append (ring k s) (written_by k b i) (written_by_all k b is))

-- The scalars of a call fit the types that they pass through.
abbrev pub FitsCase : Option Case → List Cell → Type 0
FitsCase none cells = Unit
FitsCase (some c) cells = Fit c.takes cells

abbrev pub FitsCall : Invocation → Type 0
FitsCall i = let w = wrapper_of i in FitsCase (case_of w.id) (map cell_of w.args)

length-pass_all :
    (a : Bool) (ps : List Passed) (s : Scalars) → length (pass_all a ps s).1 ≡ length ps
unfolding pass_all
length-pass_all a [] s = refl
length-pass_all a (p ∷ ps) s = ap suc (length-pass_all a ps (pass a p s).0)

take-length {ℓ} : {A : Type ℓ} (xs : List A) → take (length xs) xs ≡ xs
take-length [] = refl
take-length (x ∷ xs) = rw (take-length xs)

take-all {ℓ} : {A : Type ℓ} (n : ℕ) (xs : List A) → n ≡ length xs → take n xs ≡ xs
take-all n xs e = rw e (take-length xs)

execute_matched :
    (w : Wrapper) (c : Case) (cells : List Cell) (beyond : ℕ → ℕ)
    → IsMatched w c
    → cells ≡ map cell_of w.args
    → Fit c.takes (map cell_of w.args)
    → execute_case c beyond cells ≡ some (record { handler = w.id; arguments = w.direct })
unfolding execute_case
execute_matched w c cells beyond (f, h, a, n, d) e fit =
    rw (e, take_arguments_lem c.takes (map cell_of w.args) beyond a fit, execute_case)
      (rw (h, d) refl)

execute_function-none :
    (beyond : ℕ → ℕ) (s : Scalars) (h : HotCall)
    → case_of h.id ≡ none
    → execute_function beyond s h ≡ none
unfolding execute_function
execute_function-none beyond s h e = rw (e, execute_function)

execute_function-some :
    (beyond : ℕ → ℕ) (s : Scalars) (h : HotCall) (c : Case)
    → case_of h.id ≡ some c
    → execute_function beyond s h ≡ execute_case c beyond (map (resolve s) h.args)
unfolding execute_function
execute_function-some beyond s h c e = rw (e, execute_function)

id-hot_call : (b : Bool) (i : Invocation) (s : Scalars) → (hot_call b i s).1.id ≡ (wrapper_of i).id
unfolding hot_call
id-hot_call b i s = refl

module _ (b : Bool) (i : Invocation) (is : List Invocation) (s : Scalars) (beyond : ℕ → ℕ) where
  cells :
      ((k : RingName) → IsRing (ring k s))
      → ((k : RingName) → length (written_by k b i) + length (written_by_all k b is) ≤ 20)
      → (wrapper_of i).n_args ≡ length (wrapper_of i).args
      → map (resolve (further_calls b is (hot_call b i s).0)) (hot_call b i s).1.args
        ≡ map cell_of (wrapper_of i).args
  unfolding hot_call written_by
  cells h n e =
      let w = wrapper_of i in
      let a = b && w.async in
      let s' = (pass_all a w.args s).0 in
      ap (map (resolve (further_calls b is s')))
        (take-all w.n_args (pass_all a w.args s).1 (e ∙ sym (length-pass_all a w.args s)))
      ∙ cells_passed a w.args s (further_calls b is s') (λ k. written_by_all k b is) h
          (λ k.
            ring-further k b is s'
            ∙ ap (λ (r : Ring). puts r (written_by_all k b is)) (ring-pass_all k a w.args s)
            ∙ sym (puts-append (ring k s) (written k a w.args) (written_by_all k b is)))
          n

  -- A hot call that is executed after further calls were batched calls the handler, with the arguments,
  -- of the direct call, whatever follows the arguments in memory, if its scalars fit the types that they
  -- pass through and at most twenty scalars of each kind have been put since it began. The exception is
  -- `SGX_cls_rules_format`, whose hot call the dispatcher does not know.
  pub hot_call-direct :
      ((k : RingName) → IsRing (ring k s))
      → ((k : RingName) → length (written_by k b i) + length (written_by_all k b is) ≤ 20)
      → FitsCall i
      → execute_function beyond (further_calls b is (hot_call b i s).0) (hot_call b i s).1
        ≡ (if is_unhandled i then none else some (direct_call i))
  unfolding direct_call
  hot_call-direct h n fit = elim (Bool-cases (is_unhandled i)) [
    | inl u ↦
        rw u (execute_function-none beyond s' call (ap case_of (id-hot_call b i s) ∙ unhandled i u))
    | inr u ↦ rw u (
        let (c, m) = matched i u in
        execute_function-some beyond s' call c (ap case_of (id-hot_call b i s) ∙ m.0)
        ∙ execute_matched (wrapper_of i) c (map (resolve s') call.args) beyond m (cells h n m.3)
            (subst (λ o. FitsCase o (map cell_of (wrapper_of i).args)) m.0 fit))
  ]
    where
      s' : Scalars
      s' = further_calls b is (hot_call b i s).0

      call : HotCall
      call = (hot_call b i s).1
