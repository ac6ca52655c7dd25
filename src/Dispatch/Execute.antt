-- ===== src/Dispatch/Execute.antt =====
-- A hot call from the macro `HCALL` of OFTonSGX/untrusted/app.c to the `switch` of `execute_function`,
-- OFTonSGX/trusted/call-table.c, and the direct call that it stands for.
use ovs_sgx.Prelude.{
  ℕ, suc, ◌+◌, ◌*◌, ◌%◌, ◌^◌, Bool, ◌&&◌, List, [], ◌∷◌, Option, none, some, map, take,
}
use ovs_sgx.Dispatch.{Scalar, width, FunctionId, Take, take_pointer, take_scalar, Case}
use ovs_sgx.Dispatch.Rings.{Scalars, Argument, pass_all, Cell, scalar, pointed, resolve}
use ovs_sgx.Dispatch.Cases.{case_of}
use ovs_sgx.Dispatch.Invocations.{Invocation}
use ovs_sgx.Dispatch.Wrappers.{wrapper_of}

-- The number of values of a scalar
unfoldable pub values : Scalar → ℕ
unfolding width
values t = 256 ^ width t

-- A scalar of one type, read through a pointer to another: of a wider one, the further bytes are those
-- that happen to follow in memory. It is then converted to the type of the parameter.
unfoldable pub load : Scalar → ℕ → Scalar → Scalar → ℕ → ℕ
load w x t u beyond = ((x + values w * beyond) % values t) % values u

-- None for a pointer that is taken for one of another kind.
unfoldable pub take_argument : Take → Cell → ℕ → Option ℕ
take_argument take_pointer (pointed p) beyond = some p
take_argument take_pointer (scalar w x) beyond = none
take_argument (take_scalar t u) (pointed p) beyond = none
take_argument (take_scalar t u) (scalar w x) beyond = some (load w x t u beyond)

unfoldable pub take_arguments : List Take → List Cell → (ℕ → ℕ) → Option (List ℕ)
take_arguments [] cs beyond = some []
take_arguments (t ∷ ts) [] beyond = none
take_arguments (t ∷ ts) (c ∷ cs) beyond = elim (take_argument t c (beyond 0)) [
  | none ↦ none
  | some v ↦ elim (take_arguments ts cs (λ i. beyond (suc i))) [
    | none ↦ none
    | some vs ↦ some (v ∷ vs)
  ]
]

-- `struct function_call`, with the type of the variable for the return value
pub record HotCall : Type 0 where
  pub id : FunctionId
  pub args : List Argument
  pub return_value : Option Scalar

-- A handler is called.
pub record HandlerCall : Type 0 where
  pub handler : FunctionId
  pub arguments : List ℕ

-- A wrapper fills `args` and `get_fcall` copies the first `n_args` of them.
unfoldable pub hot_call : Bool → Invocation → Scalars → Scalars × HotCall
hot_call batching i s =
    let w = wrapper_of i in
    let (s', args) = pass_all (batching && w.async) w.args s in
    (s', record { id = w.id; args = take w.n_args args; return_value = w.ret })

-- Further calls of the switch, and what they leave in the rings
unfoldable pub further_calls : Bool → List Invocation → Scalars → Scalars
further_calls batching [] s = s
further_calls batching (i ∷ is) s = further_calls batching is (hot_call batching i s).0

-- The direct call of the handler, without hot calls
unfoldable pub direct_call : Invocation → HandlerCall
direct_call i = let w = wrapper_of i in record { handler = w.id; arguments = w.direct }

-- One case of the `switch`, up to the call of the handler
unfoldable pub execute_case : Case → (ℕ → ℕ) → List Cell → Option HandlerCall
execute_case c beyond cells = elim (take_arguments c.takes cells beyond) [
  | none ↦ none
  | some vs ↦ some (record { handler = c.handler; arguments = vs })
]

-- The handler that is called and its arguments, with the bytes that follow each argument in memory;
-- none if there is no case for the call.
unfoldable pub execute_function : (ℕ → ℕ) → Scalars → HotCall → Option HandlerCall
execute_function beyond s h = elim (case_of h.id) [
  | none ↦ none
  | some c ↦ execute_case c beyond (map (resolve s) h.args)
]
