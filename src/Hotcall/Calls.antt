-- ===== src/Hotcall/Calls.antt =====
-- The shared data of OFTonSGX/include/common.h and OFTonSGX/untrusted/hotcall-untrusted.h, and the two
-- ways to fill a call, `get_fcall` and `prepare_hotcall_function`. The queue of list nodes is the list
-- of the ring's slots that they stand in.
use ovs_sgx.Prelude.{
  ℕ, zero, suc, ◌%◌, ◌==◌, Bool, true, false, List, [], ◌∷◌, ◌++◌, if◌then◌else◌, update,
}

-- `struct function_call`; the string of `fmt` is the one it pointed to when it was assigned.
pub record FunctionCall : Type 0 where
  pub id : ℕ
  pub n_args : ℕ
  pub args : ℕ → ℕ
  pub return_value : ℕ
  pub fmt : List ℕ
  pub async : Bool

-- The arguments of one `ECALL`, with the pointers of its variable part.
pub record Ecall : Type 0 where
  pub function_id : ℕ
  pub fmt : List ℕ
  pub async : Bool
  pub has_return : Bool
  pub n_args : ℕ
  pub va : List ℕ

-- The arguments of one `HCALL`, with the array of pointers that it fills before.
pub record Hcall : Type 0 where
  pub function_id : ℕ
  pub async : Bool
  pub ret : ℕ
  pub n_args : ℕ
  pub args : List ℕ

-- The switch calls the enclave by either of the two macros.
pub data Request : Type 0 where
  hcall : (c : Hcall) → Request
  ecall : (c : Ecall) → Request

abbrev pub is_async : Request → Bool
is_async (hcall c) = c.async
is_async (ecall c) = c.async

-- `struct hotcall`, the fields the two threads use without `TIMEOUT`
pub record Hotcall : Type 0 where
  pub spinlock : ℕ
  pub run : Bool
  pub is_done : Bool
  pub ecall_queue : List ℕ

-- `struct preallocated_function_calls`, the ring of calls
pub record Preallocated : Type 0 where
  pub fcs : ℕ → FunctionCall
  pub idx : ℕ

-- `strtok(fmt, ",")`, call by call: how many tokens it finds. The flag says that a token has started.
unfoldable pub tokens : Bool → List ℕ → ℕ
tokens started [] = if started then 1 else 0
tokens started (c ∷ cs) =
    let inside = tokens true cs in
    let outside = tokens false cs in
    if c == 44 then (if started then suc outside else outside) else inside

-- `va_arg`: the next pointer; past the end, none is passed.
abbrev pub next_arg : List ℕ → ℕ
next_arg [] = 0
next_arg (v ∷ vs) = v

abbrev pub rest_args : List ℕ → List ℕ
rest_args [] = []
rest_args (v ∷ vs) = vs

-- `while (token)`, with the number of tokens that are left. The array has 22 entries, more than any call
-- has arguments, so its end is not looked at.
unfoldable pub store_args : ℕ → ℕ → List ℕ → (ℕ → ℕ) → ℕ → ℕ
store_args zero i vs args = args
store_args (suc n) i vs args = store_args n (suc i) (rest_args vs) (update args i (next_arg vs))

abbrev pub pred : ℕ → ℕ
pred zero = zero
pred (suc n) = n

-- The tokens that stand for arguments: the first stands for the return value, if there is one.
abbrev pub arg_tokens : Ecall → ℕ
arg_tokens e = let n = tokens false e.fmt in if e.has_return then pred n else n

abbrev pub arg_pointers : Ecall → List ℕ
arg_pointers e = if e.has_return then rest_args e.va else e.va

-- What `prepare_hotcall_function` writes over the call that stood in the slot.
unfoldable pub prepare_hotcall_function : FunctionCall → Ecall → FunctionCall
prepare_hotcall_function old e = record {
  id = e.function_id;
  n_args = e.n_args;
  args = store_args (arg_tokens e) 0 (arg_pointers e) old.args;
  return_value = if e.has_return then next_arg e.va else old.return_value;
  fmt = e.fmt;
  async = e.async;
}

-- What `get_fcall` writes over it: its `n_args` is a byte, and `memcpy` copies so many pointers.
unfoldable pub get_fcall : FunctionCall → Hcall → FunctionCall
get_fcall old c = record old {
  id = c.function_id;
  n_args = c.n_args % 256;
  args = store_args (c.n_args % 256) 0 c.args old.args;
  return_value = c.ret;
}

unfoldable pub fill_call : FunctionCall → Request → FunctionCall
fill_call old (Request.hcall c) = get_fcall old c
fill_call old (Request.ecall e) = prepare_hotcall_function old e

abbrev pub ring_size : ℕ
ring_size = 20

-- `pfc.idx++`, and back to 0 at the end of the ring
abbrev pub next_idx : ℕ → ℕ
next_idx i = if suc i == ring_size then 0 else suc i

-- Both take the ring's next slot.
unfoldable pub take_slot : Preallocated → Request → Preallocated
take_slot pfc e = record {
  fcs = update pfc.fcs pfc.idx (fill_call (pfc.fcs pfc.idx) e);
  idx = next_idx pfc.idx;
}

abbrev pub list_push_back : ℕ → List ℕ → List ℕ
list_push_back slot queue = queue ++ (slot ∷ [])

-- A slot is linked into the queue.
abbrev pub is_linked : ℕ → List ℕ → Bool
is_linked slot [] = false
is_linked slot (x ∷ xs) = if slot == x then true else is_linked slot xs

abbrev pub list_remove : ℕ → List ℕ → List ℕ
list_remove slot [] = []
list_remove slot (x ∷ xs) = if slot == x then xs else x ∷ list_remove slot xs
