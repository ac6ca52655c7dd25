-- ===== src/Hotcall/Examples.antt =====
-- A batched call and an awaited one, run by both threads.
use ovs_sgx.Prelude.{ℕ, zero, suc, ◌≡◌, ◌≢◌, refl, true, false, List, [], ◌∷◌, ◌++◌, arith}
use ovs_sgx.Hotcall.Calls.{FunctionCall, Hcall, Ecall, Request, tokens, take_slot}
use ovs_sgx.Hotcall.Threads.{CallerPc, System, Thread, caller_move, poller_move, run, init}
use ovs_sgx.Hotcall.Phases.{IsConsistent, run-IsConsistent}
use ovs_sgx.Hotcall.Ring.{never_lost}
use ovs_sgx.Hotcall.Delivery.{Delivered, Answered, run-Delivered, make_hotcall-Answered}
use ovs_sgx.Hotcall.Progress.{IsIdle, always_completes}

abbrev no_call : ℕ → FunctionCall
no_call _ = record { id = 0; n_args = 0; args = λ _. 0; return_value = 0; fmt = []; async = false }

-- `oftable_set_readonly(bridge, table)`, batched
abbrev batched_call : Hcall
batched_call = record {
  function_id = 2;
  async = true;
  ret = 0;
  n_args = 2;
  args = 4096 ∷ 4104 ∷ [];
}

-- `oftable_is_readonly(&result, bridge, table)`, awaited: the format is "a,a,a".
abbrev awaited_call : Ecall
awaited_call = record {
  function_id = 3;
  fmt = 97 ∷ 44 ∷ 97 ∷ 44 ∷ 97 ∷ [];
  async = false;
  has_return = true;
  n_args = 3;
  va = 8192 ∷ 4112 ∷ 4120 ∷ [];
}

abbrev two_calls : List Request
two_calls = Request.hcall batched_call ∷ Request.ecall awaited_call ∷ []

abbrev times : ℕ → Thread → List Thread
times zero t = []
times (suc n) t = t ∷ times n t

-- The switch queues both calls and waits, the enclave serves them, the switch sees the answer.
abbrev one_service : List Thread
one_service = times 6 Thread.switch ++ times 13 Thread.enclave ++ times 2 Thread.switch

abbrev busy_state : System
busy_state = run one_service (init no_call two_calls)

tokens_test : tokens false (97 ∷ 44 ∷ 97 ∷ 44 ∷ 97 ∷ []) ≡ 3
unfolding tokens
tokens_test = refl

leaving_test : busy_state.caller ≡ CallerPc.leaving
unfolding caller_move poller_move take_slot
leaving_test = refl

run-IsConsistent_example : IsConsistent busy_state
run-IsConsistent_example = run-IsConsistent no_call two_calls one_service

never_lost_example : busy_state.caller ≢ CallerPc.lost
never_lost_example = never_lost no_call two_calls one_service (omega arith, (omega arith, tt))

run-Delivered_example : Delivered two_calls busy_state
run-Delivered_example = run-Delivered no_call two_calls one_service (omega arith, (omega arith, tt))

make_hotcall-Answered_example : Answered two_calls busy_state
unfolding caller_move poller_move take_slot
make_hotcall-Answered_example =
    make_hotcall-Answered no_call two_calls one_service (omega arith, (omega arith, tt)) refl

always_completes_example : (us : List Thread) × IsIdle [] (run us busy_state)
always_completes_example =
    always_completes no_call two_calls one_service (omega arith, (omega arith, tt))

-- With one batched call more than the ring has slots, the node of a queued call is queued again.
abbrev flood : ℕ → List Request
flood zero = []
flood (suc n) = Request.hcall batched_call ∷ flood n

overrun_test : (run (times 41 Thread.switch) (init no_call (flood 21))).caller ≡ CallerPc.lost
unfolding caller_move take_slot
overrun_test = refl
