-- ===== src/Hotcall/Phases.antt =====
-- How the two threads of a hot call stand to each other: the lock of
-- OFTonSGX/untrusted/spinlock.c excludes, and `run` and `is_done` say whose turn it is.
use ovs_sgx.Prelude.{ℕ, refl, true, false, List, [], ◌∷◌, none, some, arith}
use ovs_sgx.Hotcall.Calls.{is_async, FunctionCall, Request, list_remove, is_linked, list_push_back}
use ovs_sgx.Hotcall.Threads.{
  CallerPc, PollerPc, System, Thread, caller_move, poller_move, step, run, init, enqueue,
}
use ovs_sgx.Hotcall.Stages.{
  caller_stage, poller_stage, Consistent, reset, arm, caller_checks, settle, busy_frame,
  list_remove_head, requeue, queued,
}

unfoldable pub IsConsistent : System → Type 0
IsConsistent s = Consistent s.caller s.poller s.hcall

enqueue-IsConsistent :
    (es : List Request) (s : System)
    → Consistent CallerPc.idle s.poller s.hcall
    → IsConsistent (enqueue es s)
unfolding IsConsistent
enqueue-IsConsistent [] s h = h
enqueue-IsConsistent (e ∷ es) s h =
    queued (is_linked s.pfc.idx s.hcall.ecall_queue) (is_async e) s.poller
      (record s.hcall { ecall_queue = list_push_back s.pfc.idx s.hcall.ecall_queue })
      (requeue s.poller s.hcall (list_push_back s.pfc.idx s.hcall.ecall_queue) h)

caller-IsConsistent :
    (c : CallerPc) (s : System) → Consistent c s.poller s.hcall → IsConsistent (caller_move c s)
unfolding IsConsistent caller_move
caller-IsConsistent CallerPc.idle s h = enqueue-IsConsistent s.todo s h
caller-IsConsistent (CallerPc.prepared true) s h = h
caller-IsConsistent (CallerPc.prepared false) s h = h
caller-IsConsistent CallerPc.resetting s h =
    (h.0, h.1, reset (poller_stage s.poller) s.hcall h.2, h.3)
caller-IsConsistent CallerPc.arming s h = (h.0, h.1, arm (poller_stage s.poller) s.hcall h.2, h.3)
caller-IsConsistent CallerPc.acquiring s h = ground arith
caller-IsConsistent CallerPc.spinning s h = ground arith
caller-IsConsistent CallerPc.checking s h = ground (arith, caller_checks s.poller s.hcall h)
caller-IsConsistent CallerPc.leaving s h =
    (omega arith, omega arith, settle (poller_stage s.poller) s.hcall h.2, h.3)
caller-IsConsistent CallerPc.releasing s h = ground arith
caller-IsConsistent CallerPc.lost s h = h

poller-IsConsistent :
    (p : PollerPc) (s : System) → Consistent s.caller p s.hcall → IsConsistent (poller_move p s)
unfolding IsConsistent poller_move
poller-IsConsistent PollerPc.acquiring s h = ground arith
poller-IsConsistent PollerPc.spinning s h = ground arith
poller-IsConsistent PollerPc.checking s h = ground arith
poller-IsConsistent PollerPc.clearing s h = ground arith
poller-IsConsistent PollerPc.starting s h = ground arith
poller-IsConsistent (PollerPc.walking none) s h = ground arith
poller-IsConsistent (PollerPc.walking (some c)) s h = ground arith
poller-IsConsistent (PollerPc.executing c next) s h = h
poller-IsConsistent (PollerPc.unlinking c next) s h =
    let (rest, e, n) = h.3 in
    let removed = list_remove_head c s.hcall.ecall_queue rest e in
    (
      h.0,
      h.1,
      busy_frame (caller_stage s.caller) s.hcall (list_remove c s.hcall.ecall_queue) h.2,
      rw (removed, n) refl,
    )
poller-IsConsistent PollerPc.finishing s h = ground arith
poller-IsConsistent PollerPc.releasing s h = ground arith

pub step-IsConsistent : (t : Thread) (s : System) → IsConsistent s → IsConsistent (step t s)
unfolding IsConsistent
step-IsConsistent Thread.switch s h = caller-IsConsistent s.caller s h
step-IsConsistent Thread.enclave s h = poller-IsConsistent s.poller s h

keep-IsConsistent : (ts : List Thread) (s : System) → IsConsistent s → IsConsistent (run ts s)
keep-IsConsistent [] s h = h
keep-IsConsistent (t ∷ ts) s h = keep-IsConsistent ts (step t s) (step-IsConsistent t s h)

-- However the two threads' steps are interleaved, at most one of them holds the spin lock and the
-- lock's word says whether one does; the poller takes calls only while the caller waits in
-- `make_hotcall`, with `is_done` false, and then stands at the first call of the queue; `is_done`
-- is true for a waiting caller only when `run` is false and the queue is empty; and no call is
-- announced (`run` is false) when the caller is not waiting.
pub run-IsConsistent :
    (fcs : ℕ → FunctionCall) (prog : List Request) (ts : List Thread)
    → IsConsistent (run ts (init fcs prog))
unfolding IsConsistent
run-IsConsistent fcs prog ts = keep-IsConsistent ts (init fcs prog) (refl, omega arith, refl, tt)
