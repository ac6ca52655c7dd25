-- ===== src/Hotcall/Delivery.antt =====
-- What a hot call promises: the enclave executes the calls that the switch issues, each once and
-- in the order in which they were queued.
use mathlib.Core.List.{append_assoc, append-nil}
use ovs_sgx.Prelude.{
  ℕ, ◌≡◌, refl, ◌∙◌, subst, true, false, List, [], ◌∷◌, ◌++◌, map, none, some, if◌then◌else◌, drop,
  length,
}
use ovs_sgx.Hotcall.Calls.{FunctionCall, Request, Hotcall, fill_call, list_push_back, take_slot}
use ovs_sgx.Hotcall.Threads.{
  CallerPc, PollerPc, System, Thread, caller_move, poller_move, step, run, init, enqueue, is_free,
}
use ovs_sgx.Hotcall.Stages.{Agree, CallerStage, poller_stage, Consistent, list_remove_head}
use ovs_sgx.Hotcall.Phases.{IsConsistent, step-IsConsistent, run-IsConsistent}
use ovs_sgx.Hotcall.Ring.{
  Fits, IsBounded, FitsAt, InRing, step-IsBounded, run-IsBounded, fresh-InRing, answered_queue,
}
use ovs_sgx.Hotcall.Filled.{Carried, fill_call-Carries, Carried-snoc, map_unlinked}

-- The slots of the queue that are still to be executed.
abbrev pub pending : PollerPc → List ℕ → List ℕ
pending (PollerPc.unlinking c n) q = drop 1 q
pending _ q = q

-- The calls that were issued are those executed and those pending.
unfoldable pub Delivered : List Request → System → Type 0
Delivered prog s =
    (issued : List Request) × (issued ++ s.todo ≡ prog)
    × Carried (s.executed ++ map s.pfc.fcs (pending s.poller s.hcall.ecall_queue)) issued

quiet-pending :
    (p : PollerPc) (h : Hotcall) (q : List ℕ)
    → Agree CallerStage.quiet (poller_stage p) h
    → pending p q ≡ q
quiet-pending PollerPc.acquiring h q a = refl
quiet-pending PollerPc.spinning h q a = refl
quiet-pending PollerPc.checking h q a = refl
quiet-pending PollerPc.releasing h q a = refl
quiet-pending PollerPc.clearing h q a = refl
quiet-pending PollerPc.starting h q a = refl
quiet-pending (PollerPc.walking c) h q a = refl
quiet-pending (PollerPc.executing c n) h q a = refl
quiet-pending (PollerPc.unlinking c n) h q a = absurd a
quiet-pending PollerPc.finishing h q a = refl

enqueue-Delivered :
    (prog es : List Request) (s : System)
    → Consistent CallerPc.idle s.poller s.hcall
    → InRing s.hcall.ecall_queue s.pfc.idx
    → Fits (length s.hcall.ecall_queue) es
    → Delivered prog (record s { todo = es })
    → Delivered prog (enqueue es s)
unfolding Delivered take_slot
enqueue-Delivered prog [] s k r f d = d
enqueue-Delivered prog (e ∷ es) s k r f (issued, split, carried) =
    let q = s.hcall.ecall_queue in
    let i = s.pfc.idx in
    let call = fill_call (s.pfc.fcs i) e in
    let all = quiet-pending s.poller s.hcall q k.2 in
    let all' = quiet-pending s.poller s.hcall (list_push_back i q) k.2 in
    let queued = map_unlinked s.pfc.fcs i call q (fresh-InRing q i f.0 r) in
    let before = subst (λ l. Carried (s.executed ++ map s.pfc.fcs l) issued) all carried in
    (
      issued ++ (e ∷ []),
      append_assoc issued (e ∷ []) es ∙ split,
      rw (all', queued, ← append_assoc s.executed (map s.pfc.fcs q) (call ∷ []))
          (Carried-snoc (s.executed ++ map s.pfc.fcs q) issued call e before
            (fill_call-Carries (s.pfc.fcs i) e)),
    )

caller-Delivered :
    (prog : List Request) (c : CallerPc) (s : System)
    → Consistent c s.poller s.hcall
    → InRing s.hcall.ecall_queue s.pfc.idx
    → FitsAt c (length s.hcall.ecall_queue) s.todo
    → Delivered prog s
    → Delivered prog (caller_move c s)
unfolding Delivered caller_move
caller-Delivered prog CallerPc.idle s k r f d = enqueue-Delivered prog s.todo s k r f d
caller-Delivered prog (CallerPc.prepared true) s k r f d = d
caller-Delivered prog (CallerPc.prepared false) s k r f d = d
caller-Delivered prog CallerPc.resetting s k r f d = d
caller-Delivered prog CallerPc.arming s k r f d = d
caller-Delivered prog CallerPc.acquiring s k r f d =
    elim (is_free s.hcall)
      as (λ b. Delivered prog (
        if b
        then record s { hcall = record s.hcall { spinlock = 1 }; caller = CallerPc.checking }
        else record s { caller = CallerPc.spinning })) [ true ↦ d | false ↦ d ]
caller-Delivered prog CallerPc.spinning s k r f d = d
caller-Delivered prog CallerPc.checking s k r f d = d
caller-Delivered prog CallerPc.leaving s k r f d = d
caller-Delivered prog CallerPc.releasing s k r f d = d
caller-Delivered prog CallerPc.lost s k r f d = d

poller-Delivered :
    (prog : List Request) (p : PollerPc) (s : System)
    → Consistent s.caller p s.hcall
    → Delivered prog (record s { poller = p })
    → Delivered prog (poller_move p s)
unfolding Delivered poller_move
poller-Delivered prog PollerPc.acquiring s k d =
    elim (is_free s.hcall)
      as (λ b. Delivered prog (
        if b
        then record s { hcall = record s.hcall { spinlock = 1 }; poller = PollerPc.checking }
        else record s { poller = PollerPc.spinning })) [ true ↦ d | false ↦ d ]
poller-Delivered prog PollerPc.spinning s k d =
    elim (is_free s.hcall)
      as (λ b.
        Delivered prog
          (record s { poller = if b then PollerPc.acquiring else PollerPc.spinning })) [
            | true ↦ d
            | false ↦ d
          ]
poller-Delivered prog PollerPc.checking s k d =
    elim s.hcall.run
      as (λ b.
        Delivered prog
          (record s { poller = if b then PollerPc.clearing else PollerPc.releasing })) [
            | true ↦ d
            | false ↦ d
          ]
poller-Delivered prog PollerPc.clearing s k d = d
poller-Delivered prog PollerPc.starting s k d = d
poller-Delivered prog (PollerPc.walking none) s k d = d
poller-Delivered prog (PollerPc.walking (some c)) s k d = d
poller-Delivered prog (PollerPc.executing c next) s k (issued, split, carried) =
    let (rest, e, n) = k.3 in
    let all = subst (λ q. Carried (s.executed ++ map s.pfc.fcs q) issued) e carried in
    (issued, split, rw (e, append_assoc s.executed (s.pfc.fcs c ∷ []) (map s.pfc.fcs rest)) all)
poller-Delivered prog (PollerPc.unlinking c next) s k (issued, split, carried) =
    let (rest, e, n) = k.3 in
    let left = subst (λ q. Carried (s.executed ++ map s.pfc.fcs (drop 1 q)) issued) e carried in
    (issued, split, rw (list_remove_head c s.hcall.ecall_queue rest e) left)
poller-Delivered prog PollerPc.finishing s k d = d
poller-Delivered prog PollerPc.releasing s k d = d

step-Delivered :
    (prog : List Request) (t : Thread) (s : System)
    → IsConsistent s
    → IsBounded s
    → Delivered prog s
    → Delivered prog (step t s)
unfolding IsConsistent IsBounded
step-Delivered prog Thread.switch s k b d = caller-Delivered prog s.caller s k b.0 b.1 d
step-Delivered prog Thread.enclave s k b d = poller-Delivered prog s.poller s k d

keep-Delivered :
    (prog : List Request) (ts : List Thread) (s : System)
    → IsConsistent s
    → IsBounded s
    → Delivered prog s
    → Delivered prog (run ts s)
keep-Delivered prog [] s k b d = d
keep-Delivered prog (t ∷ ts) s k b d =
    keep-Delivered prog ts (step t s) (step-IsConsistent t s k) (step-IsBounded t s k b)
      (step-Delivered prog t s k b d)

-- For a switch that fits the ring, at every moment of every interleaving the calls the enclave has
-- executed, followed by those still queued, are the calls issued so far: each once, in the order in
-- which they were issued, with the function's number, the arguments and, where there is one, the
-- place for the return value that the switch gave; and the calls issued are the first of its
-- program, the rest being still to come.
pub run-Delivered :
    (fcs : ℕ → FunctionCall) (prog : List Request) (ts : List Thread)
    → Fits 0 prog
    → Delivered prog (run ts (init fcs prog))
unfolding Delivered
run-Delivered fcs prog ts f =
    keep-Delivered prog ts (init fcs prog) (run-IsConsistent fcs prog [])
      (run-IsBounded fcs prog [] f) ([], refl, tt)

leaving-pending :
    (p : PollerPc) (h : Hotcall) (q : List ℕ)
    → Agree CallerStage.answered (poller_stage p) h
    → q ≡ []
    → pending p q ≡ []
leaving-pending PollerPc.acquiring h q a e = e
leaving-pending PollerPc.spinning h q a e = e
leaving-pending PollerPc.checking h q a e = e
leaving-pending PollerPc.releasing h q a e = e
leaving-pending PollerPc.clearing h q a e = e
leaving-pending PollerPc.starting h q a e = e
leaving-pending (PollerPc.walking c) h q a e = e
leaving-pending (PollerPc.executing c n) h q a e = e
leaving-pending (PollerPc.unlinking c n) h q a e = absurd a
leaving-pending PollerPc.finishing h q a e = e

-- Every call up to now has been executed, once and in order, and nothing is queued.
unfoldable pub Answered : List Request → System → Type 0
Answered prog s =
    (issued : List Request) × (issued ++ s.todo ≡ prog)
    × Carried s.executed issued
    × (s.hcall.ecall_queue ≡ [])

-- When `make_hotcall` has seen `is_done` and is about to return, the enclave has executed exactly
-- the calls issued up to then, the awaited one and all the batched ones before it, each once and in
-- the order of issue, and the queue is empty: in every interleaving, for a switch that fits the
-- ring.
pub make_hotcall-Answered :
    (fcs : ℕ → FunctionCall) (prog : List Request) (ts : List Thread)
    → Fits 0 prog
    → (run ts (init fcs prog)).caller ≡ CallerPc.leaving
    → Answered prog (run ts (init fcs prog))
unfolding Answered Delivered IsConsistent
make_hotcall-Answered fcs prog ts f e =
    let s = run ts (init fcs prog) in
    let k = subst (λ c. Consistent c s.poller s.hcall) e (run-IsConsistent fcs prog ts) in
    let empty = answered_queue (poller_stage s.poller) s.hcall k.2 in
    let none_left = leaving-pending s.poller s.hcall s.hcall.ecall_queue k.2 empty in
    let (issued, split, carried) = run-Delivered fcs prog ts f in
    let all = subst (λ q. Carried (s.executed ++ map s.pfc.fcs q) issued) none_left carried in
    (issued, split, rw (← append-nil s.executed) all, empty)
