-- ===== src/Hotcall/Ring.antt =====
-- The ring of preallocated calls of OFTonSGX/untrusted/hotcall-untrusted.h: its slots are reused in
-- turn, so at most `ring_size` calls may be queued before the switch waits for the enclave.
use ovs_sgx.Prelude.{
  ℕ, zero, suc, ◌+◌, ◌%◌, ◌≤◌, ◌<◌, ◌==◌, ◌≡◌, ◌≢◌, refl, sym, ap, subst, Bool, true, false, List,
  [], ◌∷◌, ◌++◌, none, some, if◌then◌else◌, length, length-append, ◌≡⟨◌⟩◌, ◌∎, drop, arith,
}
use ovs_sgx.Hotcall.Calls.{
  is_async, FunctionCall, Request, Hotcall, ring_size, next_idx, is_linked, list_push_back,
  take_slot,
}
use ovs_sgx.Hotcall.Threads.{
  CallerPc, PollerPc, System, Thread, caller_move, poller_move, step, run, init, enqueue,
}
use ovs_sgx.Hotcall.Stages.{
  Agree, CallerStage, PollerStage, caller_stage, poller_stage, Consistent, list_remove_head,
}
use ovs_sgx.Hotcall.Phases.{IsConsistent, step-IsConsistent, run-IsConsistent}

-- `n` slots of the ring in turn
abbrev pub window : ℕ → ℕ → List ℕ
window start zero = []
window start (suc n) = start % ring_size ∷ window (suc start) n

-- The switch never queues more calls than the ring has slots without waiting for an answer, from
-- `n` queued calls on.
abbrev pub Fits : ℕ → List Request → Type 0
Fits n [] = Unit
Fits n (e ∷ es) = (n < ring_size) × Fits (if is_async e then suc n else 0) es

-- What is still to be queued fits, wherever the caller stands.
abbrev pub FitsAt : CallerPc → ℕ → List Request → Type 0
FitsAt CallerPc.idle n es = Fits n es
FitsAt (CallerPc.prepared true) n es = Fits n es
FitsAt CallerPc.lost n es = ⊥
FitsAt _ n es = Fits 0 es

abbrev pub InRing : List ℕ → ℕ → Type 0
InRing q idx =
    (start : ℕ) × (q ≡ window start (length q))
    × (length q ≤ ring_size)
    × (idx ≡ (start + length q) % ring_size)

unfoldable pub IsBounded : System → Type 0
IsBounded s =
    InRing s.hcall.ecall_queue s.pfc.idx × FitsAt s.caller (length s.hcall.ecall_queue) s.todo

next_slot : (a i : ℕ) → i ≡ a % ring_size → next_idx i ≡ suc a % ring_size
next_slot a i e = ground arith

window_push :
    (start n : ℕ) → window start n ++ ((start + n) % ring_size ∷ []) ≡ window start (suc n)
window_push start zero = let e : start + 0 ≡ start = omega arith in rw e refl
window_push start (suc n) =
    let e : start + suc n ≡ suc start + n = omega arith in
    rw e (ap (λ q. start % ring_size ∷ q) (window_push (suc start) n))

fresh :
    (start n m : ℕ)
    → n ≤ m
    → m < ring_size
    → is_linked ((start + m) % ring_size) (window start n) ≡ false
fresh start zero m p q = refl
fresh start (suc n) zero p q = absurd (omega arith)
fresh start (suc n) (suc m) p q =
    let ih = fresh (suc start) n m (omega arith) (omega arith) in
    let e : start + suc m ≡ suc start + m = omega arith in
    let ne : ((suc start + m) % ring_size == start % ring_size) ≡ false = ground arith in
    rw (e, ne) (subst (λ k. is_linked (k % ring_size) (window (suc start) n) ≡ false) (sym e) ih)

push-InRing :
    (q : List ℕ) (idx : ℕ)
    → length q < ring_size
    → InRing q idx
    → InRing (list_push_back idx q) (next_idx idx)
push-InRing q idx p (start, e, le, at) =
    let len : length (q ++ (idx ∷ [])) ≡ suc (length q) =
      omega (arith, length-append q (idx ∷ [])) in
    let sum : start + suc (length q) ≡ suc (start + length q) = omega arith in
    let pushed : q ++ (idx ∷ []) ≡ window start (suc (length q)) =
      (q ++ (idx ∷ [])
        ≡⟨ ap (λ r. r ++ (idx ∷ [])) e ⟩ window start (length q) ++ (idx ∷ [])
        ≡⟨ ap (λ i. window start (length q) ++ (i ∷ [])) at ⟩
          window start (length q) ++ ((start + length q) % ring_size ∷ [])
        ≡⟨ window_push start (length q) ⟩ window start (suc (length q)) ∎) in
    (start, rw len pushed, omega arith, rw (len, sum) (next_slot (start + length q) idx at))

unlink-InRing : (c : ℕ) (rest : List ℕ) (idx : ℕ) → InRing (c ∷ rest) idx → InRing rest idx
unlink-InRing c rest idx (start, e, le, at) = (suc start, ap (drop 1) e, omega arith, omega arith)

pub fresh-InRing :
    (q : List ℕ) (idx : ℕ) → length q < ring_size → InRing q idx → is_linked idx q ≡ false
fresh-InRing q idx p (start, e, le, at) =
    let unlinked = fresh start (length q) (length q) (omega arith) p in
    subst (λ i. is_linked i q ≡ false) (sym at)
      (subst (λ r. is_linked ((start + length q) % ring_size) r ≡ false) (sym e) unlinked)

pub answered_queue :
    (st : PollerStage) (h : Hotcall) → Agree CallerStage.answered st h → h.ecall_queue ≡ []
answered_queue PollerStage.calm h a = a.1
answered_queue PollerStage.taking h a = absurd a
answered_queue PollerStage.busy h a = absurd a

prepared-Fits :
    (async : Bool) (n : ℕ) (es : List Request)
    → Fits (if async then suc n else 0) es
    → FitsAt (CallerPc.prepared async) (suc n) es
prepared-Fits true n es h = h
prepared-Fits false n es h = h

enqueue-IsBounded :
    (es : List Request) (s : System)
    → InRing s.hcall.ecall_queue s.pfc.idx
    → Fits (length s.hcall.ecall_queue) es
    → IsBounded (enqueue es s)
unfolding IsBounded take_slot
enqueue-IsBounded [] s r f = (r, tt)
enqueue-IsBounded (e ∷ es) s r f =
    let len : length (list_push_back s.pfc.idx s.hcall.ecall_queue)
        ≡ suc (length s.hcall.ecall_queue) =
      omega (arith, length-append s.hcall.ecall_queue (s.pfc.idx ∷ [])) in
    let unlinked = fresh-InRing s.hcall.ecall_queue s.pfc.idx f.0 r in
    (
      push-InRing s.hcall.ecall_queue s.pfc.idx f.0 r,
      rw (unlinked, len) (prepared-Fits (is_async e) (length s.hcall.ecall_queue) es f.1),
    )

caller-IsBounded :
    (c : CallerPc) (s : System)
    → Consistent c s.poller s.hcall
    → InRing s.hcall.ecall_queue s.pfc.idx
    → FitsAt c (length s.hcall.ecall_queue) s.todo
    → IsBounded (caller_move c s)
unfolding IsBounded caller_move
caller-IsBounded CallerPc.idle s k r f = enqueue-IsBounded s.todo s r f
caller-IsBounded (CallerPc.prepared true) s k r f = (r, f)
caller-IsBounded (CallerPc.prepared false) s k r f = (r, f)
caller-IsBounded CallerPc.resetting s k r f = (r, f)
caller-IsBounded CallerPc.arming s k r f = (r, f)
caller-IsBounded CallerPc.acquiring s k r f = ground arith
caller-IsBounded CallerPc.spinning s k r f = ground arith
caller-IsBounded CallerPc.checking s k r f = ground arith
caller-IsBounded CallerPc.leaving s k r f =
    let e = answered_queue (poller_stage s.poller) s.hcall k.2 in (r, rw e f)
caller-IsBounded CallerPc.releasing s k r f = (r, f)
caller-IsBounded CallerPc.lost s k r f = absurd f

-- The poller takes calls off the queue only while the caller waits.
busy_fits :
    (c : CallerPc) (h : Hotcall) (n m : ℕ) (es : List Request)
    → Agree (caller_stage c) PollerStage.busy h
    → FitsAt c n es
    → FitsAt c m es
busy_fits CallerPc.idle h n m es a f = absurd a
busy_fits (CallerPc.prepared true) h n m es a f = absurd a
busy_fits (CallerPc.prepared false) h n m es a f = absurd a
busy_fits CallerPc.resetting h n m es a f = f
busy_fits CallerPc.arming h n m es a f = f
busy_fits CallerPc.acquiring h n m es a f = f
busy_fits CallerPc.spinning h n m es a f = f
busy_fits CallerPc.checking h n m es a f = f
busy_fits CallerPc.leaving h n m es a f = f
busy_fits CallerPc.releasing h n m es a f = f
busy_fits CallerPc.lost h n m es a f = f

poller-IsBounded :
    (p : PollerPc) (s : System)
    → Consistent s.caller p s.hcall
    → InRing s.hcall.ecall_queue s.pfc.idx
    → FitsAt s.caller (length s.hcall.ecall_queue) s.todo
    → IsBounded (poller_move p s)
unfolding IsBounded poller_move
poller-IsBounded PollerPc.acquiring s k r f = ground arith
poller-IsBounded PollerPc.spinning s k r f = ground arith
poller-IsBounded PollerPc.checking s k r f = (r, f)
poller-IsBounded PollerPc.clearing s k r f = (r, f)
poller-IsBounded PollerPc.starting s k r f = (r, f)
poller-IsBounded (PollerPc.walking none) s k r f = (r, f)
poller-IsBounded (PollerPc.walking (some c)) s k r f = (r, f)
poller-IsBounded (PollerPc.executing c next) s k r f = (r, f)
poller-IsBounded (PollerPc.unlinking c next) s k r f =
    let (rest, e, n) = k.3 in
    let q = s.hcall.ecall_queue in
    let r' = unlink-InRing c rest s.pfc.idx (subst (λ l. InRing l s.pfc.idx) e r) in
    rw (list_remove_head c q rest e)
      (r', busy_fits s.caller s.hcall (length q) (length rest) s.todo k.2 f)
poller-IsBounded PollerPc.finishing s k r f = (r, f)
poller-IsBounded PollerPc.releasing s k r f = (r, f)

pub step-IsBounded : (t : Thread) (s : System) → IsConsistent s → IsBounded s → IsBounded (step t s)
unfolding IsConsistent IsBounded
step-IsBounded Thread.switch s k b = caller-IsBounded s.caller s k b.0 b.1
step-IsBounded Thread.enclave s k b = poller-IsBounded s.poller s k b.0 b.1

keep-IsBounded :
    (ts : List Thread) (s : System) → IsConsistent s → IsBounded s → IsBounded (run ts s)
keep-IsBounded [] s k b = b
keep-IsBounded (t ∷ ts) s k b =
    keep-IsBounded ts (step t s) (step-IsConsistent t s k) (step-IsBounded t s k b)

pub run-IsBounded :
    (fcs : ℕ → FunctionCall) (prog : List Request) (ts : List Thread)
    → Fits 0 prog
    → IsBounded (run ts (init fcs prog))
unfolding IsBounded
run-IsBounded fcs prog ts f =
    keep-IsBounded ts (init fcs prog) (run-IsConsistent fcs prog [])
      ((0, refl, omega arith, refl), f)

-- A switch that queues at most `ring_size` calls before it waits for an answer, counting the one it
-- waits for, never queues a call in a slot of the ring that is still queued, however the two
-- threads' steps are interleaved.
pub never_lost :
    (fcs : ℕ → FunctionCall) (prog : List Request) (ts : List Thread)
    → Fits 0 prog
    → (run ts (init fcs prog)).caller ≢ CallerPc.lost
unfolding IsBounded
never_lost fcs prog ts f e =
    let s = run ts (init fcs prog) in
    subst (λ c. FitsAt c (length s.hcall.ecall_queue) s.todo) e (run-IsBounded fcs prog ts f).1
