-- ===== src/Hotcall/Service.antt =====
-- The thread of OFTonSGX/trusted/hotcall-trusted.c alone, while the switch waits outside the lock.
use ovs_sgx.Prelude.{
  ℕ, ◌≡◌, refl, sym, subst, true, false, List, [], ◌∷◌, ◌++◌, Option, none, some, inl, inr, ==_refl,
  if◌then◌else◌, arith,
}
use ovs_sgx.Hotcall.Calls.{FunctionCall, Request, Hotcall, Preallocated, list_remove}
use ovs_sgx.Hotcall.Threads.{
  CallerPc, PollerPc, System, Thread, poller_move, first, is_free, next_of,
}
use ovs_sgx.Hotcall.Stages.{
  Agree, CallerStage, PollerStage, caller_stage, poller_stage, caller_holds, poller_holds,
  list_remove_head,
}
use ovs_sgx.Hotcall.Phases.{IsConsistent, step-IsConsistent}
use ovs_sgx.Hotcall.Leads.{Leads, here, later}

module _ (pfc : Preallocated) (es : List Request) (c : CallerPc)
    (w : caller_stage c ≡ CallerStage.waiting) (z : caller_holds c ≡ 0) where
  abbrev pub at : Hotcall → List FunctionCall → PollerPc → System
  at h ex p = record { hcall = h; pfc = pfc; executed = ex; caller = c; poller = p; todo = es }

  abbrev pub IsServed : System → Type 0
  IsServed s =
      (s.caller ≡ c)
      × (s.todo ≡ es)
      × (s.hcall.is_done ≡ true)
      × (s.poller ≡ PollerPc.acquiring)
      × (s.hcall.spinlock ≡ 0)

  flags :
      (h : Hotcall) (ex : List FunctionCall) (p : PollerPc)
      → IsConsistent (at h ex p)
      → Agree CallerStage.waiting (poller_stage p) h
  unfolding IsConsistent
  flags h ex p k = subst (λ st. Agree st (poller_stage p) h) w k.2

  free :
      (h : Hotcall) (ex : List FunctionCall) (p : PollerPc)
      → poller_holds p ≡ 0
      → IsConsistent (at h ex p)
      → h.spinlock ≡ 0
  unfolding IsConsistent
  free h ex p e k = omega arith

  from_finishing :
      (h : Hotcall) (ex : List FunctionCall) → Leads IsServed (at h ex PollerPc.finishing)
  unfolding poller_move
  from_finishing h ex =
      later Thread.enclave (later Thread.enclave (here (refl, refl, refl, refl, refl)))

  from_walking :
      (q : List ℕ) (h : Hotcall) (ex : List FunctionCall) (x : Option ℕ)
      → h.ecall_queue ≡ q
      → x ≡ first q
      → Leads IsServed (at h ex (PollerPc.walking x))
  unfolding poller_move
  from_walking [] h ex none e f = later Thread.enclave (from_finishing h ex)
  from_walking [] h ex (some y) e f = absurd (ground arith)
  from_walking (a ∷ q) h ex none e f = absurd (ground arith)
  from_walking (a ∷ q) h ex (some y) e f =
      let head : y ≡ a = ground arith in
      let gone : list_remove y h.ecall_queue ≡ q = list_remove_head y h.ecall_queue q (rw head e) in
      let n : next_of y h.ecall_queue ≡ first q = rw (e, head, ==_refl a) refl in
      later Thread.enclave (
        later Thread.enclave (
          later Thread.enclave (
            from_walking q (record h { ecall_queue = list_remove y h.ecall_queue })
              (ex ++ (pfc.fcs y ∷ [])) (next_of y h.ecall_queue) gone n)))

  -- The steps of the poller that do not touch the queue
  from_checking :
      (h : Hotcall) (ex : List FunctionCall)
      → Agree CallerStage.waiting PollerStage.calm h
      → Leads IsServed (at h ex PollerPc.checking)
  unfolding poller_move
  from_checking h ex (inl (r, d)) = later Thread.enclave (
      rw r (
        later Thread.enclave (
          later Thread.enclave (
            from_walking h.ecall_queue (record h { run = false }) ex (first h.ecall_queue) refl
              refl))))
  from_checking h ex (inr (r, d, q)) =
      later Thread.enclave (rw r (later Thread.enclave (here (refl, refl, d, refl, refl))))

  from_acquiring :
      (h : Hotcall) (ex : List FunctionCall)
      → IsConsistent (at h ex PollerPc.acquiring)
      → Leads IsServed (at h ex PollerPc.acquiring)
  unfolding poller_move
  from_acquiring h ex k =
      let f = free h ex PollerPc.acquiring refl k in
      later Thread.enclave
        (rw f (from_checking (record h { spinlock = 1 }) ex (flags h ex PollerPc.acquiring k)))

  from_unlinking :
      (h : Hotcall) (ex : List FunctionCall) (y : ℕ) (n : Option ℕ) (rest : List ℕ)
      → h.ecall_queue ≡ y ∷ rest
      → n ≡ first rest
      → Leads IsServed (at h ex (PollerPc.unlinking y n))
  unfolding poller_move
  from_unlinking h ex y n rest e f =
      let gone : list_remove y h.ecall_queue ≡ rest = list_remove_head y h.ecall_queue rest e in
      later Thread.enclave
        (from_walking rest (record h { ecall_queue = list_remove y h.ecall_queue }) ex n gone f)

  pub served :
      (p : PollerPc) (h : Hotcall) (ex : List FunctionCall)
      → IsConsistent (at h ex p)
      → Leads IsServed (at h ex p)
  unfolding poller_move IsConsistent
  served PollerPc.acquiring h ex k = from_acquiring h ex k
  served PollerPc.spinning h ex k =
      let f = free h ex PollerPc.spinning refl k in
      let open_lock : is_free h ≡ true = rw f refl in
      later Thread.enclave (
        subst (λ b. Leads IsServed (at h ex (if b then PollerPc.acquiring else PollerPc.spinning)))
          (sym open_lock) (from_acquiring h ex k))
  served PollerPc.checking h ex k = from_checking h ex (flags h ex PollerPc.checking k)
  served PollerPc.clearing h ex k = later Thread.enclave (
      later Thread.enclave
        (from_walking h.ecall_queue (record h { run = false }) ex (first h.ecall_queue) refl refl))
  served PollerPc.starting h ex k =
      later Thread.enclave (from_walking h.ecall_queue h ex (first h.ecall_queue) refl refl)
  served (PollerPc.walking x) h ex k = from_walking h.ecall_queue h ex x refl k.3
  served (PollerPc.executing y n) h ex k =
      let (rest, e, f) = k.3 in
      later Thread.enclave (from_unlinking h (ex ++ (pfc.fcs y ∷ [])) y n rest e f)
  served (PollerPc.unlinking y n) h ex k =
      let (rest, e, f) = k.3 in from_unlinking h ex y n rest e f
  served PollerPc.finishing h ex k = from_finishing h ex
  served PollerPc.releasing h ex k =
      let k' = step-IsConsistent Thread.enclave (at h ex PollerPc.releasing) k in
      later Thread.enclave (from_acquiring (record h { spinlock = 0 }) ex k')
