-- ===== src/Hotcall/Progress.antt =====
-- That a hot call can always be completed: from every state the two threads of
-- OFTonSGX/untrusted/hotcall-untrusted.c and OFTonSGX/trusted/hotcall-trusted.c can reach, some
-- continuation of the schedule brings the switch to the end of its program.
use ovs_sgx.Prelude.{
  ℕ, ◌≡◌, refl, sym, ap, ◌∙◌, subst, Bool, true, false, List, [], ◌∷◌, if◌then◌else◌,
}
use ovs_sgx.Hotcall.Calls.{FunctionCall, Request}
use ovs_sgx.Hotcall.Threads.{CallerPc, System, Thread, caller_move, step, run, init, is_free}
use ovs_sgx.Hotcall.Phases.{IsConsistent, step-IsConsistent, run-IsConsistent}
use ovs_sgx.Hotcall.Ring.{Fits, IsBounded, run-IsBounded}
use ovs_sgx.Hotcall.Leads.{
  Leads, here, later, Leads-bind, IsSound, step-IsSound, Leads-IsSound, Leads-schedule,
}
use ovs_sgx.Hotcall.Service.{served}

-- The switch, once it finds the lock free and its calls done
abbrev pub IsIdle : List Request → System → Type 0
IsIdle es s = (s.caller ≡ CallerPc.idle) × (s.todo ≡ es)

abbrev mk : CallerPc → System → System
mk c s = record s { caller = c }

acquire-IsIdle :
    (s : System)
    → s.hcall.spinlock ≡ 0
    → s.hcall.is_done ≡ true
    → Leads (IsIdle s.todo) (mk CallerPc.acquiring s)
unfolding caller_move
acquire-IsIdle s f d =
    later Thread.switch
      (rw f (later Thread.switch (rw d (later Thread.switch (here (refl, refl))))))

spin-IsIdle :
    (s : System)
    → s.hcall.spinlock ≡ 0
    → s.hcall.is_done ≡ true
    → Leads (IsIdle s.todo) (mk CallerPc.spinning s)
unfolding caller_move
spin-IsIdle s f d =
    let open_lock : is_free s.hcall ≡ true = rw f refl in
    later Thread.switch (
      subst
        (λ b. Leads (IsIdle s.todo) (mk (if b then CallerPc.acquiring else CallerPc.spinning) s))
        (sym open_lock) (acquire-IsIdle s f d))

as_caller :
    {G : System → Type 0} {c : CallerPc} (u : System) → u.caller ≡ c → Leads G (mk c u) → Leads G u
as_caller {G = G} u e l = subst (λ v. Leads G v) (ap (λ x. mk x u) (sym e)) l

-- The switch waits outside the lock.
wait_acquiring :
    (s : System)
    → IsConsistent (mk CallerPc.acquiring s)
    → Leads (IsIdle s.todo) (mk CallerPc.acquiring s)
wait_acquiring s k =
    Leads-bind (served s.pfc s.todo CallerPc.acquiring refl refl s.poller s.hcall s.executed k)
      (λ u (c, t, d, p, f).
        as_caller u c
          (subst (λ es. Leads (IsIdle es) (mk CallerPc.acquiring u)) t (acquire-IsIdle u f d)))

wait_spinning :
    (s : System)
    → IsConsistent (mk CallerPc.spinning s)
    → Leads (IsIdle s.todo) (mk CallerPc.spinning s)
wait_spinning s k =
    Leads-bind (served s.pfc s.todo CallerPc.spinning refl refl s.poller s.hcall s.executed k)
      (λ u (c, t, d, p, f).
        as_caller u c
          (subst (λ es. Leads (IsIdle es) (mk CallerPc.spinning u)) t (spin-IsIdle u f d)))

IsIdle-arming :
    (s : System)
    → IsConsistent (mk CallerPc.arming s)
    → Leads (IsIdle s.todo) (mk CallerPc.arming s)
unfolding caller_move
IsIdle-arming s k = later Thread.switch (
    wait_acquiring (record s { hcall = record s.hcall { run = true } })
      (step-IsConsistent Thread.switch (mk CallerPc.arming s) k))

IsIdle-resetting :
    (s : System)
    → IsConsistent (mk CallerPc.resetting s)
    → Leads (IsIdle s.todo) (mk CallerPc.resetting s)
unfolding caller_move
IsIdle-resetting s k = later Thread.switch (
    IsIdle-arming (record s { hcall = record s.hcall { is_done = false } })
      (step-IsConsistent Thread.switch (mk CallerPc.resetting s) k))

IsIdle-releasing :
    (s : System)
    → IsConsistent (mk CallerPc.releasing s)
    → Leads (IsIdle s.todo) (mk CallerPc.releasing s)
unfolding caller_move
IsIdle-releasing s k = later Thread.switch (
    wait_acquiring (record s { hcall = record s.hcall { spinlock = 0 } })
      (step-IsConsistent Thread.switch (mk CallerPc.releasing s) k))

IsIdle-checking :
    (s : System) (done : Bool)
    → IsConsistent (mk (if done then CallerPc.leaving else CallerPc.releasing) s)
    → Leads (IsIdle s.todo) (mk (if done then CallerPc.leaving else CallerPc.releasing) s)
unfolding caller_move
IsIdle-checking s true k = later Thread.switch (here (refl, refl))
IsIdle-checking s false k = IsIdle-releasing s k

-- From wherever the switch stands in an `ECALL`, it can get to its end.
to_idle : (c : CallerPc) (s : System) → IsSound (mk c s) → Leads (IsIdle s.todo) (mk c s)
unfolding caller_move IsBounded
to_idle CallerPc.idle s k = here (refl, refl)
to_idle (CallerPc.prepared true) s k = later Thread.switch (here (refl, refl))
to_idle (CallerPc.prepared false) s k =
    later Thread.switch
      (IsIdle-resetting s (step-IsConsistent Thread.switch (mk (CallerPc.prepared false) s) k.0))
to_idle CallerPc.resetting s k = IsIdle-resetting s k.0
to_idle CallerPc.arming s k = IsIdle-arming s k.0
to_idle CallerPc.acquiring s k = wait_acquiring s k.0
to_idle CallerPc.spinning s k = wait_spinning s k.0
to_idle CallerPc.checking s k = later Thread.switch (
    IsIdle-checking s s.hcall.is_done
      (step-IsConsistent Thread.switch (mk CallerPc.checking s) k.0))
to_idle CallerPc.leaving s k = later Thread.switch (here (refl, refl))
to_idle CallerPc.releasing s k = IsIdle-releasing s k.0
to_idle CallerPc.lost s k = absurd k.1.1

enqueue_todo :
    (s : System) (e : Request) (es : List Request)
    → s.caller ≡ CallerPc.idle
    → s.todo ≡ e ∷ es
    → (step Thread.switch s).todo ≡ es
unfolding caller_move
enqueue_todo s e es c t = rw (c, t) refl

-- The calls that are still to be made, one after the other.
to_end :
    (es : List Request) (s : System)
    → s.caller ≡ CallerPc.idle
    → s.todo ≡ es
    → IsSound s
    → Leads (IsIdle []) s
to_end [] s c t k = here (c, t)
to_end (e ∷ es) s c t k =
    let u = step Thread.switch s in
    let k' = step-IsSound Thread.switch s k in
    let rest = enqueue_todo s e es c t in
    later Thread.switch (
      Leads-bind (Leads-IsSound k' (to_idle u.caller u k'))
        (λ v ((c', t'), kv). to_end es v c' (t' ∙ rest) kv))

-- However the two threads' steps have been interleaved so far, the schedule can be continued so
-- that the switch gets through every call of its program, that is, neither a deadlock nor a state
-- without an answer is ever reached, for a switch that fits the ring.
pub always_completes :
    (fcs : ℕ → FunctionCall) (prog : List Request) (ts : List Thread)
    → Fits 0 prog
    → (us : List Thread) × IsIdle [] (run us (run ts (init fcs prog)))
always_completes fcs prog ts f =
    let s = run ts (init fcs prog) in
    let k : IsSound s = (run-IsConsistent fcs prog ts, run-IsBounded fcs prog ts f) in
    Leads-schedule (
      Leads-bind (Leads-IsSound k (to_idle s.caller s k))
        (λ v ((c, t), kv). to_end v.todo v c refl kv))
