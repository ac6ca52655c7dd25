-- ===== src/Hotcall/Stages.antt =====
-- Where the two threads of a hot call stand to each other: the stages of the caller and of the poller,
-- the pairs of them that occur, and what a step to the next stage keeps.
use ovs_sgx.Prelude.{
  ℕ, ◌+◌, ◌≤◌, ◌≡◌, refl, Bool, true, false, List, [], ◌∷◌, ◌⊎◌, inl, if◌then◌else◌, ==_refl, arith,
}
use ovs_sgx.Hotcall.Calls.{Hotcall, list_remove}
use ovs_sgx.Hotcall.Threads.{CallerPc, PollerPc, first}

-- How many locks a thread holds.
abbrev pub caller_holds : CallerPc → ℕ
caller_holds CallerPc.checking = 1
caller_holds CallerPc.leaving = 1
caller_holds CallerPc.releasing = 1
caller_holds _ = 0

abbrev pub poller_holds : PollerPc → ℕ
poller_holds PollerPc.acquiring = 0
poller_holds PollerPc.spinning = 0
poller_holds _ = 1

pub data CallerStage : Type 0 where
  quiet : CallerStage
  ready : CallerStage
  waiting : CallerStage
  answered : CallerStage

abbrev pub caller_stage : CallerPc → CallerStage
caller_stage CallerPc.arming = CallerStage.ready
caller_stage CallerPc.acquiring = CallerStage.waiting
caller_stage CallerPc.spinning = CallerStage.waiting
caller_stage CallerPc.checking = CallerStage.waiting
caller_stage CallerPc.releasing = CallerStage.waiting
caller_stage CallerPc.leaving = CallerStage.answered
caller_stage _ = CallerStage.quiet

pub data PollerStage : Type 0 where
  calm : PollerStage
  taking : PollerStage
  busy : PollerStage

abbrev pub poller_stage : PollerPc → PollerStage
poller_stage PollerPc.acquiring = PollerStage.calm
poller_stage PollerPc.spinning = PollerStage.calm
poller_stage PollerPc.checking = PollerStage.calm
poller_stage PollerPc.releasing = PollerStage.calm
poller_stage PollerPc.clearing = PollerStage.taking
poller_stage _ = PollerStage.busy

-- What the flags say in each stage; the pairs of stages with `⊥` do not occur.
abbrev pub Agree : CallerStage → PollerStage → Hotcall → Type 0
Agree CallerStage.quiet PollerStage.calm h = h.run ≡ false
Agree CallerStage.quiet _ h = ⊥
Agree CallerStage.ready PollerStage.calm h = (h.run ≡ false) × (h.is_done ≡ false)
Agree CallerStage.ready _ h = ⊥
Agree CallerStage.waiting PollerStage.calm h =
    ((h.run ≡ true) × (h.is_done ≡ false))
    ⊎ ((h.run ≡ false) × (h.is_done ≡ true) × (h.ecall_queue ≡ []))
Agree CallerStage.waiting PollerStage.taking h = (h.run ≡ true) × (h.is_done ≡ false)
Agree CallerStage.waiting PollerStage.busy h = (h.run ≡ false) × (h.is_done ≡ false)
Agree CallerStage.answered PollerStage.calm h = (h.run ≡ false) × (h.ecall_queue ≡ [])
Agree CallerStage.answered _ h = ⊥

-- The poller's loop stands at the first element of the queue.
abbrev pub Walks : PollerPc → List ℕ → Type 0
Walks (PollerPc.walking c) q = c ≡ first q
Walks (PollerPc.executing c n) q = (rest : List ℕ) × (q ≡ c ∷ rest) × (n ≡ first rest)
Walks (PollerPc.unlinking c n) q = (rest : List ℕ) × (q ≡ c ∷ rest) × (n ≡ first rest)
Walks PollerPc.finishing q = q ≡ []
Walks _ q = Unit

abbrev pub Consistent : CallerPc → PollerPc → Hotcall → Type 0
Consistent c p h =
    (h.spinlock ≡ caller_holds c + poller_holds p)
    × (caller_holds c + poller_holds p ≤ 1)
    × Agree (caller_stage c) (poller_stage p) h
    × Walks p h.ecall_queue

-- While the caller is quiet the poller does not look at the queue.
pub quiet-Walks :
    (p : PollerPc) (h : Hotcall) (q : List ℕ)
    → Agree CallerStage.quiet (poller_stage p) h
    → Walks p q
quiet-Walks PollerPc.acquiring h q a = tt
quiet-Walks PollerPc.spinning h q a = tt
quiet-Walks PollerPc.checking h q a = tt
quiet-Walks PollerPc.releasing h q a = tt
quiet-Walks PollerPc.clearing h q a = absurd a
quiet-Walks PollerPc.starting h q a = absurd a
quiet-Walks (PollerPc.walking c) h q a = absurd a
quiet-Walks (PollerPc.executing c n) h q a = absurd a
quiet-Walks (PollerPc.unlinking c n) h q a = absurd a
quiet-Walks PollerPc.finishing h q a = absurd a

pub reset :
    (st : PollerStage) (h : Hotcall)
    → Agree CallerStage.quiet st h
    → Agree CallerStage.ready st (record h { is_done = false })
reset PollerStage.calm h a = (a, refl)
reset PollerStage.taking h a = absurd a
reset PollerStage.busy h a = absurd a

pub arm :
    (st : PollerStage) (h : Hotcall)
    → Agree CallerStage.ready st h
    → Agree CallerStage.waiting st (record h { run = true })
arm PollerStage.calm h a = inl (refl, a.1)
arm PollerStage.taking h a = absurd a
arm PollerStage.busy h a = absurd a

pub quiet_frame :
    (st : PollerStage) (h k : Hotcall)
    → h.run ≡ k.run
    → Agree CallerStage.quiet st h
    → Agree CallerStage.quiet st k
quiet_frame PollerStage.calm h k e a = ground arith
quiet_frame PollerStage.taking h k e a = absurd a
quiet_frame PollerStage.busy h k e a = absurd a

-- While one thread holds the lock, the other stands in front of it.
pub caller_checks :
    (p : PollerPc) (h : Hotcall)
    → Consistent CallerPc.checking p h
    → Consistent CallerPc.checking p h
      × ((h.is_done ≡ true) → Consistent CallerPc.leaving p h)
      × Consistent CallerPc.releasing p h
caller_checks PollerPc.acquiring h k = ground arith
caller_checks PollerPc.spinning h k = ground arith
caller_checks PollerPc.checking h k = ground arith
caller_checks PollerPc.releasing h k = ground arith
caller_checks PollerPc.clearing h k = ground arith
caller_checks PollerPc.starting h k = ground arith
caller_checks (PollerPc.walking c) h k = ground arith
caller_checks (PollerPc.executing c n) h k = ground arith
caller_checks (PollerPc.unlinking c n) h k = ground arith
caller_checks PollerPc.finishing h k = ground arith

pub settle :
    (st : PollerStage) (h : Hotcall)
    → Agree CallerStage.answered st h
    → Agree CallerStage.quiet st (record h { spinlock = 0 })
settle PollerStage.calm h a = a.0
settle PollerStage.taking h a = absurd a
settle PollerStage.busy h a = absurd a

pub busy_frame :
    (st : CallerStage) (h : Hotcall) (q : List ℕ)
    → Agree st PollerStage.busy h
    → Agree st PollerStage.busy (record h { ecall_queue = q })
busy_frame CallerStage.quiet h q a = absurd a
busy_frame CallerStage.ready h q a = absurd a
busy_frame CallerStage.waiting h q a = a
busy_frame CallerStage.answered h q a = absurd a

pub list_remove_head : (c : ℕ) (q rest : List ℕ) → q ≡ c ∷ rest → list_remove c q ≡ rest
list_remove_head c q rest e = rw (e, ==_refl c) refl

pub requeue :
    (p : PollerPc) (h : Hotcall) (q : List ℕ)
    → Consistent CallerPc.idle p h
    → Consistent CallerPc.idle p (record h { ecall_queue = q })
requeue p h q k =
    let a = quiet_frame (poller_stage p) h (record h { ecall_queue = q }) refl k.2 in
    (k.0, k.1, a, quiet-Walks p h q k.2)

pub queued :
    (linked async : Bool) (p : PollerPc) (h : Hotcall)
    → Consistent CallerPc.idle p h
    → Consistent (if linked then CallerPc.lost else CallerPc.prepared async) p h
queued true async p h k = k
queued false async p h k = k
