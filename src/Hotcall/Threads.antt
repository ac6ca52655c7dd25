-- ===== src/Hotcall/Threads.antt =====
-- The two threads, an access to shared memory at a time, queueing a call excepted: the macros `HCALL`
-- and `ECALL` of OFTonSGX/untrusted/app.c with `make_hotcall`, and `ecall_start_poller`. The call of
-- `execute_function` appends to the log of executed calls.
use ovs_sgx.Prelude.{
  ℕ, ◌==◌, Bool, true, false, List, [], ◌∷◌, ◌++◌, Option, none, some, if◌then◌else◌,
}
use ovs_sgx.Hotcall.Calls.{
  is_async, FunctionCall, Request, Hotcall, Preallocated, take_slot, list_push_back, list_remove,
  is_linked,
}

-- Where the caller stands. `lost`: it has queued a call in a slot that was queued already, which
-- breaks the links of the queue.
pub data CallerPc : Type 0 where
  idle : CallerPc
  prepared : (async : Bool) → CallerPc  -- before `if(!async)`
  resetting : CallerPc  -- before `is_done = false`
  arming : CallerPc  -- before `run = true`
  acquiring : CallerPc  -- before the exchange of `sgx_spin_lock`
  spinning : CallerPc  -- its inner loop
  checking : CallerPc  -- holds the lock, before `if (hcall->is_done)`
  leaving : CallerPc  -- before the unlock and `break`
  releasing : CallerPc  -- before the unlock that goes on waiting
  lost : CallerPc

-- Where the poller stands, with the variables of `LIST_FOR_EACH_SAFE`; `none` is the list's head.
pub data PollerPc : Type 0 where
  acquiring : PollerPc
  spinning : PollerPc
  checking : PollerPc  -- holds the lock, before `if (hcall.run)`
  clearing : PollerPc  -- before `run = false`
  starting : PollerPc  -- before the first element is read
  walking : (fcall : Option ℕ) → PollerPc  -- head of the loop
  executing : (fcall : ℕ) (next : Option ℕ) → PollerPc
  unlinking : (fcall : ℕ) (next : Option ℕ) → PollerPc  -- before `list_remove`
  finishing : PollerPc  -- before `is_done = true`
  releasing : PollerPc  -- before the unlock

-- The caller's program is the list of the calls it still has to make.
pub record System : Type 0 where
  pub hcall : Hotcall
  pub pfc : Preallocated
  pub executed : List FunctionCall
  pub caller : CallerPc
  pub poller : PollerPc
  pub todo : List Request

-- `sgx_spin_lock`: the exchange takes a lock that is 0.
abbrev pub is_free : Hotcall → Bool
is_free h = h.spinlock == 0

-- `HCALL` and `ECALL`: the next call is written into the ring's next slot and queued, in one step, since
-- the poller reads neither before `run` is set.
abbrev pub enqueue : List Request → System → System
enqueue [] s = record s { caller = CallerPc.idle; todo = [] }
enqueue (e ∷ es) s = record s {
  hcall = record s.hcall { ecall_queue = list_push_back s.pfc.idx s.hcall.ecall_queue };
  pfc = take_slot s.pfc e;
  caller =
      if is_linked s.pfc.idx s.hcall.ecall_queue
      then CallerPc.lost
      else CallerPc.prepared (is_async e);
  todo = es;
}

-- One step of `HCALL` or `ECALL` and `make_hotcall`
unfoldable pub caller_move : CallerPc → System → System
caller_move CallerPc.idle s = enqueue s.todo s
caller_move (CallerPc.prepared true) s = record s { caller = CallerPc.idle }
caller_move (CallerPc.prepared false) s = record s { caller = CallerPc.resetting }
caller_move CallerPc.resetting s = record s {
  hcall = record s.hcall { is_done = false };
  caller = CallerPc.arming;
}
caller_move CallerPc.arming s = record s {
  hcall = record s.hcall { run = true };
  caller = CallerPc.acquiring;
}
caller_move CallerPc.acquiring s =
    if is_free s.hcall
    then record s { hcall = record s.hcall { spinlock = 1 }; caller = CallerPc.checking }
    else record s { caller = CallerPc.spinning }
caller_move CallerPc.spinning s = record s {
  caller = if is_free s.hcall then CallerPc.acquiring else CallerPc.spinning;
}
caller_move CallerPc.checking s = record s {
  caller = if s.hcall.is_done then CallerPc.leaving else CallerPc.releasing;
}
caller_move CallerPc.leaving s = record s {
  hcall = record s.hcall { spinlock = 0 };
  caller = CallerPc.idle;
}
caller_move CallerPc.releasing s = record s {
  hcall = record s.hcall { spinlock = 0 };
  caller = CallerPc.acquiring;
}
caller_move CallerPc.lost s = record s { caller = CallerPc.lost }

abbrev pub first : List ℕ → Option ℕ
first [] = none
first (x ∷ xs) = some x

-- `fcall->list_node.next`
abbrev pub next_of : ℕ → List ℕ → Option ℕ
next_of slot [] = none
next_of slot (x ∷ xs) = if slot == x then first xs else next_of slot xs

-- One step of `ecall_start_poller`
unfoldable pub poller_move : PollerPc → System → System
poller_move PollerPc.acquiring s =
    if is_free s.hcall
    then record s { hcall = record s.hcall { spinlock = 1 }; poller = PollerPc.checking }
    else record s { poller = PollerPc.spinning }
poller_move PollerPc.spinning s = record s {
  poller = if is_free s.hcall then PollerPc.acquiring else PollerPc.spinning;
}
poller_move PollerPc.checking s = record s {
  poller = if s.hcall.run then PollerPc.clearing else PollerPc.releasing;
}
poller_move PollerPc.clearing s = record s {
  hcall = record s.hcall { run = false };
  poller = PollerPc.starting;
}
poller_move PollerPc.starting s = record s { poller = PollerPc.walking (first s.hcall.ecall_queue) }
poller_move (PollerPc.walking none) s = record s { poller = PollerPc.finishing }
poller_move (PollerPc.walking (some c)) s = record s {
  poller = PollerPc.executing c (next_of c s.hcall.ecall_queue);
}
poller_move (PollerPc.executing c next) s = record s {
  executed = s.executed ++ (s.pfc.fcs c ∷ []);
  poller = PollerPc.unlinking c next;
}
poller_move (PollerPc.unlinking c next) s = record s {
  hcall = record s.hcall { ecall_queue = list_remove c s.hcall.ecall_queue };
  poller = PollerPc.walking next;
}
poller_move PollerPc.finishing s = record s {
  hcall = record s.hcall { is_done = true };
  poller = PollerPc.releasing;
}
poller_move PollerPc.releasing s = record s {
  hcall = record s.hcall { spinlock = 0 };
  poller = PollerPc.acquiring;
}

pub data Thread : Type 0 where
  switch : Thread
  enclave : Thread

abbrev pub step : Thread → System → System
step Thread.switch s = caller_move s.caller s
step Thread.enclave s = poller_move s.poller s

-- A schedule says whose step comes next.
abbrev pub run : List Thread → System → System
run [] s = s
run (t ∷ ts) s = run ts (step t s)

-- The enclave's thread has started and no call is queued.
abbrev pub init : (ℕ → FunctionCall) → List Request → System
init fcs prog = record {
  hcall = record { spinlock = 0; run = false; is_done = false; ecall_queue = [] };
  pfc = record { fcs = fcs; idx = 0 };
  executed = [];
  caller = CallerPc.idle;
  poller = PollerPc.acquiring;
  todo = prog;
}
