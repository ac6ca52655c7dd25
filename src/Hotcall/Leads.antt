-- ===== src/Hotcall/Leads.antt =====
-- Where a schedule of the two threads of a hot call can lead.
use ovs_sgx.Prelude.{List, [], ◌∷◌}
use ovs_sgx.Hotcall.Threads.{System, Thread, step, run}
use ovs_sgx.Hotcall.Phases.{IsConsistent, step-IsConsistent}
use ovs_sgx.Hotcall.Ring.{IsBounded, step-IsBounded}

-- Some schedule leads from a state to one where `G` holds.
pub data Leads (G : System → Type 0) : System → Type 0 where
  here : {s : System} → G s → Leads G s
  later : (t : Thread) {s : System} → Leads G (step t s) → Leads G s

pub Leads-bind :
    {G H : System → Type 0} {s : System} → Leads G s → ((u : System) → G u → Leads H u) → Leads H s
Leads-bind (here g) k = k _ g
Leads-bind (later t l) k = later t (Leads-bind l k)

abbrev pub IsSound : System → Type 0
IsSound s = IsConsistent s × IsBounded s

pub step-IsSound : (t : Thread) (s : System) → IsSound s → IsSound (step t s)
step-IsSound t s (k, b) = (step-IsConsistent t s k, step-IsBounded t s k b)

-- The invariants hold where a schedule leads.
pub Leads-IsSound :
    {G : System → Type 0} {s : System} → IsSound s → Leads G s → Leads (λ u. G u × IsSound u) s
Leads-IsSound k (here g) = here (g, k)
Leads-IsSound {s = s} k (later t l) = later t (Leads-IsSound (step-IsSound t s k) l)

pub Leads-schedule :
    {G : System → Type 0} {s : System} → Leads G s → (ts : List Thread) × G (run ts s)
Leads-schedule (here g) = ([], g)
Leads-schedule (later t l) = let (ts, g) = Leads-schedule l in (t ∷ ts, g)
