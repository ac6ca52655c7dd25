-- ===== src/Classifier/Invariant.antt =====
-- What a well-formed classifier is.
use ovs_sgx.Prelude.{
  ℕ, ◌+◌, ◌≤◌, ◌<◌, ◌≡◌, bit_and, true, List, [], ◌∷◌, All, length, get_or, ◌==◌, if◌then◌else◌,
}
use ovs_sgx.Flow.{
  Flow, Minimask, flow_u32s, miniflow_init, miniflow_get, miniflow_equal_flow_in_minimask,
  miniflow_hash_in_minimask,
}
use ovs_sgx.Flow.Expand.{IsWellFormed}
use ovs_sgx.Classifier.Data.{ClsRule, Chain, ClsTable, Classifier}

-- A predicate of the head of a chain; a chain is never empty.
abbrev pub Head : (ClsRule → Type 0) → Chain → Type 0
Head P [] = ⊥
Head P (head ∷ rest) = P head

-- The packets that a rule matches in a table of this mask.
abbrev pub Matches : Minimask → Flow → ClsRule → Type 0
Matches mask flow rule = miniflow_equal_flow_in_minimask rule.match.flow flow mask ≡ true

-- The rule was made from a flow that is zero where its mask has wildcards.
pub record IsNormal (mask : Minimask) (rule : ClsRule) : Type 0 where
  pub full : Flow
  pub compressed : rule.match.flow ≡ miniflow_init full
  pub size : length full ≡ flow_u32s
  pub masked : (i : ℕ) → bit_and (get_or full i 0) (miniflow_get mask i) ≡ get_or full i 0

-- Strictly falling priorities, of rules that match the same packets.
abbrev pub IsChain : Chain → Type 0
IsChain [] = Unit
IsChain (r ∷ rest) =
    All (λ s. (s.priority < r.priority) × (s.match.flow ≡ r.match.flow)) rest × IsChain rest

-- No packet matches the heads of two chains.
abbrev pub IsApart : Minimask → Chain → Chain → Type 0
IsApart mask c d = Head (λ a. Head (λ b. (f : Flow) → Matches mask f a → Matches mask f b → ⊥) d) c

abbrev pub IsDistinct : Minimask → List Chain → Type 0
IsDistinct mask [] = Unit
IsDistinct mask (c ∷ cs) = All (IsApart mask c) cs × IsDistinct mask cs

-- The heads that have a priority.
abbrev pub count_heads : ℕ → List Chain → ℕ
count_heads top [] = 0
count_heads top ([] ∷ cs) = count_heads top cs
count_heads top ((head ∷ rest) ∷ cs) =
    if head.priority == top then count_heads top cs + 1 else count_heads top cs

-- What the rules of a table must be, for a mask.
pub record AreRules (mask : Minimask) (rules : List Chain) : Type 0 where
  pub chains : All IsChain rules
  pub hashed : All (Head (λ r. r.hash ≡ miniflow_hash_in_minimask r.match.flow mask 0)) rules
  pub normal : All (Head (IsNormal mask)) rules
  pub distinct : IsDistinct mask rules

pub record IsTable (t : ClsTable) : Type 0 where
  pub well_formed : IsWellFormed t.mask
  pub rules : AreRules t.mask t.rules
  pub bounded : All (Head (λ r. r.priority ≤ t.max_priority)) t.rules
  pub counted : t.max_count ≡ count_heads t.max_priority t.rules

-- The tables stand in order of falling greatest priority.
abbrev pub IsSorted : List ClsTable → Type 0
IsSorted [] = Unit
IsSorted (t ∷ ts) = All (λ u. u.max_priority ≤ t.max_priority) ts × IsSorted ts

pub record IsClassifier (cls : Classifier) : Type 0 where
  pub tables : All IsTable cls.tables
  pub sorted : IsSorted cls.tables
