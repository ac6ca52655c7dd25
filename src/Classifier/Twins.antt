-- ===== src/Classifier/Twins.antt =====
-- Two normal rules that a packet matches under one mask match the same packets.
use ovs_sgx.Prelude.{
  ℕ, ◌≡◌, ◌∙◌, sym, ap, arith, Bool, true, false, bit_and, get_or, ◌==◌, ◌&&◌, ==_refl,
}
use ovs_sgx.Flow.{
  Flow, Minimask, miniflow_init, miniflow_get, miniflow_equal, miniflow_hash_in_minimask,
}
use ovs_sgx.Flow.Expand.{IsWellFormed, miniflow_get-init, miniflow_init-IsWellFormed}
use ovs_sgx.Flow.Masked.{equal_in_minimask_iff}
use ovs_sgx.Flow.Equal.{miniflow_equal_iff, flow_ext}
use ovs_sgx.Classifier.Data.{ClsRule, is_equal}
use ovs_sgx.Classifier.Invariant.{Matches, IsNormal}

pub flow-IsWellFormed :
    (mask : Minimask) (a : ClsRule) → IsNormal mask a → IsWellFormed a.match.flow
flow-IsWellFormed mask a n = rw n.compressed (miniflow_init-IsWellFormed n.full)

-- A normal rule's words are those of a packet that it matches, under the mask.
normal_word :
    (mask : Minimask) (a : ClsRule) (f : Flow)
    → IsWellFormed mask
    → (n : IsNormal mask a) → Matches mask f a
    → (i : ℕ) → get_or n.full i 0 ≡ bit_and (get_or f i 0) (miniflow_get mask i)
normal_word mask a f w n m i =
    let word : miniflow_get a.match.flow i ≡ get_or n.full i 0 =
      ap (λ x. miniflow_get x i) n.compressed ∙ miniflow_get-init n.full i in
    sym (n.masked i)
    ∙ ap (λ x. bit_and x (miniflow_get mask i)) (sym word)
    ∙ (equal_in_minimask_iff a.match.flow f mask w).0 m i

pub normal_twins :
    (mask : Minimask) (a b : ClsRule) (f : Flow)
    → IsWellFormed mask
    → IsNormal mask a
    → IsNormal mask b
    → Matches mask f a
    → Matches mask f b
    → a.match.flow ≡ b.match.flow
normal_twins mask a b f w m n p q =
    m.compressed
    ∙ ap miniflow_init (
        flow_ext m.full n.full (m.size ∙ sym n.size)
          (λ i. normal_word mask a f w m p i ∙ sym (normal_word mask b f w n q i)))
    ∙ sym n.compressed

-- A head that find_equal passes over matches no packet of the rule.
pub passed-IsApart :
    (mask : Minimask) (new head : ClsRule) (f : Flow)
    → IsWellFormed mask
    → IsNormal mask new
    → IsNormal mask head
    → new.hash ≡ miniflow_hash_in_minimask new.match.flow mask 0
    → head.hash ≡ miniflow_hash_in_minimask head.match.flow mask 0
    → is_equal new.match.flow new.hash head ≡ false
    → Matches mask f new
    → Matches mask f head
    → ⊥
unfolding is_equal
passed-IsApart mask new head f w m n h k e p q =
    let twins = normal_twins mask head new f w n m q p in
    let hashes : head.hash ≡ new.hash =
      k ∙ ap (λ x. miniflow_hash_in_minimask x mask 0) twins ∙ sym h in
    let flows : miniflow_equal head.match.flow new.match.flow ≡ true =
      (miniflow_equal_iff head.match.flow new.match.flow (flow-IsWellFormed mask head n)
          (flow-IsWellFormed mask new m)).1
        twins in
    differ (rw (hashes, ==_refl new.hash, flows) at e)
  where
    differ : true ≡ false → ⊥
    differ x = cc

-- The head that find_equal finds matches what the rule matches.
pub found-twin :
    (mask : Minimask) (new head : ClsRule)
    → IsNormal mask new
    → IsNormal mask head
    → is_equal new.match.flow new.hash head ≡ true
    → head.match.flow ≡ new.match.flow
unfolding is_equal
found-twin mask new head m n e =
    (miniflow_equal_iff head.match.flow new.match.flow (flow-IsWellFormed mask head n)
        (flow-IsWellFormed mask new m)).0
      (second (head.hash == new.hash) _ e)
  where
    second : (a b : Bool) → (a && b) ≡ true → b ≡ true
    second a b h = ground arith
