-- ===== src/HashMap/Fast.antt =====
-- `hmap_insert_fast` of OFTonSGX/trusted/lib/hmap.h: a node more in the bucket of its hash.
use ovs_sgx.Prelude.{
  ℕ, suc, ◌+◌, ◌≤◌, ◌==◌, ◌≡◌, inl, inr, refl, sym, ap, subst, bit_and, List, [], ◌∷◌, update,
  update_self, update_ne, All, All-map, ==_iff, Bool-cases, arith,
}
use ovs_sgx.HashMap.{Hmap, bucket_of, hmap_insert_fast}
use ovs_sgx.HashMap.Totals.{
  total, Placed, IsHmap, is_node, and_le, total-update, weight-total, weight_ne,
}

-- The node is added to whatever the map holds.
pub insert_fast-total :
    (f : ℕ → ℕ) (h : Hmap) (node hash : ℕ)
    → total f (hmap_insert_fast h node hash) ≡ f node + total f h
unfolding hmap_insert_fast
insert_fast-total f h node hash =
    let b = bucket_of h hash in
    omega (
      arith,
      total-update f h.buckets (node ∷ h.buckets b) b (suc h.mask) 0 (omega arith)
          (omega (arith, and_le hash h.mask)),
    )

-- The nodes of the map keep their hashes when `node` gets the hash.
abbrev pub KeepsHashes : Hmap → ℕ → ℕ → Type 0
KeepsHashes h node hash =
    (i : ℕ) → i ≤ h.mask → All (λ x. update h.hashes node hash x ≡ h.hashes x) (h.buckets i)

All-both : (P Q : ℕ → Type 0) (xs : List ℕ) → All P xs → All Q xs → All (λ x. P x × Q x) xs
All-both P Q [] p q = tt
All-both P Q (x ∷ xs) p q = ((p.0, q.0), All-both P Q xs p.1 q.1)

pub insert_fast-Placed :
    (h : Hmap) (node hash : ℕ)
    → KeepsHashes h node hash
    → Placed h
    → Placed (hmap_insert_fast h node hash)
unfolding hmap_insert_fast
insert_fast-Placed h node hash k p i le =
    let old =
      All-map (h.buckets i) (λ x (e, q). subst (λ a. bit_and a h.mask ≡ i) (sym e) q)
        (All-both _ _ (h.buckets i) (k i le) (p i le)) in
    elim (Bool-cases (bucket_of h hash == i)) [
      | inl t ↦
          let at = (==_iff (bucket_of h hash) i).0 t in
          rw t (
            rw (update_self h.hashes node hash) at,
            subst (λ j. All (λ x. bit_and (update h.hashes node hash x) h.mask ≡ i) (h.buckets j))
                (sym at) old,
          )
      | inr f ↦ rw f old
    ]

pub same-KeepsHashes :
    (h : Hmap) (node : ℕ) → (x : ℕ) → update h.hashes node (h.hashes node) x ≡ h.hashes x
same-KeepsHashes h node x = elim (Bool-cases (node == x)) [
  | inl t ↦ rw t (ap h.hashes ((==_iff node x).0 t))
  | inr f ↦ rw f refl
]

pub All-every : {P : ℕ → Type 0} (xs : List ℕ) → ((x : ℕ) → P x) → All P xs
All-every [] k = tt
All-every (x ∷ xs) k = (k x, All-every xs k)

pub fresh-KeepsHashes :
    (h : Hmap) (node hash : ℕ) → total (is_node node) h ≡ 0 → KeepsHashes h node hash
fresh-KeepsHashes h node hash e i le =
    All-map (h.buckets i) (λ x ne. update_ne h.hashes node x hash ne)
      (weight_ne node (h.buckets i) (
        omega (
          arith,
          weight-total (is_node node) h.buckets i (suc h.mask) 0 (omega arith) (omega arith),
        )))

pub insert_fast-IsHmap :
    (h : Hmap) (node hash : ℕ)
    → KeepsHashes h node hash
    → IsHmap h
    → IsHmap (hmap_insert_fast h node hash)
unfolding IsHmap hmap_insert_fast
insert_fast-IsHmap h node hash k (p, n) =
    (insert_fast-Placed h node hash k p, omega (arith, insert_fast-total (λ x. 1) h node hash))
