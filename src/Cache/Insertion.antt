-- ===== src/Cache/Insertion.antt =====
-- Putting a rule into an entry of the flow cache of OFTonSGX/trusted/cache-trusted.c.
use ovs_sgx.Prelude.{
  ℕ, ◌+◌, ◌<◌, ◌==◌, ◌≡◌, ◌≢◌, inl, inr, refl, sym, ap, ◌∙◌, subst, false, List, [], ◌∷◌, ◌++◌,
  some, if◌then◌else◌, update, update_self, update_ne, Bool-cases, ==_iff, ==_refl, arith,
}
use ovs_sgx.Memory.{Page}
use ovs_sgx.HashMap.{Hmap, hmap_insert}
use ovs_sgx.HashMap.Totals.{weight, total, IsHmap, is_node}
use ovs_sgx.HashMap.Insert.{hmap_insert-Inserted}
use ovs_sgx.Cache.{
  FlowCache, u64, entry_hash, cache_entry_hash, to_back, insert_cache_entry, fill_entry, evict,
  refill, insert_first, flow_map_cache_insert, checksum_insert, page_status_allocated,
}
use ovs_sgx.Cache.Invariant.{Tracks, IsTracked, IsCache, total-agree, to_back-weight}
use ovs_sgx.Cache.Removal.{drop_entry-IsCache, count_kept, zero_add, ne_of}

count_new :
    (cr' t t' w' : ℕ) → t ≡ 0 → t' ≡ 1 + t → w' ≡ 1 → cr' ≢ 0 → t' ≡ (if cr' == 0 then 0 else w')
count_new cr' t t' w' a b c d = ground arith

empty-total :
    (c : FlowCache) (h : Hmap) (e : ℕ) → Tracks c h → c.crs e ≡ 0 → total (is_node e) h ≡ 0
empty-total c h e t z = t.1 e ∙ rw z refl

inserted-Tracks :
    (c c' : FlowCache) (h h' : Hmap) (e ut_cr : ℕ)
    → Tracks c h
    → c.crs e ≡ 0
    → ut_cr ≢ 0
    → IsHmap h'
    → ((f : ℕ → ℕ) → total f h' ≡ f e + total f h)
    → weight (is_node e) c.lru_list ≡ 1
    → ((x : ℕ) → weight (is_node x) c'.lru_list ≡ weight (is_node x) c.lru_list)
    → ((x : ℕ) → c'.crs x ≡ update c.crs e ut_cr x)
    → Tracks c' h'
inserted-Tracks c c' h h' e ut_cr t z nz w d one l k =
    let self : is_node e e ≡ 1 = rw (==_refl e) refl in
    let cr : c'.crs e ≡ ut_cr = k e ∙ update_self c.crs e ut_cr in
    let new =
      count_new (c'.crs e) (total (is_node e) h) (total (is_node e) h')
        (weight (is_node e) c'.lru_list) (empty-total c h e t z)
        (d (is_node e) ∙ ap (λ a. a + total (is_node e) h) self) (l e ∙ one)
        (λ q. nz (sym cr ∙ q)) in
    (
      w,
      λ x.
          elim (Bool-cases (e == x))
            as (λ _.
              total (is_node x) h'
              ≡ (if c'.crs x == 0 then 0 else weight (is_node x) c'.lru_list)) [
                | inl y ↦
                    subst
                      (λ z.
                        total (is_node z) h'
                        ≡ (if c'.crs z == 0 then 0 else weight (is_node z) c'.lru_list))
                      ((==_iff e x).0 y) new
                | inr n ↦
                    let zero_weight : is_node x e ≡ 0 = rw n refl in
                    count_kept (c.crs x) (c'.crs x) (total (is_node x) h) (total (is_node x) h')
                      (weight (is_node x) c.lru_list) (weight (is_node x) c'.lru_list) (t.1 x)
                      (sym (
                        d (is_node x)
                        ∙ ap (λ a. a + total (is_node x) h) zero_weight
                        ∙ zero_add (total (is_node x) h)))
                      (l x) (k x ∙ update_ne c.crs e x ut_cr (ne_of e x n))
              ],
    )

inserted_sum :
    (checksum hash whole rest : ℕ)
    → checksum ≡ u64 rest
    → whole ≡ hash + rest
    → checksum_insert checksum hash ≡ u64 whole
inserted_sum checksum hash whole rest a b = omega arith

-- The cache with the rule in its entry.
fill_entry-IsCache :
    (raw raw' : Page) (c : FlowCache) (e ut_cr hash : ℕ)
    → IsCache c
    → c.crs e ≡ 0
    → ut_cr ≢ 0
    → 0 < weight (is_node e) c.lru_list
    → IsCache (fill_entry raw raw' e ut_cr hash c)
unfolding IsCache IsTracked insert_cache_entry
fill_entry-IsCache raw raw' c e ut_cr hash ((t, u, distinct), sum) z nz inside =
    let first = hmap_insert raw c.entries e hash c.memory page_status_allocated in
    let c' = fill_entry raw raw' e ut_cr hash c in
    let (w, d, s) =
      hmap_insert-Inserted raw c.entries e hash c.memory page_status_allocated t.0
        (empty-total c c.entries e t z) in
    let (w2, d2, s2) =
      hmap_insert-Inserted raw' c.ut_crs e hash first.1 page_status_allocated u.0
        (empty-total c c.ut_crs e u z) in
    let one : weight (is_node e) c.lru_list ≡ 1 = omega (arith, distinct e) in
    let l : (x : ℕ) → weight (is_node x) c'.lru_list ≡ weight (is_node x) c.lru_list =
      λ x. to_back-weight (is_node x) e c.lru_list inside in
    let agree =
      total-agree (entry_hash c') (entry_hash c) e c.entries
        (λ x ne.
          ap (λ a. cache_entry_hash a (update c.crs e ut_cr x))
            (s x ∙ update_ne c.entries.hashes e x hash ne)
          ∙ ap (λ a. cache_entry_hash (c.entries.hashes x) a) (update_ne c.crs e x ut_cr ne))
        (empty-total c c.entries e t z) in
    (
      (
        inserted-Tracks c c' c.entries first.0 e ut_cr t z nz w d one l (λ x. refl),
        inserted-Tracks c c' c.ut_crs
            (hmap_insert raw' c.ut_crs e hash first.1 page_status_allocated).0 e ut_cr u z nz w2 d2
            one l (λ x. refl),
        λ x. omega (arith, l x, distinct x),
      ),
      inserted_sum c.checksum (entry_hash c' e) (total (entry_hash c') c'.entries)
          (total (entry_hash c) c.entries) sum
          (d (entry_hash c') ∙ ap (λ a. entry_hash c' e + a) agree),
    )

-- The entry is free, whatever it held.
evict-Free :
    (c : FlowCache) (e : ℕ)
    → IsCache c
    → 0 < weight (is_node e) c.lru_list
    → (d : FlowCache) × (evict c e ≡ some d)
      × IsCache d
      × (d.crs e ≡ 0)
      × ((x : ℕ) → e ≢ x → d.crs x ≡ c.crs x)
      × (d.lru_list ≡ c.lru_list)
evict-Free c e k inside = elim (Bool-cases (c.crs e == 0)) [
  | inl t ↦ (c, rw t refl, k, (==_iff (c.crs e) 0).0 t, λ x ne. refl, refl)
  | inr f ↦
      let (d, r, kd, cr, l, same) = drop_entry-IsCache c e false k (ne_of (c.crs e) 0 f, inside) in
      (
        d,
        rw f r,
        kd,
        ap (λ m. m e) cr ∙ update_self c.crs e 0,
        λ x ne. ap (λ m. m x) cr ∙ update_ne c.crs e x 0 ne,
        same refl,
      )
]

head_to_back : (e : ℕ) (es : List ℕ) → to_back e (e ∷ es) ≡ es ++ (e ∷ [])
head_to_back e es = rw (==_refl e) refl

-- `flow_map_cache_insert` into a well-formed cache always succeeds and keeps it well formed: the
-- entry that was used longest ago takes the rule, whatever it held, every other entry keeps its rule,
-- the entry becomes the one used last, and the checksum is right again: for a rule that is not null,
-- whether or not the maps grow and find a page.
pub cache_insert-IsCache :
    (raw raw' : Page) (c : FlowCache) (hash ut_cr e : ℕ) (es : List ℕ)
    → IsCache c
    → ut_cr ≢ 0
    → c.lru_list ≡ e ∷ es
    → (c' : FlowCache) × (flow_map_cache_insert raw raw' c hash ut_cr ≡ some c')
      × IsCache c'
      × ((x : ℕ) → c'.crs x ≡ update c.crs e ut_cr x)
      × (c'.lru_list ≡ es ++ (e ∷ []))
unfolding flow_map_cache_insert insert_cache_entry
cache_insert-IsCache raw raw' c hash ut_cr e es k nz lru =
    let inside : 0 < weight (is_node e) c.lru_list = rw (lru, ==_refl e) (omega arith) in
    let (d, r, kd, z, other, l) = evict-Free c e k inside in
    let c' = fill_entry raw raw' e ut_cr hash d in
    (
      c',
      ap (insert_first raw raw' c hash ut_cr) lru ∙ ap (refill raw raw' e ut_cr hash) r,
      fill_entry-IsCache raw raw' d e ut_cr hash kd z nz
          (subst (λ q. 0 < weight (is_node e) q) (sym l) inside),
      λ x. elim (Bool-cases (e == x)) as (λ _. update d.crs e ut_cr x ≡ update c.crs e ut_cr x) [
        | inl t ↦ rw t refl
        | inr n ↦ rw n (other x (ne_of e x n))
      ],
      ap (to_back e) (l ∙ lru) ∙ head_to_back e es,
    )
