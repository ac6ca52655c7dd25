-- ===== src/Cache/Removal.antt =====
-- Taking entries out of the flow cache of OFTonSGX/trusted/cache-trusted.c.
use ovs_sgx.Prelude.{
  ℕ, ◌+◌, ◌^◌, ◌<◌, ◌==◌, ◌≡◌, ◌≢◌, inl, inr, refl, sym, ap, ◌∙◌, subst, Bool, true, false, List,
  some, if◌then◌else◌, update, update_self, update_ne, Bool-cases, ==_iff, ==_refl, arith,
}
use ovs_sgx.HashMap.{Hmap, hmap_remove}
use ovs_sgx.HashMap.Totals.{weight, total, IsHmap, is_node}
use ovs_sgx.HashMap.Remove.{hmap_remove-Removed}
use ovs_sgx.Cache.{
  FlowCache, u64, entry_hash, cache_entry_hash, to_back, remove_cache_entry, drop_entry,
  checksum_delete, removed_from,
}
use ovs_sgx.Cache.Invariant.{Tracks, IsTracked, IsCache, total-agree, to_back-weight}

abbrev pub IsCached : FlowCache → ℕ → Type 0
IsCached c e = (c.crs e ≢ 0) × (0 < weight (is_node e) c.lru_list)

cached-total :
    (c : FlowCache) (h : Hmap) (e : ℕ) → Tracks c h → IsCached c e → 0 < total (is_node e) h
cached-total c h e t k = ground (arith, t.1 e)

pub zero_add : (n : ℕ) → 0 + n ≡ n
zero_add n = omega arith

pub ne_of : (e x : ℕ) → (e == x) ≡ false → e ≢ x
ne_of e x n q = ground arith

count_gone :
    (cr cr' t t' w w' : ℕ)
    → t ≡ (if cr == 0 then 0 else w)
    → t ≡ 1 + t'
    → w ≡ 1
    → cr' ≡ 0
    → t' ≡ (if cr' == 0 then 0 else w')
count_gone cr cr' t t' w w' a b c d = ground arith

pub count_kept :
    (cr cr' t t' w w' : ℕ)
    → t ≡ (if cr == 0 then 0 else w)
    → t ≡ t'
    → w' ≡ w
    → cr' ≡ cr
    → t' ≡ (if cr' == 0 then 0 else w')
count_kept cr cr' t t' w w' a b c d = ground arith

-- The map without `e` holds what the cache without `e` has.
removed-Tracks :
    (c c' : FlowCache) (h h' : Hmap) (e : ℕ)
    → Tracks c h
    → IsHmap h'
    → ((f : ℕ → ℕ) → total f h ≡ f e + total f h')
    → weight (is_node e) c.lru_list ≡ 1
    → ((x : ℕ) → weight (is_node x) c'.lru_list ≡ weight (is_node x) c.lru_list)
    → ((x : ℕ) → c'.crs x ≡ update c.crs e 0 x)
    → Tracks c' h'
removed-Tracks c c' h h' e t w d one l k =
    let self : is_node e e ≡ 1 = rw (==_refl e) refl in
    let gone =
      count_gone (c.crs e) (c'.crs e) (total (is_node e) h) (total (is_node e) h')
        (weight (is_node e) c.lru_list) (weight (is_node e) c'.lru_list) (t.1 e)
        (d (is_node e) ∙ ap (λ a. a + total (is_node e) h') self) one
        (k e ∙ update_self c.crs e 0) in
    (
      w,
      λ x.
          elim (Bool-cases (e == x))
            as (λ _.
              total (is_node x) h'
              ≡ (if c'.crs x == 0 then 0 else weight (is_node x) c'.lru_list)) [
                | inl y ↦
                    subst
                      (λ z.
                        total (is_node z) h'
                        ≡ (if c'.crs z == 0 then 0 else weight (is_node z) c'.lru_list))
                      ((==_iff e x).0 y) gone
                | inr n ↦
                    let zero_weight : is_node x e ≡ 0 = rw n refl in
                    count_kept (c.crs x) (c'.crs x) (total (is_node x) h) (total (is_node x) h')
                      (weight (is_node x) c.lru_list) (weight (is_node x) c'.lru_list) (t.1 x)
                      (d (is_node x)
                        ∙ ap (λ a. a + total (is_node x) h') zero_weight
                        ∙ zero_add (total (is_node x) h'))
                      (l x) (k x ∙ update_ne c.crs e x 0 (λ q. ne_of e x n q))
              ],
    )

lru_after-weight :
    (b : Bool) (f : ℕ → ℕ) (e : ℕ) (lru : List ℕ)
    → 0 < weight (is_node e) lru
    → weight f (if b then to_back e lru else lru) ≡ weight f lru
lru_after-weight true f e lru w = to_back-weight f e lru w
lru_after-weight false f e lru w = refl

remove_both :
    (c : FlowCache) (e : ℕ) (b : Bool) (h h2 : Hmap)
    → hmap_remove c.entries e ≡ some h
    → hmap_remove c.ut_crs e ≡ some h2
    → remove_cache_entry c e b
      ≡ some (record c {
        entries = h;
        ut_crs = h2;
        lru_list = if b then to_back e c.lru_list else c.lru_list;
        crs = update c.crs e 0;
      })
unfolding remove_cache_entry
remove_both c e b h h2 r r2 =
    ap (λ o. removed_from c e b o (hmap_remove c.ut_crs e)) r
    ∙ ap (λ o. removed_from c e b (some h) o) r2

-- What is left of a cache without the entry `e`, whose checksum is left alone
abbrev pub Without : FlowCache → ℕ → FlowCache → Type 0
Without c e c' =
    IsTracked c'
    × ((f : ℕ → ℕ) → total f c.entries ≡ f e + total f c'.entries)
    × (c'.crs ≡ update c.crs e 0)
    × (c'.entries.hashes ≡ c.entries.hashes)
    × (c'.checksum ≡ c.checksum)
    × ((f : ℕ → ℕ) → weight f c'.lru_list ≡ weight f c.lru_list)

pub remove_cache_entry-Without :
    (c : FlowCache) (e : ℕ) (b : Bool)
    → IsTracked c
    → IsCached c e
    → (c' : FlowCache) × (remove_cache_entry c e b ≡ some c')
      × Without c e c'
      × (b ≡ false → c'.lru_list ≡ c.lru_list)
unfolding IsTracked
remove_cache_entry-Without c e b (t, u, distinct) k =
    let (h, r, w, d, s) = hmap_remove-Removed c.entries e t.0 (cached-total c c.entries e t k) in
    let (h2, r2, w2, d2, s2) = hmap_remove-Removed c.ut_crs e u.0 (cached-total c c.ut_crs e u k) in
    let c' : FlowCache = record c {
      entries = h;
      ut_crs = h2;
      lru_list = if b then to_back e c.lru_list else c.lru_list;
      crs = update c.crs e 0;
    } in
    let one : weight (is_node e) c.lru_list ≡ 1 = omega (arith, distinct e) in
    let l : (f : ℕ → ℕ) → weight f c'.lru_list ≡ weight f c.lru_list =
      λ f. lru_after-weight b f e c.lru_list k.1 in
    (
      c',
      remove_both c e b h h2 r r2,
      (
        (
          removed-Tracks c c' c.entries h e t w d one (λ x. l (is_node x)) (λ x. refl),
          removed-Tracks c c' c.ut_crs h2 e u w2 d2 one (λ x. l (is_node x)) (λ x. refl),
          λ x. omega (arith, l (is_node x), distinct x),
        ),
        d,
        refl,
        s,
        refl,
        l,
      ),
      λ q. rw q refl,
    )

gone-total :
    (c c' : FlowCache) (e : ℕ)
    → IsTracked c'
    → c'.crs ≡ update c.crs e 0
    → total (is_node e) c'.entries ≡ 0
unfolding IsTracked
gone-total c c' e t k =
    let none : c'.crs e ≡ 0 = ap (λ m. m e) k ∙ update_self c.crs e 0 in t.0.1 e ∙ rw none refl

entry_hash-below : (c : FlowCache) (e : ℕ) → entry_hash c e < 2 ^ 32
unfolding cache_entry_hash
entry_hash-below c e = omega arith

-- The entries that stay keep their hashes.
entry_hash-stays :
    (c c' : FlowCache) (e : ℕ)
    → c'.crs ≡ update c.crs e 0
    → c'.entries.hashes ≡ c.entries.hashes
    → (x : ℕ) → e ≢ x
    → entry_hash c x ≡ entry_hash c' x
entry_hash-stays c c' e k s x ne =
    let cr : c.crs x ≡ c'.crs x = sym (ap (λ m. m x) k ∙ update_ne c.crs e x 0 ne) in
    ap (λ r. cache_entry_hash (c.entries.hashes x) r) cr
    ∙ ap (λ (m : ℕ → ℕ). cache_entry_hash (m x) (c'.crs x)) (sym s)

deleted :
    (checksum hash whole rest : ℕ)
    → checksum ≡ u64 whole
    → whole ≡ hash + rest
    → hash < 2 ^ 32
    → checksum_delete checksum hash ≡ u64 rest
deleted checksum hash whole rest a b h = omega arith

-- `drop_entry` of an entry with a rule never runs past the end of a chain, and keeps the cache well
-- formed with its checksum.
pub drop_entry-IsCache :
    (c : FlowCache) (e : ℕ) (b : Bool)
    → IsCache c
    → IsCached c e
    → (c' : FlowCache) × (drop_entry c e b ≡ some c')
      × IsCache c'
      × (c'.crs ≡ update c.crs e 0)
      × ((f : ℕ → ℕ) → weight f c'.lru_list ≡ weight f c.lru_list)
      × (b ≡ false → c'.lru_list ≡ c.lru_list)
unfolding IsCache IsTracked
drop_entry-IsCache c e b (t, sum) k =
    let d : FlowCache = record c { checksum = checksum_delete c.checksum (entry_hash c e) } in
    let (c', r, (t', w, cr, s, ck, l), same) = remove_cache_entry-Without d e b t k in
    let rest =
      total-agree (entry_hash c) (entry_hash c') e c'.entries (entry_hash-stays d c' e cr s)
        (gone-total d c' e t' cr) in
    (
      c',
      r,
      (
        t',
        ck
            ∙ deleted c.checksum (entry_hash c e) (total (entry_hash c) c.entries)
                (total (entry_hash c') c'.entries) sum
                (w (entry_hash c) ∙ ap (λ a. entry_hash c e + a) rest) (entry_hash-below c e),
      ),
      cr,
      l,
      same,
    )
