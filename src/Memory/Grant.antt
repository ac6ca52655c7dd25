-- ===== src/Memory/Grant.antt =====
-- What `shared_memory_get_page` of OFTonSGX/trusted/shared-memory-trusted.c hands out.
use ovs_sgx.Prelude.{
  ℕ, ◌^◌, ◌≤◌, ◌<◌, ◌≡◌, inl, inr, refl, sym, ap, ◌∙◌, subst, ◌↔◌, true, Option, none, some,
  update_self, update_ne, arith,
}
use ovs_sgx.Memory.{
  Page, SharedMemory, last_page_from, next_unallocated_page, next_free_page, slot_or, page_size,
  place_page, shared_memory_allocate_page, with_status, fits, shared_memory_get_page,
}
use ovs_sgx.Memory.Loops.{last_page_from-passes, last_page_from-fails}
use ovs_sgx.Memory.Slots.{
  IsAvailable, IsFull, IsFull-no_slot, IsGranted, fits-usable, full_unfit, no_slot-IsFull,
  page_size-fits, slot-IsAvailable,
}

reused :
    (m : SharedMemory) (r st i : ℕ)
    → i < m.cap
    → fits m r i ≡ true
    → IsGranted m r st i (with_status st i m).1
unfolding IsGranted
reused m r st i p t =
    let page = record (m.pages i) { status = st } in
    let self = update_self m.pages i page in
    let (a, f, z) = fits-usable m r i t in
    (
      p,
      inr f,
      a,
      subst (λ (q : Page). r ≤ q.size) (sym self) z,
      ap (λ (q : Page). q.status) self,
      λ j ne. (update_ne m.pages i j page ne, refl),
      refl,
    )

placed :
    (raw : Page) (m : SharedMemory) (r st i : ℕ)
    → r < 2 ^ 63
    → i < m.cap
    → IsAvailable m i
    → IsGranted m r st i (with_status st i (place_page raw m r i)).1
unfolding IsGranted
placed raw m r st i h p a =
    let n = place_page raw m r i in
    let new : Page = record raw { size = page_size m r; pending_deallocation = 0 } in
    let page : Page = record (n.pages i) { status = st } in
    let size : (n.pages i).size ≡ page_size m r =
      ap (λ (q : Page). q.size) (update_self m.pages i new) in
    let self = update_self n.pages i page in
    let used = update_self m.allocated i 1 in
    (
      p,
      a,
      λ e. omega (arith, used),
      subst (λ (q : Page). r ≤ q.size) (sym self) (rw size (page_size-fits m r h)),
      ap (λ (q : Page). q.status) self,
      λ j ne. (
        update_ne n.pages i j page ne ∙ update_ne m.pages i j new ne,
        update_ne m.allocated i j 1 ne,
      ),
      refl,
    )

abbrev from_some : {A : Type 0} → A → Option A → A
from_some a none = a
from_some a (some b) = b

some_pair : {A B : Type 0} {x y : A × B} → some x ≡ some y → x ≡ y
some_pair {x = x} e = ap (from_some x) e

abbrev taken : Page → SharedMemory → ℕ → ℕ → Option ℕ → Option (ℕ × SharedMemory)
taken raw m r st slot =
    elim (elim slot as (λ _. Option (ℕ × SharedMemory)) [
      | none ↦ none
      | some i ↦ some (i, place_page raw m r i)
    ]) [ none ↦ none | some (i, m') ↦ some (with_status st i m') ]

abbrev given : Page → SharedMemory → ℕ → ℕ → Option ℕ → Option ℕ → Option (ℕ × SharedMemory)
given raw m r st found slot = elim found [
  | some i ↦ some (with_status st i m)
  | none ↦ taken raw m r st slot
]

get_page-given :
    (raw : Page) (m : SharedMemory) (r st : ℕ)
    → shared_memory_get_page raw m r st
      ≡ given raw m r st
          (last_page_from (fits m r) m.cap 0 none)
          (slot_or (next_unallocated_page m) (next_free_page m))
unfolding shared_memory_get_page shared_memory_allocate_page
get_page-given raw m r st = refl

given-IsGranted :
    (raw : Page) (m : SharedMemory) (r st i : ℕ) (m' : SharedMemory) (found slot : Option ℕ)
    → r < 2 ^ 63
    → last_page_from (fits m r) m.cap 0 none ≡ found
    → slot_or (next_unallocated_page m) (next_free_page m) ≡ slot
    → given raw m r st found slot ≡ some (i, m')
    → IsGranted m r st i m'
given-IsGranted raw m r st i m' (some j) slot h f g e =
    subst (λ (x : ℕ × SharedMemory). IsGranted m r st x.0 x.1) (some_pair e)
      (elim (last_page_from-passes (fits m r) m.cap 0 none j f)
        as (λ _. IsGranted m r st j (with_status st j m).1) [
          | inl (t, p) ↦ reused m r st j (omega arith) t
          | inr n ↦ absurd (ground arith)
        ])
given-IsGranted raw m r st i m' none none h f g e = absurd (ground arith)
given-IsGranted raw m r st i m' none (some j) h f g e =
    let (p, a) = slot-IsAvailable m j g in
    subst (λ (x : ℕ × SharedMemory). IsGranted m r st x.0 x.1) (some_pair e)
      (placed raw m r st j h p a)

-- A page that `shared_memory_get_page` returns lies within the capacity, was not in use before, that
-- is, its slot was empty or it was free, is at least as large as asked for, and has the status asked
-- for; every other page is as it was: for a size below `2 ^ 63`, whose double is still a size.
pub get_page-IsGranted :
    (raw : Page) (m : SharedMemory) (requested_size page_status i : ℕ) (m' : SharedMemory)
    → requested_size < 2 ^ 63
    → shared_memory_get_page raw m requested_size page_status ≡ some (i, m')
    → IsGranted m requested_size page_status i m'
get_page-IsGranted raw m r st i m' h e =
    given-IsGranted raw m r st i m' (last_page_from (fits m r) m.cap 0 none)
      (slot_or (next_unallocated_page m) (next_free_page m)) h refl refl
      (sym (get_page-given raw m r st) ∙ e)

given-none :
    (raw : Page) (m : SharedMemory) (r st : ℕ) (found slot : Option ℕ)
    → given raw m r st found slot ≡ none
    → (found ≡ none) × (slot ≡ none)
given-none raw m r st (some i) slot e = absurd (ground arith)
given-none raw m r st none (some i) e = absurd (ground arith)
given-none raw m r st none none e = (refl, refl)

-- `shared_memory_get_page` returns `NULL` exactly when every slot holds a page in use, whatever size
-- and status are asked for.
pub get_page-none_iff :
    (raw : Page) (m : SharedMemory) (requested_size page_status : ℕ)
    → (shared_memory_get_page raw m requested_size page_status ≡ none) ↔ IsFull m
get_page-none_iff raw m r st =
    let found = last_page_from (fits m r) m.cap 0 none in
    let slot = slot_or (next_unallocated_page m) (next_free_page m) in
    (
      λ e.
          no_slot-IsFull m
            (given-none raw m r st found slot (sym (get_page-given raw m r st) ∙ e)).1,
      λ h.
          let f =
            last_page_from-fails (fits m r) m.cap 0
              (λ k p q. full_unfit m r k (h k (omega arith))) in
          get_page-given raw m r st
          ∙ ap (λ o. given raw m r st o slot) f
          ∙ ap (λ o. given raw m r st none o) (IsFull-no_slot m h),
    )
