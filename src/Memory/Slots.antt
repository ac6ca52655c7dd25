-- ===== src/Memory/Slots.antt =====
-- The pages that OFTonSGX/trusted/shared-memory-trusted.c may hand out, and the slots that
-- `shared_memory_allocate_page` of OFTonSGX/untrusted/shared-memory-untrusted.c may fill.
use ovs_sgx.Prelude.{
  ℕ, ◌^◌, ◌≤◌, ◌<◌, ◌≡◌, ◌≢◌, ◌⊎◌, inl, inr, refl, ◌∙◌, subst, true, false, not, Option, none, some,
  Option-cases, arith,
}
use ovs_sgx.Memory.{
  SharedMemory, is_allocated, is_free_page, first_page_from, next_unallocated_page, next_free_page,
  slot_or, page_size, fits,
}
use ovs_sgx.Memory.Loops.{first_page_from-passes, first_page_from-none, first_page_from-fails}

-- Nobody uses the page: its slot is empty, or the page in it is free.
abbrev pub IsAvailable : SharedMemory → ℕ → Type 0
IsAvailable m i = (m.allocated i ≡ 0) ⊎ ((m.pages i).status ≡ 0)

-- Page `i` of the new memory is granted at the size and with the status that were asked for, was
-- available before, and nothing else has changed.
unfoldable pub IsGranted : SharedMemory → ℕ → ℕ → ℕ → SharedMemory → Type 0
IsGranted m requested_size page_status i m' =
    (i < m.cap)
    × IsAvailable m i
    × (m'.allocated i ≢ 0)
    × (requested_size ≤ (m'.pages i).size)
    × ((m'.pages i).status ≡ page_status)
    × ((j : ℕ) → i ≢ j → (m'.pages j ≡ m.pages j) × (m'.allocated j ≡ m.allocated j))
    × (m'.cap ≡ m.cap)

pub page_size-fits : (m : SharedMemory) (r : ℕ) → r < 2 ^ 63 → r ≤ page_size m r
page_size-fits m r h = ground arith

pub fits-usable :
    (m : SharedMemory) (r i : ℕ)
    → fits m r i ≡ true
    → (m.allocated i ≢ 0) × ((m.pages i).status ≡ 0) × (r ≤ (m.pages i).size)
fits-usable m r i t = ground arith

pub free_page-usable :
    (m : SharedMemory) (i : ℕ)
    → is_free_page m i ≡ true
    → (m.allocated i ≢ 0) × ((m.pages i).status ≡ 0)
free_page-usable m i t = ground arith

pub unallocated-available :
    (m : SharedMemory) (i : ℕ) → not (is_allocated m i) ≡ true → m.allocated i ≡ 0
unallocated-available m i t = ground arith

pub used_page :
    (m : SharedMemory) (i : ℕ)
    → not (is_allocated m i) ≡ false
    → is_free_page m i ≡ false
    → (m.allocated i ≢ 0) × ((m.pages i).status ≢ 0)
used_page m i a b = ground arith

pub full_tests :
    (m : SharedMemory) (i : ℕ)
    → (m.allocated i ≢ 0) × ((m.pages i).status ≢ 0)
    → (not (is_allocated m i) ≡ false) × (is_free_page m i ≡ false)
full_tests m i h = ground arith

pub full_unfit :
    (m : SharedMemory) (r i : ℕ)
    → (m.allocated i ≢ 0) × ((m.pages i).status ≢ 0)
    → fits m r i ≡ false
full_unfit m r i h = ground arith

-- The slot that `shared_memory_allocate_page` takes.
pub slot-IsAvailable :
    (m : SharedMemory) (i : ℕ)
    → slot_or (next_unallocated_page m) (next_free_page m) ≡ some i
    → (i < m.cap) × IsAvailable m i
unfolding next_unallocated_page next_free_page
slot-IsAvailable m i e =
    let o = first_page_from (λ i. not (is_allocated m i)) m.cap 0 in
    elim (Option-cases o) [
      | inl n ↦
          let e' : first_page_from (is_free_page m) m.cap 0 ≡ some i =
            subst (λ x. slot_or x (first_page_from (is_free_page m) m.cap 0) ≡ some i) n e in
          let (t, p, q) = first_page_from-passes (is_free_page m) m.cap 0 i e' in
          (omega arith, inr (free_page-usable m i t).1)
      | inr (k, f) ↦
          let e' : some k ≡ some i =
            subst (λ x. slot_or x (first_page_from (is_free_page m) m.cap 0) ≡ some i) f e in
          let (t, p, q) = first_page_from-passes (λ j. not (is_allocated m j)) m.cap 0 i (f ∙ e') in
          (omega arith, inl (unallocated-available m i t))
    ]

-- Every slot holds a page in use.
abbrev pub IsFull : SharedMemory → Type 0
IsFull m = (i : ℕ) → i < m.cap → (m.allocated i ≢ 0) × ((m.pages i).status ≢ 0)

pub slot_or-none : (o p : Option ℕ) → slot_or o p ≡ none → (o ≡ none) × (p ≡ none)
slot_or-none none p e = (refl, e)
slot_or-none (some i) p e = absurd (ground arith)

pub no_slot-IsFull :
    (m : SharedMemory) → slot_or (next_unallocated_page m) (next_free_page m) ≡ none → IsFull m
unfolding next_unallocated_page next_free_page
no_slot-IsFull m e i p =
    let (u, f) =
      slot_or-none (first_page_from (λ j. not (is_allocated m j)) m.cap 0)
        (first_page_from (is_free_page m) m.cap 0) e in
    let a =
      first_page_from-none (λ j. not (is_allocated m j)) m.cap 0 u i (omega arith) (omega arith) in
    let b = first_page_from-none (is_free_page m) m.cap 0 f i (omega arith) (omega arith) in
    used_page m i a b

pub IsFull-no_slot :
    (m : SharedMemory) → IsFull m → slot_or (next_unallocated_page m) (next_free_page m) ≡ none
unfolding next_unallocated_page next_free_page
IsFull-no_slot m h =
    let u =
      first_page_from-fails (λ j. not (is_allocated m j)) m.cap 0
        (λ k p q. (full_tests m k (h k (omega arith))).0) in
    let f =
      first_page_from-fails (is_free_page m) m.cap 0
        (λ k p q. (full_tests m k (h k (omega arith))).1) in
    rw (u, f) refl
