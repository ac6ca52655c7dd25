-- ===== src/Memory/Release.antt =====
-- What `shared_memory_deallocate_marked_pages` and `shared_memory_init` of
-- OFTonSGX/untrusted/shared-memory-untrusted.c do to the slots.
use ovs_sgx.Prelude.{
  le_cases, ℕ, zero, suc, ◌+◌, ◌==◌, ◌≤◌, ◌<◌, ◌≡◌, ◌≢◌, ◌⊎◌, inl, inr, refl, ap, subst, ◌∙◌, Bool,
  not, ◌&&◌, if◌then◌else◌, update_self, update_ne, Bool-cases, arith,
}
use ovs_sgx.Memory.{
  SharedMemory, is_allocated, release, deallocate_from, shared_memory_deallocate_marked_pages,
}

-- The slot of a marked page.
abbrev pub is_marked : SharedMemory → ℕ → Bool
is_marked m i = is_allocated m i && not ((m.pages i).pending_deallocation == 0)

-- The slots from `lo` to below `hi` have been gone through.
abbrev pub Released : SharedMemory → ℕ → ℕ → SharedMemory → Type 0
Released m lo hi n =
    (n.pages ≡ m.pages)
    × (n.cap ≡ m.cap)
    × ((k : ℕ) → lo ≤ k → k < hi → n.allocated k ≡ (if is_marked m k then 0 else m.allocated k))
    × ((k : ℕ) → (k < lo) ⊎ (hi ≤ k) → n.allocated k ≡ m.allocated k)

release_frame :
    (m : SharedMemory) (i : ℕ)
    → ((release m i).pages ≡ m.pages)
      × ((release m i).cap ≡ m.cap)
      × ((release m i).allocated i ≡ (if is_marked m i then 0 else m.allocated i))
      × ((k : ℕ) → i ≢ k → (release m i).allocated k ≡ m.allocated k)
release_frame m i = elim (Bool-cases (is_marked m i)) [
  | inl t ↦ rw t (refl, refl, update_self m.allocated i 0, λ k ne. update_ne m.allocated i k 0 ne)
  | inr f ↦ rw f (refl, refl, refl, λ k ne. refl)
]

is_marked_frame :
    (m n : SharedMemory) (k : ℕ)
    → n.allocated k ≡ m.allocated k
    → n.pages ≡ m.pages
    → is_marked n k ≡ is_marked m k
is_marked_frame m n k a p = rw (a, p) refl

wider : (i n k : ℕ) → (k < i) ⊎ (i + suc n ≤ k) → (k < suc i) ⊎ (suc i + n ≤ k)
wider i n k (inl h) = inl (omega arith)
wider i n k (inr h) = inr (omega arith)

not_within : (i n k : ℕ) → (k < i) ⊎ (i + suc n ≤ k) → i ≢ k
not_within i n k (inl h) e = omega arith
not_within i n k (inr h) e = omega arith

deallocate_from-Released :
    (n i : ℕ) (m : SharedMemory) → Released m i (i + n) (deallocate_from n i m)
unfolding deallocate_from
deallocate_from-Released zero i m = (refl, refl, λ k p q. absurd (omega arith), λ k h. refl)
deallocate_from-Released (suc n) i m =
    let (pages, cap, self, other) = release_frame m i in
    let (pages', cap', inside, outside) = deallocate_from-Released n (suc i) (release m i) in
    (
      pages' ∙ pages,
      cap' ∙ cap,
      λ k p q. elim (le_cases i k p) [
        | inl same ↦
            subst
              (λ j.
                (deallocate_from n (suc i) (release m i)).allocated j
                ≡ (if is_marked m j then 0 else m.allocated j))
              same (outside i (inl (omega arith)) ∙ self)
        | inr lt ↦
            let o = other k (λ e. omega arith) in
            let t = is_marked_frame m (release m i) k o pages in
            inside k lt (omega arith)
            ∙ ap (λ b. if b then 0 else (release m i).allocated k) t
            ∙ ap (λ a. if is_marked m k then 0 else a) o
      ],
      λ k h. outside k (wider i n k h) ∙ other k (λ e. not_within i n k h e),
    )

zero_add : (n : ℕ) → 0 + n ≡ n
zero_add n = omega arith

-- `shared_memory_deallocate_marked_pages` empties exactly the slots of the pages that are marked,
-- within the capacity, and leaves the pages and every other slot as they were.
pub deallocate_marked_pages-Released :
    (m : SharedMemory) → Released m 0 m.cap (shared_memory_deallocate_marked_pages m)
unfolding shared_memory_deallocate_marked_pages
deallocate_marked_pages-Released m =
    subst (λ hi. Released m 0 hi (deallocate_from m.cap 0 m)) (zero_add m.cap)
      (deallocate_from-Released m.cap 0 m)
