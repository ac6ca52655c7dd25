-- ===== src/Memory/Examples.antt =====
-- A memory of four slots: a page in use, a marked page, a free page of 128 bytes, and no page.
use ovs_sgx.Prelude.{ℕ, zero, suc, ◌≡◌, ◌↔◌, refl, Option, none, some, List, [], ◌∷◌, arith}
use ovs_sgx.Memory.{
  Page, SharedMemory, first_page_from, last_page_from, next_unallocated_page, next_free_page,
  shared_memory_allocate_page, shared_memory_get_page, shared_memory_init, allocate_pages,
}
use ovs_sgx.Memory.Slots.{IsGranted, IsFull}
use ovs_sgx.Memory.Grant.{get_page-IsGranted, get_page-none_iff}

abbrev page_at : ℕ → Page
page_at zero = record { bytes = 4096; size = 64; status = 1; pending_deallocation = 0 }
page_at (suc zero) = record { bytes = 8192; size = 64; status = 1; pending_deallocation = 1 }
page_at (suc (suc _)) = record { bytes = 12288; size = 128; status = 0; pending_deallocation = 0 }

abbrev allocated_at : ℕ → ℕ
allocated_at zero = 1
allocated_at (suc zero) = 1
allocated_at (suc (suc zero)) = 1
allocated_at (suc (suc (suc _))) = 0

abbrev four_slots : SharedMemory
four_slots = record { pages = page_at; cap = 4; allocated = allocated_at; default_page_sz = 64 }

abbrev raw_page : Page
raw_page = record { bytes = 16384; size = 7; status = 9; pending_deallocation = 7 }

-- The number of the page and its size, and 99 and 0 for `NULL`
abbrev first_number : Option (ℕ × SharedMemory) → ℕ × ℕ
first_number none = (99, 0)
first_number (some (i, m)) = (i, (m.pages i).size)

abbrev memory_after : Option (ℕ × SharedMemory) → SharedMemory
memory_after none = four_slots
memory_after (some (i, m)) = m

free_page_test : first_number (shared_memory_get_page raw_page four_slots 100 1) ≡ (2, 128)
unfolding shared_memory_get_page last_page_from
free_page_test = refl

-- A larger request takes the empty slot.
new_page_test : first_number (shared_memory_get_page raw_page four_slots 200 1) ≡ (3, 400)
unfolding shared_memory_get_page shared_memory_allocate_page next_unallocated_page first_page_from
    last_page_from
new_page_test = refl

get_page-IsGranted_example :
    IsGranted four_slots 200 1 3 (memory_after (shared_memory_get_page raw_page four_slots 200 1))
unfolding shared_memory_get_page shared_memory_allocate_page next_unallocated_page first_page_from
    last_page_from
get_page-IsGranted_example =
    get_page-IsGranted raw_page four_slots 200 1 3
      (memory_after (shared_memory_get_page raw_page four_slots 200 1)) (omega arith) refl

get_page-none_example : (shared_memory_get_page raw_page four_slots 64 1 ≡ none) ↔ IsFull four_slots
get_page-none_example = get_page-none_iff raw_page four_slots 64 1

-- `shared_memory_init` does not exit: the first five slots get pages of the default size, whatever
-- the memory held.
abbrev init_sizes : Option SharedMemory → List ℕ
init_sizes none = []
init_sizes (some m) =
    (m.pages 0).size ∷ (m.pages 4).size ∷ m.allocated 4 ∷ m.allocated 5 ∷ m.cap ∷ []

init_test :
    (raw pages : ℕ → Page) → init_sizes (shared_memory_init raw pages) ≡ 64 ∷ 64 ∷ 1 ∷ 0 ∷ 10 ∷ []
unfolding shared_memory_init allocate_pages shared_memory_allocate_page next_unallocated_page
    next_free_page first_page_from
init_test raw pages = refl
