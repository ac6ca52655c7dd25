-- ===== src/Memory.antt =====
-- OFTonSGX/trusted/shared-memory-trusted.c and OFTonSGX/untrusted/shared-memory-untrusted.c: the
-- pages of untrusted memory in which the enclave keeps the buckets of the flow cache.
pub mod Loops
pub mod Slots
pub mod Grant
pub mod Release
mod Examples
use ovs_sgx.Prelude.{
  ℕ, zero, suc, ◌+◌, ◌*◌, ◌%◌, ◌^◌, ◌==◌, leb, Bool, true, false, not, ◌&&◌, Option, none, some,
  if◌then◌else◌, update, Option-cases,
}

-- `struct page`
pub record Page : Type 0 where
  pub bytes : ℕ
  pub size : ℕ
  pub status : ℕ
  pub pending_deallocation : ℕ

-- `shared_memory`, without its lock
pub record SharedMemory : Type 0 where
  pub pages : ℕ → Page
  pub cap : ℕ
  pub allocated : ℕ → ℕ
  pub default_page_sz : ℕ

abbrev pub page_status_free : ℕ
page_status_free = 0

abbrev pub is_allocated : SharedMemory → ℕ → Bool
is_allocated m i = not (m.allocated i == 0)

-- `for (i = 0; i < cap; ++i)` with a `return i`: the first of the `n` numbers from `i` on that
-- passes, or none, for which the source returns -1.
unfoldable pub first_page_from : (ℕ → Bool) → ℕ → ℕ → Option ℕ
first_page_from test zero i = none
first_page_from test (suc n) i = if test i then some i else first_page_from test n (suc i)

-- The same loop without a `return`: the last that passes.
unfoldable pub last_page_from : (ℕ → Bool) → ℕ → ℕ → Option ℕ → Option ℕ
last_page_from test zero i found = found
last_page_from test (suc n) i found =
    last_page_from test n (suc i) (if test i then some i else found)

unfoldable pub shared_memory_index_of_allocated_page : SharedMemory → ℕ → Option ℕ
shared_memory_index_of_allocated_page m page_addr =
    first_page_from (λ i. is_allocated m i && (m.pages i).bytes == page_addr) m.cap 0

abbrev pub set_page : SharedMemory → ℕ → Page → SharedMemory
set_page m i p = record m { pages = update m.pages i p }

unfoldable pub shared_memory_mark_page_for_deallocation : SharedMemory → ℕ → SharedMemory
shared_memory_mark_page_for_deallocation m page_addr =
    elim (shared_memory_index_of_allocated_page m page_addr) [
      | none ↦ m
      | some i ↦ set_page m i (record (m.pages i) { pending_deallocation = 1 })
    ]

unfoldable pub shared_memory_free_page : SharedMemory → ℕ → SharedMemory
shared_memory_free_page m page_addr = elim (shared_memory_index_of_allocated_page m page_addr) [
  | none ↦ m
  | some i ↦ set_page m i (record (m.pages i) { status = page_status_free })
]

unfoldable pub next_unallocated_page : SharedMemory → Option ℕ
next_unallocated_page m = first_page_from (λ i. not (is_allocated m i)) m.cap 0

abbrev pub is_free_page : SharedMemory → ℕ → Bool
is_free_page m i = is_allocated m i && (m.pages i).status == page_status_free

unfoldable pub next_free_page : SharedMemory → Option ℕ
next_free_page m = first_page_from (is_free_page m) m.cap 0

abbrev pub slot_or : Option ℕ → Option ℕ → Option ℕ
slot_or none o = o
slot_or (some i) o = some i

-- The size is a `size_t` of 64 bits.
abbrev pub page_size : SharedMemory → ℕ → ℕ
page_size m page_sz = if page_sz == 0 then m.default_page_sz else (2 * page_sz) % 2 ^ 64

-- `raw` is what the two calls of `malloc` return: the page before it is written, with the address of
-- its bytes. Its status is never written.
abbrev pub place_page : Page → SharedMemory → ℕ → ℕ → SharedMemory
place_page raw m page_sz i = record m {
  allocated = update m.allocated i 1;
  pages = update m.pages i (record raw { size = page_size m page_sz; pending_deallocation = 0 });
}

unfoldable pub shared_memory_allocate_page : Page → SharedMemory → ℕ → Option (ℕ × SharedMemory)
shared_memory_allocate_page raw m page_sz =
    elim (slot_or (next_unallocated_page m) (next_free_page m)) [
      | none ↦ none
      | some i ↦ some (i, place_page raw m page_sz i)
    ]

abbrev pub with_status : ℕ → ℕ → SharedMemory → ℕ × SharedMemory
with_status page_status i m = (i, set_page m i (record (m.pages i) { status = page_status }))

abbrev pub fits : SharedMemory → ℕ → ℕ → Bool
fits m requested_size i = is_free_page m i && leb requested_size (m.pages i).size

-- `shared_memory_get_page`, with the number of the page for its address, and none for `NULL`
unfoldable pub shared_memory_get_page : Page → SharedMemory → ℕ → ℕ → Option (ℕ × SharedMemory)
shared_memory_get_page raw m requested_size page_status =
    elim (last_page_from (fits m requested_size) m.cap 0 none) [
      | some i ↦ some (with_status page_status i m)
      | none ↦ elim (shared_memory_allocate_page raw m requested_size) [
        | none ↦ none
        | some (i, m') ↦ some (with_status page_status i m')
      ]
    ]

abbrev pub max_n_pages : ℕ
max_n_pages = 10

abbrev pub default_page_size : ℕ
default_page_size = 64

-- The pages that `shared_memory_init` allocates; none where it exits.
unfoldable pub allocate_pages : (ℕ → Page) → ℕ → SharedMemory → Option SharedMemory
allocate_pages raw zero m = some m
allocate_pages raw (suc n) m = elim (shared_memory_allocate_page (raw n) m 0) [
  | none ↦ none
  | some (i, m') ↦ allocate_pages raw n m'
]

-- `calloc` clears `allocated`; `pages` is left as `malloc` gives it.
unfoldable pub shared_memory_init : (ℕ → Page) → (ℕ → Page) → Option SharedMemory
shared_memory_init raw pages = allocate_pages raw 5 (record {
  pages = pages;
  cap = max_n_pages;
  allocated = λ _. 0;
  default_page_sz = default_page_size;
})

-- One round of the loop: a marked page is freed.
abbrev pub release : SharedMemory → ℕ → SharedMemory
release m i =
    if is_allocated m i && not ((m.pages i).pending_deallocation == 0)
    then record m { allocated = update m.allocated i 0 }
    else m

unfoldable pub deallocate_from : ℕ → ℕ → SharedMemory → SharedMemory
deallocate_from zero i m = m
deallocate_from (suc n) i m = deallocate_from n (suc i) (release m i)

unfoldable pub shared_memory_deallocate_marked_pages : SharedMemory → SharedMemory
shared_memory_deallocate_marked_pages m = deallocate_from m.cap 0 m
