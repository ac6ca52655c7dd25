-- ===== src/Flow.antt =====
-- OFTonSGX/trusted/lib/flow.c and flow.h: flows, compressed flows (`struct miniflow`) and masks.
-- A flow is the list of its 32-bit words. The bitmap of a miniflow is the list of its bits from the
-- lowest one up, one for each word of a flow, where the source packs them into two 32-bit numbers;
-- the loops `for (map; map; map = zero_rightmost_1bit(map))` visit the set bits upwards, which is
-- the order of `set_bits`. Where `values` lives, inline or on the heap, is not modelled.
pub mod Expand
pub mod Masked
pub mod Masks
pub mod Combine
pub mod Equal
mod Examples
use ovs_sgx.Prelude.{
  ℕ, zero, suc, ◌+◌, ◌-◌, ◌*◌, ◌/◌, ◌%◌, ◌^◌, bit_and, bit_or, bit_xor, Bool, true, false, not,
  ◌&&◌, ◌||◌, List, [], ◌∷◌, ◌++◌, length, get_or, ◌==◌, if◌then◌else◌,
}
use ovs_sgx.Hash.{mhash_add, mhash_finish, hash_words, hash_3words}
use ovs_sgx.Hash.Endian.{ntohs}

abbrev pub Flow : Type 0
Flow = List ℕ

pub record Miniflow : Type 0 where
  pub map : List Bool
  pub values : List ℕ

-- `struct minimask` wraps a miniflow.
abbrev pub Minimask : Type 0
Minimask = Miniflow

-- `struct flow_wildcards` wraps a flow.
abbrev pub Wildcards : Type 0
Wildcards = Flow

-- sizeof(struct flow) / 4: the fields take 184 bytes.
abbrev pub flow_u32s : ℕ
flow_u32s = 46

unfoldable pub popcount : List Bool → ℕ
popcount [] = 0
popcount (b ∷ m) = if b then suc (popcount m) else popcount m

unfoldable pub miniflow_n_values : Miniflow → ℕ
unfolding popcount
miniflow_n_values f = popcount f.map

-- The bitmap and the values that miniflow_init collects.
unfoldable pub nonzero_map : Flow → List Bool
nonzero_map [] = []
nonzero_map (w ∷ ws) = not (w == 0) ∷ nonzero_map ws

unfoldable pub gather : List Bool → Flow → List ℕ
gather (b ∷ m) (w ∷ ws) = if b then w ∷ gather m ws else gather m ws
gather [] ws = []
gather (b ∷ m) [] = []

unfoldable pub miniflow_init : Flow → Miniflow
unfolding nonzero_map gather
miniflow_init src = record { map = nonzero_map src; values = gather (nonzero_map src) src }

unfoldable pub minimask_init : Wildcards → Minimask
unfolding miniflow_init
minimask_init wc = miniflow_init wc

unfoldable pub first_words : ℕ → List ℕ → List ℕ
first_words zero vs = []
first_words (suc n) [] = []
first_words (suc n) (v ∷ vs) = v ∷ first_words n vs

-- `memcpy` of as many values as the bitmap has set bits.
unfoldable pub miniflow_clone : Miniflow → Miniflow
unfolding miniflow_n_values first_words
miniflow_clone src = record {
  map = src.map;
  values = first_words (miniflow_n_values src) src.values;
}

-- `miniflow_get__`: zero at a clear bit, else the value behind those of the lower set bits.
unfoldable pub get_bit : List Bool → ℕ → Bool
get_bit [] i = false
get_bit (b ∷ m) zero = b
get_bit (b ∷ m) (suc i) = get_bit m i

unfoldable pub popcount_below : List Bool → ℕ → ℕ
popcount_below [] i = 0
popcount_below (b ∷ m) zero = 0
popcount_below (b ∷ m) (suc i) = if b then suc (popcount_below m i) else popcount_below m i

unfoldable pub miniflow_get : Miniflow → ℕ → ℕ
unfolding get_bit popcount_below
miniflow_get f ofs = if get_bit f.map ofs then get_or f.values (popcount_below f.map ofs) 0 else 0

-- flow_union_with_miniflow: `dst[ofs] |= values[k++]` at each set bit.
unfoldable pub union_words : Flow → List Bool → List ℕ → Flow
union_words [] m vs = []
union_words (d ∷ ds) [] vs = d ∷ ds
union_words (d ∷ ds) (true ∷ m) [] = d ∷ ds
union_words (d ∷ ds) (true ∷ m) (v ∷ vs) = bit_or d v ∷ union_words ds m vs
union_words (d ∷ ds) (false ∷ m) vs = d ∷ union_words ds m vs

unfoldable pub flow_union_with_miniflow : Flow → Miniflow → Flow
unfolding union_words
flow_union_with_miniflow dst src = union_words dst src.map src.values

unfoldable pub flow_wildcards_fold_minimask : Wildcards → Minimask → Wildcards
unfolding flow_union_with_miniflow
flow_wildcards_fold_minimask wc mask = flow_union_with_miniflow wc mask

unfoldable pub zeros : ℕ → Flow
zeros zero = []
zeros (suc n) = 0 ∷ zeros n

unfoldable pub miniflow_expand : ℕ → Miniflow → Flow
unfolding zeros flow_union_with_miniflow
miniflow_expand n src = flow_union_with_miniflow (zeros n) src

unfoldable pub minimask_expand : ℕ → Minimask → Wildcards
unfolding miniflow_expand
minimask_expand n mask = miniflow_expand n mask

unfoldable pub flow_zero_wildcards : Flow → Wildcards → Flow
flow_zero_wildcards (w ∷ ws) (m ∷ ms) = bit_and w m ∷ flow_zero_wildcards ws ms
flow_zero_wildcards [] ms = []
flow_zero_wildcards (w ∷ ws) [] = w ∷ ws

-- The set bits upwards, each with the value that `*p` has there. `ofs` counts the words.
unfoldable pub set_bits : ℕ → List Bool → List ℕ → List (ℕ × ℕ)
set_bits ofs [] vs = []
set_bits ofs (true ∷ m) (v ∷ vs) = (ofs, v) ∷ set_bits (ofs + 1) m vs
set_bits ofs (true ∷ m) [] = []
set_bits ofs (false ∷ m) vs = set_bits (ofs + 1) m vs

unfoldable pub same_bits : List Bool → List Bool → Bool
same_bits [] [] = true
same_bits [] (y ∷ ys) = false
same_bits (x ∷ xs) [] = false
same_bits (true ∷ xs) (true ∷ ys) = same_bits xs ys
same_bits (true ∷ xs) (false ∷ ys) = false
same_bits (false ∷ xs) (true ∷ ys) = false
same_bits (false ∷ xs) (false ∷ ys) = same_bits xs ys

-- `memcmp` of the first `n` values; the end of a list is a difference.
unfoldable pub same_words : ℕ → List ℕ → List ℕ → Bool
same_words zero xs ys = true
same_words (suc n) (x ∷ xs) (y ∷ ys) = x == y && same_words n xs ys
same_words (suc n) [] ys = false
same_words (suc n) (x ∷ xs) [] = false

unfoldable pub miniflow_equal : Miniflow → Miniflow → Bool
unfolding same_bits same_words miniflow_n_values
miniflow_equal a b =
    if same_bits a.map b.map then same_words (miniflow_n_values a) a.values b.values else false

unfoldable pub minimask_equal : Minimask → Minimask → Bool
unfolding miniflow_equal
minimask_equal a b = miniflow_equal a b

-- The comparison loops, over the set bits of the mask. `x` and `y` read a word of either flow.
unfoldable pub equal_at : (ℕ → ℕ) → (ℕ → ℕ) → List (ℕ × ℕ) → Bool
equal_at x y [] = true
equal_at x y ((ofs, p) ∷ rest) = bit_and (bit_xor (x ofs) (y ofs)) p == 0 && equal_at x y rest

unfoldable pub miniflow_equal_in_minimask : Miniflow → Miniflow → Minimask → Bool
unfolding equal_at set_bits miniflow_get
miniflow_equal_in_minimask a b mask =
    equal_at (miniflow_get a) (miniflow_get b) (set_bits 0 mask.map mask.values)

unfoldable pub miniflow_equal_flow_in_minimask : Miniflow → Flow → Minimask → Bool
unfolding equal_at set_bits miniflow_get
miniflow_equal_flow_in_minimask a b mask =
    equal_at (miniflow_get a) (λ ofs. get_or b ofs 0) (set_bits 0 mask.map mask.values)

-- The bitmap's two numbers, for the hash.
unfoldable pub map_word : ℕ → List Bool → ℕ
map_word zero m = 0
map_word (suc n) [] = 0
map_word (suc n) (b ∷ m) = (if b then 1 else 0) + 2 * map_word n m

unfoldable pub drop_bits : ℕ → List Bool → List Bool
drop_bits zero m = m
drop_bits (suc n) [] = []
drop_bits (suc n) (b ∷ m) = drop_bits n m

unfoldable pub miniflow_hash : Miniflow → ℕ → ℕ
unfolding map_word drop_bits first_words miniflow_n_values hash_3words hash_words
miniflow_hash f basis =
    hash_3words (map_word 32 f.map) (map_word 32 (drop_bits 32 f.map))
      (hash_words (first_words (miniflow_n_values f) f.values) basis)

unfoldable pub minimask_hash : Minimask → ℕ → ℕ
unfolding miniflow_hash
minimask_hash mask basis = miniflow_hash mask basis

unfoldable pub hash_at : (ℕ → ℕ) → List (ℕ × ℕ) → ℕ → ℕ
hash_at x [] hash = hash
hash_at x ((ofs, p) ∷ rest) hash = hash_at x rest (mhash_add hash (bit_and (x ofs) p))

unfoldable pub miniflow_hash_in_minimask : Miniflow → Minimask → ℕ → ℕ
unfolding hash_at set_bits miniflow_get mhash_add mhash_finish
miniflow_hash_in_minimask flow mask basis =
    let visited = set_bits 0 mask.map mask.values in
    mhash_finish (hash_at (miniflow_get flow) visited basis) (length visited * 4)

unfoldable pub flow_hash_in_minimask : Flow → Minimask → ℕ → ℕ
unfolding hash_at set_bits mhash_add mhash_finish
flow_hash_in_minimask flow mask basis =
    let visited = set_bits 0 mask.map mask.values in
    mhash_finish (hash_at (λ ofs. get_or flow ofs 0) visited basis) (length visited * 4)

unfoldable pub flow_hash : Flow → ℕ → ℕ
unfolding hash_words
flow_hash flow basis = hash_words flow basis
