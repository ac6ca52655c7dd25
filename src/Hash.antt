-- ===== src/Hash.antt =====
-- OFTonSGX/trusted/lib/hash.h and hash.c: the 32-bit mixing functions, with their wrap-around, and
-- the hashes of words and bytes. Also get_unaligned_u32 of util.h and the byte swaps of
-- sgx_htons.h, on the little-endian machine that SGX implies.
pub mod Endian
mod Examples
use ovs_sgx.Prelude.{ℕ, ◌+◌, ◌-◌, ◌*◌, ◌/◌, ◌%◌, ◌^◌, bit_or, bit_xor, List, [], ◌∷◌, length}

abbrev pub u32 : ℕ → ℕ
u32 x = x % 2 ^ 32

unfoldable pub hash_rot : ℕ → ℕ → ℕ
hash_rot x k = bit_or (u32 (x * 2 ^ k)) (x / 2 ^ (32 - k))

-- `mhash_add__`.
unfoldable pub mhash_mix : ℕ → ℕ → ℕ
unfolding hash_rot
mhash_mix hash word =
    let scaled = u32 (word * 0xcc9e2d51) in
    let rotated = hash_rot scaled 15 in bit_xor hash (u32 (rotated * 0x1b873593))

unfoldable pub mhash_add : ℕ → ℕ → ℕ
unfolding mhash_mix hash_rot
mhash_add hash word = u32 (hash_rot (mhash_mix hash word) 13 * 5 + 0xe6546b64)

unfoldable pub mhash_finish : ℕ → ℕ → ℕ
mhash_finish hash n_bytes =
    let a = bit_xor hash (u32 n_bytes) in
    let b = u32 (bit_xor a (a / 2 ^ 16) * 0x85ebca6b) in
    let c = u32 (bit_xor b (b / 2 ^ 13) * 0xc2b2ae35) in bit_xor c (c / 2 ^ 16)

unfoldable pub hash_2words : ℕ → ℕ → ℕ
unfolding mhash_finish mhash_add
hash_2words x y = mhash_finish (mhash_add (mhash_add x 0) y) 4

unfoldable pub hash_int : ℕ → ℕ → ℕ
unfolding hash_2words
hash_int x basis = hash_2words x basis

unfoldable pub hash_3words : ℕ → ℕ → ℕ → ℕ
unfolding mhash_finish mhash_add
hash_3words a b c = mhash_finish (mhash_add (mhash_add (mhash_add a 0) b) c) 12

-- The cast takes the low 32 bits of the address.
unfoldable pub hash_pointer : ℕ → ℕ → ℕ
unfolding hash_int
hash_pointer p basis = hash_int (u32 p) basis

pub add_words : List ℕ → ℕ → ℕ
add_words [] hash = hash
add_words (w ∷ ws) hash = add_words ws (mhash_add hash w)

unfoldable pub hash_words : List ℕ → ℕ → ℕ
unfolding add_words mhash_finish mhash_add
hash_words p basis = mhash_finish (add_words p basis) (length p * 4)

-- `memcpy` of up to four bytes into a zero word; four bytes are `get_unaligned_u32`.
unfoldable pub little_endian : List ℕ → ℕ
little_endian [] = 0
little_endian (b ∷ bs) = b + 256 * little_endian bs

-- The loop of `hash_bytes`: whole words, then up to three bytes that are mixed but not rotated.
pub add_bytes : List ℕ → ℕ → ℕ
add_bytes (a ∷ b ∷ c ∷ d ∷ bs) hash =
    add_bytes bs (mhash_add hash (little_endian (a ∷ b ∷ c ∷ d ∷ [])))
add_bytes [] hash = hash
add_bytes rest hash = mhash_mix hash (little_endian rest)

unfoldable pub hash_bytes : List ℕ → ℕ → ℕ
unfolding add_bytes mhash_finish mhash_add mhash_mix little_endian
hash_bytes p basis = mhash_finish (add_bytes p basis) (length p)
