-- ===== src/Hash/Endian.antt =====
-- OFTonSGX/trusted/lib/sgx_htons.c and sgx_htons.h on a little-endian machine: the byte swaps, and
-- that each is its own inverse; get_unaligned_u32 of util.h, which builds a big-endian number and
-- swaps it.
use ovs_sgx.Prelude.{ℕ, ◌+◌, ◌*◌, ◌/◌, ◌%◌, ◌^◌, ◌<◌, ◌≡◌, [], ◌∷◌, arith}
use ovs_sgx.Hash.{little_endian}

-- `(a << 8) | (a >> 8)`, cut to 16 bits; the halves do not meet, so `|` is `+`.
unfoldable pub htons : ℕ → ℕ
htons x = x * 256 % 2 ^ 16 + x / 256

unfoldable pub ntohs : ℕ → ℕ
unfolding htons
ntohs x = htons x

-- The four bytes of a 32-bit word in the opposite order.
unfoldable pub htonl : ℕ → ℕ
htonl x = x / 2 ^ 24 % 256 + x / 2 ^ 16 % 256 * 2 ^ 8 + x / 2 ^ 8 % 256 * 2 ^ 16 + x % 256 * 2 ^ 24

unfoldable pub ntohl : ℕ → ℕ
unfolding htonl
ntohl x = htonl x

unfoldable pub get_unaligned_u32 : ℕ → ℕ → ℕ → ℕ → ℕ
unfolding ntohl
get_unaligned_u32 a b c d = ntohl (a * 2 ^ 24 + b * 2 ^ 16 + c * 2 ^ 8 + d)

-- Converting a 16-bit number to network order and back gives the number.
pub ntohs-htons : (x : ℕ) → x < 2 ^ 16 → ntohs (htons x) ≡ x
unfolding ntohs htons
ntohs-htons x h = omega arith

-- Converting a 32-bit number to network order and back gives the number.
pub ntohl-htonl : (x : ℕ) → x < 2 ^ 32 → ntohl (htonl x) ≡ x
unfolding ntohl htonl
ntohl-htonl x h = omega arith

-- From four bytes, get_unaligned_u32 reads the little-endian word that lies there.
pub get_unaligned_u32_lem :
    (a b c d : ℕ)
    → a < 256
    → b < 256
    → c < 256
    → d < 256
    → get_unaligned_u32 a b c d ≡ little_endian (a ∷ b ∷ c ∷ d ∷ [])
unfolding get_unaligned_u32 little_endian
get_unaligned_u32_lem a b c d p q r s = omega arith
