-- ===== src/Hash/Examples.antt =====
-- The byte swaps at numbers.
use ovs_sgx.Prelude.{◌≡◌, refl}
use ovs_sgx.Hash.Endian.{ntohl, htonl}

htonl_swaps : htonl 0x01020304 ≡ 0x04030201
unfolding htonl
htonl_swaps = refl

ntohl_swaps : ntohl 0x04030201 ≡ 0x01020304
unfolding ntohl
ntohl_swaps = refl
