-- ===== src/Tls/Keys.antt =====
-- Keys and certificates of the TLS client: generate_keys, load_sealed_ssl_resources, send_recv and
-- ecall_ssl_library_init of TLSonSGX/trusted/enclave.c, and
-- TLSonSGX/trusted/sealing/seal-ssl-resource.c. mbedtls and the sealing of SGX are parameters.
use ovs_sgx.Prelude.{
  ℕ, ◌==◌, ◌&&◌, Bool, true, false, List, [], ◌∷◌, ◌++◌, Option, none, some, if◌then◌else◌, length,
  ltb,
}
use ovs_sgx.Tls.{Certificate, null, freed, blank, loaded, Tls}

-- The library functions of mbedtls and SGX: sealing, PEM text without its end, and parsing
pub record Library (Key Cert : Type 0) : Type 0 where
  pub seal : List ℕ → Option (List ℕ)
  pub unseal : List ℕ → Option (List ℕ)
  pub write_key_pem : Key → Option (List ℕ)
  pub parse_key : List ℕ → Option Key
  pub parse_certificate : List ℕ → Option Cert
  pub raw : Cert → List ℕ

-- `SSL_resource`
pub record SslResource : Type 0 where
  pub sealed_data : List ℕ
  pub unsealed_len : ℕ
  pub type : ℕ
  pub exists : Bool

-- `SSL_resource rs[N_SSL_RESOURCES]`
pub record SslResources : Type 0 where
  pub rs0 : SslResource
  pub rs1 : SslResource
  pub rs2 : SslResource

abbrev pub ssl_resource_ca_cert : ℕ
ssl_resource_ca_cert = 0

abbrev pub ssl_resource_cert : ℕ
ssl_resource_cert = 1

abbrev pub ssl_resource_pk : ℕ
ssl_resource_pk = 2

unfoldable pub all_ssl_resources_exist : SslResources → Bool
all_ssl_resources_exist rs = rs.rs0.exists && rs.rs1.exists && rs.rs2.exists

-- One result of `mbedtls_ssl_read`
pub data Read : Type 0 where
  want : Read
  failed : Read
  received : (bytes : List ℕ) → Read

-- How `send_recv` ends: with the bytes that it has read, with bytes past the end of the buffer, at its
-- end without a value, or never.
pub data Reply : Type 0 where
  reply : (bytes : List ℕ) → Reply
  overflow : Reply
  no_value : Reply
  waiting : Reply

-- Up to 6000 bytes are read into a buffer of `size` bytes.
unfoldable pub send_recv : ℕ → List Read → Reply
send_recv size [] = waiting
send_recv size (want ∷ rs) = send_recv size rs
send_recv size (failed ∷ rs) = no_value
send_recv size (received bytes ∷ rs) = if ltb size (length bytes) then overflow else reply bytes

-- The size of `ima_res`
abbrev pub ima_res_size : ℕ
ima_res_size = 128

-- The size of `cer_buf`
abbrev pub cer_buf_size : ℕ
cer_buf_size = 6000

-- `strcmp(ima_res, "MOK") == 0`, where the bytes stand before zeros that `memset` has written
unfoldable pub is_mok : List ℕ → Bool
is_mok (a ∷ b ∷ c ∷ []) = a == 77 && b == 79 && c == 75
is_mok (a ∷ b ∷ c ∷ d ∷ rest) = a == 77 && b == 79 && c == 75 && d == 0
is_mok other = false

unfoldable pub is_dashes : List ℕ → Bool
is_dashes (a ∷ b ∷ c ∷ d ∷ e ∷ rest) = a == 45 && b == 45 && c == 45 && d == 45 && e == 45
is_dashes other = false

-- `strstr(cer_buf, "-----")`, which stops at a zero
unfoldable pub from_dashes : List ℕ → Option (List ℕ)
unfolding is_dashes
from_dashes [] = none
from_dashes (x ∷ xs) =
    let rest = from_dashes xs in
    if is_dashes (x ∷ xs) then some (x ∷ xs) else if x == 0 then none else rest

-- What the world answers while keys are generated: the results of `mbedtls_pk_setup`,
-- `mbedtls_rsa_gen_key`, `mbedtls_ssl_handshake` and the reads of the CA's two answers, and the CA's own
-- certificate.
pub record Session (Key Cert : Type 0) : Type 0 where
  pub setup : ℕ
  pub generated : Option Key
  pub handshake : ℕ
  pub measured : List Read
  pub certified : List Read
  pub peer_cert : Option Cert

infixl 5 ◌>>=◌
abbrev pub ◌>>=◌ : {A B : Type 0} → Option A → (A → Option B) → Option B
none >>= f = none
some a >>= f = f a

-- The enclave's variables, the resources, and whether `*write_resources_to_disk` was set
pub record Generated (Key Cert : Type 0) : Type 0 where
  pub tls : Tls Key Cert
  pub rs : SslResources
  pub written : Bool

module _ {Key Cert : Type 0} (lib : Library Key Cert) where
  unfoldable pub unseal_certificate : List ℕ → Certificate Cert
  unseal_certificate sealed = elim (lib.unseal sealed) [
    | none ↦ null
    | some bytes ↦ elim (lib.parse_certificate bytes) [ none ↦ null | some c ↦ loaded c ]
  ]

  -- The key is parsed with a zero after it; where that fails, the old one stays.
  unfoldable pub unseal_key : List ℕ → Option Key → Option Key
  unseal_key sealed key = elim (lib.unseal sealed) [
    | none ↦ key
    | some bytes ↦ elim (lib.parse_key (bytes ++ (0 ∷ []))) [ none ↦ key | some k ↦ some k ]
  ]

  -- The resource keeps what it held if sealing fails; the callers set the type in any case.
  unfoldable pub seal_ssl_resource : List ℕ → ℕ → SslResource → SslResource
  seal_ssl_resource bytes type r = elim (lib.seal bytes) [
    | none ↦ record r { type = type }
    | some sealed ↦ record r { sealed_data = sealed; unsealed_len = length bytes; type = type }
  ]

  -- None for the assertion at an unknown type
  unfoldable pub load_resource : SslResource → Tls Key Cert → Option (Tls Key Cert)
  unfolding unseal_certificate unseal_key
  load_resource r t =
      if r.type == ssl_resource_ca_cert
      then some (record t { cacert = unseal_certificate r.sealed_data })
      else if r.type == ssl_resource_cert
      then some (record t { cert = unseal_certificate r.sealed_data })
      else if r.type == ssl_resource_pk
      then some (record t { key = unseal_key r.sealed_data t.key })
      else none

  unfoldable pub load_sealed_ssl_resources : SslResources → Tls Key Cert → Option (Tls Key Cert)
  unfolding load_resource
  load_sealed_ssl_resources rs t = do
    t1 ← load_resource rs.rs0 t
    t2 ← load_resource rs.rs1 t1
    load_resource rs.rs2 t2

  -- `return`, before the resources are complete
  abbrev given_up : Tls Key Cert → SslResources → Option (Generated Key Cert)
  given_up t rs = some (record { tls = t; rs = rs; written = false })

  -- The CA's certificate is sealed last; it may not be null. It belongs to the session with the CA, which
  -- `mbedtls_ssl_free` frees at the end.
  unfoldable pub seal_ca : Tls Key Cert → SslResources → Option Cert → Option (Generated Key Cert)
  unfolding seal_ssl_resource
  seal_ca t rs none = none
  seal_ca t rs (some ca) = some (record {
    tls = record t { cacert = freed };
    rs = record rs { rs0 = seal_ssl_resource (lib.raw ca) ssl_resource_ca_cert rs.rs0 };
    written = true;
  })

  -- The switch's certificate has been parsed, or not.
  unfoldable pub parsed :
      Tls Key Cert → SslResources → List ℕ → Option Cert → Option Cert → Option (Generated Key Cert)
  unfolding seal_ca seal_ssl_resource
  parsed t rs text peer none = given_up (record t { cert = blank }) rs
  parsed t rs text peer (some c) =
      seal_ca (record t { cert = loaded c })
        (record rs { rs1 = seal_ssl_resource text ssl_resource_cert rs.rs1 }) peer

  -- The certificate is the answer from its dashes on, with a zero after it.
  unfoldable pub found :
      Tls Key Cert → SslResources → Option Cert → Option (List ℕ) → Option (Generated Key Cert)
  unfolding parsed
  found t rs peer none = none
  found t rs peer (some start) =
      parsed t rs (start ++ (0 ∷ [])) peer (lib.parse_certificate (start ++ (0 ∷ [])))

  -- The CA's second answer; without a length, or past the buffer, the behaviour is undefined.
  unfoldable pub certified_by :
      Tls Key Cert → SslResources → Option Cert → Reply → Option (Generated Key Cert)
  unfolding found
  certified_by t rs peer (reply bytes) = found t rs peer (from_dashes bytes)
  certified_by t rs peer overflow = none
  certified_by t rs peer no_value = none
  certified_by t rs peer waiting = none

  -- The CA's verdict on the measurement
  unfoldable pub judge :
      Tls Key Cert → SslResources → Session Key Cert → List ℕ → Option (Generated Key Cert)
  unfolding certified_by
  judge t rs session bytes =
      if is_mok bytes
      then certified_by t rs session.peer_cert (send_recv cer_buf_size session.certified)
      else given_up t rs

  -- The CA's first answer; without one, `ima_res` begins with zeros, and past its end the behaviour is
  -- undefined.
  unfoldable pub measured_by :
      Tls Key Cert → SslResources → Session Key Cert → Reply → Option (Generated Key Cert)
  unfolding judge
  measured_by t rs session (reply bytes) = judge t rs session bytes
  measured_by t rs session overflow = none
  measured_by t rs session no_value = judge t rs session []
  measured_by t rs session waiting = none

  -- The text of the key; an empty one, if writing it fails
  unfoldable pub key_text : Key → List ℕ
  key_text k = elim (lib.write_key_pem k) [ none ↦ [] | some text ↦ text ]

  unfoldable pub connect :
      Tls Key Cert → SslResources → Session Key Cert → Option (Generated Key Cert)
  unfolding measured_by
  connect t rs session =
      if session.handshake == 0
      then measured_by t rs session (send_recv ima_res_size session.measured)
      else given_up t rs

  -- A key has been generated, or not.
  unfoldable pub with_key :
      Tls Key Cert → SslResources → Session Key Cert → Option Key → Option (Generated Key Cert)
  unfolding connect seal_ssl_resource key_text
  with_key t rs session none = given_up t rs
  with_key t rs session (some k) =
      connect (record t { key = some k })
        (record rs { rs2 = seal_ssl_resource (key_text k) ssl_resource_pk rs.rs2 }) session

  unfoldable pub generate_keys :
      Tls Key Cert → SslResources → Session Key Cert → Option (Generated Key Cert)
  unfolding load_sealed_ssl_resources with_key
  generate_keys t rs session =
      let t0 = record t { key = none } in
      if all_ssl_resources_exist rs
      then load_sealed_ssl_resources rs t0 >>= (λ t'. given_up t' rs)
      else if session.setup == 0
      then with_key t0 rs session session.generated
      else given_up t0 rs

  -- The first argument is the result of `mbedtls_ctr_drbg_seed`; `keys_generated` is set however
  -- `generate_keys` ends.
  unfoldable pub ecall_ssl_library_init :
      ℕ → Tls Key Cert → SslResources → Session Key Cert → Option (Generated Key Cert)
  ecall_ssl_library_init seed t rs session =
      if seed == 0
      then if t.keys_generated
        then given_up t rs
        else generate_keys t rs session
          >>= (λ g. some (record g { tls = record g.tls { keys_generated = true } }))
      else given_up t rs
