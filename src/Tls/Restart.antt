-- ===== src/Tls/Restart.antt =====
-- The resources that generate_keys of TLSonSGX/trusted/enclave.c seals, and what
-- load_sealed_ssl_resources makes of them when the enclave starts again.
use ovs_sgx.Prelude.{ℕ, ◌≡◌, true, List, [], ◌∷◌, ◌++◌, Option, some}
use ovs_sgx.Tls.{Certificate, loaded, Tls}
use ovs_sgx.Tls.Keys.{
  Library, SslResource, SslResources, Session, reply, send_recv, cer_buf_size, from_dashes,
  Generated, unseal_certificate, unseal_key,
}

-- What is documented of sealing, of the text of a key and of the raw form of a certificate: where it
-- succeeds, it can be undone.
pub record Faithful {Key Cert : Type 0} (lib : Library Key Cert) : Type 0 where
  pub sealed : (x y : List ℕ) → lib.seal x ≡ some y → lib.unseal y ≡ some x
  pub written :
      (k : Key) (text : List ℕ)
      → lib.write_key_pem k ≡ some text
      → lib.parse_key (text ++ (0 ∷ [])) ≡ some k
  pub encoded : (c : Cert) → lib.parse_certificate (lib.raw c) ≡ some c

abbrev pub Seals : {Key Cert : Type 0} → Library Key Cert → List ℕ → Type 0
Seals lib bytes = (y : List ℕ) × (lib.seal bytes ≡ some y)

-- The key of the session can be written as text, and the text, the certificate that the CA sends and the
-- CA's own can be sealed.
pub record AllSealed {Key Cert : Type 0} (lib : Library Key Cert) (session : Session Key Cert)
    : Type 0 where
  pub key :
      (k : Key)
      → session.generated ≡ some k
      → (text : List ℕ) × (lib.write_key_pem k ≡ some text) × Seals lib text
  pub cert :
      (bytes start : List ℕ)
      → send_recv cer_buf_size session.certified ≡ reply bytes
      → from_dashes bytes ≡ some start
      → Seals lib (start ++ (0 ∷ []))
  pub ca : (c : Cert) → session.peer_cert ≡ some c → Seals lib (lib.raw c)

-- The files exist when the enclave starts again.
unfoldable pub on_disk : SslResources → SslResources
on_disk rs = record {
  rs0 = record rs.rs0 { exists = true };
  rs1 = record rs.rs1 { exists = true };
  rs2 = record rs.rs2 { exists = true };
}

module _ {Key Cert : Type 0} (lib : Library Key Cert) (ok : Faithful lib) where
  abbrev HoldsCertificate : SslResource → ℕ → Certificate Cert → Type 0
  HoldsCertificate r type c = (r.type ≡ type) × (unseal_certificate lib r.sealed_data ≡ c)

  abbrev HoldsKey : SslResource → Option Key → Type 0
  HoldsKey r k = (r.type ≡ 2) × ((old : Option Key) → unseal_key lib r.sealed_data old ≡ k)

  -- The resources hold the CA's certificate, the switch's and the key.
  abbrev Holds : Option Cert → Generated Key Cert → Type 0
  Holds peer g =
      ((ca : Cert) × (peer ≡ some ca) × HoldsCertificate g.rs.rs0 0 (loaded ca))
      × HoldsCertificate g.rs.rs1 1 g.tls.cert
      × HoldsKey g.rs.rs2 g.tls.key
