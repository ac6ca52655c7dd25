-- ===== src/Tls/Trust.antt =====
-- When generate_keys of TLSonSGX/trusted/enclave.c gets a certificate, and what remains when it gets
-- none.
use ovs_sgx.Prelude.{
  ℕ, ◌≡◌, refl, ◌==◌, inl, inr, Bool, true, false, List, Option, none, some, Bool-cases, ==_iff,
  arith,
}
use ovs_sgx.Tls.{Tls}
use ovs_sgx.Tls.Keys.{
  Library, SslResources, all_ssl_resources_exist, Session, Reply, reply, overflow, no_value,
  waiting, send_recv, ima_res_size, is_mok, Generated, generate_keys, with_key, connect,
  measured_by, judge, seal_ssl_resource, key_text, ssl_resource_pk,
}

-- The CA has approved the measurement: the handshake succeeded, and its first answer fits its buffer and
-- is "MOK".
abbrev pub Approved : {Key Cert : Type 0} → Session Key Cert → Type 0
Approved session =
    (session.handshake ≡ 0)
    × (bytes : List ℕ) × (send_recv ima_res_size session.measured ≡ reply bytes)
    × (is_mok bytes ≡ true)

-- No certificate was got, and none is written to disk.
abbrev pub Keeps : {Key Cert : Type 0} → Tls Key Cert → Generated Key Cert → Type 0
Keeps t g = (g.written ≡ false) × (g.tls.cert ≡ t.cert) × (g.tls.cacert ≡ t.cacert)

not_true : (b : Bool) → ¬ (b ≡ true) → b ≡ false
not_true true h = absurd (h refl)
not_true false h = refl

module _ {Key Cert : Type 0} (lib : Library Key Cert) where
  measured_by-Keeps :
      (t : Tls Key Cert) (rs : SslResources) (session : Session Key Cert) (r : Reply)
      (g : Generated Key Cert)
      → ((bytes : List ℕ) → r ≡ reply bytes → is_mok bytes ≡ false)
      → measured_by lib t rs session r ≡ some g
      → Keeps t g
  unfolding measured_by judge is_mok
  measured_by-Keeps t rs session (reply bytes) g m h =
      let e : is_mok bytes ≡ false = m bytes refl in ground arith
  measured_by-Keeps t rs session overflow g m h = cc
  measured_by-Keeps t rs session no_value g m h = ground arith
  measured_by-Keeps t rs session waiting g m h = cc

  connect-Keeps :
      (t : Tls Key Cert) (rs : SslResources) (session : Session Key Cert) (g : Generated Key Cert)
      → ¬ Approved session
      → connect lib t rs session ≡ some g
      → Keeps t g
  unfolding connect
  connect-Keeps t rs session g m h = elim (Bool-cases (session.handshake == 0)) [
    | inl e ↦
        measured_by-Keeps t rs session (send_recv ima_res_size session.measured) g
          (λ bytes r.
            not_true (is_mok bytes) (λ k. m ((==_iff session.handshake 0).0 e, bytes, r, k)))
          (rw e at h)
    | inr e ↦ ground (arith, e)
  ]

  with_key-Keeps :
      (t : Tls Key Cert) (rs : SslResources) (session : Session Key Cert) (k : Option Key)
      (g : Generated Key Cert)
      → ¬ Approved session
      → with_key lib t rs session k ≡ some g
      → Keeps t g
  unfolding with_key
  with_key-Keeps t rs session none g m h = ground arith
  with_key-Keeps t rs session (some k) g m h =
      connect-Keeps (record t { key = some k })
        (record rs { rs2 = seal_ssl_resource lib (key_text lib k) ssl_resource_pk rs.rs2 }) session
        g m h

  -- Without resources on disk, and unless the handshake with the CA succeeds and the CA answers "MOK" to
  -- the measurement, generate_keys, if it ends without undefined behaviour, such as an answer of more than
  -- 128 bytes to the measurement has, leaves the certificates as they are and nothing to write to disk.
  pub generate_keys-Keeps :
      (t : Tls Key Cert) (rs : SslResources) (session : Session Key Cert) (g : Generated Key Cert)
      → all_ssl_resources_exist rs ≡ false
      → ¬ Approved session
      → generate_keys lib t rs session ≡ some g
      → Keeps t g
  unfolding generate_keys
  generate_keys-Keeps t rs session g x m h = elim (Bool-cases (session.setup == 0)) [
    | inl e ↦
        with_key-Keeps (record t { key = none }) rs session session.generated g m (rw (x, e) at h)
    | inr e ↦ ground (arith, e)
  ]
