-- ===== src/Tls/Sessions.antt =====
-- The calls of TLSonSGX/trusted/enclave.c in any order, from the start of the enclave on.
use ovs_sgx.Prelude.{
  ℕ, ◌≤◌, ◌≡◌, ◌≢◌, List, [], ◌∷◌, Option, none, some, Option-cases, inl, inr, arith,
}
use ovs_sgx.Tls.{
  Tls, Ssl, SslCtx, start, verify_required, set_error, ecall_ssl_read, ecall_ssl_write,
  ecall_ssl_accept, ecall_ssl_connect, ecall_ssl_set_fd, ecall_ssl_ctx_new,
  ecall_ssl_ctx_set_verify, ecall_ssl_ctx_free, ecall_ssl_new, ecall_ssl_free,
}
use ovs_sgx.Tls.Keys.{
  Library, SslResources, Session, Generated, generate_keys, with_key, ecall_ssl_library_init, ◌>>=◌,
}

-- One call of the enclave, with what mbedtls and the world answer
pub data TlsCall (Key Cert : Type 0) : Type 0 where
  library_init : (seed : ℕ) (rs : SslResources) (session : Session Key Cert) → TlsCall Key Cert
  ctx_new : TlsCall Key Cert
  ctx_set_verify : TlsCall Key Cert
  ctx_free : TlsCall Key Cert
  new : (setup : ℕ) → TlsCall Key Cert
  free : TlsCall Key Cert
  set_fd : (fd : ℕ) → TlsCall Key Cert
  connect_to : (result state : ℕ) → TlsCall Key Cert
  accept_from : (result state : ℕ) → TlsCall Key Cert
  read_from : (result state : ℕ) → TlsCall Key Cert
  write_to : (result state : ℕ) → TlsCall Key Cert

module _ {Key Cert : Type 0} (lib : Library Key Cert) where
  unfoldable pub tls_call : TlsCall Key Cert → Tls Key Cert → Option (Tls Key Cert)
  tls_call (library_init seed rs session) t =
      ecall_ssl_library_init lib seed t rs session >>= λ g. some g.tls
  tls_call ctx_new t = ecall_ssl_ctx_new t
  tls_call ctx_set_verify t = ecall_ssl_ctx_set_verify t
  tls_call ctx_free t = some (ecall_ssl_ctx_free t)
  tls_call (new setup) t = ecall_ssl_new t setup
  tls_call free t = ecall_ssl_free t
  tls_call (set_fd fd) t = ecall_ssl_set_fd t fd >>= λ r. some r.1
  tls_call (connect_to result state) t = ecall_ssl_connect t result state >>= λ r. some r.1
  tls_call (accept_from result state) t = ecall_ssl_accept t result state >>= λ r. some r.1
  tls_call (read_from result state) t = ecall_ssl_read t result state >>= λ r. some r.1
  tls_call (write_to result state) t = ecall_ssl_write t result state >>= λ r. some r.1

  unfoldable pub tls_calls : List (TlsCall Key Cert) → Tls Key Cert → Option (Tls Key Cert)
  tls_calls [] t = some t
  tls_calls (k ∷ ks) t = tls_call k t >>= tls_calls ks

  abbrev ctx_mode : Option (SslCtx Key Cert) → ℕ
  ctx_mode none = 0
  ctx_mode (some c) = c.authmode

  abbrev ssl_mode : Option Ssl → ℕ
  ssl_mode none = 0
  ssl_mode (some s) = s.authmode

  abbrev NeverRequires : Tls Key Cert → Type 0
  NeverRequires t = (ctx_mode t.ctx ≤ 1) × (ssl_mode t.ssl ≤ 1)

  -- Generating keys leaves the connection and the context alone.
  generate_keys-frame :
      (t : Tls Key Cert) (rs : SslResources) (session : Session Key Cert) (g : Generated Key Cert)
      → generate_keys lib t rs session ≡ some g
      → (g.tls.ssl ≡ t.ssl) × (g.tls.ctx ≡ t.ctx)
  unfolding generate_keys with_key
  generate_keys-frame t rs session g h = ground arith

  init-frame :
      (seed : ℕ) (t : Tls Key Cert) (rs : SslResources) (session : Session Key Cert)
      (g : Generated Key Cert)
      → ecall_ssl_library_init lib seed t rs session ≡ some g
      → (g.tls.ssl ≡ t.ssl) × (g.tls.ctx ≡ t.ctx)
  unfolding ecall_ssl_library_init
  init-frame seed t rs session g h = elim (Option-cases (generate_keys lib t rs session)) [
    | inl e ↦ ground (arith, e)
    | inr (g', e) ↦ let (a, b) = generate_keys-frame t rs session g' e in ground (arith, e)
  ]

  tls_call-NeverRequires :
      (k : TlsCall Key Cert) (t t' : Tls Key Cert)
      → NeverRequires t
      → tls_call k t ≡ some t'
      → NeverRequires t'
  unfolding tls_call ecall_ssl_ctx_new ecall_ssl_ctx_set_verify ecall_ssl_ctx_free ecall_ssl_new
      ecall_ssl_free ecall_ssl_set_fd ecall_ssl_connect ecall_ssl_accept ecall_ssl_read
      ecall_ssl_write set_error
  tls_call-NeverRequires (library_init seed rs session) t t' n h =
      elim (Option-cases (ecall_ssl_library_init lib seed t rs session)) [
        | inl e ↦ absurd (ground (arith, e))
        | inr (g, e) ↦ let (a, b) = init-frame seed t rs session g e in ground (arith, e)
      ]
  tls_call-NeverRequires ctx_new t t' n h = ground arith
  tls_call-NeverRequires k t t' n h = ground arith

  calls-NeverRequires :
      (ks : List (TlsCall Key Cert)) (t t' : Tls Key Cert)
      → NeverRequires t
      → tls_calls ks t ≡ some t'
      → NeverRequires t'
  unfolding tls_calls
  calls-NeverRequires [] t t' n h = ground arith
  calls-NeverRequires (k ∷ ks) t t' n h = elim (Option-cases (tls_call k t)) [
    | inl e ↦ absurd (ground (arith, e))
    | inr (u, e) ↦ calls-NeverRequires ks u t' (tls_call-NeverRequires k t u n e) (rw e at h)
  ]

  -- In no order of the calls does a connection ever require the peer's certificate to be verified: after
  -- ecall_ssl_ctx_set_verify, too, verification is optional at most.
  pub never_required :
      (ks : List (TlsCall Key Cert)) (t : Tls Key Cert) (s : Ssl)
      → tls_calls ks start ≡ some t
      → t.ssl ≡ some s
      → s.authmode ≢ verify_required
  never_required ks t s h e =
      let n = calls-NeverRequires ks start t (omega arith) h in λ r. absurd (ground (arith, n.1))
