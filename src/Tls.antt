-- ===== src/Tls.antt =====
-- The TLS client in an enclave, TLSonSGX/trusted/enclave.c: its global variables and the calls on a
-- connection. A call of mbedtls is an argument, its result. A call is `none` where the source
-- dereferences a pointer that is null or freed.
pub mod Keys
pub mod Trust
pub mod Restart
pub mod Sessions
mod Examples
use ovs_sgx.Prelude.{ℕ, Bool, true, false, Option, none, some, ◌==◌, if◌then◌else◌}

-- A pointer to a certificate: null, to memory that has been freed, to a certificate that was initialised
-- and not parsed, or to a parsed one
pub data Certificate (Cert : Type 0) : Type 0 where
  null : Certificate Cert
  freed : Certificate Cert
  blank : Certificate Cert
  loaded : (c : Cert) → Certificate Cert

-- `SSL_CTX`, with copies of the certificates and the key
pub record SslCtx (Key Cert : Type 0) : Type 0 where
  pub authmode : ℕ
  pub ca_cert : Certificate Cert
  pub cert : Certificate Cert
  pub pk : Option Key

-- `SSL`; `authmode` is that of its configuration, `fd` a bit pattern.
pub record Ssl : Type 0 where
  pub fd : ℕ
  pub last_error : ℕ
  pub state : ℕ
  pub authmode : ℕ
  pub has_ctx : Bool

-- The global variables of the enclave
pub record Tls (Key Cert : Type 0) : Type 0 where
  pub ssl : Option Ssl
  pub ctx : Option (SslCtx Key Cert)
  pub cacert : Certificate Cert
  pub cert : Certificate Cert
  pub key : Option Key
  pub keys_generated : Bool

abbrev pub verify_none : ℕ
verify_none = 0

abbrev pub verify_optional : ℕ
verify_optional = 1

abbrev pub verify_required : ℕ
verify_required = 2

-- `*p`, which must be neither null nor freed
unfoldable pub is_invalid : {Cert : Type 0} → Certificate Cert → Bool
is_invalid null = true
is_invalid freed = true
is_invalid blank = false
is_invalid (loaded c) = false

module _ {Key Cert : Type 0} where
  -- The variables as the enclave starts
  abbrev pub start : Tls Key Cert
  start = record {
    ssl = none;
    ctx = none;
    cacert = null;
    cert = null;
    key = none;
    keys_generated = false;
  }

  -- A result that is stored in `ssl->last_error` and returned, with the state that mbedtls leaves
  unfoldable pub set_error : Tls Key Cert → ℕ → ℕ → Option (ℕ × Tls Key Cert)
  set_error t result state = elim t.ssl [
    | none ↦ none
    | some s ↦
        some (result, record t { ssl = some (record s { last_error = result; state = state }) })
  ]

  unfoldable pub ecall_ssl_read : Tls Key Cert → ℕ → ℕ → Option (ℕ × Tls Key Cert)
  unfolding set_error
  ecall_ssl_read t result state = set_error t result state

  unfoldable pub ecall_ssl_write : Tls Key Cert → ℕ → ℕ → Option (ℕ × Tls Key Cert)
  unfolding set_error
  ecall_ssl_write t result state = set_error t result state

  unfoldable pub ecall_ssl_accept : Tls Key Cert → ℕ → ℕ → Option (ℕ × Tls Key Cert)
  unfolding set_error
  ecall_ssl_accept t result state = set_error t result state

  -- The result of the handshake, with 1 for success; `ssl` is dereferenced before it is tested.
  unfoldable pub ecall_ssl_connect : Tls Key Cert → ℕ → ℕ → Option (ℕ × Tls Key Cert)
  unfolding set_error
  ecall_ssl_connect t result state = set_error t (if result == 0 then 1 else result) state

  unfoldable pub ecall_ssl_get_error : Tls Key Cert → ℕ
  ecall_ssl_get_error t = elim t.ssl [ none ↦ 100 | some s ↦ s.last_error ]

  unfoldable pub ecall_ssl_set_fd : Tls Key Cert → ℕ → Option (ℕ × Tls Key Cert)
  ecall_ssl_set_fd t fd = elim t.ssl [
    | none ↦ none
    | some s ↦ some (1, record t { ssl = some (record s { fd = fd; last_error = 0 }) })
  ]

  unfoldable pub ecall_ssl_get_state : Tls Key Cert → ℕ
  ecall_ssl_get_state t = elim t.ssl [ none ↦ 100 | some s ↦ if s.state == 16 then 3 else s.state ]

  -- The certificates are copied, so neither may be null or freed.
  unfoldable pub ecall_ssl_ctx_new : Tls Key Cert → Option (Tls Key Cert)
  unfolding is_invalid
  ecall_ssl_ctx_new t =
      if is_invalid t.cacert
      then none
      else if is_invalid t.cert
      then none
      else some (record t {
        ctx = some (record { authmode = 0; ca_cert = t.cacert; cert = t.cert; pk = t.key });
      })

  -- The second assignment overwrites the first.
  unfoldable pub ecall_ssl_ctx_set_verify : Tls Key Cert → Option (Tls Key Cert)
  ecall_ssl_ctx_set_verify t = elim t.ctx [
    | none ↦ none
    | some c ↦ some (record t { ctx = some (record c { authmode = verify_optional }) })
  ]

  unfoldable pub ecall_ssl_ctx_free : Tls Key Cert → Tls Key Cert
  ecall_ssl_ctx_free t = record t { ctx = none }

  -- The connection takes the mode of the context; `fd` is set, and the context, only after a successful
  -- `mbedtls_ssl_setup`, whose result is the argument.
  unfoldable pub ecall_ssl_new : Tls Key Cert → ℕ → Option (Tls Key Cert)
  ecall_ssl_new t setup = elim t.ctx [
    | none ↦ none
    | some c ↦ some (record t {
      ssl = some (record {
        fd = if setup == 0 then 4294967295 else 0;
        last_error = 0;
        state = 0;
        authmode = c.authmode;
        has_ctx = setup == 0;
      });
    })
  ]

  -- `ssl->ssl_ctx->ssl_method` is written, so neither pointer may be null.
  unfoldable pub ecall_ssl_free : Tls Key Cert → Option (Tls Key Cert)
  ecall_ssl_free t = elim t.ssl [
    | none ↦ none
    | some s ↦ if s.has_ctx then some (record t { ssl = none }) else none
  ]
