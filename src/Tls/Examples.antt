-- ===== src/Tls/Examples.antt =====
-- Sessions of TLSonSGX/trusted/enclave.c at concrete answers, with a library that seals by a mark and
-- whose keys and certificates are their bytes.
use ovs_sgx.Prelude.{ℕ, ◌≡◌, ◌≢◌, refl, true, false, List, [], ◌∷◌, Option, none, some, arith}
use ovs_sgx.Tls.{
  freed, loaded, Tls, Ssl, start, verify_required, ecall_ssl_ctx_new, ecall_ssl_ctx_set_verify,
  ecall_ssl_new,
}
use ovs_sgx.Tls.Keys.{
  Library, SslResource, SslResources, all_ssl_resources_exist, Session, want, received, Generated,
  generate_keys, is_mok, from_dashes, send_recv, ecall_ssl_library_init,
}
use ovs_sgx.Tls.Trust.{Approved, Keeps, generate_keys-Keeps}
use ovs_sgx.Tls.Restart.{on_disk}
use ovs_sgx.Tls.Sessions.{
  TlsCall, library_init, ctx_new, ctx_set_verify, new, tls_call, tls_calls, never_required,
}

abbrev unmark : List ℕ → Option (List ℕ)
unmark [] = none
unmark (x ∷ xs) = some xs

-- All but the last byte
abbrev but_last : List ℕ → List ℕ
but_last [] = []
but_last (x ∷ []) = []
but_last (x ∷ y ∷ xs) = x ∷ but_last (y ∷ xs)

abbrev marking : Library (List ℕ) (List ℕ)
marking = record {
  seal = λ x. some (1 ∷ x);
  unseal = unmark;
  write_key_pem = λ k. some k;
  parse_key = λ x. some (but_last x);
  parse_certificate = λ x. some x;
  raw = λ c. c;
}

abbrev missing : SslResource
missing = record { sealed_data = []; unsealed_len = 0; type = 0; exists = false }

abbrev empty_disk : SslResources
empty_disk = record { rs0 = missing; rs1 = missing; rs2 = missing }

-- The CA says "MOK" and sends "-----C".
abbrev approving : Session (List ℕ) (List ℕ)
approving = record {
  setup = 0;
  generated = some (7 ∷ 8 ∷ []);
  handshake = 0;
  measured = want ∷ received (77 ∷ 79 ∷ 75 ∷ []) ∷ [];
  certified = received (10 ∷ 45 ∷ 45 ∷ 45 ∷ 45 ∷ 45 ∷ 67 ∷ []) ∷ [];
  peer_cert = some (9 ∷ []);
}

-- The CA says "BAD".
abbrev rejecting : Session (List ℕ) (List ℕ)
rejecting = record approving { measured = received (66 ∷ 65 ∷ 68 ∷ []) ∷ [] }

rejecting-unapproved : ¬ Approved rejecting
unfolding send_recv is_mok
rejecting-unapproved a = ground arith

abbrev sealed_key : SslResource
sealed_key = record { sealed_data = 1 ∷ 7 ∷ 8 ∷ []; unsealed_len = 2; type = 2; exists = false }

abbrev rejected : Generated (List ℕ) (List ℕ)
rejected = record {
  tls = record start { key = some (7 ∷ 8 ∷ []) };
  rs = record empty_disk { rs2 = sealed_key };
  written = false;
}

generate_keys-rejected : generate_keys marking start empty_disk rejecting ≡ some rejected
unfolding generate_keys all_ssl_resources_exist send_recv is_mok
generate_keys-rejected = refl

no_resources : all_ssl_resources_exist empty_disk ≡ false
unfolding all_ssl_resources_exist
no_resources = refl

generate_keys-Keeps_example : Keeps start rejected
generate_keys-Keeps_example =
    generate_keys-Keeps marking start empty_disk rejecting rejected no_resources
      rejecting-unapproved generate_keys-rejected

abbrev initialised : Generated (List ℕ) (List ℕ)
initialised = record rejected { tls = record rejected.tls { keys_generated = true } }

abbrev approved : Generated (List ℕ) (List ℕ)
approved = record {
  tls = record start {
    key = some (7 ∷ 8 ∷ []);
    cert = loaded (45 ∷ 45 ∷ 45 ∷ 45 ∷ 45 ∷ 67 ∷ 0 ∷ []);
    cacert = freed;
  };
  rs = record {
    rs0 = record { sealed_data = 1 ∷ 9 ∷ []; unsealed_len = 1; type = 0; exists = false };
    rs1 = record {
      sealed_data = 1 ∷ 45 ∷ 45 ∷ 45 ∷ 45 ∷ 45 ∷ 67 ∷ 0 ∷ [];
      unsealed_len = 7;
      type = 1;
      exists = false;
    };
    rs2 = sealed_key;
  };
  written = true;
}

abbrev session_calls : List (TlsCall (List ℕ) (List ℕ))
session_calls =
    library_init 0 (on_disk approved.rs) rejecting ∷ ctx_new ∷ ctx_set_verify ∷ new 0 ∷ []

abbrev verified : Ssl
verified = record { fd = 4294967295; last_error = 0; state = 0; authmode = 1; has_ctx = true }

abbrev connected : Tls (List ℕ) (List ℕ)
connected = record approved.tls {
  cacert = loaded (9 ∷ []);
  ssl = some verified;
  ctx = some (record {
    authmode = 1;
    ca_cert = loaded (9 ∷ []);
    cert = approved.tls.cert;
    pk = approved.tls.key;
  });
  keys_generated = true;
}

-- Right after the keys were made, the CA's certificate is used after it was freed.
used_after_free : ecall_ssl_ctx_new approved.tls ≡ none
unfolding ecall_ssl_ctx_new
used_after_free = refl

calls-connected : tls_calls marking session_calls start ≡ some connected
unfolding tls_calls tls_call ecall_ssl_library_init generate_keys all_ssl_resources_exist send_recv
    is_mok from_dashes ecall_ssl_ctx_new ecall_ssl_ctx_set_verify ecall_ssl_new on_disk
calls-connected = refl

never_required_example : verified.authmode ≢ verify_required
never_required_example =
    never_required marking session_calls connected verified calls-connected refl
