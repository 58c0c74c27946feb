-- ===== src/Server/Device.antt =====
-- main.rs: `/health`, `/attestation`, the request to the security module and the clock.
use attestation.Common.{ℕ, ◌%◌, ◌^◌, String, none, some, [], Bytes, Result, ok, err, ok_or, ◌>>=◌}
use attestation.Server.Data.{
  AttestError, not_implemented, internal_server_error, Host, AppState, Health, health_sources,
  document_of, nsm_init_failed,
}

module _ (h : Host) where
  open h use {
    x509, crypto, cbor, der, nonce_from_der, unicode_lower, apple_root, android_roots, hex_decode,
    hex_encode, apple_bcs, assertion_bcs, android_bcs, nsm_init, nsm_process_request, now,
  }

  -- `version` is the crate's.
  abbrev pub health : (version : String) → AppState → Health
  health version state = record {
    public_key_hex = hex_encode state.verifying_key;
    version = version;
    sources = health_sources;
  }

  -- On Linux.
  unfoldable pub request_nsm_attestation : (public_key user_data : Bytes) → Result AttestError Bytes
  request_nsm_attestation public_key user_data = do
    fd ← ok_or nsm_init nsm_init_failed
    document_of (nsm_process_request fd (record { public_key = public_key; user_data = user_data }))

  abbrev doc_status : AttestError → ℕ
  doc_status nsm_init_failed = not_implemented
  doc_status _ = internal_server_error

  -- The document in hexadecimal, or the status of the error.
  unfoldable pub attestation_doc : AppState → Result ℕ Bytes
  unfolding request_nsm_attestation
  attestation_doc state = elim (request_nsm_attestation state.verifying_key []) [
    | ok doc ↦ ok (hex_encode doc)
    | err e ↦ err (doc_status e)
  ]

  -- `SystemTime::now()` since the epoch in milliseconds, as a `u64`
  abbrev pub stamp_ms : ℕ
  stamp_ms = elim now [ none ↦ 0 | some ms ↦ ms % 2 ^ 64 ]
