-- ===== src/Server/Apple.antt =====
-- main.rs: the handlers of `/attest/apple`.
use attestation.Common.{Result, ok, ok_or, ◌>>=◌}
use attestation.X509.{Crypto}
use attestation.Apple.Verify.{verify_app_attest}
use attestation.Apple.Assertion.{verify_assertion}
use attestation.Server.Data.{
  AttestError, Host, AppState, AppleRequest, AttestResponse, AppleAssertionRequest,
  AssertionResponse, apple_result, apple_payload, assertion_payload, invalid_hex, bcs_failed,
}
use attestation.Server.Device.{request_nsm_attestation, stamp_ms}

module _ (h : Host) where
  open h use {
    x509, crypto, cbor, der, nonce_from_der, unicode_lower, apple_root, android_roots, hex_decode,
    hex_encode, apple_bcs, assertion_bcs, android_bcs, nsm_init, nsm_process_request, now,
  }

  unfoldable pub attest_apple_attestation :
      AppState → AppleRequest → Result AttestError AttestResponse
  unfolding request_nsm_attestation
  attest_apple_attestation state req = do
    attestation_object ←
        ok_or (hex_decode req.attestation_object_hex) (invalid_hex "attestation_object_hex")
    key_id ← ok_or (hex_decode req.key_id_hex) (invalid_hex "key_id_hex")
    challenge ← ok_or (hex_decode req.challenge_hex) (invalid_hex "challenge_hex")
    outcome ← apple_result (
        verify_app_attest cbor x509 crypto nonce_from_der apple_root attestation_object key_id
          challenge req.app_id req.production (stamp_ms h))
    payload_bcs ← ok_or (apple_bcs (apple_payload outcome)) bcs_failed
    nsm_doc ← request_nsm_attestation h state.verifying_key (Crypto.sha256 crypto payload_bcs)
    ok (record {
      nsm_doc_hex = hex_encode nsm_doc;
      attested_value_hex = hex_encode outcome.attested_value;
      challenge_hex = hex_encode outcome.challenge;
      detail_hash_hex = hex_encode outcome.detail_hash;
      public_key_hex = hex_encode state.verifying_key;
    })

  unfoldable pub attest_apple_assertion :
      AppState → AppleAssertionRequest → Result AttestError AssertionResponse
  unfolding request_nsm_attestation
  attest_apple_assertion state req = do
    assertion_object ←
        ok_or (hex_decode req.assertion_object_hex) (invalid_hex "assertion_object_hex")
    client_data ← ok_or (hex_decode req.client_data_hex) (invalid_hex "client_data_hex")
    attested_key ← ok_or (hex_decode req.attested_key_hex) (invalid_hex "attested_key_hex")
    outcome ← apple_result (
        verify_assertion cbor crypto assertion_object client_data attested_key req.app_id
          (stamp_ms h))
    payload_bcs ← ok_or (assertion_bcs (assertion_payload outcome)) bcs_failed
    nsm_doc ← request_nsm_attestation h state.verifying_key (Crypto.sha256 crypto payload_bcs)
    ok (record {
      nsm_doc_hex = hex_encode nsm_doc;
      attested_key_hex = hex_encode outcome.attested_value;
      client_data_hex = hex_encode outcome.challenge;
      public_key_hex = hex_encode state.verifying_key;
    })
