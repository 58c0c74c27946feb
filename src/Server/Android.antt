-- ===== src/Server/Android.antt =====
-- main.rs: the handler of `/attest/android`.
use attestation.Common.{String, Option, none, some, List, [], ◌∷◌, Bytes, Result, ok, ok_or, ◌>>=◌}
use attestation.X509.{Crypto}
use attestation.Android.Revocation.{StatusList, from_json}
use attestation.Android.Verify.{verify_attestation}
use attestation.Server.Data.{
  AttestError, Host, AppState, AndroidRequest, AndroidResponse, parse_security_level,
  android_result, android_payload, policy_of, invalid_hex, bcs_failed,
}
use attestation.Server.Device.{request_nsm_attestation, stamp_ms}

module _ (h : Host) where
  open h use {
    x509, crypto, cbor, der, nonce_from_der, unicode_lower, apple_root, android_roots, hex_decode,
    hex_encode, apple_bcs, assertion_bcs, android_bcs, nsm_init, nsm_process_request, now,
  }

  -- `.iter().map(hex::decode).collect::<Result<_, _>>()`
  unfoldable pub decode_all : (field : String) → List Bytes → Result AttestError (List Bytes)
  decode_all field [] = ok []
  decode_all field (t ∷ ts) = do
    bytes ← ok_or (hex_decode t) (invalid_hex field)
    rest ← decode_all field ts
    ok (bytes ∷ rest)

  abbrev pub parse_status_list : Option Bytes → Result AttestError (Option StatusList)
  parse_status_list none = ok none
  parse_status_list (some json) = do
    list ← android_result (from_json unicode_lower json)
    ok (some list)

  unfoldable pub attest_android_attestation :
      AppState → AndroidRequest → Result AttestError AndroidResponse
  unfolding request_nsm_attestation decode_all
  attest_android_attestation state req = do
    chain ← decode_all "chain" req.chain_hex
    challenge ← ok_or (hex_decode req.challenge_hex) (invalid_hex "challenge_hex")
    min_level ← parse_security_level req.min_security_level
    allowed_keys ← decode_all "allowed_self_signed_keys_hex" req.allowed_self_signed_keys_hex
    status_list ← parse_status_list req.status_list_json
    let policy = policy_of req min_level allowed_keys status_list
    outcome ←
        android_result
          (verify_attestation x509 crypto der android_roots chain challenge policy (stamp_ms h))
    payload_bcs ← ok_or (android_bcs (android_payload outcome)) bcs_failed
    nsm_doc ← request_nsm_attestation h state.verifying_key (Crypto.sha256 crypto payload_bcs)
    ok (record {
      nsm_doc_hex = hex_encode nsm_doc;
      attested_value_hex = hex_encode outcome.attested_value;
      challenge_hex = hex_encode outcome.challenge;
      detail_hash_hex = hex_encode outcome.detail_hash;
      public_key_hex = hex_encode state.verifying_key;
    })
