-- ===== src/Examples/Handlers.antt =====
-- Runs of the theorems on the handlers, on a host whose crates are the small ones, whose hexadecimal digits
-- are the octets themselves and whose security module answers with the user data.
use attestation.Common.{
  ℕ, ◌≡◌, refl, Bool, true, false, Option, none, some, List, [], ◌∷◌, ◌++◌, length, Bytes, Result,
  ok,
}
use attestation.X509.{Crypto}
use attestation.Server.Data.{
  Host, AppState, NsmRequest, attestation_document, ApplePayload, AssertionPayload, AndroidPayload,
  AppleRequest, AttestResponse, AppleAssertionRequest, AssertionResponse, AndroidRequest,
  AndroidResponse,
}
use attestation.Server.Device.{request_nsm_attestation}
use attestation.Server.Apple.{attest_apple_attestation, attest_apple_assertion}
use attestation.Android.Verify.{canonical_chain_hash_input}
use attestation.Examples.Toy.{
  toy_der, toy_x509, toy_crypto, toy_cbor, root_der, android_chain, app_id, key_id, p256_key,
}

-- A vector of octets behind its length.
abbrev pub field : Bytes → Bytes
field b = length b ∷ b

abbrev pub host : Host
host = record {
  x509 = toy_x509;
  crypto = toy_crypto;
  cbor = toy_cbor;
  der = toy_der;
  nonce_from_der = some;
  unicode_lower = λ b. b;
  apple_root = root_der;
  android_roots = root_der ∷ [];
  hex_decode = some;
  hex_encode = λ b. b;
  apple_bcs = λ (p : ApplePayload).
      some (field p.attested_value ++ (field p.challenge ++ (field p.detail_hash ++ [])));
  assertion_bcs =
      λ (p : AssertionPayload). some (field p.attested_key ++ (field p.client_data ++ []));
  android_bcs = λ (p : AndroidPayload).
      some (field p.attested_value ++ (field p.challenge ++ (field p.detail_hash ++ [])));
  nsm_init = some 3;
  nsm_process_request = λ fd (r : NsmRequest). attestation_document r.user_data;
  now = some 5000;
}

abbrev pub state : AppState
state = record { verifying_key = 77 ∷ [] }

-- `Sha256::digest` of the small instance.
abbrev pub digest : Bytes → Bytes
digest = Crypto.sha256 toy_crypto

abbrev pub android_request : AndroidRequest
android_request = record {
  chain_hex = android_chain;
  challenge_hex = 7 ∷ [];
  min_security_level = none;
  require_verified_boot = true;
  require_device_locked = true;
  allowed_self_signed_keys_hex = [];
  status_list_json = none;
}

abbrev pub android_response : AndroidResponse
android_response = record {
  nsm_doc_hex = digest (
      field (20 ∷ [])
      ++ (field (7 ∷ []) ++ (field (digest (canonical_chain_hash_input android_chain)) ++ [])));
  attested_value_hex = 20 ∷ [];
  challenge_hex = 7 ∷ [];
  detail_hash_hex = digest (canonical_chain_hash_input android_chain);
  public_key_hex = 77 ∷ [];
}

abbrev pub apple_request : AppleRequest
apple_request = record {
  attestation_object_hex = 1 ∷ [];
  key_id_hex = key_id;
  challenge_hex = 6 ∷ [];
  app_id = app_id;
  production = false;
}

abbrev pub apple_response : AttestResponse
apple_response = record {
  nsm_doc_hex = digest (field p256_key ++ (field (6 ∷ []) ++ (field (digest (1 ∷ [])) ++ [])));
  attested_value_hex = p256_key;
  challenge_hex = 6 ∷ [];
  detail_hash_hex = digest (1 ∷ []);
  public_key_hex = 77 ∷ [];
}

pub apple_responds : attest_apple_attestation host state apple_request ≡ ok apple_response
unfolding attest_apple_attestation request_nsm_attestation
    attestation.Apple.Verify.verify_app_attest attestation.Apple.Chain.validate_x5c_chain
    attestation.X509.Checks.parse_all attestation.X509.Checks.check_all
    attestation.X509.Checks.check_validity attestation.X509.Checks.check_is_ca
    attestation.X509.Checks.find_extension attestation.X509.Checks.check_links
    attestation.Apple.Chain.verify_signature attestation.X509.Checks.verify_message
    attestation.Common.bytes_eq attestation.X509.Checks.last_of
    attestation.Apple.Cbor.decode_attestation_object attestation.Apple.Cbor.top_loop
    attestation.Apple.Cbor.stmt_loop attestation.Apple.Cbor.all_bytes
    attestation.Apple.AuthData.parse attestation.Apple.Nonce.extract_nonce_extension
    attestation.Apple.Cose.extract_p256_pk attestation.Apple.Cose.members
apple_responds = refl

abbrev pub assertion_request : AppleAssertionRequest
assertion_request = record {
  assertion_object_hex = 3 ∷ [];
  client_data_hex = 6 ∷ [];
  attested_key_hex = p256_key;
  app_id = app_id;
}

abbrev pub assertion_response : AssertionResponse
assertion_response = record {
  nsm_doc_hex = digest (field p256_key ++ (field (6 ∷ []) ++ []));
  attested_key_hex = p256_key;
  client_data_hex = 6 ∷ [];
  public_key_hex = 77 ∷ [];
}

pub assertion_responds : attest_apple_assertion host state assertion_request ≡ ok assertion_response
unfolding attest_apple_assertion request_nsm_attestation
    attestation.Apple.Assertion.verify_assertion attestation.Apple.Assertion.decode_assertion
    attestation.Apple.Assertion.parts_loop attestation.X509.Checks.verify_digest
    attestation.Common.bytes_eq
assertion_responds = refl
