-- ===== src/Server/Data.antt =====
-- rust/enclave-server/src/main.rs: errors, requests, responses and payloads. A text is its bytes. The
-- crates `hex`, `bcs` and the driver of the Nitro Security Module are parameters.
use text.Mathlib.Text.{◌==◌ as str_eq}
use attestation.Common.{
  ℕ, String, Bool, true, Option, none, some, List, [], ◌∷◌, if◌then◌else◌, Bytes, Result, ok, err,
  ◌||◌,
}
use attestation.Core.{Outcome, apple_app_attest, apple_app_attest_assertion, android_key_attest}
use attestation.X509.{X509, Crypto}
use attestation.Apple.Errors as AppleErrors
use attestation.Apple.Cbor.{Cbor}
use attestation.Apple.Nonce.{NonceDecoder}
use attestation.Android.Errors as AndroidErrors
use attestation.Android.Errors.{SecurityLevel, software, trusted_environment, strong_box}
use attestation.Android.Der.{Der}
use attestation.Android.Revocation.{StatusList}
use attestation.Android.Verify.{Policy}

-- A message is kept up to the text of a foreign error or response, and a field's name up to an index.
pub data AttestError : Type 0 where
  invalid_hex : (field : String) → AttestError
  verify_failed : AppleErrors.Error → AttestError
  android_verify_failed : AndroidErrors.Error → AttestError
  bcs_failed nsm_init_failed : AttestError
  nsm_failed : String → AttestError

-- `StatusCode::BAD_REQUEST`, `NOT_IMPLEMENTED` and `INTERNAL_SERVER_ERROR`
abbrev pub bad_request : ℕ
bad_request = 400

abbrev pub not_implemented : ℕ
not_implemented = 501

abbrev pub internal_server_error : ℕ
internal_server_error = 500

-- `into_response`: every error of the three attest handlers
unfoldable pub status_of : AttestError → ℕ
status_of e = bad_request

pub record ApplePayload : Type 0 where
  pub attested_value : Bytes
  pub challenge : Bytes
  pub detail_hash : Bytes

pub record AssertionPayload : Type 0 where
  pub attested_key : Bytes
  pub client_data : Bytes

pub record AndroidPayload : Type 0 where
  pub attested_value : Bytes
  pub challenge : Bytes
  pub detail_hash : Bytes

-- `Request::Attestation` with no nonce
pub record NsmRequest : Type 0 where
  pub public_key : Bytes
  pub user_data : Bytes

pub data NsmResponse : Type 0 where
  attestation_document : Bytes → NsmResponse
  other : NsmResponse

-- What the server runs on: the crates, the device's file descriptor where it opens and its answers, and
-- the clock where it stands at or after the epoch.
pub record Host : Type 1 where
  pub x509 : X509
  pub crypto : Crypto
  pub cbor : Cbor
  pub der : Der
  pub nonce_from_der : NonceDecoder
  pub unicode_lower : Bytes → Bytes
  pub apple_root : Bytes
  pub android_roots : List Bytes
  pub hex_decode : Bytes → Option Bytes
  pub hex_encode : Bytes → Bytes
  pub apple_bcs : ApplePayload → Option Bytes
  pub assertion_bcs : AssertionPayload → Option Bytes
  pub android_bcs : AndroidPayload → Option Bytes
  pub nsm_init : Option ℕ
  pub nsm_process_request : ℕ → NsmRequest → NsmResponse
  pub now : Option ℕ

-- The public key of `AppState`; no handler uses the signing key.
pub record AppState : Type 0 where
  pub verifying_key : Bytes

pub record Health : Type 0 where
  pub public_key_hex : Bytes
  pub version : String
  pub sources : List String

pub record AppleRequest : Type 0 where
  pub attestation_object_hex : Bytes
  pub key_id_hex : Bytes
  pub challenge_hex : Bytes
  pub app_id : Bytes
  pub production : Bool

pub record AttestResponse : Type 0 where
  pub nsm_doc_hex : Bytes
  pub attested_value_hex : Bytes
  pub challenge_hex : Bytes
  pub detail_hash_hex : Bytes
  pub public_key_hex : Bytes

pub record AppleAssertionRequest : Type 0 where
  pub assertion_object_hex : Bytes
  pub client_data_hex : Bytes
  pub attested_key_hex : Bytes
  pub app_id : Bytes

pub record AssertionResponse : Type 0 where
  pub nsm_doc_hex : Bytes
  pub attested_key_hex : Bytes
  pub client_data_hex : Bytes
  pub public_key_hex : Bytes

-- As deserialized: what a request leaves out has its default.
pub record AndroidRequest : Type 0 where
  pub chain_hex : List Bytes
  pub challenge_hex : Bytes
  pub min_security_level : Option String
  pub require_verified_boot : Bool
  pub require_device_locked : Bool
  pub allowed_self_signed_keys_hex : List Bytes
  pub status_list_json : Option Bytes

pub record AndroidResponse : Type 0 where
  pub nsm_doc_hex : Bytes
  pub attested_value_hex : Bytes
  pub challenge_hex : Bytes
  pub detail_hash_hex : Bytes
  pub public_key_hex : Bytes

abbrev pub default_true : Bool
default_true = true

-- `s.unwrap_or("tee")`
abbrev pub level_name : Option String → String
level_name none = "tee"
level_name (some s) = s

unfoldable pub parse_security_level : Option String → Result AttestError SecurityLevel
parse_security_level s =
    let name = level_name s in
    if str_eq name "software"
    then ok software
    else if str_eq name "tee"
        || str_eq name "trustedenvironment"
        || str_eq name "trusted_environment"
    then ok trusted_environment
    else if str_eq name "strongbox"
    then ok strong_box
    else err (nsm_failed "unknown min_security_level")

-- `map_err` with the `From` instances of `AttestError`
abbrev pub apple_result {ℓ} : {A : Type ℓ} → Result AppleErrors.Error A → Result AttestError A
apple_result (ok a) = ok a
apple_result (err e) = err (verify_failed e)

abbrev pub android_result {ℓ} : {A : Type ℓ} → Result AndroidErrors.Error A → Result AttestError A
android_result (ok a) = ok a
android_result (err e) = err (android_verify_failed e)

-- The payloads that the handlers build.
abbrev pub apple_payload : Outcome → ApplePayload
apple_payload o = record {
  attested_value = o.attested_value;
  challenge = o.challenge;
  detail_hash = o.detail_hash;
}

abbrev pub assertion_payload : Outcome → AssertionPayload
assertion_payload o = record { attested_key = o.attested_value; client_data = o.challenge }

abbrev pub android_payload : Outcome → AndroidPayload
android_payload o = record {
  attested_value = o.attested_value;
  challenge = o.challenge;
  detail_hash = o.detail_hash;
}

abbrev pub policy_of : AndroidRequest → SecurityLevel → List Bytes → Option StatusList → Policy
policy_of req min_level allowed_keys status_list = record {
  min_security_level = min_level;
  require_verified_boot = req.require_verified_boot;
  allowed_self_signed_keys = allowed_keys;
  require_device_locked = req.require_device_locked;
  status_list = status_list;
}

-- Each source that the server names in `health`.
abbrev pub health_sources : List String
health_sources = apple_app_attest ∷ apple_app_attest_assertion ∷ android_key_attest ∷ []

-- The `match` on the answer of the device.
abbrev pub document_of : NsmResponse → Result AttestError Bytes
document_of (attestation_document document) = ok document
document_of other = err (nsm_failed "unexpected NSM response")
