-- ===== src/Apple/Verify.antt =====
-- rust/attest-apple/src/lib.rs.
pub mod Sound
use text.Mathlib.Text.{◌==◌ as str_eq}
use attestation.Common.{
  ℕ, not, ◌==◌, String, Bool, true, false, List, [], ◌∷◌, ◌++◌, if◌then◌else◌, Bytes, bytes_eq,
  Result, ok, reject_if, ◌>>=◌, ◌>>◌, codes,
}
use attestation.Core.{Outcome, apple_app_attest}
use attestation.X509.{X509, Crypto}
use attestation.Apple.Errors.{
  Error, wrong_format, nonce_mismatch, key_id_mismatch, aaguid_mismatch, rp_id_hash_mismatch,
  sign_count_not_zero,
}
use attestation.Apple.AuthData.{AuthData, parse}
use attestation.Apple.Cbor.{Cbor, AttestationStatement, decode_attestation_object}
use attestation.Apple.Cose.{extract_p256_pk, key_id_input}
use attestation.Apple.Nonce.{NonceDecoder, extract_nonce_extension}
use attestation.Apple.Chain.{validate_x5c_chain}

abbrev pub aaguid_production : Bytes
aaguid_production = codes "appattest" ++ (0 ∷ 0 ∷ 0 ∷ 0 ∷ 0 ∷ 0 ∷ 0 ∷ [])

abbrev pub aaguid_development : Bytes
aaguid_development = codes "appattestdevelop"

abbrev pub expected_aaguid : Bool → Bytes
expected_aaguid production = if production then aaguid_production else aaguid_development

module _ (v : Cbor) (x : X509) (c : Crypto) (nonce_from_der : NonceDecoder) (root_der : Bytes) where
  -- `app_id` is the text as bytes.
  unfoldable pub verify_app_attest :
      (attestation_object key_id challenge app_id : Bytes) (production : Bool) (clock_ms : ℕ)
      → Result Error Outcome
  unfolding decode_attestation_object parse validate_x5c_chain extract_nonce_extension
      extract_p256_pk
  verify_app_attest attestation_object key_id challenge app_id production clock_ms = do
    stmt ← decode_attestation_object v attestation_object
    reject_if (not (str_eq stmt.fmt "apple-appattest")) (wrong_format stmt.fmt)
    auth ← parse stmt.auth_data
    leaf ← validate_x5c_chain c x root_der stmt.x5c clock_ms
    let expected_nonce = Crypto.sha256 c (stmt.auth_data ++ Crypto.sha256 c challenge)
    cert_nonce ← extract_nonce_extension x nonce_from_der leaf
    reject_if (not (bytes_eq cert_nonce expected_nonce)) nonce_mismatch
    pk ← extract_p256_pk v auth.credential_public_key
    let computed_key_id = Crypto.sha256 c (key_id_input pk)
    reject_if (not (bytes_eq computed_key_id key_id)) key_id_mismatch
    reject_if (not (bytes_eq auth.aaguid (expected_aaguid production)))
        (aaguid_mismatch (if production then "appattest" else "appattestdevelop") auth.aaguid)
    reject_if (not (bytes_eq auth.rp_id_hash (Crypto.sha256 c app_id))) rp_id_hash_mismatch
    reject_if (not (auth.sign_count == 0)) (sign_count_not_zero auth.sign_count)
    ok (record {
      source = apple_app_attest;
      attested_value = pk;
      challenge = challenge;
      timestamp_ms = clock_ms;
      detail_hash = Crypto.sha256 c attestation_object;
    })
