-- ===== src/Apple/Assertion.antt =====
-- rust/attest-apple/src/assertion.rs.
pub mod Fields
pub mod Sound
use text.Mathlib.Text.{◌==◌ as str_eq}
use attestation.Common.{
  ℕ, not, ltb, length, String, Option, none, some, List, [], ◌∷◌, ◌++◌, if◌then◌else◌, Bytes,
  bytes_eq, codes, Result, ok, ok_or, reject_if, ◌>>=◌, ◌>>◌,
}
use attestation.Core.{Outcome, apple_app_attest_assertion}
use attestation.X509.{Scheme, Crypto}
use attestation.X509.Checks
use attestation.Apple.Errors.{Error, cbor, der, rp_id_hash_mismatch, untrusted_chain}
use attestation.Apple.AuthData.{slice}
use attestation.Apple.Cbor.{Cbor}

module _ (v : Cbor) where
  open v use {Value, from_reader, as_map, as_text, as_bytes}

  -- The variables of the loop: the signature and the authenticator data.
  abbrev pub Parts : Type 0
  Parts = Option Bytes × Option Bytes

  abbrev pub set_part : Parts → String → Value → Parts
  set_part p key value =
      if str_eq key "signature"
      then (as_bytes value, p.1)
      else if str_eq key "authenticatorData"
      then (p.0, as_bytes value)
      else p

  unfoldable pub parts_loop : List (Value × Value) → Parts → Result Error Parts
  parts_loop [] p = ok p
  parts_loop ((k, value) ∷ map) p = do
    key ← ok_or (as_text k) (cbor "non-text key in assertion")
    parts_loop map (set_part p key value)

  unfoldable pub decode_assertion : Bytes → Result Error (Bytes × Bytes)
  unfolding parts_loop
  decode_assertion bytes = do
    value ← ok_or (from_reader bytes) (cbor "assertion decode")
    map ← ok_or (as_map value) (cbor "assertion not a map")
    p ← parts_loop map (none, none)
    signature ← ok_or (p.0) (cbor "missing signature")
    auth_data ← ok_or (p.1) (cbor "missing authenticatorData")
    ok (signature, auth_data)

  -- `app_id` is the text as bytes.
  module _ (c : Crypto) where
    unfoldable pub verify_assertion :
        (assertion_object client_data attested_key app_id : Bytes) (clock_ms : ℕ)
        → Result Error Outcome
    unfolding decode_assertion
    verify_assertion assertion_object client_data attested_key app_id clock_ms = do
      (signature, auth_data) ← decode_assertion assertion_object
      reject_if (ltb (length auth_data) 37) (cbor "authenticatorData too short")
      reject_if (not (bytes_eq (slice 0 32 auth_data) (Crypto.sha256 c app_id))) rp_id_hash_mismatch
      let signed_digest = Crypto.sha256 c (auth_data ++ Crypto.sha256 c client_data)
      Checks.verify_digest der untrusted_chain (Crypto.p256 c) "attested key parse"
          "assertion signature parse" attested_key signed_digest signature
      ok (record {
        source = apple_app_attest_assertion;
        attested_value = attested_key;
        challenge = client_data;
        timestamp_ms = clock_ms;
        detail_hash = Crypto.sha256 c assertion_object;
      })
