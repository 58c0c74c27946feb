-- ===== src/Core.antt =====
-- rust/attestation-core/src/lib.rs. `to_bcs` and `from_bcs` only call the crate `bcs`.
use attestation.Common.{ℕ, Bytes, String}

pub record Outcome : Type 0 where
  pub source : String
  pub attested_value : Bytes
  pub challenge : Bytes
  pub timestamp_ms : ℕ
  pub detail_hash : Bytes

-- `sources`
abbrev pub apple_app_attest : String
apple_app_attest = "apple-app-attest"

abbrev pub apple_app_attest_assertion : String
apple_app_attest_assertion = "apple-app-attest-assertion"

abbrev pub apple_webauthn : String
apple_webauthn = "apple-webauthn"

abbrev pub android_key_attest : String
android_key_attest = "android-key-attest"

abbrev pub android_webauthn_key : String
android_webauthn_key = "android-webauthn-key"

abbrev pub ntag_originality : String
ntag_originality = "ntag-originality"

abbrev pub fido_packed : String
fido_packed = "fido-packed"
