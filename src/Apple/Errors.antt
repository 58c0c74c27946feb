-- ===== src/Apple/Errors.antt =====
-- rust/attest-apple/src/errors.rs. A message is kept up to the foreign error or number that is appended.
use attestation.Common.{ℕ, String, Bytes}

pub data Error : Type 0 where
  cbor : String → Error
  der : String → Error
  cose : String → Error
  wrong_format : String → Error
  empty_x5c untrusted_chain missing_nonce_extension nonce_mismatch key_id_mismatch : Error
  aaguid_mismatch : (expected : String) (got : Bytes) → Error
  rp_id_hash_mismatch : Error
  sign_count_not_zero : ℕ → Error
  auth_data_too_short : ℕ → Error
  no_attested_credential_data not_p256 : Error
