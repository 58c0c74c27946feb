-- ===== src/Android/Errors.antt =====
-- rust/attest-android/src/errors.rs, and the two enumerations of key_description.rs that it names.
use attestation.Common.{String, Bytes}

pub data SecurityLevel : Type 0 where
  software trusted_environment strong_box : SecurityLevel

pub data VerifiedBootState : Type 0 where
  verified self_signed unverified failed : VerifiedBootState

-- A message is kept up to the foreign error that the code appends to it.
pub data Error : Type 0 where
  der : String → Error
  empty_chain untrusted_chain missing_attestation_extension challenge_mismatch : Error
  insufficient_security_level : (got required : SecurityLevel) → Error
  bad_attested_key : String → Error
  revoked : (serial status reason : Bytes) → Error
  unacceptable_boot_state : VerifiedBootState → Error
  device_unlocked : Error
