-- ===== src/Android.antt =====
-- rust/attest-android: the verifier of Android Key Attestation.
pub mod Errors
pub mod Der
pub mod Tlv
pub mod Integers
pub mod Application
pub mod Authorizations
pub mod Description
pub mod Revocation
pub mod Chain
pub mod Verify
