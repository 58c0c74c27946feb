-- ===== src/Apple.antt =====
-- rust/attest-apple: the verifiers of App Attest attestations and assertions.
pub mod Errors
pub mod AuthData
pub mod Entries
pub mod Cbor
pub mod Cose
pub mod Nonce
pub mod Chain
pub mod Assertion
pub mod Verify
