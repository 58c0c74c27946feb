-- ===== src/Move.antt =====
-- move: the packages that accept a document of the enclave on the chain, and bind a device's key to an account.
pub mod Framework
pub mod Witness
pub mod Documents
pub mod AttestAndroid
pub mod AttestApple
pub mod Assertion
pub mod Accepts
pub mod Enclave
pub mod DeviceBinding
pub mod Schemes
pub mod Lifecycle
