-- ===== src/X509.antt =====
-- What the two verifiers use of the crates `x509_cert`, `p256`, `p384`, `rsa` and `sha2`, as parameters,
-- and the checks that rust/attest-android/src/roots.rs and rust/attest-apple/src/roots.rs share word
-- for word. The error type and its two cases in use are parameters, since each crate has its own.
pub mod Checks
use attestation.Common.{ℕ, Bool, Option, List, Bytes, String}

-- An object identifier in dotted form.
abbrev pub Oid : Type 0
Oid = String

pub record Extension : Type 0 where
  pub extn_id : Oid
  pub extn_value : Bytes

-- `Certificate`, and what is read off one. `none` is an error of the crate.
pub record X509 : Type 1 where
  pub Certificate : Type 0
  -- `Certificate::from_der` and `to_der`
  pub from_der : Bytes → Option Certificate
  pub to_der : Certificate → Option Bytes
  -- `tbs_certificate.to_der()`
  pub tbs_der : Certificate → Option Bytes
  -- `validity.not_before` and `validity.not_after`, in seconds since the epoch
  pub not_before : Certificate → ℕ
  pub not_after : Certificate → ℕ
  pub serial_number : Certificate → Bytes
  pub extensions : Certificate → Option (List Extension)
  -- `subject_public_key_info`: the algorithm, the named curve of its parameters, the key's bytes, and
  -- the whole as DER
  pub spki_algorithm : Certificate → Oid
  pub spki_curve : Certificate → Option Oid
  pub spki_key : Certificate → Option Bytes
  pub spki_der : Certificate → Option Bytes
  pub signature_algorithm : Certificate → Oid
  pub signature : Certificate → Option Bytes
  -- `BasicConstraints::from_der` and its `ca`
  pub basic_constraints : Bytes → Option Bool

-- A signature scheme: `from_sec1_bytes` or `from_pkcs1_der`, `Signature::try_from`, `verify` over a
-- message and `verify_prehash` over a digest.
pub record Scheme : Type 1 where
  pub Key : Type 0
  pub Signature : Type 0
  pub key : Bytes → Option Key
  pub signature : Bytes → Option Signature
  pub verify : Key → Bytes → Signature → Bool
  pub verify_prehash : Key → Bytes → Signature → Bool

pub record Crypto : Type 1 where
  pub p256 : Scheme
  pub p384 : Scheme
  -- RSA PKCS #1 v1.5 with SHA-256
  pub rsa : Scheme
  -- `Sha256::digest`
  pub sha256 : Bytes → Bytes
