-- ===== src/Apple/Chain.antt =====
-- rust/attest-apple/src/roots.rs. The DER file of the pinned root is a parameter.
pub mod Trust
use text.Mathlib.Text.{◌==◌ as str_eq}
use attestation.Common.{ℕ, List, [], ◌∷◌, if◌then◌else◌, Bytes, Result, ok, err, ok_or, ◌>>=◌, ◌>>◌}
use attestation.X509.{Oid, X509, Crypto}
use attestation.X509.Checks
use attestation.X509.Checks.{
  oid_secp256r1, oid_secp384r1, oid_ecdsa_sha256, oid_ecdsa_sha384, parse_all, check_all,
  check_links, last_of,
}
use attestation.Apple.Errors.{Error, der, empty_x5c, untrusted_chain}

module _ (x : X509) where
  open x use {Certificate}

  abbrev pub check_validity : Certificate → ℕ → Result Error (Unit {0})
  check_validity = Checks.check_validity der untrusted_chain x

  abbrev pub check_is_ca : Certificate → Result Error (Unit {0})
  check_is_ca = Checks.check_is_ca der untrusted_chain x

module _ (c : Crypto) where
  abbrev pub verify_p256 : (pk msg sig : Bytes) → Result Error (Unit {0})
  verify_p256 =
      Checks.verify_message der untrusted_chain (Crypto.p256 c) "p256 verifying key"
        "p256 sig decode"

  abbrev pub verify_p384 : (pk msg sig : Bytes) → Result Error (Unit {0})
  verify_p384 =
      Checks.verify_message der untrusted_chain (Crypto.p384 c) "p384 verifying key"
        "p384 sig decode"

  abbrev pub verify_p384_sha256 : (pk msg sig : Bytes) → Result Error (Unit {0})
  verify_p384_sha256 pk msg =
      Checks.verify_digest der untrusted_chain (Crypto.p384 c) "p384 verifying key"
        "p384 sig decode" pk (Crypto.sha256 c msg)

  -- The `match` on the curve and the signature's algorithm.
  abbrev pub dispatch : (curve sig_alg : Oid) → (pk msg sig : Bytes) → Result Error (Unit {0})
  dispatch curve sig_alg pk msg sig =
      if str_eq curve oid_secp256r1
      then (if str_eq sig_alg oid_ecdsa_sha256
          then verify_p256 pk msg sig
          else err (der "unsupported curve/sig combination"))
      else if str_eq curve oid_secp384r1
      then (if str_eq sig_alg oid_ecdsa_sha384
          then verify_p384 pk msg sig
          else if str_eq sig_alg oid_ecdsa_sha256
          then verify_p384_sha256 pk msg sig
          else err (der "unsupported curve/sig combination"))
      else err (der "unsupported curve/sig combination")

  module _ (x : X509) where
    open x use {Certificate, spki_curve, spki_key, tbs_der, signature_algorithm, signature}

    unfoldable pub verify_signature : Certificate → Certificate → Result Error (Unit {0})
    verify_signature cert issuer = do
      issuer_pk ← ok_or (spki_key issuer) (der "issuer public key not byte-aligned")
      curve ← ok_or (spki_curve issuer) (der "issuer SPKI missing named-curve parameter")
      tbs ← ok_or (tbs_der cert) (der "tbs encode")
      sig ← ok_or (signature cert) (der "signature not byte-aligned")
      dispatch curve (signature_algorithm cert) issuer_pk tbs sig

    unfoldable pub validate_x5c_chain :
        (root_der : Bytes) → List Bytes → ℕ → Result Error Certificate
    validate_x5c_chain root_der [] clock_ms = err empty_x5c
    validate_x5c_chain root_der (c₀ ∷ cs) clock_ms = do
      leaf ← ok_or (X509.from_der x c₀) (der "cert parse")
      uppers ← parse_all der untrusted_chain x "cert parse" cs
      check_all (λ cert. check_validity x cert clock_ms) (leaf ∷ uppers)
      check_all (check_is_ca x) uppers
      check_links verify_signature leaf uppers
      root ← ok_or (X509.from_der x root_der) (der "pinned root parse")
      check_validity x root clock_ms
      check_is_ca x root
      verify_signature (last_of leaf uppers) root
      ok leaf
