-- ===== src/Android/Chain.antt =====
-- rust/attest-android/src/roots.rs. The DER files of the pinned roots are a parameter.
pub mod Trust
use text.Mathlib.Text.{◌==◌ as str_eq}
use attestation.Common.{
  ℕ, Bool, true, false, not, Option, none, some, List, [], ◌∷◌, if◌then◌else◌, Bytes, bytes_eq,
  Result, ok, err, ok_or, is_ok, reject_if, ◌>>=◌, ◌>>◌,
}
use attestation.X509.{Oid, X509, Crypto}
use attestation.X509.Checks
use attestation.X509.Checks.{
  oid_secp256r1, oid_secp384r1, oid_ecdsa_sha256, oid_ecdsa_sha384, parse_all, check_all,
  check_links, last_of,
}
use attestation.Android.Errors.{Error, der, empty_chain, untrusted_chain}

abbrev pub oid_ec_public_key : Oid
oid_ec_public_key = "1.2.840.10045.2.1"

abbrev pub oid_rsa_encryption : Oid
oid_rsa_encryption = "1.2.840.113549.1.1.1"

abbrev pub oid_sha256_with_rsa : Oid
oid_sha256_with_rsa = "1.2.840.113549.1.1.11"

module _ (x : X509) where
  open x use {Certificate, to_der}

  abbrev pub check_validity : Certificate → ℕ → Result Error (Unit {0})
  check_validity = Checks.check_validity der untrusted_chain x

  abbrev pub check_is_ca : Certificate → Result Error (Unit {0})
  check_is_ca = Checks.check_is_ca der untrusted_chain x

  abbrev same_der : Option Bytes → Option Bytes → Bool
  same_der (some a) (some b) = bytes_eq a b
  same_der _ _ = false

  unfoldable pub root_matches_top : Certificate → Certificate → Bool
  root_matches_top root top = same_der (to_der root) (to_der top)

module _ (c : Crypto) where
  abbrev pub verify_p256 : (pk msg sig : Bytes) → Result Error (Unit {0})
  verify_p256 =
      Checks.verify_message der untrusted_chain (Crypto.p256 c) "p256 verifying key"
        "p256 sig decode"

  abbrev pub verify_p384 : (pk msg sig : Bytes) → Result Error (Unit {0})
  verify_p384 =
      Checks.verify_message der untrusted_chain (Crypto.p384 c) "p384 verifying key"
        "p384 sig decode"

  abbrev pub verify_p384_sha256 : (pk msg sig : Bytes) → Result Error (Unit {0})
  verify_p384_sha256 pk msg =
      Checks.verify_digest der untrusted_chain (Crypto.p384 c) "p384 verifying key"
        "p384 sig decode" pk (Crypto.sha256 c msg)

  abbrev pub verify_rsa_pkcs1v15_sha256 : (pk msg sig : Bytes) → Result Error (Unit {0})
  verify_rsa_pkcs1v15_sha256 =
      Checks.verify_message der untrusted_chain (Crypto.rsa c) "rsa pkcs1 decode" "rsa sig decode"

  -- The inner `match` on the curve and the signature's algorithm.
  unfoldable pub verify_ec : (curve sig_alg : Oid) → (pk msg sig : Bytes) → Result Error (Unit {0})
  verify_ec curve sig_alg pk msg sig =
      if str_eq curve oid_secp256r1
      then (if str_eq sig_alg oid_ecdsa_sha256
          then verify_p256 pk msg sig
          else err (der "unsupported EC curve/sig combination"))
      else if str_eq curve oid_secp384r1
      then (if str_eq sig_alg oid_ecdsa_sha384
          then verify_p384 pk msg sig
          else if str_eq sig_alg oid_ecdsa_sha256
          then verify_p384_sha256 pk msg sig
          else err (der "unsupported EC curve/sig combination"))
      else err (der "unsupported EC curve/sig combination")

  module _ (x : X509) where
    open x use {
      Certificate, spki_algorithm, spki_curve, spki_key, tbs_der, signature_algorithm, signature,
    }

    unfoldable pub verify_signature : Certificate → Certificate → Result Error (Unit {0})
    verify_signature cert issuer = do
      issuer_pk ← ok_or (spki_key issuer) (der "issuer public key not byte-aligned")
      tbs ← ok_or (tbs_der cert) (der "tbs encode")
      sig ← ok_or (signature cert) (der "signature not byte-aligned")
      if str_eq (spki_algorithm issuer) oid_ec_public_key
          then (do
            curve ← ok_or (spki_curve issuer) (der "issuer SPKI missing named-curve parameter")
            verify_ec curve (signature_algorithm cert) issuer_pk tbs sig)
          else if str_eq (spki_algorithm issuer) oid_rsa_encryption
          then (if str_eq (signature_algorithm cert) oid_sha256_with_rsa
              then verify_rsa_pkcs1v15_sha256 issuer_pk tbs sig
              else err (der "unsupported RSA sig"))
          else err (der "unsupported issuer SPKI algorithm")

    -- The loop over the pinned roots: whether the top is anchored at one.
    unfoldable pub anchored : List Certificate → Certificate → ℕ → Result Error Bool
    anchored [] top now = ok false
    anchored (root ∷ roots) top now =
        let rest = anchored roots top now in
        if root_matches_top x root top
        then ok true
        else if is_ok (verify_signature top root)
        then (do check_validity x root now; ok true)
        else rest

    -- The code also calls `check_is_ca` on every certificate but the leaf and drops the answer.
    unfoldable pub validate_chain : List Bytes → List Bytes → ℕ → Result Error Certificate
    validate_chain pinned_roots [] now = err empty_chain
    validate_chain pinned_roots (c₀ ∷ cs) now = do
      leaf ← ok_or (X509.from_der x c₀) (der "cert parse")
      uppers ← parse_all der untrusted_chain x "cert parse" cs
      check_all (λ cert. check_validity x cert now) (leaf ∷ uppers)
      check_links verify_signature leaf uppers
      roots ← parse_all der untrusted_chain x "pinned root parse" pinned_roots
      found ← anchored roots (last_of leaf uppers) now
      reject_if (not found) untrusted_chain
      ok leaf
