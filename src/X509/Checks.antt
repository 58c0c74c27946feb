-- ===== src/X509/Checks.antt =====
-- `check_validity`, `check_is_ca` and the signature checks of the two files roots.rs.

pub mod Laws
pub mod Equal
use text.Mathlib.Text.{◌==◌ as str_eq}
use attestation.Common.{
  ℕ, ◌*◌, String, Bool, not, Option, none, some, List, [], ◌∷◌, ltb, if◌then◌else◌, Bytes, Result,
  ok, ok_or, reject_if, ◌>>=◌, ◌>>◌,
}
use attestation.X509.{Oid, Extension, X509, Scheme}

abbrev pub oid_secp256r1 : Oid
oid_secp256r1 = "1.2.840.10045.3.1.7"

abbrev pub oid_secp384r1 : Oid
oid_secp384r1 = "1.3.132.0.34"

abbrev pub oid_ecdsa_sha256 : Oid
oid_ecdsa_sha256 = "1.2.840.10045.4.3.2"

abbrev pub oid_ecdsa_sha384 : Oid
oid_ecdsa_sha384 = "1.2.840.10045.4.3.3"

-- `BasicConstraints::OID`
abbrev pub oid_basic_constraints : Oid
oid_basic_constraints = "2.5.29.19"

-- `extensions.iter().find(|e| e.extn_id == oid)`
unfoldable pub find_extension : Oid → List Extension → Option Extension
find_extension oid [] = none
find_extension oid (e ∷ es) = if str_eq e.extn_id oid then some e else find_extension oid es

-- What becomes of the answer of a signature check.
abbrev pub accept_if : {E : Type 0} → Bool → E → Result E (Unit {0})
accept_if b e = reject_if (not b) e

module _ {E : Type 0} (der : String → E) (untrusted_chain : E) where
  module _ (x : X509) where
    open x use {Certificate, not_before, not_after, extensions, basic_constraints}

    -- A time in seconds against a clock in milliseconds.
    unfoldable pub check_validity : Certificate → ℕ → Result E (Unit {0})
    check_validity cert now_ms = do
      reject_if (ltb now_ms (not_before cert * 1000))
          (der "cert not yet valid (notBefore in future)")
      reject_if (ltb (not_after cert * 1000) now_ms) (der "cert expired (notAfter in past)")

    unfoldable pub check_is_ca : Certificate → Result E (Unit {0})
    unfolding find_extension
    check_is_ca cert = do
      exts ← ok_or (extensions cert) (der "missing BasicConstraints on CA cert")
      ext ←
          ok_or (find_extension oid_basic_constraints exts)
            (der "missing BasicConstraints on CA cert")
      ca ← ok_or (basic_constraints ext.extn_value) (der "BasicConstraints parse")
      reject_if (not ca) (der "BasicConstraints CA flag is false")

  -- `verify_p256`, `verify_p384` and `verify_rsa_pkcs1v15_sha256`, of one shape.
  unfoldable pub verify_message :
      (s : Scheme) → (key_error sig_error : String) → (pk msg sig : Bytes) → Result E (Unit {0})
  verify_message s key_error sig_error pk msg sig = do
    key ← ok_or (Scheme.key s pk) (der key_error)
    signature ← ok_or (Scheme.signature s sig) (der sig_error)
    accept_if (Scheme.verify s key msg signature) untrusted_chain

  unfoldable pub verify_digest :
      (s : Scheme) → (key_error sig_error : String) → (pk digest sig : Bytes) → Result E (Unit {0})
  verify_digest s key_error sig_error pk digest sig = do
    key ← ok_or (Scheme.key s pk) (der key_error)
    signature ← ok_or (Scheme.signature s sig) (der sig_error)
    accept_if (Scheme.verify_prehash s key digest signature) untrusted_chain

  -- `.iter().map(|c| Certificate::from_der(c).map_err(..)).collect::<Result<_>>()`
  unfoldable pub parse_all : (x : X509) → String → List Bytes → Result E (List (X509.Certificate x))
  parse_all x message [] = ok []
  parse_all x message (c ∷ cs) = do
    cert ← ok_or (X509.from_der x c) (der message)
    certs ← parse_all x message cs
    ok (cert ∷ certs)

-- `for cert in certs { check(cert)?; }`
unfoldable pub check_all : {E C : Type 0} → (C → Result E (Unit {0})) → List C → Result E (Unit {0})
check_all check [] = ok tt
check_all check (c ∷ cs) = check c >> check_all check cs

-- `for i in 0..certs.len() - 1 { check(&certs[i], &certs[i + 1])?; }`
unfoldable pub check_links :
    {E C : Type 0} → (C → C → Result E (Unit {0})) → C → List C → Result E (Unit {0})
check_links check c [] = ok tt
check_links check c (d ∷ ds) = check c d >> check_links check d ds

-- `certs.last()` of a list that is not empty.
unfoldable pub last_of : {C : Type 0} → C → List C → C
last_of c [] = c
last_of c (d ∷ ds) = last_of d ds
