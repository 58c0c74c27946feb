-- ===== src/Apple/Nonce.antt =====
-- rust/attest-apple/src/oids.rs. The decoder that `Sequence` derives is a parameter, as bytes.
use attestation.Common.{◌==◌, not, length, Option, Bytes, Result, ok, ok_or, reject_if, ◌>>=◌, ◌>>◌}
use attestation.X509.{Oid, X509}
use attestation.X509.Checks.{find_extension}
use attestation.Apple.Errors.{Error, der, missing_nonce_extension}

abbrev pub apple_nonce_extension : Oid
apple_nonce_extension = "1.2.840.113635.100.8.2"

-- `AppleNonceExtension::from_der(..)` and its `nonce`
abbrev pub NonceDecoder : Type 0
NonceDecoder = Bytes → Option Bytes

module _ (x : X509) (nonce_from_der : NonceDecoder) where
  unfoldable pub extract_nonce_extension : X509.Certificate x → Result Error Bytes
  extract_nonce_extension cert = do
    extensions ← ok_or (X509.extensions x cert) missing_nonce_extension
    ext ← ok_or (find_extension apple_nonce_extension extensions) missing_nonce_extension
    bytes ← ok_or (nonce_from_der ext.extn_value) (der "nonce extension")
    reject_if (not (length bytes == 32)) (der "nonce must be 32 bytes")
    ok bytes
