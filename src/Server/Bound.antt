-- ===== src/Server/Bound.antt =====
-- What a document of the security module is bound to, and so each response of the attest handlers.
pub mod AppleAttestation
pub mod AppleAssertion
pub mod AndroidAttestation
use attestation.Common.{
  ℕ, ◌≡◌, sym, ap, ◌∙◌, Option, some, List, Bytes, Result, ok, err, ok_or, >>=-eq-ok, ok_or-eq-ok,
  ok-eq-ok,
}
use attestation.Core.{Outcome}
use attestation.X509.{Crypto}
use attestation.Apple.Errors as AppleErrors
use attestation.Android.Errors as AndroidErrors
use attestation.Android.Errors.{SecurityLevel}
use attestation.Apple.Verify.{verify_app_attest}
use attestation.Apple.Verify.Sound.{IsAppAttested, verify_app_attest_iff}
use attestation.Apple.Assertion.{verify_assertion}
use attestation.Apple.Assertion.Sound.{IsAsserted, verify_assertion_iff}
use attestation.Android.Revocation.{StatusList}
use attestation.Android.Verify.{verify_attestation}
use attestation.Android.Verify.Sound.{IsAttested, verify_attestation-IsAttested}
use attestation.Server.Data.{
  nsm_init_failed, document_of, other, Host, AppState, NsmResponse, attestation_document,
  AppleRequest, AttestResponse, AppleAssertionRequest, AssertionResponse, AndroidRequest,
  AndroidResponse, apple_payload, assertion_payload, android_payload, policy_of, apple_result,
  android_result, parse_security_level,
}
use attestation.Server.Device.{request_nsm_attestation, stamp_ms}
use attestation.Server.Android.{parse_status_list, decode_all, attest_android_attestation}
use attestation.Server.Apple.{attest_apple_attestation, attest_apple_assertion}

pub document_of-eq-ok :
    (r : NsmResponse) {document : Bytes}
    → document_of r ≡ ok document
    → r ≡ attestation_document document
document_of-eq-ok (attestation_document d) h = cc
document_of-eq-ok other h = cc

module _ (h : Host) where
  open h use {
    x509, crypto, cbor, der, nonce_from_der, apple_root, android_roots, hex_decode, hex_encode,
    apple_bcs, assertion_bcs, android_bcs, nsm_init, nsm_process_request,
  }

  -- The module was asked for a document with this public key and the digest of these octets, and
  -- answered with the document.
  pub record Documents (public_key payload document : Bytes) : Type 0 where
    pub fd : ℕ
    pub opens : nsm_init ≡ some fd
    pub answers :
        nsm_process_request fd
          (record { public_key = public_key; user_data = Crypto.sha256 crypto payload })
        ≡ attestation_document document

  pub document-Documents :
      (public_key payload document : Bytes)
      → request_nsm_attestation h public_key (Crypto.sha256 crypto payload) ≡ ok document
      → Documents public_key payload document
  unfolding request_nsm_attestation
  document-Documents public_key payload document e =
      let (fd, e1, h1) = >>=-eq-ok (ok_or nsm_init nsm_init_failed) _ e in
      record { fd = fd; opens = ok_or-eq-ok _ _ e1; answers = document_of-eq-ok _ h1 }
