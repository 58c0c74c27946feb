-- ===== src/Server/Bound/AppleAttestation.antt =====
-- What a response of `attest_apple_attestation` is bound to.
use attestation.Common.{
  ◌≡◌, sym, ap, ◌∙◌, some, Bytes, Result, ok, err, ok_or, >>=-eq-ok, ok_or-eq-ok, ok-eq-ok,
}
use attestation.Core.{Outcome}
use attestation.X509.{Crypto}
use attestation.Apple.Errors as AppleErrors
use attestation.Apple.Verify.{verify_app_attest}
use attestation.Apple.Verify.Sound.{IsAppAttested, verify_app_attest_iff}
use attestation.Server.Data.{
  Host, AppState, AppleRequest, AttestResponse, apple_payload, apple_result,
}
use attestation.Server.Device.{request_nsm_attestation, stamp_ms}
use attestation.Server.Apple.{attest_apple_attestation}
use attestation.Server.Bound.{Documents, document-Documents}

pub apple_result-eq-ok :
    {A : Type 0} (r : Result AppleErrors.Error A) {a : A} → apple_result r ≡ ok a → r ≡ ok a
apple_result-eq-ok (ok a) h = cc
apple_result-eq-ok (err e) h = cc

module _ (h : Host) where
  open h use {
    x509, crypto, cbor, der, nonce_from_der, apple_root, android_roots, hex_decode, hex_encode,
    apple_bcs, assertion_bcs, android_bcs, nsm_init, nsm_process_request,
  }

  -- The response answers the request: its outcome is a verified attestation of the decoded request, the
  -- module's document binds the digest of the payload of that outcome, and the response shows both.
  pub record AppleAnswered (state : AppState) (req : AppleRequest) (resp : AttestResponse)
      : Type 0 where
    pub attestation_object : Bytes
    pub key_id : Bytes
    pub challenge : Bytes
    pub decodes : hex_decode req.attestation_object_hex ≡ some attestation_object
    pub key_id_decodes : hex_decode req.key_id_hex ≡ some key_id
    pub challenge_decodes : hex_decode req.challenge_hex ≡ some challenge
    pub outcome : Outcome
    pub attested :
        IsAppAttested cbor x509 crypto nonce_from_der apple_root attestation_object key_id challenge
          req.app_id req.production
          (stamp_ms h)
          outcome
    pub payload : Bytes
    pub serializes : apple_bcs (apple_payload outcome) ≡ some payload
    pub document : Bytes
    pub documents : Documents h state.verifying_key payload document
    pub shown : resp ≡ record {
      nsm_doc_hex = hex_encode document;
      attested_value_hex = hex_encode outcome.attested_value;
      challenge_hex = hex_encode challenge;
      detail_hash_hex = hex_encode outcome.detail_hash;
      public_key_hex = hex_encode state.verifying_key;
    }

  -- The handler responds only with an answer to the request.
  pub attest_apple_attestation-AppleAnswered :
      (state : AppState) (req : AppleRequest) (resp : AttestResponse)
      → attest_apple_attestation h state req ≡ ok resp
      → AppleAnswered state req resp
  unfolding attest_apple_attestation
  attest_apple_attestation-AppleAnswered state req resp e =
      let (attestation_object, e1, h1) =
        >>=-eq-ok (ok_or (hex_decode req.attestation_object_hex) _) _ e in
      let (key_id, e2, h2) = >>=-eq-ok (ok_or (hex_decode req.key_id_hex) _) _ h1 in
      let (challenge, e3, h3) = >>=-eq-ok (ok_or (hex_decode req.challenge_hex) _) _ h2 in
      let (outcome, e4, h4) =
        >>=-eq-ok
          (apple_result (
            verify_app_attest cbor x509 crypto nonce_from_der apple_root attestation_object key_id
              challenge req.app_id req.production (stamp_ms h)))
          _ h3 in
      let (payload, e5, h5) = >>=-eq-ok (ok_or (apple_bcs (apple_payload outcome)) _) _ h4 in
      let (document, e6, h6) =
        >>=-eq-ok (request_nsm_attestation h state.verifying_key (Crypto.sha256 crypto payload)) _
          h5 in
      let attested =
        (verify_app_attest_iff cbor x509 crypto nonce_from_der apple_root attestation_object key_id
            challenge req.app_id req.production (stamp_ms h) outcome).0
          (apple_result-eq-ok _ e4) in
      record {
        attestation_object = attestation_object;
        key_id = key_id;
        challenge = challenge;
        decodes = ok_or-eq-ok _ _ e1;
        key_id_decodes = ok_or-eq-ok _ _ e2;
        challenge_decodes = ok_or-eq-ok _ _ e3;
        outcome = outcome;
        attested = attested;
        payload = payload;
        serializes = ok_or-eq-ok _ _ e5;
        document = document;
        documents = document-Documents h state.verifying_key payload document e6;
        shown =
            sym (ok-eq-ok h6)
            ∙ ap
                (λ shown. record {
                  nsm_doc_hex = hex_encode document;
                  attested_value_hex = hex_encode outcome.attested_value;
                  challenge_hex = hex_encode shown;
                  detail_hash_hex = hex_encode outcome.detail_hash;
                  public_key_hex = hex_encode state.verifying_key;
                })
                attested.echo;
      }
