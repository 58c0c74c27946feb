-- ===== src/Server/Bound/AppleAssertion.antt =====
-- What a response of `attest_apple_assertion` is bound to.
use attestation.Common.{◌≡◌, sym, ap, ◌∙◌, some, Bytes, ok, ok_or, >>=-eq-ok, ok_or-eq-ok, ok-eq-ok}
use attestation.Core.{Outcome}
use attestation.X509.{Crypto}
use attestation.Apple.Assertion.{verify_assertion}
use attestation.Apple.Assertion.Sound.{IsAsserted, verify_assertion_iff}
use attestation.Server.Data.{
  Host, AppState, AppleAssertionRequest, AssertionResponse, assertion_payload, apple_result,
}
use attestation.Server.Device.{request_nsm_attestation, stamp_ms}
use attestation.Server.Apple.{attest_apple_assertion}
use attestation.Server.Bound.{Documents, document-Documents}
use attestation.Server.Bound.AppleAttestation.{apple_result-eq-ok}

module _ (h : Host) where
  open h use {
    x509, crypto, cbor, der, nonce_from_der, apple_root, android_roots, hex_decode, hex_encode,
    apple_bcs, assertion_bcs, android_bcs, nsm_init, nsm_process_request,
  }

  -- The response answers the request, as for an attestation; the payload is the key and the client data.
  pub record AssertionAnswered (state : AppState) (req : AppleAssertionRequest)
      (resp : AssertionResponse) : Type 0 where
    pub assertion_object : Bytes
    pub client_data : Bytes
    pub attested_key : Bytes
    pub decodes : hex_decode req.assertion_object_hex ≡ some assertion_object
    pub client_data_decodes : hex_decode req.client_data_hex ≡ some client_data
    pub attested_key_decodes : hex_decode req.attested_key_hex ≡ some attested_key
    pub outcome : Outcome
    pub asserted :
        IsAsserted cbor crypto assertion_object client_data attested_key req.app_id
          (stamp_ms h)
          outcome
    pub payload : Bytes
    pub serializes : assertion_bcs (assertion_payload outcome) ≡ some payload
    pub document : Bytes
    pub documents : Documents h state.verifying_key payload document
    pub shown : resp ≡ record {
      nsm_doc_hex = hex_encode document;
      attested_key_hex = hex_encode attested_key;
      client_data_hex = hex_encode client_data;
      public_key_hex = hex_encode state.verifying_key;
    }

  -- The handler responds only with an answer to the request.
  pub attest_apple_assertion-AssertionAnswered :
      (state : AppState) (req : AppleAssertionRequest) (resp : AssertionResponse)
      → attest_apple_assertion h state req ≡ ok resp
      → AssertionAnswered state req resp
  unfolding attest_apple_assertion
  attest_apple_assertion-AssertionAnswered state req resp e =
      let (assertion_object, e1, h1) =
        >>=-eq-ok (ok_or (hex_decode req.assertion_object_hex) _) _ e in
      let (client_data, e2, h2) = >>=-eq-ok (ok_or (hex_decode req.client_data_hex) _) _ h1 in
      let (attested_key, e3, h3) = >>=-eq-ok (ok_or (hex_decode req.attested_key_hex) _) _ h2 in
      let (outcome, e4, h4) =
        >>=-eq-ok
          (apple_result (
            verify_assertion cbor crypto assertion_object client_data attested_key req.app_id
              (stamp_ms h)))
          _ h3 in
      let (payload, e5, h5) =
        >>=-eq-ok (ok_or (assertion_bcs (assertion_payload outcome)) _) _ h4 in
      let (document, e6, h6) =
        >>=-eq-ok (request_nsm_attestation h state.verifying_key (Crypto.sha256 crypto payload)) _
          h5 in
      let asserted =
        (verify_assertion_iff cbor crypto assertion_object client_data attested_key req.app_id
            (stamp_ms h) outcome).0
          (apple_result-eq-ok _ e4) in
      record {
        assertion_object = assertion_object;
        client_data = client_data;
        attested_key = attested_key;
        decodes = ok_or-eq-ok _ _ e1;
        client_data_decodes = ok_or-eq-ok _ _ e2;
        attested_key_decodes = ok_or-eq-ok _ _ e3;
        outcome = outcome;
        asserted = asserted;
        payload = payload;
        serializes = ok_or-eq-ok _ _ e5;
        document = document;
        documents = document-Documents h state.verifying_key payload document e6;
        shown =
            sym (ok-eq-ok h6)
            ∙ ap {A = Bytes × Bytes}
                (λ shown. record {
                  nsm_doc_hex = hex_encode document;
                  attested_key_hex = hex_encode (shown.0);
                  client_data_hex = hex_encode (shown.1);
                  public_key_hex = hex_encode state.verifying_key;
                })
                {x = (outcome.attested_value, outcome.challenge)} {y = (attested_key, client_data)}
                (cc (asserted.key, asserted.echo));
      }
