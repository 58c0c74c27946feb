-- ===== src/Server/Bound/AndroidAttestation.antt =====
-- What a response of `attest_android_attestation` is bound to.
use attestation.Common.{
  ◌≡◌, sym, ap, ◌∙◌, Option, some, List, Bytes, Result, ok, err, ok_or, >>=-eq-ok, ok_or-eq-ok,
  ok-eq-ok,
}
use attestation.Core.{Outcome}
use attestation.X509.{Crypto}
use attestation.Android.Errors as AndroidErrors
use attestation.Android.Errors.{SecurityLevel}
use attestation.Android.Revocation.{StatusList}
use attestation.Android.Verify.{verify_attestation}
use attestation.Android.Verify.Sound.{IsAttested, verify_attestation-IsAttested}
use attestation.Server.Data.{
  Host, AppState, AndroidRequest, AndroidResponse, android_payload, policy_of, android_result,
  parse_security_level,
}
use attestation.Server.Device.{request_nsm_attestation, stamp_ms}
use attestation.Server.Android.{parse_status_list, decode_all, attest_android_attestation}
use attestation.Server.Bound.{Documents, document-Documents}

android_result-eq-ok :
    {A : Type 0} (r : Result AndroidErrors.Error A) {a : A} → android_result r ≡ ok a → r ≡ ok a
android_result-eq-ok (ok a) h = cc
android_result-eq-ok (err e) h = cc

module _ (h : Host) where
  open h use {
    x509, crypto, cbor, der, nonce_from_der, apple_root, android_roots, hex_decode, hex_encode,
    apple_bcs, assertion_bcs, android_bcs, nsm_init, nsm_process_request,
  }

  -- The response answers the request, as for Apple's; the policy is the request's.
  pub record AndroidAnswered (state : AppState) (req : AndroidRequest) (resp : AndroidResponse)
      : Type 0 where
    pub chain : List Bytes
    pub challenge : Bytes
    pub level : SecurityLevel
    pub keys : List Bytes
    pub list : Option StatusList
    pub decodes : decode_all h "chain" req.chain_hex ≡ ok chain
    pub challenge_decodes : hex_decode req.challenge_hex ≡ some challenge
    pub level_parses : parse_security_level req.min_security_level ≡ ok level
    pub keys_decode :
        decode_all h "allowed_self_signed_keys_hex" req.allowed_self_signed_keys_hex ≡ ok keys
    pub list_parses : parse_status_list h req.status_list_json ≡ ok list
    pub outcome : Outcome
    pub attested :
        IsAttested x509 crypto der android_roots chain challenge
          (policy_of req level keys list)
          (stamp_ms h)
          outcome
    pub payload : Bytes
    pub serializes : android_bcs (android_payload outcome) ≡ some payload
    pub document : Bytes
    pub documents : Documents h state.verifying_key payload document
    pub shown : resp ≡ record {
      nsm_doc_hex = hex_encode document;
      attested_value_hex = hex_encode outcome.attested_value;
      challenge_hex = hex_encode challenge;
      detail_hash_hex = hex_encode outcome.detail_hash;
      public_key_hex = hex_encode state.verifying_key;
    }

  pub attest_android_attestation-AndroidAnswered :
      (state : AppState) (req : AndroidRequest) (resp : AndroidResponse)
      → attest_android_attestation h state req ≡ ok resp
      → AndroidAnswered state req resp
  unfolding attest_android_attestation
  attest_android_attestation-AndroidAnswered state req resp e =
      let (chain, e1, h1) = >>=-eq-ok (decode_all h "chain" req.chain_hex) _ e in
      let (challenge, e2, h2) = >>=-eq-ok (ok_or (hex_decode req.challenge_hex) _) _ h1 in
      let (level, e3, h3) = >>=-eq-ok (parse_security_level req.min_security_level) _ h2 in
      let (keys, e4, h4) =
        >>=-eq-ok (decode_all h "allowed_self_signed_keys_hex" req.allowed_self_signed_keys_hex) _
          h3 in
      let (list, e5, h5) = >>=-eq-ok (parse_status_list h req.status_list_json) _ h4 in
      let (outcome, e6, h6) =
        >>=-eq-ok
          (android_result (
            verify_attestation x509 crypto der android_roots chain challenge
              (policy_of req level keys list) (stamp_ms h)))
          _ h5 in
      let (payload, e7, h7) = >>=-eq-ok (ok_or (android_bcs (android_payload outcome)) _) _ h6 in
      let (document, e8, h8) =
        >>=-eq-ok (request_nsm_attestation h state.verifying_key (Crypto.sha256 crypto payload)) _
          h7 in
      let attested =
        verify_attestation-IsAttested x509 crypto der android_roots chain challenge
          (policy_of req level keys list) (stamp_ms h) outcome (android_result-eq-ok _ e6) in
      record {
        chain = chain;
        challenge = challenge;
        level = level;
        keys = keys;
        list = list;
        decodes = e1;
        challenge_decodes = ok_or-eq-ok _ _ e2;
        level_parses = e3;
        keys_decode = e4;
        list_parses = e5;
        outcome = outcome;
        attested = attested;
        payload = payload;
        serializes = ok_or-eq-ok _ _ e7;
        document = document;
        documents = document-Documents h state.verifying_key payload document e8;
        shown =
            sym (ok-eq-ok h8)
            ∙ ap
                (λ shown. record {
                  nsm_doc_hex = hex_encode document;
                  attested_value_hex = hex_encode outcome.attested_value;
                  challenge_hex = hex_encode shown;
                  detail_hash_hex = hex_encode outcome.detail_hash;
                  public_key_hex = hex_encode state.verifying_key;
                })
                attested.echo;
      }
