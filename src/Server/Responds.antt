-- ===== src/Server/Responds.antt =====
-- When the handlers respond, and with which status they fail.
use attestation.Common.{
  ℕ, ◌≡◌, ◌↔◌, ◌⊎◌, inl, inr, refl, sym, none, some, [], All, Bytes, Result, ok, err, Option-cases,
}
use attestation.X509.{Crypto}
use attestation.X509.Checks.Laws.{InWindow}
use attestation.Apple.Verify.Sound.{verify_app_attest_iff}
use attestation.Apple.Assertion.Sound.{verify_assertion_iff}
use attestation.Android.Verify.Sound.{IsAttested-verify_attestation}
use attestation.Server.Data.{
  Host, AppState, NsmRequest, NsmResponse, attestation_document, other, AppleRequest,
  AttestResponse, AppleAssertionRequest, AssertionResponse, AndroidRequest, AndroidResponse,
  policy_of, document_of, nsm_init_failed,
}
use attestation.Server.Device.{stamp_ms, request_nsm_attestation, attestation_doc}
use attestation.Server.Apple.{attest_apple_attestation, attest_apple_assertion}
use attestation.Server.Android.{attest_android_attestation}
use attestation.Server.Bound.{Documents}
use attestation.Server.Bound.AppleAttestation.{
  AppleAnswered, attest_apple_attestation-AppleAnswered,
}
use attestation.Server.Bound.AppleAssertion.{
  AssertionAnswered, attest_apple_assertion-AssertionAnswered,
}
use attestation.Server.Bound.AndroidAttestation.{AndroidAnswered}

err-eq-err : {A : Type 0} {m n : ℕ} → ◌≡◌ {A = Result ℕ A} (err m) (err n) → m ≡ n
err-eq-err h = cc

NsmResponse-cases :
    (r : NsmResponse) → ((document : Bytes) × (r ≡ attestation_document document)) ⊎ (r ≡ other)
NsmResponse-cases (attestation_document document) = inl (document, refl)
NsmResponse-cases other = inr refl

module _ (h : Host) where
  open h use {
    x509, crypto, cbor, der, nonce_from_der, apple_root, android_roots, nsm_init,
    nsm_process_request,
  }

  Documents-request :
      (public_key payload document : Bytes)
      → Documents h public_key payload document
      → request_nsm_attestation h public_key (Crypto.sha256 crypto payload) ≡ ok document
  unfolding request_nsm_attestation
  Documents-request public_key payload document d = rw (d.opens, d.answers) refl

  AppleAnswered-attest_apple_attestation :
      (state : AppState) (req : AppleRequest) (resp : AttestResponse)
      → AppleAnswered h state req resp
      → attest_apple_attestation h state req ≡ ok resp
  unfolding attest_apple_attestation
  AppleAnswered-attest_apple_attestation state req resp a =
      let verifies =
        (verify_app_attest_iff cbor x509 crypto nonce_from_der apple_root a.attestation_object
            a.key_id a.challenge req.app_id req.production (stamp_ms h) a.outcome).1
          a.attested in
      let document = Documents-request state.verifying_key a.payload a.document a.documents in
      rw
        (
          a.decodes, a.key_id_decodes, a.challenge_decodes, verifies, a.serializes, document,
          a.attested.echo, a.shown,
        )
        refl

  -- `attest_apple_attestation` responds exactly with the answers to the request.
  pub attest_apple_attestation_iff :
      (state : AppState) (req : AppleRequest) (resp : AttestResponse)
      → (attest_apple_attestation h state req ≡ ok resp) ↔ AppleAnswered h state req resp
  attest_apple_attestation_iff state req resp = (
    attest_apple_attestation-AppleAnswered h state req resp,
    AppleAnswered-attest_apple_attestation state req resp,
  )

  AssertionAnswered-attest_apple_assertion :
      (state : AppState) (req : AppleAssertionRequest) (resp : AssertionResponse)
      → AssertionAnswered h state req resp
      → attest_apple_assertion h state req ≡ ok resp
  unfolding attest_apple_assertion
  AssertionAnswered-attest_apple_assertion state req resp a =
      let verifies =
        (verify_assertion_iff cbor crypto a.assertion_object a.client_data a.attested_key req.app_id
            (stamp_ms h) a.outcome).1
          a.asserted in
      let document = Documents-request state.verifying_key a.payload a.document a.documents in
      rw
        (
          a.decodes, a.client_data_decodes, a.attested_key_decodes, verifies, a.serializes,
          document, a.asserted.key, a.asserted.echo, a.shown,
        )
        refl

  -- `attest_apple_assertion` responds exactly with the answers to the request.
  pub attest_apple_assertion_iff :
      (state : AppState) (req : AppleAssertionRequest) (resp : AssertionResponse)
      → (attest_apple_assertion h state req ≡ ok resp) ↔ AssertionAnswered h state req resp
  attest_apple_assertion_iff state req resp = (
    attest_apple_assertion-AssertionAnswered h state req resp,
    AssertionAnswered-attest_apple_assertion state req resp,
  )

  -- Where the pinned roots are all within their validity periods, `attest_android_attestation` responds with
  -- every answer to the request.
  pub AndroidAnswered-attest_android_attestation :
      (state : AppState) (req : AndroidRequest) (resp : AndroidResponse)
      (a : AndroidAnswered h state req resp)
      → All (InWindow x509 (stamp_ms h)) a.attested.trusted.roots
      → attest_android_attestation h state req ≡ ok resp
  unfolding attest_android_attestation
  AndroidAnswered-attest_android_attestation state req resp a ws =
      let verifies =
        IsAttested-verify_attestation x509 crypto der android_roots a.chain a.challenge
          (policy_of req a.level a.keys a.list) (stamp_ms h) a.outcome a.attested ws in
      let document = Documents-request state.verifying_key a.payload a.document a.documents in
      rw
        (
          a.decodes, a.challenge_decodes, a.level_parses, a.keys_decode, a.list_parses, verifies,
          a.serializes, document, a.attested.echo, a.shown,
        )
        refl

  abbrev boot_request : AppState → NsmRequest
  boot_request state = record { public_key = state.verifying_key; user_data = [] }

  -- How the document of `GET /attestation` fails: with 501 where the device does not open, and with 500
  -- where it answers with anything but a document.
  pub data DocFails (state : AppState) : ℕ → Type 0 where
    no_device : nsm_init ≡ none → DocFails state 501
    no_document :
        (fd : ℕ)
        → nsm_init ≡ some fd
        → nsm_process_request fd (boot_request state) ≡ other
        → DocFails state 500

  boot_no_device :
      (state : AppState)
      → nsm_init ≡ none
      → request_nsm_attestation h state.verifying_key [] ≡ err nsm_init_failed
  unfolding request_nsm_attestation
  boot_no_device state e = rw e refl

  boot_answer :
      (state : AppState) (fd : ℕ) (r : NsmResponse)
      → nsm_init ≡ some fd
      → nsm_process_request fd (boot_request state) ≡ r
      → request_nsm_attestation h state.verifying_key [] ≡ document_of r
  unfolding request_nsm_attestation
  boot_answer state fd r e a = rw (e, a) refl

  attestation_doc-DocFails :
      (state : AppState) (n : ℕ) → attestation_doc h state ≡ err n → DocFails state n
  unfolding attestation_doc
  attestation_doc-DocFails state n e = elim (Option-cases nsm_init) [
    | inl gone ↦
        let same : 501 ≡ n = err-eq-err (rw (boot_no_device state gone, attestation_doc) at e) in
        rw (sym same) (no_device gone)
    | inr (fd, opens) ↦ elim (NsmResponse-cases (nsm_process_request fd (boot_request state))) [
      | inl (doc, answers) ↦ cc (rw (boot_answer state fd _ opens answers, attestation_doc) at e)
      | inr answers ↦
          let same : 500 ≡ n =
            err-eq-err (rw (boot_answer state fd _ opens answers, attestation_doc) at e) in
          rw (sym same) (no_document fd opens answers)
    ]
  ]

  DocFails-attestation_doc :
      (state : AppState) (n : ℕ) → DocFails state n → attestation_doc h state ≡ err n
  unfolding attestation_doc
  DocFails-attestation_doc state n (no_device e) = rw (boot_no_device state e, attestation_doc) refl
  DocFails-attestation_doc state n (no_document fd e a) =
      rw (boot_answer state fd _ e a, attestation_doc) refl

  -- `GET /attestation` fails with 501 exactly where the device does not open, with 500 exactly where it opens
  -- and answers with no document, and with no other status.
  pub attestation_doc_iff :
      (state : AppState) (n : ℕ) → (attestation_doc h state ≡ err n) ↔ DocFails state n
  attestation_doc_iff state n = (attestation_doc-DocFails state n, DocFails-attestation_doc state n)
