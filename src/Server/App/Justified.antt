-- ===== src/Server/App/Justified.antt =====
-- What each reply of the server rests on.
use attestation.Common.{
  ℕ, ◌≡◌, sym, [], ◌∷◌, some, ok_or, >>=-eq-ok, ok_or-eq-ok, ok-eq-ok, inl, inr, refl, Bytes,
  String, ok, err, Bool-cases, Option-cases, Result-cases,
}
use attestation.Server.Data.{
  Host, attestation_document, AttestError, AppState, AppleRequest, AttestResponse,
  AppleAssertionRequest, AssertionResponse, AndroidRequest, AndroidResponse, status_of,
}
use attestation.Server.Device.{request_nsm_attestation, attestation_doc}
use attestation.Server.Bound.{document_of-eq-ok}
use attestation.Server.Apple.{attest_apple_attestation, attest_apple_assertion}
use attestation.Server.Android.{attest_android_attestation}
use attestation.Server.Bound.AppleAttestation.{
  AppleAnswered, attest_apple_attestation-AppleAnswered,
}
use attestation.Server.Bound.AppleAssertion.{
  AssertionAnswered, attest_apple_assertion-AssertionAnswered,
}
use attestation.Server.Bound.AndroidAttestation.{
  AndroidAnswered, attest_android_attestation-AndroidAnswered,
}
use attestation.Server.Responds.{DocFails, attestation_doc_iff}
use attestation.Server.App.Table.{Named, Takes, route_iff, allows_iff}
use attestation.Server.App.{
  Method, Endpoint, health_page, document, apple_attestation, apple_assertion, android_attestation,
  route, allows, answer, Axum, Reply, shows_health, shows_document, shows_apple, shows_assertion,
  shows_android, fails, run, serve,
}

module _ (h : Host) (axum : Axum) (version : String) (state : AppState) where
  open axum use {apple_json, assertion_json, android_json, not_found, method_not_allowed}

  -- What the reply of an endpoint rests on: an answer to the request that the body holds, a refusal of the
  -- body or of the request, or a failure of the device.
  pub data Rests (body : Bytes) : Endpoint → Reply → Type 0 where
    on_health : Rests body health_page (
        shows_health (record {
          public_key_hex = Host.hex_encode h state.verifying_key;
          version = version;
          sources = "apple-app-attest" ∷ "apple-app-attest-assertion" ∷ "android-key-attest" ∷ [];
        }))
    on_document :
        (fd : ℕ) (doc : Bytes)
        → Host.nsm_init h ≡ some fd
        → Host.nsm_process_request h fd
            (record { public_key = state.verifying_key; user_data = [] })
          ≡ attestation_document doc
        → Rests body document (shows_document (Host.hex_encode h doc))
    on_device : (n : ℕ) → DocFails h state n → Rests body document (fails n)
    on_apple :
        (req : AppleRequest) (resp : AttestResponse)
        → apple_json body ≡ ok req
        → AppleAnswered h state req resp
        → Rests body apple_attestation (shows_apple resp)
    on_apple_body : (n : ℕ) → apple_json body ≡ err n → Rests body apple_attestation (fails n)
    on_apple_refused :
        (req : AppleRequest) (e : AttestError)
        → apple_json body ≡ ok req
        → attest_apple_attestation h state req ≡ err e
        → Rests body apple_attestation (fails 400)
    on_assertion :
        (req : AppleAssertionRequest) (resp : AssertionResponse)
        → assertion_json body ≡ ok req
        → AssertionAnswered h state req resp
        → Rests body apple_assertion (shows_assertion resp)
    on_assertion_body : (n : ℕ) → assertion_json body ≡ err n → Rests body apple_assertion (fails n)
    on_assertion_refused :
        (req : AppleAssertionRequest) (e : AttestError)
        → assertion_json body ≡ ok req
        → attest_apple_assertion h state req ≡ err e
        → Rests body apple_assertion (fails 400)
    on_android :
        (req : AndroidRequest) (resp : AndroidResponse)
        → android_json body ≡ ok req
        → AndroidAnswered h state req resp
        → Rests body android_attestation (shows_android resp)
    on_android_body : (n : ℕ) → android_json body ≡ err n → Rests body android_attestation (fails n)
    on_android_refused :
        (req : AndroidRequest) (e : AttestError)
        → android_json body ≡ ok req
        → attest_android_attestation h state req ≡ err e
        → Rests body android_attestation (fails 400)

  -- A reply of the server: of the endpoint that has the path, where it takes the method.
  pub data Justified (method : Method) (path : String) (body : Bytes) (reply : Reply) : Type 0 where
    by_endpoint :
        (endpoint : Endpoint)
        → Named path endpoint
        → Takes endpoint method
        → Rests body endpoint reply
        → Justified method path body reply
    by_path :
        ((endpoint : Endpoint) → ¬ Named path endpoint)
        → reply ≡ fails not_found
        → Justified method path body reply
    by_method :
        (endpoint : Endpoint)
        → Named path endpoint
        → ¬ Takes endpoint method
        → reply ≡ fails method_not_allowed
        → Justified method path body reply

  attestation_doc-eq-ok :
      {doc : Bytes}
      → attestation_doc h state ≡ ok doc
      → (fd : ℕ) × (octets : Bytes) × (Host.nsm_init h ≡ some fd)
        × (Host.nsm_process_request h fd
              (record { public_key = state.verifying_key; user_data = [] })
            ≡ attestation_document octets)
        × (doc ≡ Host.hex_encode h octets)
  unfolding attestation_doc request_nsm_attestation
  attestation_doc-eq-ok {doc} e =
      elim (Result-cases (request_nsm_attestation h state.verifying_key [])) [
        | inr (cause, failed) ↦ cc (rw (failed, attestation_doc) at e)
        | inl (octets, asked) ↦
            let (fd, opens, answers) = >>=-eq-ok (ok_or (Host.nsm_init h) _) _ asked in
            (
              fd,
              octets,
              ok_or-eq-ok _ _ opens,
              document_of-eq-ok _ answers,
              sym (ok-eq-ok (rw (asked, attestation_doc) at e)),
            )
      ]

  run-Rests :
      (endpoint : Endpoint) (body : Bytes)
      → Rests body endpoint (run h axum version state endpoint body)
  unfolding run
  run-Rests health_page body = on_health
  run-Rests document body = elim (Result-cases (attestation_doc h state)) [
    | inl (doc, e) ↦
        let (fd, octets, opens, answers, shown) = attestation_doc-eq-ok e in
        rw (e, shown, run) (on_document fd octets opens answers)
    | inr (n, e) ↦ rw (e, run) (on_device n ((attestation_doc_iff h state n).0 e))
  ]
  run-Rests apple_attestation body = elim (Result-cases (apple_json body)) [
    | inl (req, parses) ↦ elim (Result-cases (attest_apple_attestation h state req)) [
      | inl (resp, e) ↦
          rw (parses, run)
            (rw (e, answer)
              (on_apple req resp parses
                (attest_apple_attestation-AppleAnswered h state req resp e)))
      | inr (c, e) ↦
          rw (parses, run) (rw (e, answer) (unfold status_of in on_apple_refused req c parses e))
    ]
    | inr (n, e) ↦ rw (e, run) (on_apple_body n e)
  ]
  run-Rests apple_assertion body = elim (Result-cases (assertion_json body)) [
    | inl (req, parses) ↦ elim (Result-cases (attest_apple_assertion h state req)) [
      | inl (resp, e) ↦
          rw (parses, run)
            (rw (e, answer)
              (on_assertion req resp parses
                (attest_apple_assertion-AssertionAnswered h state req resp e)))
      | inr (c, e) ↦
          rw (parses, run)
            (rw (e, answer) (unfold status_of in on_assertion_refused req c parses e))
    ]
    | inr (n, e) ↦ rw (e, run) (on_assertion_body n e)
  ]
  run-Rests android_attestation body = elim (Result-cases (android_json body)) [
    | inl (req, parses) ↦ elim (Result-cases (attest_android_attestation h state req)) [
      | inl (resp, e) ↦
          rw (parses, run)
            (rw (e, answer)
              (on_android req resp parses
                (attest_android_attestation-AndroidAnswered h state req resp e)))
      | inr (c, e) ↦
          rw (parses, run) (rw (e, answer) (unfold status_of in on_android_refused req c parses e))
    ]
    | inr (n, e) ↦ rw (e, run) (on_android_body n e)
  ]

  -- To a listed path with its method the server replies by an answer to the request that the body holds,
  -- by a refusal with its status, or by a failure of the device; to a listed path with another method, and
  -- to any other path, with the status of the framework. Whatever it replies is one of these.
  pub serve-Justified :
      (method : Method) (path : String) (body : Bytes)
      → Justified method path body (serve h axum version state method path body)
  unfolding serve
  serve-Justified method path body = elim (Option-cases (route path)) [
    | inl gone ↦
        rw (gone, serve) (by_path (λ endpoint n. cc (gone, (route_iff path endpoint).1 n)) refl)
    | inr (endpoint, found) ↦
        let n = (route_iff path endpoint).0 found in
        elim (Bool-cases (allows endpoint method)) [
          | inl takes ↦
              rw (found, takes, serve)
                (by_endpoint endpoint n ((allows_iff endpoint method).0 takes)
                  (run-Rests endpoint body))
          | inr other ↦
              rw (found, other, serve)
                (by_method endpoint n (λ t. cc (other, (allows_iff endpoint method).1 t)) refl)
        ]
  ]
