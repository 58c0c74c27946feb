-- ===== src/Server/App.antt =====
-- `app` of main.rs: the route table, and what the server makes of a request. `HEAD`, which the framework
-- answers as `GET` without the body, is left out.
pub mod Table
pub mod Justified
use text.Mathlib.Text.{◌==◌ as str_eq}
use attestation.Common.{
  ℕ, ◌≡◌, ◌⊎◌, inl, inr, refl, Bool, true, false, Option, none, some, if◌then◌else◌, Bytes, String,
  Result, ok, err, ◌||◌, Bool-cases, Option-cases, Result-cases,
}
use attestation.Server.Data.{
  Host, AttestError, AppState, Health, AppleRequest, AttestResponse, AppleAssertionRequest,
  AssertionResponse, AndroidRequest, AndroidResponse, status_of, bad_request,
}
use attestation.Server.Device.{health, attestation_doc}
use attestation.Server.Apple.{attest_apple_attestation, attest_apple_assertion}
use attestation.Server.Android.{attest_android_attestation}
use attestation.Server.Bound.AppleAttestation.{
  AppleAnswered, attest_apple_attestation-AppleAnswered,
}
use attestation.Server.Bound.AppleAssertion.{
  AssertionAnswered, attest_apple_assertion-AssertionAnswered,
}
use attestation.Server.Bound.AndroidAttestation.{
  AndroidAnswered, attest_android_attestation-AndroidAnswered,
}
use attestation.Server.Responds.{DocFails, attestation_doc_iff}

pub data Method : Type 0 where
  get post other_method : Method

pub data Endpoint : Type 0 where
  health_page document apple_attestation apple_assertion android_attestation : Endpoint

-- The `.route` lines.
unfoldable pub route : String → Option Endpoint
route path =
    if str_eq path "/health"
    then some health_page
    else if str_eq path "/attestation"
    then some document
    else if str_eq path "/attest/apple/attestation"
    then some apple_attestation
    else if str_eq path "/attest/apple"
    then some apple_attestation
    else if str_eq path "/attest/apple/assertion"
    then some apple_assertion
    else if str_eq path "/attest/android/attestation"
    then some android_attestation
    else if str_eq path "/attest/android"
    then some android_attestation
    else none

-- `get(health)`, `get(attestation_doc)`, and `post` for the others.
unfoldable pub allows : Endpoint → Method → Bool
allows health_page get = true
allows document get = true
allows apple_attestation post = true
allows apple_assertion post = true
allows android_attestation post = true
allows _ _ = false

-- What the framework `axum` makes of a body: the request, or the status that it refuses the body with; and
-- its statuses for a path that is not in the table and a method that a route does not take.
pub record Axum : Type 0 where
  pub apple_json : Bytes → Result ℕ AppleRequest
  pub assertion_json : Bytes → Result ℕ AppleAssertionRequest
  pub android_json : Bytes → Result ℕ AndroidRequest
  pub not_found : ℕ
  pub method_not_allowed : ℕ

-- The body of a response with status 200, or another status.
pub data Reply : Type 0 where
  shows_health : Health → Reply
  shows_document : Bytes → Reply
  shows_apple : AttestResponse → Reply
  shows_assertion : AssertionResponse → Reply
  shows_android : AndroidResponse → Reply
  fails : ℕ → Reply

module _ (h : Host) (axum : Axum) (version : String) (state : AppState) where
  open axum use {apple_json, assertion_json, android_json, not_found, method_not_allowed}

  -- `Json(req): Json<_>` in front of a handler, and `IntoResponse` behind it.
  unfoldable pub answer :
      {A B : Type 0} → Result ℕ A → (A → Result AttestError B) → (B → Reply) → Reply
  unfolding status_of
  answer (err status) handler shows = fails status
  answer (ok req) handler shows = elim (handler req) [
    | ok resp ↦ shows resp
    | err e ↦ fails (status_of e)
  ]

  unfoldable pub run : Endpoint → Bytes → Reply
  unfolding answer attestation_doc attest_apple_attestation attest_apple_assertion
      attest_android_attestation
  run health_page body = shows_health (health h version state)
  run document body = elim (attestation_doc h state) [
    | ok doc ↦ shows_document doc
    | err status ↦ fails status
  ]
  run apple_attestation body =
      answer (apple_json body) (attest_apple_attestation h state) shows_apple
  run apple_assertion body =
      answer (assertion_json body) (attest_apple_assertion h state) shows_assertion
  run android_attestation body =
      answer (android_json body) (attest_android_attestation h state) shows_android

  unfoldable pub serve : Method → String → Bytes → Reply
  unfolding route allows run
  serve method path body = elim (route path) [
    | none ↦ fails not_found
    | some endpoint ↦ if allows endpoint method then run endpoint body else fails method_not_allowed
  ]
