-- ===== src/Move/Enclave.antt =====
-- The documents of the enclave's server, loaded on the chain.
pub mod Payloads
pub mod Acceptance
pub mod Provenance
use attestation.Common.{ℕ, ◌≡◌, ◌≢◌, Option, some, [], Bytes, length}
use attestation.X509.{Crypto}
use attestation.Server.Data.{
  Host, AppState, NsmRequest, attestation_document, AppleRequest, AttestResponse,
  AppleAssertionRequest, AssertionResponse, AndroidRequest, AndroidResponse,
}
use attestation.Server.Bound.AndroidAttestation.{AndroidAnswered}
use attestation.Server.Bound.AppleAttestation.{AppleAnswered}
use attestation.Server.Bound.AppleAssertion.{AssertionAnswered}
use attestation.Server.Digest.{BcsLaws}
use attestation.Move.Framework.{Document, Sui}

-- What the two sides rely on: SHA-256 and BCS are the same on both, a digest has 32 octets, and a loaded
-- document says what the security module was asked to sign, where that is not empty.
pub record Bridge (h : Host) (l : BcsLaws h) (sui : Sui) : Type 0 where
  pub load : Bytes → Option Document
  pub same_digest : (b : Bytes) → Sui.sha2_256 sui b ≡ Crypto.sha256 h.crypto b
  pub same_field : (b : Bytes) → Sui.bcs_field sui b ≡ BcsLaws.field l b
  pub digest_size : (b : Bytes) → length (Crypto.sha256 h.crypto b) ≡ 32
  pub shows :
      (fd : ℕ) (r : NsmRequest) (document : Bytes) (doc : Document)
      → Host.nsm_process_request h fd r ≡ attestation_document document
      → load document ≡ some doc
      → (r.user_data ≢ [] → doc.user_data ≡ some r.user_data)
        × (r.public_key ≢ [] → doc.public_key ≡ some r.public_key)
  pub says :
      (fd : ℕ) (r : NsmRequest) (document user_data : Bytes) (doc : Document)
      → Host.nsm_process_request h fd r ≡ attestation_document document
      → load document ≡ some doc
      → doc.user_data ≡ some user_data
      → user_data ≡ r.user_data

-- A handler of the server answered a request with this document, over the digest of this payload.
pub data Answer (h : Host) : (payload document : Bytes) → Type 0 where
  apple :
      {state : AppState} {req : AppleRequest} {resp : AttestResponse}
      (a : AppleAnswered h state req resp)
      → Answer h a.payload a.document
  apple_assertion :
      {state : AppState} {req : AppleAssertionRequest} {resp : AssertionResponse}
      (a : AssertionAnswered h state req resp)
      → Answer h a.payload a.document
  android :
      {state : AppState} {req : AndroidRequest} {resp : AndroidResponse}
      (a : AndroidAnswered h state req resp)
      → Answer h a.payload a.document

-- An answer of the Android handler for this key, challenge and digest of a chain.
pub record AndroidFor (h : Host) (attested_value challenge detail_hash : Bytes) : Type 0 where
  pub state : AppState
  pub req : AndroidRequest
  pub resp : AndroidResponse
  pub answer : AndroidAnswered h state req resp
  pub key : answer.outcome.attested_value ≡ attested_value
  pub challenged : answer.outcome.challenge ≡ challenge
  pub detail : answer.outcome.detail_hash ≡ detail_hash

-- An answer of the App Attest handler for this key, challenge and digest of an attestation.
pub record AppleFor (h : Host) (attested_value challenge detail_hash : Bytes) : Type 0 where
  pub state : AppState
  pub req : AppleRequest
  pub resp : AttestResponse
  pub answer : AppleAnswered h state req resp
  pub key : answer.outcome.attested_value ≡ attested_value
  pub challenged : answer.outcome.challenge ≡ challenge
  pub detail : answer.outcome.detail_hash ≡ detail_hash

-- An answer of the assertion handler for this key and client data.
pub record AssertionFor (h : Host) (attested_key client_data : Bytes) : Type 0 where
  pub state : AppState
  pub req : AppleAssertionRequest
  pub resp : AssertionResponse
  pub answer : AssertionAnswered h state req resp
  pub key : answer.outcome.attested_value ≡ attested_key
  pub client : answer.outcome.challenge ≡ client_data
