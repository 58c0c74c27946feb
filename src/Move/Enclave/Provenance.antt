-- ===== src/Move/Enclave/Provenance.antt =====
-- What an accepted document of the server was made for.
use attestation.Common.{ℕ, ◌≡◌, ◌⊎◌, inl, inr, ◌∙◌, sym, some, [], Bytes, ok, ok_or, >>=-eq-ok}
use attestation.X509.{Crypto}
use attestation.Server.Data.{Host, android_payload, apple_payload, assertion_payload}
use attestation.Server.Bound.{Documents}
use attestation.Server.Digest.{BcsLaws}
use attestation.Move.Framework.{Document, Policy, Sui}
use attestation.Move.Witness.{Witness, app_attest, assertion, android_key_attestation}
use attestation.Move.Documents.Laws.{Accepted}
use attestation.Move.AttestAndroid as Android
use attestation.Move.AttestApple as Apple
use attestation.Move.Assertion as Assertion
use attestation.Move.Accepts.{verify-android_iff, verify-apple_iff, verify-assertion_iff}
use attestation.Move.Enclave.{
  Bridge, Answer, apple, apple_assertion, android, AndroidFor, AppleFor, AssertionFor,
}
use attestation.Move.Enclave.Acceptance.{digest-ne-nil}
use attestation.Server.Bound.{document_of-eq-ok}
use attestation.Server.Device.{request_nsm_attestation}
use attestation.Move.Enclave.Payloads.{three, two, three-three, two-two, two-ne-three, three-ne-two}

Answer-Documents :
    (h : Host) {payload document : Bytes}
    → Answer h payload document
    → (key : Bytes) × Documents h key payload document
Answer-Documents h (apple {state} a) = (state.verifying_key, a.documents)
Answer-Documents h (apple_assertion {state} a) = (state.verifying_key, a.documents)
Answer-Documents h (android {state} a) = (state.verifying_key, a.documents)

module _ (h : Host) (l : BcsLaws h) (sui : Sui) (b : Bridge h l sui) (policy : Policy) where
  -- Accepted for a payload, the document was made over that payload, where the digest does not collide.
  Accepted-payload :
      (doc : Document) (payload expected document : Bytes) (now : ℕ)
      → Answer h payload document
      → b.load document ≡ some doc
      → (Crypto.sha256 h.crypto payload ≡ Crypto.sha256 h.crypto expected → payload ≡ expected)
      → Accepted sui policy doc expected now
      → payload ≡ expected
  Accepted-payload doc payload expected document now answer loads distinct a =
      let (key, d) = Answer-Documents h answer in
      let said = b.says d.fd _ document _ doc d.answers loads a.bound in
      distinct (sym said ∙ b.same_digest expected)

  module _ (x y z : Bytes) where
    -- Over three fields, the answer is to an Android or to an App Attest request.
    three-Answer :
        {payload document : Bytes}
        → Answer h payload document
        → payload ≡ three h l sui b x y z
        → AndroidFor h x y z ⊎ AppleFor h x y z
    three-Answer (android {state} {req} {resp} a) same =
        let written = l.android_fields (android_payload a.outcome) a.payload a.serializes in
        let (key, challenge, detail) = three-three h l sui b x y z _ _ _ a.payload written same in
        inl (record {
          state = state;
          req = req;
          resp = resp;
          answer = a;
          key = key;
          challenged = challenge;
          detail = detail;
        })
    three-Answer (apple {state} {req} {resp} a) same =
        let written = l.apple_fields (apple_payload a.outcome) a.payload a.serializes in
        let (key, challenge, detail) = three-three h l sui b x y z _ _ _ a.payload written same in
        inr (record {
          state = state;
          req = req;
          resp = resp;
          answer = a;
          key = key;
          challenged = challenge;
          detail = detail;
        })
    three-Answer (apple_assertion a) same =
        let written = l.assertion_fields (assertion_payload a.outcome) a.payload a.serializes in
        absurd (two-ne-three h l sui b x y z _ _ a.payload written same)

  -- Over two fields, the answer is to an assertion.
  two-Answer :
      (x y : Bytes) {payload document : Bytes}
      → Answer h payload document
      → payload ≡ two h l sui b x y
      → AssertionFor h x y
  two-Answer x y (android a) same =
      let written = l.android_fields (android_payload a.outcome) a.payload a.serializes in
      absurd (three-ne-two h l sui b x y _ _ _ a.payload written same)
  two-Answer x y (apple a) same =
      let written = l.apple_fields (apple_payload a.outcome) a.payload a.serializes in
      absurd (three-ne-two h l sui b x y _ _ _ a.payload written same)
  two-Answer x y (apple_assertion {state} {req} {resp} a) same =
      let written = l.assertion_fields (assertion_payload a.outcome) a.payload a.serializes in
      let (key, client) = two-two h l sui b x y _ _ a.payload written same in
      record { state = state; req = req; resp = resp; answer = a; key = key; client = client }

  module _ (doc : Document) (payload document : Bytes) (answer : Answer h payload document)
      (loads : b.load document ≡ some doc) (now : ℕ) where
    -- A document of some answer of the server that the Android package accepts was made for an Android or an
    -- App Attest answer with just this key, challenge and detail hash, where the digest does not collide on
    -- the two payloads.
    pub verify-android-Answer :
        (attested_value challenge detail_hash : Bytes) (w : Witness android_key_attestation)
        → (Crypto.sha256 h.crypto payload
              ≡ Crypto.sha256 h.crypto (three h l sui b attested_value challenge detail_hash)
            → payload ≡ three h l sui b attested_value challenge detail_hash)
        → Android.verify sui policy doc attested_value challenge detail_hash now ≡ ok w
        → AndroidFor h attested_value challenge detail_hash
          ⊎ AppleFor h attested_value challenge detail_hash
    verify-android-Answer x y z w distinct e =
        let (accepted, shape) = (verify-android_iff sui policy doc x y z now w).0 e in
        three-Answer x y z answer
          (Accepted-payload doc payload _ document now answer loads distinct accepted)

    pub verify-apple-Answer :
        (attested_value challenge detail_hash : Bytes) (w : Witness app_attest)
        → (Crypto.sha256 h.crypto payload
              ≡ Crypto.sha256 h.crypto (three h l sui b attested_value challenge detail_hash)
            → payload ≡ three h l sui b attested_value challenge detail_hash)
        → Apple.verify sui policy doc attested_value challenge detail_hash now ≡ ok w
        → AndroidFor h attested_value challenge detail_hash
          ⊎ AppleFor h attested_value challenge detail_hash
    verify-apple-Answer x y z w distinct e =
        let (accepted, shape) = (verify-apple_iff sui policy doc x y z now w).0 e in
        three-Answer x y z answer
          (Accepted-payload doc payload _ document now answer loads distinct accepted)

    -- A document of some answer of the server that the assertion module accepts was made for an assertion
    -- with just this key and client data, where the digest does not collide on the two payloads.
    pub verify-assertion-Answer :
        (attested_key client_data : Bytes) (w : Witness assertion)
        → (Crypto.sha256 h.crypto payload
              ≡ Crypto.sha256 h.crypto (two h l sui b attested_key client_data)
            → payload ≡ two h l sui b attested_key client_data)
        → Assertion.verify sui policy doc attested_key client_data now ≡ ok w
        → AssertionFor h attested_key client_data
    verify-assertion-Answer x y w distinct e =
        let (accepted, shape) = (verify-assertion_iff sui policy doc x y now w).0 e in
        two-Answer x y answer
          (Accepted-payload doc payload _ document now answer loads distinct accepted)

  -- The document that the server gives for itself, over no user data, is accepted for no payload.
  pub request_nsm_attestation-ne-Accepted :
      (key payload document : Bytes) (doc : Document) (now : ℕ)
      → request_nsm_attestation h key [] ≡ ok document
      → b.load document ≡ some doc
      → ¬ (Accepted sui policy doc payload now)
  unfolding request_nsm_attestation
  request_nsm_attestation-ne-Accepted key payload document doc now e loads a =
      let (fd, opens, answers) = >>=-eq-ok (ok_or (Host.nsm_init h) _) _ e in
      let said = b.says fd _ document _ doc (document_of-eq-ok _ answers) loads a.bound in
      digest-ne-nil h l sui b policy payload (sym (b.same_digest payload) ∙ said)
