-- ===== src/Move/Enclave/Acceptance.antt =====
-- The packages accept the documents of the server's answers, the Android package Apple's among them.
use attestation.Common.{ℕ, ◌≡◌, ◌≢◌, ◌∙◌, sym, ap, refl, arith, some, [], length, Bytes, ok}
use attestation.X509.{Crypto}
use attestation.Server.Data.{
  Host, AppState, AppleRequest, AttestResponse, AppleAssertionRequest, AssertionResponse,
  AndroidRequest, AndroidResponse, android_payload, apple_payload, assertion_payload,
}
use attestation.Server.Bound.{Documents}
use attestation.Server.Bound.AndroidAttestation.{AndroidAnswered}
use attestation.Server.Bound.AppleAttestation.{AppleAnswered}
use attestation.Server.Bound.AppleAssertion.{AssertionAnswered}
use attestation.Server.Digest.{BcsLaws}
use attestation.Move.Framework.{Document, Policy, Sui}
use attestation.Move.Witness.{witness, app_attest, assertion, android_key_attestation}
use attestation.Move.Documents.Measured.{FromImage}
use attestation.Move.Documents.Laws.{Fresh, Accepted}
use attestation.Move.AttestAndroid as Android
use attestation.Move.AttestApple as Apple
use attestation.Move.Assertion as Assertion
use attestation.Move.Accepts.{verify-android_iff, verify-apple_iff, verify-assertion_iff}
use attestation.Move.Enclave.{Bridge}
use attestation.Move.Enclave.Payloads.{three_written, two_written}

module _ (h : Host) (l : BcsLaws h) (sui : Sui) (b : Bridge h l sui) (policy : Policy) where
  pub digest-ne-nil : (x : Bytes) → Crypto.sha256 h.crypto x ≢ []
  digest-ne-nil x empty = absurd (omega (arith, b.digest_size x, ap length empty))

  -- A document of the server is accepted for the payload that it was made over.
  Documents-Accepted :
      (public_key payload expected document : Bytes) (doc : Document) (now : ℕ)
      → Documents h public_key payload document
      → public_key ≢ []
      → b.load document ≡ some doc
      → FromImage policy doc.pcrs
      → Fresh doc.timestamp now
      → expected ≡ payload
      → Accepted sui policy doc expected now
  Documents-Accepted public_key payload expected document doc now d named loads image fresh same =
      let (user_data, key) = b.shows d.fd _ document doc d.answers loads in
      record {
        image = image;
        bound =
            user_data (digest-ne-nil payload)
            ∙ sym (ap some (ap (Sui.sha2_256 sui) same ∙ b.same_digest payload));
        fresh = fresh;
        key = public_key;
        names_key = key named;
      }

  module _ (doc : Document) (now : ℕ) (image : FromImage policy doc.pcrs)
      (fresh : Fresh doc.timestamp now) where
    -- Whatever the Android handler answers, the Android package accepts its document, where the document is
    -- of the image and fresh and the server has a key: the witness is for the outcome.
    pub verify-AndroidAnswered :
        (state : AppState) (req : AndroidRequest) (resp : AndroidResponse)
        (a : AndroidAnswered h state req resp)
        → state.verifying_key ≢ []
        → b.load a.document ≡ some doc
        → Android.verify sui policy doc a.outcome.attested_value a.outcome.challenge
            a.outcome.detail_hash now
          ≡ ok (
              witness android_key_attestation a.outcome.attested_value a.outcome.challenge
                doc.timestamp a.outcome.detail_hash)
    verify-AndroidAnswered state req resp a named loads =
        let written = l.android_fields (android_payload a.outcome) a.payload a.serializes in
        let same = three_written h l sui b _ _ _ a.payload written in
        (verify-android_iff sui policy doc _ _ _ now _).1 (
          Documents-Accepted state.verifying_key a.payload _ a.document doc now a.documents named
              loads image fresh same,
          refl,
        )

    pub verify-AppleAnswered :
        (state : AppState) (req : AppleRequest) (resp : AttestResponse)
        (a : AppleAnswered h state req resp)
        → state.verifying_key ≢ []
        → b.load a.document ≡ some doc
        → Apple.verify sui policy doc a.outcome.attested_value a.outcome.challenge
            a.outcome.detail_hash now
          ≡ ok (
              witness app_attest a.outcome.attested_value a.outcome.challenge doc.timestamp
                a.outcome.detail_hash)
    verify-AppleAnswered state req resp a named loads =
        let written = l.apple_fields (apple_payload a.outcome) a.payload a.serializes in
        let same = three_written h l sui b _ _ _ a.payload written in
        (verify-apple_iff sui policy doc _ _ _ now _).1 (
          Documents-Accepted state.verifying_key a.payload _ a.document doc now a.documents named
              loads image fresh same,
          refl,
        )

    -- The Android package accepts the document of an answer to Apple as well, and returns a witness that
    -- the key was attested by Android.
    pub verify-android-AppleAnswered :
        (state : AppState) (req : AppleRequest) (resp : AttestResponse)
        (a : AppleAnswered h state req resp)
        → state.verifying_key ≢ []
        → b.load a.document ≡ some doc
        → Android.verify sui policy doc a.outcome.attested_value a.outcome.challenge
            a.outcome.detail_hash now
          ≡ ok (
              witness android_key_attestation a.outcome.attested_value a.outcome.challenge
                doc.timestamp a.outcome.detail_hash)
    verify-android-AppleAnswered state req resp a named loads =
        let written = l.apple_fields (apple_payload a.outcome) a.payload a.serializes in
        let same = three_written h l sui b _ _ _ a.payload written in
        (verify-android_iff sui policy doc _ _ _ now _).1 (
          Documents-Accepted state.verifying_key a.payload _ a.document doc now a.documents named
              loads image fresh same,
          refl,
        )

    pub verify-AssertionAnswered :
        (state : AppState) (req : AppleAssertionRequest) (resp : AssertionResponse)
        (a : AssertionAnswered h state req resp)
        → state.verifying_key ≢ []
        → b.load a.document ≡ some doc
        → Assertion.verify sui policy doc a.outcome.attested_value a.outcome.challenge now
          ≡ ok (
              witness assertion a.outcome.attested_value a.outcome.challenge doc.timestamp
                (Crypto.sha256 h.crypto a.payload))
    verify-AssertionAnswered state req resp a named loads =
        let written = l.assertion_fields (assertion_payload a.outcome) a.payload a.serializes in
        let same = two_written h l sui b _ _ a.payload written in
        let digest = ap (Sui.sha2_256 sui) same ∙ b.same_digest a.payload in
        (verify-assertion_iff sui policy doc _ _ now _).1 (
          Documents-Accepted state.verifying_key a.payload _ a.document doc now a.documents named
              loads image fresh same,
          rw digest refl,
        )
