-- ===== src/Move/Accepts.antt =====
-- When the three `verify` functions return a witness.
use attestation.Common.{ℕ, ◌≡◌, ◌↔◌, ◌∙◌, sym, refl, Bytes, ok, ◌>>=◌, >>=-eq-ok, ok-eq-ok}
use attestation.Move.Framework.{Document, Policy, Sui}
use attestation.Move.Witness.{Witness, witness, app_attest, assertion, android_key_attestation}
use attestation.Move.Documents.{accept}
use attestation.Move.Documents.Laws.{Accepted, accept-Accepted, Accepted-accept}
use attestation.Move.AttestAndroid as Android
use attestation.Move.AttestApple as Apple
use attestation.Move.Assertion as Assertion

-- The payloads, in BCS.
abbrev pub android_payload : Sui → (attested_value challenge detail_hash : Bytes) → Bytes
android_payload sui attested_value challenge detail_hash =
    Android.to_bytes sui
      (record { attested_value = attested_value; challenge = challenge; detail_hash = detail_hash })

abbrev pub apple_payload : Sui → (attested_value challenge detail_hash : Bytes) → Bytes
apple_payload sui attested_value challenge detail_hash =
    Apple.to_bytes sui
      (record { attested_value = attested_value; challenge = challenge; detail_hash = detail_hash })

abbrev pub assertion_payload : Sui → (attested_key client_data : Bytes) → Bytes
assertion_payload sui attested_key client_data =
    Assertion.to_bytes sui (record { attested_key = attested_key; client_data = client_data })

module _ (sui : Sui) (policy : Policy) (doc : Document) where
  accept-then_iff :
      {A : Type 0} (payload : Bytes) (now : ℕ) (make : Bytes → ℕ → A) (w : A)
      → ((accept sui policy doc payload now >>= λ (r : Bytes × ℕ). ok (make (r.0) (r.1))) ≡ ok w)
        ↔ (Accepted sui policy doc payload now
            × (w ≡ make (Sui.sha2_256 sui payload) doc.timestamp))
  accept-then_iff payload now make w = (
    (λ h.
        let ((user_data, stamp), accepts, made) =
          >>=-eq-ok (accept sui policy doc payload now) _ h in
        let (accepted, digest, time) = accept-Accepted sui policy doc payload now accepts in
        (accepted, sym (ok-eq-ok made) ∙ rw (digest, time) refl)),
    (λ (accepted, made). rw (Accepted-accept sui policy doc payload now accepted, made) refl),
  )

  module _ (attested_value challenge detail_hash : Bytes) (now : ℕ) where
    -- The Android package returns a witness exactly where the document is of the image, binds the payload,
    -- is fresh and names a key; the witness has the caller's three fields and the document's time.
    pub verify-android_iff :
        (w : Witness android_key_attestation)
        → (Android.verify sui policy doc attested_value challenge detail_hash now ≡ ok w) ↔ (
            Accepted sui policy doc (android_payload sui attested_value challenge detail_hash) now
            × (w
                ≡ witness android_key_attestation attested_value challenge doc.timestamp
                    detail_hash))
    unfolding Android.verify
    verify-android_iff w =
        accept-then_iff (android_payload sui attested_value challenge detail_hash) now
          (λ digest stamp.
            witness android_key_attestation attested_value challenge stamp detail_hash)
          w

    -- The App Attest package, likewise.
    pub verify-apple_iff :
        (w : Witness app_attest)
        → (Apple.verify sui policy doc attested_value challenge detail_hash now ≡ ok w) ↔ (
            Accepted sui policy doc (apple_payload sui attested_value challenge detail_hash) now
            × (w ≡ witness app_attest attested_value challenge doc.timestamp detail_hash))
    unfolding Apple.verify
    verify-apple_iff w =
        accept-then_iff (apple_payload sui attested_value challenge detail_hash) now
          (λ digest stamp. witness app_attest attested_value challenge stamp detail_hash) w

  -- The assertion module, likewise; the detail hash is the digest of the payload.
  pub verify-assertion_iff :
      (attested_key client_data : Bytes) (now : ℕ) (w : Witness assertion)
      → (Assertion.verify sui policy doc attested_key client_data now ≡ ok w) ↔ (
          Accepted sui policy doc (assertion_payload sui attested_key client_data) now
          × (w
              ≡ witness assertion attested_key client_data doc.timestamp
                  (Sui.sha2_256 sui (assertion_payload sui attested_key client_data))))
  unfolding Assertion.verify
  verify-assertion_iff attested_key client_data now w =
      accept-then_iff (assertion_payload sui attested_key client_data) now
        (λ digest stamp. witness assertion attested_key client_data stamp digest) w
