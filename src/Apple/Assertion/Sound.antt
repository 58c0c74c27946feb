-- ===== src/Apple/Assertion/Sound.antt =====
-- When `verify_assertion` produces an outcome.
use mathlib.Core.Path.{subst}
use attestation.Common.{
  ℕ, ◌≤◌, ◌≡◌, ◌↔◌, refl, sym, arith, not, ltb, true, false, ◌++◌, length, some, Bytes, bytes_eq,
  bytes_eq_iff, Bool-cases, inl, inr, ok, ok_or, reject_if, >>=-eq-ok, ok_or-eq-ok, ok-eq-ok,
  String,
}
use attestation.Core.{Outcome, apple_app_attest_assertion}
use attestation.X509.{Scheme, Crypto}
use attestation.X509.Checks.{verify_digest}
use attestation.X509.Checks.Laws.{Passes, then-Passes}
use attestation.X509.Checks.Equal.{equal_octets_iff}
use attestation.Apple.Errors.{der, untrusted_chain}
use attestation.Apple.AuthData.{slice}
use attestation.Apple.Cbor.{Cbor}
use attestation.Apple.Assertion.{decode_assertion, verify_assertion}

-- The octets are a key and a signature of the scheme, and the signature is the key's for the digest.
pub record Verifies (s : Scheme) (pk digest sig : Bytes) : Type 0 where
  pub key : Scheme.Key s
  pub signature : Scheme.Signature s
  pub key_parses : Scheme.key s pk ≡ some key
  pub signature_parses : Scheme.signature s sig ≡ some signature
  pub holds : Scheme.verify_prehash s key digest signature ≡ true

verify_digest_iff :
    (s : Scheme) (key_error sig_error : String) (pk digest sig : Bytes)
    → Passes (verify_digest der untrusted_chain s key_error sig_error pk digest sig)
      ↔ Verifies s pk digest sig
unfolding verify_digest
verify_digest_iff s key_error sig_error pk digest sig = (
  (λ h.
      let (key, e1, h1) = >>=-eq-ok (ok_or (Scheme.key s pk) (der key_error)) _ h in
      let (signature, e2, h2) = >>=-eq-ok (ok_or (Scheme.signature s sig) (der sig_error)) _ h1 in
      record {
        key = key;
        signature = signature;
        key_parses = ok_or-eq-ok _ _ e1;
        signature_parses = ok_or-eq-ok _ _ e2;
        holds = elim (Bool-cases (Scheme.verify_prehash s key digest signature)) [
          | inl valid ↦ valid
          | inr invalid ↦ cc (rw invalid at h2)
        ];
      }),
  (λ v. rw (v.key_parses, v.signature_parses, v.holds)),
)

long_enough : {E : Type 0} (m n : ℕ) (e : E) → reject_if (ltb m n) e ≡ ok tt → n ≤ m
long_enough m n e h = ground arith

not_short : (m n : ℕ) → n ≤ m → ltb m n ≡ false
not_short m n h = ground arith

module _ (v : Cbor) (c : Crypto) where
  -- The outcome reports this assertion, made by the app for the client data with the attested key: its
  -- signature is the key's for the authenticator data, which names the app, and the client data.
  pub record IsAsserted (assertion_object client_data attested_key app_id : Bytes) (now : ℕ)
      (o : Outcome) : Type 0 where
    pub signature : Bytes
    pub auth_data : Bytes
    pub decodes : decode_assertion v assertion_object ≡ ok (signature, auth_data)
    pub size : 37 ≤ length auth_data
    pub app : slice 0 32 auth_data ≡ Crypto.sha256 c app_id
    pub signed :
        Verifies
          (Crypto.p256 c)
          attested_key
          (Crypto.sha256 c (auth_data ++ Crypto.sha256 c client_data))
          signature
    pub source : o.source ≡ apple_app_attest_assertion
    pub key : o.attested_value ≡ attested_key
    pub echo : o.challenge ≡ client_data
    pub time : o.timestamp_ms ≡ now
    pub detail : o.detail_hash ≡ Crypto.sha256 c assertion_object

  verify_assertion-IsAsserted :
      (assertion_object client_data attested_key app_id : Bytes) (now : ℕ) (o : Outcome)
      → verify_assertion v c assertion_object client_data attested_key app_id now ≡ ok o
      → IsAsserted assertion_object client_data attested_key app_id now o
  unfolding verify_assertion
  verify_assertion-IsAsserted assertion_object client_data attested_key app_id now o h =
      let ((signature, auth_data), e1, h1) = >>=-eq-ok (decode_assertion v assertion_object) _ h in
      let (e2, h2) = then-Passes (reject_if (ltb (length auth_data) 37) _) _ h1 in
      let (e3, h3) =
        then-Passes (reject_if (not (bytes_eq (slice 0 32 auth_data) (Crypto.sha256 c app_id))) _) _
          h2 in
      let (e4, h4) =
        then-Passes
          (verify_digest der untrusted_chain (Crypto.p256 c) "attested key parse"
            "assertion signature parse" attested_key
            (Crypto.sha256 c (auth_data ++ Crypto.sha256 c client_data)) signature)
          _ h3 in
      subst (IsAsserted assertion_object client_data attested_key app_id now) (ok-eq-ok h4)
        (record {
          signature = signature;
          auth_data = auth_data;
          decodes = e1;
          size = long_enough _ _ _ e2;
          app = (equal_octets_iff _ _ _).0 e3;
          signed = (verify_digest_iff _ _ _ _ _ _).0 e4;
          source = refl;
          key = refl;
          echo = refl;
          time = refl;
          detail = refl;
        })

  IsAsserted-verify_assertion :
      (assertion_object client_data attested_key app_id : Bytes) (now : ℕ) (o : Outcome)
      → IsAsserted assertion_object client_data attested_key app_id now o
      → verify_assertion v c assertion_object client_data attested_key app_id now ≡ ok o
  unfolding verify_assertion
  IsAsserted-verify_assertion assertion_object client_data attested_key app_id now o a =
      let long = not_short _ _ a.size in
      let app = (bytes_eq_iff (slice 0 32 a.auth_data) (Crypto.sha256 c app_id)).1 a.app in
      let signed =
        (verify_digest_iff (Crypto.p256 c) "attested key parse" "assertion signature parse"
            attested_key (Crypto.sha256 c (a.auth_data ++ Crypto.sha256 c client_data))
            a.signature).1
          a.signed in
      rw
        (
          a.decodes,
          long,
          app,
          signed,
          sym a.source,
          sym a.key,
          sym a.echo,
          sym a.time,
          sym a.detail,
        )
        refl

  -- An outcome is produced exactly for an assertion that was made so.
  pub verify_assertion_iff :
      (assertion_object client_data attested_key app_id : Bytes) (now : ℕ) (o : Outcome)
      → (verify_assertion v c assertion_object client_data attested_key app_id now ≡ ok o)
        ↔ IsAsserted assertion_object client_data attested_key app_id now o
  verify_assertion_iff assertion_object client_data attested_key app_id now o = (
    verify_assertion-IsAsserted assertion_object client_data attested_key app_id now o,
    IsAsserted-verify_assertion assertion_object client_data attested_key app_id now o,
  )
