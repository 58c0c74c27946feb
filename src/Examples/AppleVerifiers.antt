-- ===== src/Examples/AppleVerifiers.antt =====
-- Runs of the theorems on Apple's chains, statements and verifiers.
use attestation.Common.{
  ℕ, ◌+◌, ◌≤◌, ◌<◌, ◌≡◌, ◌≢◌, ◌↔◌, refl, arith, Bool, true, Option, none, List, [], ◌∷◌, ◌++◌, All,
  replicate, Bytes, codes, inl, inr, Result, ok, err,
}
use attestation.Core.{Outcome, apple_app_attest, apple_app_attest_assertion}
use attestation.X509.{X509, Crypto}
use attestation.Apple.Chain.Trust
use attestation.Apple.Assertion.{verify_assertion}
use attestation.Apple.Assertion.Sound.{IsAsserted, verify_assertion_iff}
use attestation.Apple.Cose.{extract_p256_pk}
use attestation.Apple.Cbor.{AttestationStatement, decode_attestation_object}
use attestation.Apple.Assertion.{decode_assertion}
use attestation.Examples.Toy.{auth_data, toy_cbor, x5c, app_id, p256_key, Cert, toy_crypto}
use attestation.Apple.Cose.Key.{IsP256Key, extract_p256_pk_iff}
use attestation.Apple.Cbor.Object.{IsObject, decode_attestation_object_iff}
use attestation.Apple.Assertion.Fields.{IsAssertion, decode_assertion_iff}

abbrev apple_leaf : Cert
apple_leaf = record { own = 20; issuer = 21; contents = app_id }

abbrev apple_outcome : Outcome
apple_outcome = record {
  source = apple_app_attest;
  attested_value = p256_key;
  challenge = 6 ∷ [];
  timestamp_ms = 5000;
  detail_hash = Crypto.sha256 toy_crypto (1 ∷ []);
}

abbrev assertion_outcome : Outcome
assertion_outcome = record {
  source = apple_app_attest_assertion;
  attested_value = p256_key;
  challenge = 6 ∷ [];
  timestamp_ms = 5000;
  detail_hash = Crypto.sha256 toy_crypto (3 ∷ []);
}

asserts :
    verify_assertion toy_cbor toy_crypto (3 ∷ []) (6 ∷ []) p256_key app_id 5000
    ≡ ok assertion_outcome
unfolding verify_assertion attestation.Apple.Assertion.decode_assertion
    attestation.Apple.Assertion.parts_loop attestation.X509.Checks.verify_digest
    attestation.Common.bytes_eq
asserts = refl

verify_assertion_iff_example :
    IsAsserted toy_cbor toy_crypto (3 ∷ []) (6 ∷ []) p256_key app_id 5000 assertion_outcome
verify_assertion_iff_example =
    (verify_assertion_iff toy_cbor toy_crypto (3 ∷ []) (6 ∷ []) p256_key app_id 5000
        assertion_outcome).0
      asserts

reads_key : extract_p256_pk toy_cbor (2 ∷ []) ≡ ok p256_key
unfolding extract_p256_pk attestation.Apple.Cose.members
reads_key = refl

extract_p256_pk_iff_example : IsP256Key toy_cbor (2 ∷ []) p256_key
extract_p256_pk_iff_example = (extract_p256_pk_iff toy_cbor (2 ∷ []) p256_key).0 reads_key

abbrev statement : AttestationStatement
statement = record { fmt = "apple-appattest"; auth_data = auth_data; x5c = x5c; receipt = [] }

reads_statement : decode_attestation_object toy_cbor (1 ∷ []) ≡ ok statement
unfolding decode_attestation_object attestation.Apple.Cbor.top_loop attestation.Apple.Cbor.stmt_loop
    attestation.Apple.Cbor.all_bytes
reads_statement = refl

decode_attestation_object_iff_example : IsObject toy_cbor (1 ∷ []) statement
decode_attestation_object_iff_example =
    (decode_attestation_object_iff toy_cbor (1 ∷ []) statement).0 reads_statement

reads_assertion : decode_assertion toy_cbor (3 ∷ []) ≡ ok (p256_key, app_id ++ replicate 5 0)
unfolding decode_assertion attestation.Apple.Assertion.parts_loop
reads_assertion = refl

decode_assertion_iff_example : IsAssertion toy_cbor (3 ∷ []) p256_key (app_id ++ replicate 5 0)
decode_assertion_iff_example =
    (decode_assertion_iff toy_cbor (3 ∷ []) p256_key (app_id ++ replicate 5 0)).0 reads_assertion
