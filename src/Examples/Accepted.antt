-- ===== src/Examples/Accepted.antt =====
-- Runs of the theorems on the documents that the packages accept.
use attestation.Common.Maybe.{some-eq-some}
use attestation.Common.{ℕ, ◌≡◌, ◌≢◌, ◌⊎◌, refl, sym, ap, ◌∙◌, some, ◌++◌, [], ◌∷◌, Bytes, ok}
use attestation.Server.Bound.AndroidAttestation.{AndroidAnswered}
use attestation.Server.Bound.AppleAttestation.{AppleAnswered}
use attestation.Server.Bound.AppleAssertion.{AssertionAnswered}
use attestation.Server.Responds.{attest_apple_attestation_iff, attest_apple_assertion_iff}
use attestation.Move.Framework.{Document}
use attestation.Move.Witness.{witness, assertion, android_key_attestation}
use attestation.Move.AttestAndroid as Android
use attestation.Move.Assertion as Assertion
use attestation.Move.Accepts.{verify-android_iff}
use attestation.Move.Documents.Laws.{Accepted}
use attestation.Move.Enclave.{apple_assertion, android, AndroidFor, AppleFor, AssertionFor}
use attestation.Move.Enclave.Acceptance.{verify-AndroidAnswered, verify-android-AppleAnswered}
use attestation.Move.Enclave.Provenance.{verify-android-Answer, verify-assertion-Answer}
use attestation.Android.Verify.{canonical_chain_hash_input}
use attestation.Examples.Toy.{android_chain, p256_key}
use attestation.Examples.Handlers.{
  field, host, state, digest, android_request, android_response, apple_request, apple_response,
  apple_responds, assertion_request, assertion_response, assertion_responds,
}
use attestation.Examples.Responses.{answered, payload}
use attestation.Examples.Enclave.{
  framed, enclave, enclave_laws, policy, loaded, sui, bridge, image, fresh, load-loaded,
}

-- The same answers with a document of the enclave.
android_moved :
    (a : AndroidAnswered host state android_request android_response)
    → AndroidAnswered enclave state android_request (record {
      nsm_doc_hex = framed (digest a.payload) (77 ∷ []);
      attested_value_hex = a.outcome.attested_value;
      challenge_hex = a.challenge;
      detail_hash_hex = a.outcome.detail_hash;
      public_key_hex = 77 ∷ [];
    })
unfolding attestation.Server.Android.decode_all
android_moved a = record {
  chain = a.chain;
  challenge = a.challenge;
  level = a.level;
  keys = a.keys;
  list = a.list;
  decodes = a.decodes;
  challenge_decodes = a.challenge_decodes;
  level_parses = a.level_parses;
  keys_decode = a.keys_decode;
  list_parses = a.list_parses;
  outcome = a.outcome;
  attested = a.attested;
  payload = a.payload;
  serializes = a.serializes;
  document = framed (digest a.payload) (77 ∷ []);
  documents = record { fd = 3; opens = refl; answers = refl };
  shown = refl;
}

apple_moved :
    (a : AppleAnswered host state apple_request apple_response)
    → AppleAnswered enclave state apple_request (record {
      nsm_doc_hex = framed (digest a.payload) (77 ∷ []);
      attested_value_hex = a.outcome.attested_value;
      challenge_hex = a.challenge;
      detail_hash_hex = a.outcome.detail_hash;
      public_key_hex = 77 ∷ [];
    })
apple_moved a = record {
  attestation_object = a.attestation_object;
  key_id = a.key_id;
  challenge = a.challenge;
  decodes = a.decodes;
  key_id_decodes = a.key_id_decodes;
  challenge_decodes = a.challenge_decodes;
  outcome = a.outcome;
  attested = a.attested;
  payload = a.payload;
  serializes = a.serializes;
  document = framed (digest a.payload) (77 ∷ []);
  documents = record { fd = 3; opens = refl; answers = refl };
  shown = refl;
}

assertion_moved :
    (a : AssertionAnswered host state assertion_request assertion_response)
    → AssertionAnswered enclave state assertion_request (record {
      nsm_doc_hex = framed (digest a.payload) (77 ∷ []);
      attested_key_hex = a.attested_key;
      client_data_hex = a.client_data;
      public_key_hex = 77 ∷ [];
    })
assertion_moved a = record {
  assertion_object = a.assertion_object;
  client_data = a.client_data;
  attested_key = a.attested_key;
  decodes = a.decodes;
  client_data_decodes = a.client_data_decodes;
  attested_key_decodes = a.attested_key_decodes;
  outcome = a.outcome;
  asserted = a.asserted;
  payload = a.payload;
  serializes = a.serializes;
  document = framed (digest a.payload) (77 ∷ []);
  documents = record { fd = 3; opens = refl; answers = refl };
  shown = refl;
}

abbrev pub detail : Bytes
detail = digest (canonical_chain_hash_input android_chain)

verify-AndroidAnswered_example :
    Android.verify sui policy (loaded (digest payload) (77 ∷ [])) (20 ∷ []) (7 ∷ []) detail 960000
    ≡ ok (witness android_key_attestation (20 ∷ []) (7 ∷ []) 900000 detail)
unfolding answered android_moved bridge
verify-AndroidAnswered_example =
    verify-AndroidAnswered enclave enclave_laws sui bridge policy
      (loaded (digest payload) (77 ∷ [])) 960000 image fresh state android_request _
      (android_moved (answered (77 ∷ []))) (λ e. cc) (load-loaded (digest payload) (77 ∷ []))

abbrev pub android_document : Document
android_document = loaded (digest payload) (77 ∷ [])

pub android_verifies :
    Android.verify sui policy android_document (20 ∷ []) (7 ∷ []) detail 960000
    ≡ ok (witness android_key_attestation (20 ∷ []) (7 ∷ []) 900000 detail)
unfolding Android.verify attestation.Move.Documents.accept attestation.Move.Documents.pcr_loop
    attestation.Move.Framework.add_u64 attestation.Common.bytes_eq canonical_chain_hash_input
android_verifies = refl

verify-android_iff_example :
    Accepted sui policy android_document payload 960000
    × (witness android_key_attestation (20 ∷ []) (7 ∷ []) 900000 detail
        ≡ witness android_key_attestation (20 ∷ []) (7 ∷ []) 900000 detail)
unfolding canonical_chain_hash_input
verify-android_iff_example =
    (verify-android_iff sui policy android_document (20 ∷ []) (7 ∷ []) detail 960000
        (witness android_key_attestation (20 ∷ []) (7 ∷ []) 900000 detail)).0
      android_verifies

abbrev asserted : Bytes
asserted = field p256_key ++ field (6 ∷ [])

abbrev assertion_document : Document
assertion_document = loaded (digest asserted) (77 ∷ [])

assertion_verifies :
    Assertion.verify sui policy assertion_document p256_key (6 ∷ []) 960000
    ≡ ok (witness assertion p256_key (6 ∷ []) 900000 (digest asserted))
unfolding Assertion.verify attestation.Move.Documents.accept attestation.Move.Documents.pcr_loop
    attestation.Move.Framework.add_u64 attestation.Common.bytes_eq
assertion_verifies = refl

verify-android-Answer_example :
    AndroidFor enclave (20 ∷ []) (7 ∷ []) detail ⊎ AppleFor enclave (20 ∷ []) (7 ∷ []) detail
unfolding answered android_moved bridge canonical_chain_hash_input
verify-android-Answer_example =
    verify-android-Answer enclave enclave_laws sui bridge policy android_document payload
      (framed (digest payload) (77 ∷ [])) (android (android_moved (answered (77 ∷ []))))
      (load-loaded (digest payload) (77 ∷ [])) 960000 (20 ∷ []) (7 ∷ []) detail
      (witness android_key_attestation (20 ∷ []) (7 ∷ []) 900000 detail) (λ e. refl)
      android_verifies

apple_answer : AppleAnswered host state apple_request apple_response
apple_answer =
    (attest_apple_attestation_iff host state apple_request apple_response).0 apple_responds

assertion_answer : AssertionAnswered host state assertion_request assertion_response
assertion_answer =
    (attest_apple_assertion_iff host state assertion_request assertion_response).0
      assertion_responds

verify-android-AppleAnswered_example :
    Android.verify sui policy
      (loaded (digest apple_answer.payload) (77 ∷ []))
      apple_answer.outcome.attested_value
      apple_answer.outcome.challenge
      apple_answer.outcome.detail_hash
      960000
    ≡ ok (
        witness android_key_attestation apple_answer.outcome.attested_value
          apple_answer.outcome.challenge 900000 apple_answer.outcome.detail_hash)
unfolding apple_moved bridge
verify-android-AppleAnswered_example =
    verify-android-AppleAnswered enclave enclave_laws sui bridge policy
      (loaded (digest apple_answer.payload) (77 ∷ [])) 960000 image fresh state apple_request _
      (apple_moved apple_answer) (λ e. cc) (load-loaded (digest apple_answer.payload) (77 ∷ []))

assertion_payload_shown : assertion_answer.payload ≡ asserted
assertion_payload_shown =
    let a = assertion_answer in
    let key : a.outcome.attested_value ≡ p256_key =
      a.asserted.key ∙ sym (some-eq-some a.attested_key_decodes) in
    let client : a.outcome.challenge ≡ 6 ∷ [] =
      a.asserted.echo ∙ sym (some-eq-some a.client_data_decodes) in
    sym (some-eq-some a.serializes)
    ∙ ap {A = Bytes × Bytes} (λ p. field (p.0) ++ (field (p.1) ++ []))
        {x = (a.outcome.attested_value, a.outcome.challenge)} {y = (p256_key, 6 ∷ [])}
        (cc (key, client))

verify-assertion-Answer_example : AssertionFor enclave p256_key (6 ∷ [])
unfolding assertion_moved bridge
verify-assertion-Answer_example =
    verify-assertion-Answer enclave enclave_laws sui bridge policy assertion_document
      assertion_answer.payload (framed (digest assertion_answer.payload) (77 ∷ []))
      (apple_assertion (assertion_moved assertion_answer))
      (load-loaded (digest assertion_answer.payload) (77 ∷ [])
        ∙ ap (λ p. some (loaded (digest p) (77 ∷ []))) assertion_payload_shown)
      960000 p256_key (6 ∷ []) (witness assertion p256_key (6 ∷ []) 900000 (digest asserted))
      (λ e. assertion_payload_shown) assertion_verifies
