-- ===== src/Examples/Responses.antt =====
-- Runs of the theorems on the handlers' responses and on the user data of their documents.
use attestation.Common.{
  ◌≡◌, refl, arith, none, some, true, codes, [], ◌∷◌, ◌++◌, length, Bytes, ok, err, inl, inr,
}
use attestation.X509.{Crypto}
use attestation.Android.Errors.{trusted_environment}
use attestation.Android.Verify.{canonical_chain_hash_input}
use attestation.Android.Verify.Sound.{IsAttested}
use attestation.Common.{append_injective}
use attestation.Android.Description.RoundTrip.{from_der-Describes}
use attestation.Server.Data.{Host, policy_of, parse_security_level}
use attestation.Server.Device.{attestation_doc}
use attestation.Server.Start.{
  Machine, main, run, spawn_bridge, assign_address, link_up, serving, setup_loopback, listen,
}
use attestation.Server.Start.Serving.{IsServing, main_iff}
use attestation.Server.Android.{decode_all}
use attestation.Server.Bound.AndroidAttestation.{AndroidAnswered}
use attestation.Server.Bound.AppleAttestation.{AppleAnswered}
use attestation.Server.Bound.AppleAssertion.{AssertionAnswered}
use attestation.Server.App.{Axum, post, serve}
use attestation.Server.App.Justified.{Justified, serve-Justified}
use attestation.Server.Digest.{BcsLaws, android_user_data_injective}
use attestation.Server.Responds.{
  attest_apple_attestation_iff, attest_apple_assertion_iff, no_device, attestation_doc_iff,
}
use attestation.Examples.Toy.{toy_x509, toy_crypto, toy_der, description_der, android_chain}
use attestation.Examples.Encodings.{described, describes}
use attestation.Examples.ToyDer.{toy_laws}
use attestation.Examples.AndroidVerifiers.{leaf, pinned, trusted, outcome}
use attestation.Examples.Handlers.{
  field, host, state, digest, android_request, android_response, apple_request, apple_response,
  apple_responds, assertion_request, assertion_response, assertion_responds,
}

host_laws : BcsLaws host
host_laws = record {
  field = field;
  field_ends =
      λ x y r s e. let same : length x ≡ length y = cc in append_injective x y r s same (cc e);
  apple_fields = λ p payload e. cc;
  android_fields = λ p payload e. cc;
  assertion_fields = λ p payload e. cc;
}

pub attested :
    IsAttested toy_x509 toy_crypto toy_der pinned android_chain
      (7 ∷ [])
      (policy_of android_request trusted_environment [] none)
      5000
      outcome
unfolding attestation.X509.Checks.find_extension attestation.Android.Description.rank trusted
attested = record {
  leaf = leaf;
  trusted = trusted;
  unfound = tt;
  ext_value = description_der;
  extension = (_, _, refl, refl, refl);
  kd = described;
  description = from_der-Describes toy_der toy_laws description_der described describes;
  challenged = refl;
  attestation_level = omega arith;
  keymint_level = omega arith;
  boot = (inr refl, inl refl);
  source = refl;
  attested_value = refl;
  echo = refl;
  time = refl;
  detail = refl;
}

abbrev pub payload : Bytes
payload =
    field (20 ∷ [])
    ++ (field (7 ∷ []) ++ (field (digest (canonical_chain_hash_input android_chain)) ++ []))

unfoldable pub answered :
    (key : Bytes)
    → AndroidAnswered host
        (record { verifying_key = key })
        android_request
        (record android_response { public_key_hex = key })
unfolding decode_all parse_security_level
answered key = record {
  chain = android_chain;
  challenge = 7 ∷ [];
  level = trusted_environment;
  keys = [];
  list = none;
  decodes = refl;
  challenge_decodes = refl;
  level_parses = refl;
  keys_decode = refl;
  list_parses = refl;
  outcome = outcome;
  attested = attested;
  payload = payload;
  serializes = refl;
  document = digest payload;
  documents = record { fd = 3; opens = refl; answers = refl };
  shown = refl;
}

android_user_data_injective_example :
    (android_chain ≡ android_chain)
    × (◌≡◌ {A = Bytes} (7 ∷ []) (7 ∷ []))
    × (◌≡◌ {A = Bytes} (20 ∷ []) (20 ∷ []))
unfolding answered
android_user_data_injective_example =
    android_user_data_injective host host_laws (answered (77 ∷ [])) (answered (78 ∷ []))
      (omega arith, (omega arith, tt)) (omega arith, (omega arith, tt)) (λ e. refl) (λ e. refl) refl

attest_apple_attestation_iff_example : AppleAnswered host state apple_request apple_response
attest_apple_attestation_iff_example =
    (attest_apple_attestation_iff host state apple_request apple_response).0 apple_responds

attest_apple_assertion_iff_example :
    AssertionAnswered host state assertion_request assertion_response
attest_apple_assertion_iff_example =
    (attest_apple_assertion_iff host state assertion_request assertion_response).0
      assertion_responds

-- Outside an enclave.
abbrev outside : Host
outside = record host { nsm_init = none }

attestation_doc_iff_example : attestation_doc outside state ≡ err 501
attestation_doc_iff_example = (attestation_doc_iff outside state 501).1 (no_device refl)

-- Bodies of one octet, which stands for the small requests.
abbrev axum : Axum
axum = record {
  apple_json = λ b. ok apple_request;
  assertion_json = λ b. ok assertion_request;
  android_json = λ b. ok android_request;
  not_found = 404;
  method_not_allowed = 405;
}

serve-Justified_example :
    Justified host axum "0.1.0" state post "/attest/android" []
      (serve host axum "0.1.0" state post "/attest/android" [])
serve-Justified_example = serve-Justified host axum "0.1.0" state post "/attest/android" []

-- An enclave whose key is the state's.
abbrev machine : Machine
machine = record {
  vsock_device = true;
  status = λ args. some true;
  generated = 77 ∷ [];
  enclave_bind = none;
  SocketAddr = Bytes;
  parse_addr = some;
  bind = λ addr. true;
  vsock_bind = λ port. true;
}

main_serves : main machine ≡ (
  run assign_address ∷ run link_up ∷ spawn_bridge 3000 3000 ∷ [],
  serving state (codes "127.0.0.1:3000"),
)
unfolding main setup_loopback listen
main_serves = refl

main_iff_example :
    IsServing machine
      (run assign_address ∷ run link_up ∷ spawn_bridge 3000 3000 ∷ [])
      state
      (codes "127.0.0.1:3000")
main_iff_example =
    (main_iff machine (run assign_address ∷ run link_up ∷ spawn_bridge 3000 3000 ∷ []) state
        (codes "127.0.0.1:3000")).0
      main_serves
