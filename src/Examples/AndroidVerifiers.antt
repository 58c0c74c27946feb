-- ===== src/Examples/AndroidVerifiers.antt =====
-- Runs of the theorems on Android's chains and verifier.
use attestation.Common.{
  ℕ, ◌+◌, ◌≤◌, ◌<◌, ◌≡◌, ◌≢◌, ◌↔◌, refl, arith, Bool, true, false, Option, none, some, List, [],
  ◌∷◌, ◌++◌, All, replicate, Bytes, codes, inl, inr, Result, ok, err,
}
use attestation.Core.{Outcome, android_key_attest}
use attestation.X509.{X509, Crypto}
use attestation.Android.Errors.{trusted_environment}
use attestation.Android.Chain.{validate_chain}
use attestation.Android.Chain.Trust.{IsTrusted}
use attestation.Android.Revocation.{StatusEntry, StatusList, lookup_serial}
use attestation.Android.Verify.{
  Policy, canonical_chain_hash_input, verify_attestation, check_status,
}
use attestation.Android.Verify.Sound.{
  IsAttested, verify_attestation-IsAttested, IsAttested-verify_attestation,
}
use attestation.Android.Verify.Serial.{check_status-misses}
use attestation.Android.Errors.{self_signed}
use attestation.Android.Authorizations.{RootOfTrust}
use attestation.Android.Verify.{check_verified_boot}
use attestation.Android.Verify.Accepts.{check_verified_boot_iff}
use attestation.X509.Checks.Laws.{Passes}
use attestation.Android.Chain.Trust.{Signed}
use attestation.Examples.Toy.{
  toy_der, Cert, toy_x509, toy_crypto, root_der, description_der, android_chain,
}
use attestation.Android.Description.RoundTrip.{from_der-Describes}
use attestation.Examples.Encodings.{described, describes}
use attestation.Examples.ToyDer.{toy_laws}

abbrev pub leaf : Cert
leaf = record { own = 20; issuer = 21; contents = description_der }

abbrev pub pinned : List Bytes
pinned = root_der ∷ []

abbrev revoked_entry : StatusEntry
revoked_entry = record { status = codes "REVOKED"; reason = [] }

abbrev policy : Policy
policy = record {
  min_security_level = trusted_environment;
  require_verified_boot = true;
  allowed_self_signed_keys = [];
  require_device_locked = true;
  status_list = some (record { entries = (codes "ff", revoked_entry) ∷ [] });
}

abbrev pub outcome : Outcome
outcome = record {
  source = android_key_attest;
  attested_value = 20 ∷ [];
  challenge = 7 ∷ [];
  timestamp_ms = 5000;
  detail_hash = Crypto.sha256 toy_crypto (canonical_chain_hash_input android_chain);
}

verifies :
    verify_attestation toy_x509 toy_crypto toy_der pinned android_chain (7 ∷ []) policy 5000
    ≡ ok outcome
unfolding verify_attestation validate_chain attestation.X509.Checks.parse_all
    attestation.X509.Checks.check_all attestation.X509.Checks.check_validity
    attestation.X509.Checks.check_links attestation.Android.Chain.verify_signature
    attestation.Android.Chain.verify_ec attestation.X509.Checks.verify_message
    attestation.Common.bytes_eq attestation.Android.Chain.anchored
    attestation.Android.Chain.root_matches_top attestation.X509.Checks.last_of check_status
    attestation.Android.Verify.serial_hex attestation.Android.Verify.push_serial
    attestation.Android.Revocation.lookup_serial attestation.Android.Revocation.get
    attestation.Android.Verify.extract_attestation_extension attestation.X509.Checks.find_extension
    attestation.Android.Description.from_der attestation.Android.Integers.decode_i32
    attestation.Android.Integers.decode_enumerated attestation.Android.Integers.i32_of
    attestation.Android.Integers.is_negative attestation.Android.Integers.extend
    attestation.Android.Description.level_from_i32 attestation.Android.Description.meets
    attestation.Android.Description.rank
    attestation.Android.Authorizations.decode_authorization_list
    attestation.Android.Authorizations.decode_body attestation.Android.Authorizations.walk
    attestation.Android.Authorizations.step attestation.Android.Authorizations.apply_element
    attestation.Android.Authorizations.decode_field
    attestation.Android.Authorizations.decode_root_of_trust
    attestation.Android.Authorizations.boot_state_from_i32 attestation.Android.Tlv.parse_tlv_header
    attestation.Android.Tlv.parse_header attestation.Android.Tlv.parse_tag
    attestation.Android.Tlv.tag_loop attestation.Android.Tlv.parse_len
    attestation.Android.Verify.check_verified_boot attestation.Android.Verify.check_boot_state
    canonical_chain_hash_input
verifies = refl

verify_attestation-IsAttested_example :
    IsAttested toy_x509 toy_crypto toy_der pinned android_chain (7 ∷ []) policy 5000 outcome
verify_attestation-IsAttested_example =
    verify_attestation-IsAttested toy_x509 toy_crypto toy_der pinned android_chain (7 ∷ []) policy
      5000 outcome verifies

abbrev pub root : Cert
root = record { own = 21; issuer = 21; contents = [] }

pub root_signs : Signed toy_crypto toy_x509 leaf root
unfolding attestation.Android.Chain.verify_signature attestation.Android.Chain.verify_ec
    attestation.X509.Checks.verify_message attestation.Common.bytes_eq
root_signs = refl

unfoldable pub trusted : IsTrusted toy_crypto toy_x509 pinned android_chain 5000 leaf
unfolding attestation.Android.Chain.root_matches_top attestation.Common.bytes_eq
    attestation.X509.Checks.last_of
trusted = record {
  uppers = root ∷ [];
  roots = root ∷ [];
  chain_parses = (refl, (refl, tt));
  roots_parse = (refl, tt);
  in_window = ((omega arith, omega arith), ((omega arith, omega arith), tt));
  linked = (root_signs, tt);
  anchor = inl (inl refl);
}

attested : IsAttested toy_x509 toy_crypto toy_der pinned android_chain (7 ∷ []) policy 5000 outcome
unfolding lookup_serial attestation.Android.Revocation.get attestation.Common.bytes_eq
    attestation.Android.Verify.serial_hex attestation.Android.Verify.push_serial
    attestation.X509.Checks.find_extension attestation.Android.Description.rank trusted
attested = record {
  leaf = leaf;
  trusted = trusted;
  unfound = ((leaf, refl, refl), ((root, refl, refl), tt));
  ext_value = description_der;
  extension = (_, _, refl, refl, refl);
  kd = described;
  description = from_der-Describes toy_der toy_laws description_der described describes;
  challenged = refl;
  attestation_level = omega arith;
  keymint_level = omega arith;
  boot = (inr refl, inl refl);
  source = refl;
  attested_value = refl;
  echo = refl;
  time = refl;
  detail = refl;
}

IsAttested-verify_attestation_example :
    verify_attestation toy_x509 toy_crypto toy_der pinned android_chain (7 ∷ []) policy 5000
    ≡ ok outcome
unfolding attested trusted
IsAttested-verify_attestation_example =
    IsAttested-verify_attestation toy_x509 toy_crypto toy_der pinned android_chain (7 ∷ []) policy
      5000 outcome attested ((omega arith, omega arith), tt)

-- A policy that lets YELLOW pass with the boot key 9, and a locked YELLOW device with that key.
abbrev yellow_policy : Policy
yellow_policy = record policy {
  require_verified_boot = false;
  allowed_self_signed_keys = (9 ∷ []) ∷ [];
}

abbrev yellow : RootOfTrust
yellow = record {
  verified_boot_key = 9 ∷ [];
  device_locked = true;
  verified_boot_state = self_signed;
  verified_boot_hash = none;
}

check_verified_boot_iff_example : Passes (check_verified_boot yellow_policy (some yellow))
check_verified_boot_iff_example =
    (check_verified_boot_iff yellow_policy (some yellow)).1
      (inr refl, inr (refl, inr (refl, inl refl)))

-- The certificate with the serial number 20, which is 14 in hexadecimal, and one with the number 5.
abbrev revoking : StatusList
revoking = record { entries = (codes "14", revoked_entry) ∷ (codes "5", revoked_entry) ∷ [] }

listed : lookup_serial revoking (codes "14") ≡ some revoked_entry
unfolding lookup_serial attestation.Android.Revocation.get attestation.Common.bytes_eq
listed = refl

abbrev small : Cert
small = record { own = 5; issuer = 21; contents = [] }

check_status-misses_example : check_status toy_x509 revoking (5 ∷ 21 ∷ []) ≡ ok tt
check_status-misses_example =
    check_status-misses toy_x509 revoking (5 ∷ 21 ∷ []) small refl 0 5 [] (omega arith) refl
      (omega arith) (omega arith, (omega arith, tt))
