-- ===== src/Examples/StatusLists.antt =====
-- Runs of the theorems on the status list.
use attestation.Common.{
  ℕ, zero, suc, ◌+◌, ◌≤◌, ◌<◌, ◌≡◌, ◌≢◌, refl, inl, arith, Bool, true, false, Option, none, some,
  List, [], ◌∷◌, ◌++◌, length, drop, All, replicate, Bytes, IsByte, codes, Result, ok, err, ok_or,
}
use attestation.Common.Text.{trim, trim_bom}
use attestation.Android.Revocation.{StatusList, parse_json, from_json, lookup_serial}
use attestation.Android.Revocation.Serials.{says, lookup_serial-says}
use attestation.Android.Revocation.Printed.{Record, IsRecord, IsPlain, document}
use attestation.Android.Revocation.RoundTrip.{entries_of, parse_json-document}
use attestation.Android.Verify.{Policy, default_policy, verify_attestation}
use attestation.Android.Verify.Listed.{IsListed, verify_attestation-IsListed}
use attestation.Examples.AndroidVerifiers.{outcome}
use attestation.Examples.Toy.{
  toy_x509, toy_crypto, description_der, root_der, android_chain, android_leaf_der, toy_der,
}

-- A serial twice: with one member, and with none.
abbrev records : List Record
records = (codes "a1", (codes "status", codes "R") ∷ []) ∷ (codes "a1", []) ∷ []

serial-IsPlain : IsPlain (codes "a1")
unfolding attestation.Common.Text.is_utf8 attestation.Common.Text.utf8_from
    attestation.Common.Text.lead
serial-IsPlain = record {
  utf8 = refl;
  plain = ((omega arith, omega arith), ((omega arith, omega arith), tt));
}

status-IsPlain : IsPlain (codes "status")
unfolding attestation.Common.Text.is_utf8 attestation.Common.Text.utf8_from
    attestation.Common.Text.lead
status-IsPlain = record {
  utf8 = refl;
  plain = (
    (omega arith, omega arith),
    (
      (omega arith, omega arith),
      (
        (omega arith, omega arith),
        (
          (omega arith, omega arith),
          ((omega arith, omega arith), ((omega arith, omega arith), tt)),
        ),
      ),
    ),
  );
}

value-IsPlain : IsPlain (codes "R")
unfolding attestation.Common.Text.is_utf8 attestation.Common.Text.utf8_from
    attestation.Common.Text.lead
value-IsPlain = record { utf8 = refl; plain = ((omega arith, omega arith), tt) }

trimmed : trim (trim_bom (b' ' ∷ document records)) ≡ document records
unfolding trim trim_bom
trimmed = refl

records-IsRecord : All IsRecord records
records-IsRecord =
    ((serial-IsPlain, ((status-IsPlain, value-IsPlain), tt)), ((serial-IsPlain, tt), tt))

abbrev parsed : StatusList
parsed = record { entries = entries_of (λ b. b) [] records }

parses : parse_json (λ b. b) (b' ' ∷ document records) ≡ ok parsed
parses = parse_json-document (λ b. b) (b' ' ∷ document records) records records-IsRecord trimmed

lookup_serial-says_example :
    (l : StatusList) × (from_json (λ b. b) (b' ' ∷ document records) ≡ ok l)
    × ((serial : Bytes) → lookup_serial l serial ≡ says (λ b. b) serial records)
lookup_serial-says_example =
    lookup_serial-says (λ b. b) (b' ' ∷ document records) records records-IsRecord trimmed

-- A list with the serial number 0x14, which is that of the leaf of the small chain.
abbrev listing : List Record
listing = (codes "14", []) ∷ []

listing-IsRecord : All IsRecord listing
unfolding attestation.Common.Text.is_utf8 attestation.Common.Text.utf8_from
    attestation.Common.Text.lead
listing-IsRecord = (
  (
    record { utf8 = refl; plain = ((omega arith, omega arith), ((omega arith, omega arith), tt)) },
    tt,
  ),
  tt,
)

listing_trimmed : trim (trim_bom (document listing)) ≡ document listing
unfolding trim trim_bom
listing_trimmed = refl

abbrev listing_list : StatusList
listing_list = record { entries = entries_of (λ b. b) [] listing }

listing_reads : from_json (λ b. b) (document listing) ≡ ok listing_list
unfolding from_json
listing_reads =
    rw (parse_json-document (λ b. b) (document listing) listing listing-IsRecord listing_trimmed)
      refl

leaf-IsListed : IsListed toy_x509 (λ b. b) listing android_leaf_der
unfolding attestation.Common.bytes_eq attestation.Common.Text.to_lowercase
    attestation.Common.Text.is_ascii
leaf-IsListed = record {
  cert = record { own = 20; issuer = 21; contents = description_der };
  parses = refl;
  zeros = 0;
  first = 20;
  others = [];
  first_size = omega arith;
  serial = refl;
  entry = record { status = []; reason = [] };
  listed = refl;
}

abbrev listing_policy : Policy
listing_policy = record default_policy { status_list = some listing_list }

verify_attestation-IsListed_example :
    verify_attestation toy_x509 toy_crypto toy_der
      (root_der ∷ [])
      android_chain
      (7 ∷ [])
      listing_policy
      5000
    ≢ ok outcome
verify_attestation-IsListed_example =
    verify_attestation-IsListed toy_x509 (λ b. b) listing toy_crypto toy_der (root_der ∷ [])
      android_chain (7 ∷ []) listing_policy 5000 (document listing) listing_list listing-IsRecord
      listing_trimmed listing_reads refl (inl leaf-IsListed) outcome
