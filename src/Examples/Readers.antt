-- ===== src/Examples/Readers.antt =====
-- Runs of the theorems on the parsers and the other functions without a certificate.
use attestation.Common.{
  ◌+◌, ◌≤◌, ◌<◌, ◌≡◌, ◌≢◌, refl, arith, true, none, some, List, [], ◌∷◌, ◌++◌, All, Bytes, IsByte,
  codes, ok, err,
}
use attestation.Android.Errors.{verified}
use attestation.Android.Tlv.{TlvHeader, parse_tlv_header, parse_header, parse_tag, parse_len}
use attestation.Android.Tlv.Forms.{HeaderForm, IsHeader, high, short, octets, header_of}
use attestation.Android.Tlv.Read.{parse_tlv_header-octets}
use attestation.Android.Tlv.Sound.{HeaderRead, parse_tlv_header-HeaderRead, parse_tlv_header_bounds}
use attestation.Android.Integers.{i32_of, u64_of, decode_i64_from_int}
use attestation.Android.Authorizations.{
  AuthorizationList, empty_list, out_of_fuel, malformed, decode_body,
}
use attestation.Android.Authorizations.Items.{Element, elements_octets}
use attestation.Android.Authorizations.Total.{decode_body-ne-out_of_fuel}
use attestation.Apple.AuthData.{AuthData, parse}
use attestation.Apple.AuthData.Layout.{IsAuthData, layout}
use attestation.Apple.AuthData.RoundTrip.{parse_iff}
use attestation.Examples.Toy.{toy_der, auth_data, app_id, are_octets, are_octets-IsByte}

-- [704] EXPLICIT, with 11 octets of contents
abbrev root_of_trust_header : HeaderForm
root_of_trust_header = record {
  class = 2;
  constructed = true;
  tag = high (5 ∷ []) 64;
  len = short 0x0b;
}

root_of_trust_header-IsHeader : IsHeader root_of_trust_header
root_of_trust_header-IsHeader = record {
  class_lt = omega arith;
  tag_form = ((omega arith, tt), omega arith);
  len_form = omega arith;
}

parse_tlv_header-octets_example :
    parse_tlv_header ((0 ∷ []) ++ (octets root_of_trust_header ++ (7 ∷ []))) 1
    ≡ some (header_of root_of_trust_header)
parse_tlv_header-octets_example =
    parse_tlv_header-octets (0 ∷ []) root_of_trust_header (7 ∷ []) root_of_trust_header-IsHeader

abbrev header_octets : Bytes
header_octets = 0xbf ∷ 0x85 ∷ 0x40 ∷ 0x0b ∷ 7 ∷ []

header_octets-IsByte : All IsByte header_octets
header_octets-IsByte = (omega arith, (omega arith, (omega arith, (omega arith, (omega arith, tt)))))

abbrev read_header : TlvHeader
read_header = record {
  class = 2;
  constructed = true;
  tag_number = 704;
  header_len = 4;
  body_len = 0x0b;
}

reads : parse_tlv_header header_octets 0 ≡ some read_header
unfolding parse_tlv_header parse_header parse_tag attestation.Android.Tlv.tag_loop parse_len
reads = refl

parse_tlv_header-HeaderRead_example : HeaderRead header_octets read_header
parse_tlv_header-HeaderRead_example =
    parse_tlv_header-HeaderRead header_octets 0 read_header header_octets-IsByte reads

parse_tlv_header_bounds_example :
    (2 ≤ 4) × (0 + 4 ≤ 5) × (2 < 4) × (704 < 4294967296) × (11 < 4294967296)
parse_tlv_header_bounds_example =
    parse_tlv_header_bounds header_octets 0 read_header header_octets-IsByte reads

abbrev elements : List Element
elements =
    record {
      form = root_of_trust_header;
      contents = 0x30 ∷ 9 ∷ 0x04 ∷ 1 ∷ 9 ∷ 0x01 ∷ 1 ∷ 0xff ∷ 0x0a ∷ 1 ∷ 0 ∷ [];
    }
    ∷ []

decode_body-ne-out_of_fuel_example : decode_body toy_der header_octets ≢ err out_of_fuel
decode_body-ne-out_of_fuel_example =
    decode_body-ne-out_of_fuel toy_der header_octets header_octets-IsByte

abbrev body : Bytes
body = elements_octets elements

abbrev decoded : AuthorizationList
decoded = record empty_list {
  root_of_trust = some (record {
    verified_boot_key = 9 ∷ [];
    device_locked = true;
    verified_boot_state = verified;
    verified_boot_hash = none;
  });
}

decodes : decode_body toy_der body ≡ ok decoded
unfolding decode_body attestation.Android.Authorizations.walk
    attestation.Android.Authorizations.step attestation.Android.Authorizations.apply_element
    attestation.Android.Authorizations.decode_field
    attestation.Android.Authorizations.decode_root_of_trust
    attestation.Android.Authorizations.boot_state_from_i32 attestation.Android.Tlv.parse_tlv_header
    attestation.Android.Tlv.parse_header attestation.Android.Tlv.parse_tag
    attestation.Android.Tlv.tag_loop attestation.Android.Tlv.parse_len
    attestation.Android.Integers.decode_enumerated i32_of attestation.Android.Integers.is_negative
    attestation.Android.Integers.extend
decodes = refl

abbrev auth : AuthData
auth = record {
  rp_id_hash = app_id;
  flags = 0x40;
  sign_count = 0;
  aaguid = codes "appattestdevelop";
  credential_id = 8 ∷ [];
  credential_public_key = 2 ∷ [];
}

auth_data-IsByte : All IsByte auth_data
unfolding are_octets
auth_data-IsByte = are_octets-IsByte auth_data refl

auth_parses : parse auth_data ≡ ok auth
unfolding parse
auth_parses = refl

parse_iff_example : IsAuthData auth × (layout auth ≡ auth_data)
parse_iff_example = (parse_iff auth_data auth auth_data-IsByte).0 auth_parses
