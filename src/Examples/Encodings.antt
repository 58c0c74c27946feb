-- ===== src/Examples/Encodings.antt =====
-- Runs of the theorems on encoded key descriptions and application ids.
use attestation.Common.{
  List, inr, ℕ, suc, ◌<◌, ◌≡◌, refl, arith, true, none, some, [], ◌∷◌, take, drop, Bytes, ok,
}
use attestation.Common.Int.{pos}
use attestation.Android.Errors.{trusted_environment, verified}
use attestation.Android.Integers.Encoded.{Stands}
use attestation.Android.Tlv.Forms.{high, short}
use attestation.Android.Authorizations.{RootOfTrust, AuthorizationList, empty_list}
use attestation.Android.Authorizations.Items.{Element}
use attestation.Android.Authorizations.Root.{HoldsRoot}
use attestation.Android.Authorizations.Encoded.{HoldsList, is_context, is_root}
use attestation.Android.Authorizations.Fields.{root_of_trust}
use attestation.Android.Description.{KeyDescription, from_der}
use attestation.Android.Description.RoundTrip.{Describes, from_der-Describes}
use attestation.Android.Application.{AttestationApplicationId, attestation_application_id}
use attestation.Android.Application.Encoded.{
  HoldsApplication, attestation_application_id-HoldsApplication, one_more, none_left,
}
use attestation.Examples.Toy.{toy_der, description_der}
use mathlib.Core.List.Permᴰ
use attestation.Android.Authorizations.{decode_body}
use attestation.Android.Authorizations.Order.{AllApart, decode_body-Perm}
use attestation.Android.Authorizations.Items.{IsElement, elements_octets}
use attestation.Examples.ToyDer.{toy_laws}

abbrev boot : RootOfTrust
boot = record {
  verified_boot_key = 9 ∷ [];
  device_locked = true;
  verified_boot_state = verified;
  verified_boot_hash = none;
}

abbrev hardware : AuthorizationList
hardware = record empty_list { root_of_trust = some boot }

abbrev pub described : KeyDescription
described = record {
  attestation_version = pos 4;
  attestation_security_level = trusted_environment;
  keymint_version = pos 4;
  keymint_security_level = trusted_environment;
  attestation_challenge = 7 ∷ [];
  unique_id = [];
  software_enforced = empty_list;
  hardware_enforced = hardware;
}

abbrev root_contents : Bytes
root_contents = drop 27 description_der

-- [704] EXPLICIT, with 11 octets of contents
abbrev element : Element
element = record {
  form = record { class = 2; constructed = true; tag = high (5 ∷ []) 64; len = short 0x0b };
  contents = root_contents;
}

one_octet : (w n : ℕ) → n < 128 → Stands (suc w) (n ∷ []) (pos n)
one_octet w n h = record {
  are_octets = (omega (arith, h), tt);
  size = omega arith;
  value = ground (arith, h);
}

holds_root : HoldsRoot toy_der toy_laws root_contents boot
unfolding toy_laws
holds_root = record {
  body = drop 2 root_contents;
  more = [];
  state = 0 ∷ [];
  tail = [];
  outer = refl;
  short = omega arith;
  inner = refl;
  stands = one_octet 3 0 (omega arith);
  hash = refl;
}

holds_hardware : HoldsList toy_der toy_laws (drop 23 description_der) hardware
holds_hardware = record {
  elements = element ∷ [];
  fields = root_of_trust boot ∷ [];
  are_elements = (
    record {
      is_header = record {
        class_lt = omega arith;
        tag_form = ((omega arith, tt), omega arith);
        len_form = omega arith;
      };
      len_is = refl;
    },
    tt,
  );
  body_is = refl;
  tell = (is_context refl (omega arith) (omega arith) (is_root boot refl holds_root refl), tt);
  out_is = refl;
}

pub describes : Describes toy_der toy_laws description_der described
unfolding toy_laws
describes = record {
  version = 4 ∷ [];
  level = 1 ∷ [];
  keymint_version = 4 ∷ [];
  keymint_level = 1 ∷ [];
  software = [];
  hardware = drop 23 description_der;
  body = drop 2 description_der;
  more = [];
  tail = [];
  outer = refl;
  short = omega arith;
  body_short = omega arith;
  inner = refl;
  version_is = one_octet 3 4 (omega arith);
  version_minimal = tt;
  level_is = one_octet 3 1 (omega arith);
  keymint_version_is = one_octet 3 4 (omega arith);
  keymint_version_minimal = tt;
  keymint_level_is = one_octet 3 1 (omega arith);
  software_is = record {
    elements = [];
    fields = [];
    are_elements = tt;
    body_is = refl;
    tell = tt;
    out_is = refl;
  };
  hardware_is = holds_hardware;
}

from_der-Describes_example : from_der toy_der description_der ≡ ok described
from_der-Describes_example = from_der-Describes toy_der toy_laws description_der described describes

-- One package, `com`, of version 3, and one digest.
abbrev application_der : Bytes
application_der =
    0x30 ∷ 19 ∷ 0x31 ∷ 10 ∷ 0x30 ∷ 8 ∷ 0x04 ∷ 3 ∷ 99 ∷ 111 ∷ 109 ∷ 0x02 ∷ 1 ∷ 3 ∷ 0x31 ∷ 5 ∷ 0x04
    ∷ 3 ∷ 8 ∷ 8 ∷ 8 ∷ []

abbrev application : AttestationApplicationId
application = record {
  package_infos = record { package_name = 99 ∷ 111 ∷ 109 ∷ []; version = pos 3 } ∷ [];
  signature_digests = (8 ∷ 8 ∷ 8 ∷ []) ∷ [];
}

holds_application : HoldsApplication toy_der toy_laws application_der application
unfolding toy_laws
holds_application = record {
  body = drop 2 application_der;
  more = [];
  packages = take 12 (drop 2 application_der);
  digests = drop 14 application_der;
  tail = [];
  outer = refl;
  short = omega arith;
  body_short = omega arith;
  inner = refl;
  packages_are = record {
    body = take 10 (drop 4 application_der);
    outer = refl;
    short = omega arith;
    row =
        one_more (take 10 (drop 4 application_der))
          (record { package_name = 99 ∷ 111 ∷ 109 ∷ []; version = pos 3 }) [] []
          (record {
            body = take 8 (drop 6 application_der);
            number = 3 ∷ [];
            tail = [];
            outer = refl;
            short = omega arith;
            inner = refl;
            version_is = one_octet 7 3 (omega arith);
            minimal = tt;
          })
          none_left;
  };
  digests_are = record {
    body = drop 16 application_der;
    outer = refl;
    short = omega arith;
    row = one_more (drop 16 application_der) (8 ∷ 8 ∷ 8 ∷ []) [] [] refl none_left;
  };
}

attestation_application_id-HoldsApplication_example :
    attestation_application_id toy_der application_der ≡ ok application
attestation_application_id-HoldsApplication_example =
    attestation_application_id-HoldsApplication toy_der toy_laws application_der application
      holds_application

-- [705] EXPLICIT, with the INTEGER 7
abbrev version_element : Element
version_element = record {
  form = record { class = 2; constructed = true; tag = high (5 ∷ []) 65; len = short 3 };
  contents = 0x02 ∷ 1 ∷ 7 ∷ [];
}

abbrev two_elements : List Element
two_elements = element ∷ version_element ∷ []

element-IsElement : IsElement element
element-IsElement = record {
  is_header = record {
    class_lt = omega arith;
    tag_form = ((omega arith, tt), omega arith);
    len_form = omega arith;
  };
  len_is = refl;
}

version_element-IsElement : IsElement version_element
version_element-IsElement = record {
  is_header = record {
    class_lt = omega arith;
    tag_form = ((omega arith, tt), omega arith);
    len_form = omega arith;
  };
  len_is = refl;
}

two_elements-AllApart : AllApart two_elements
two_elements-AllApart = ((inr (inr (λ e. omega (arith, e))), tt), (tt, tt))

decode_body-Perm_example :
    decode_body toy_der (elements_octets two_elements)
    ≡ decode_body toy_der (elements_octets (version_element ∷ element ∷ []))
decode_body-Perm_example =
    decode_body-Perm toy_der two_elements (version_element ∷ element ∷ [])
      (element-IsElement, (version_element-IsElement, tt)) two_elements-AllApart
      (Permᴰ.swap refl refl)
