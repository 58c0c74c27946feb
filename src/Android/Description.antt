-- ===== src/Android/Description.antt =====
-- `KeyDescription` of key_description.rs: `SecurityLevel`, and `KeyDescription::from_der`.
pub mod RoundTrip
use attestation.Common.{
  ℕ, zero, suc, Bool, not, Option, none, some, leb, ◌==◌, Bytes, Result, ok, ok_or, reject_if,
  ◌>>=◌, ◌>>◌,
}
use attestation.Common.Int.{ℤ, pos}
use attestation.Android.Der.{Der, sequence_tag}
use attestation.Android.Errors.{
  SecurityLevel, software, trusted_environment, strong_box, Error, der,
}
use attestation.Android.Integers.{decode_i32, decode_enumerated}
use attestation.Android.Authorizations.{AuthorizationList, decode_authorization_list}

-- `SecurityLevel::from_i32`
unfoldable pub level_from_i32 : ℤ → Option SecurityLevel
level_from_i32 (pos zero) = some software
level_from_i32 (pos (suc zero)) = some trusted_environment
level_from_i32 (pos (suc (suc zero))) = some strong_box
level_from_i32 _ = none

unfoldable pub rank : SecurityLevel → ℕ
rank software = 0
rank trusted_environment = 1
rank strong_box = 2

unfoldable pub meets : SecurityLevel → SecurityLevel → Bool
unfolding rank
meets level other = leb (rank other) (rank level)

pub record KeyDescription : Type 0 where
  pub attestation_version : ℤ
  pub attestation_security_level : SecurityLevel
  pub keymint_version : ℤ
  pub keymint_security_level : SecurityLevel
  pub attestation_challenge : Bytes
  pub unique_id : Bytes
  pub software_enforced : AuthorizationList
  pub hardware_enforced : AuthorizationList

module _ (d : Der) where
  open d use {new, peek_header, header, read_slice, octet_string}

  unfoldable pub from_der : Bytes → Result Error KeyDescription
  from_der bytes = do
    reader ← ok_or (new bytes) (der "KeyDescription outer")
    outer_header ← ok_or (peek_header reader) (der "")
    reject_if (not (outer_header.tag == sequence_tag)) (der "expected SEQUENCE")
    (h, reader) ← ok_or (header reader) (der "")
    (body, _) ← ok_or (read_slice reader h.length) (der "KeyDescription body")
    br ← ok_or (new body) (der "KeyDescription body reader")
    (attestation_version, br) ← ok_or (decode_i32 d br) (der "attestationVersion")
    (attestation_level_i, br) ← ok_or (decode_enumerated d br) (der "attSecLevel")
    attestation_level ← ok_or (level_from_i32 attestation_level_i) (der "unknown SecurityLevel")
    (keymint_version, br) ← ok_or (decode_i32 d br) (der "keymintVersion")
    (keymint_level_i, br) ← ok_or (decode_enumerated d br) (der "kmSecLevel")
    keymint_level ← ok_or (level_from_i32 keymint_level_i) (der "unknown SecurityLevel")
    (challenge, br) ← ok_or (octet_string br) (der "attestationChallenge")
    (unique_id, br) ← ok_or (octet_string br) (der "uniqueId")
    (software_enforced, br) ← ok_or (decode_authorization_list d br) (der "softwareEnforced")
    (hardware_enforced, _) ← ok_or (decode_authorization_list d br) (der "hardwareEnforced")
    ok (record {
      attestation_version = attestation_version;
      attestation_security_level = attestation_level;
      keymint_version = keymint_version;
      keymint_security_level = keymint_level;
      attestation_challenge = challenge;
      unique_id = unique_id;
      software_enforced = software_enforced;
      hardware_enforced = hardware_enforced;
    })
