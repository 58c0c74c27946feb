-- ===== src/Android/Description/RoundTrip.antt =====
-- What `KeyDescription::from_der` reads of an encoded key description.
use attestation.Common.{inl, ◌≤◌, ◌≡◌, refl, ◌∙◌, some, ◌++◌, length, Bytes, ok}
use attestation.Common.Int.{ℤ, pos}
use attestation.Android.Der.{Der, sequence_tag, enumerated_tag}
use attestation.Android.Der.Laws.{DerLaws, IsMinimal, integer_tag, octet_string_tag, max_length}
use attestation.Android.Errors.{SecurityLevel, software, trusted_environment, strong_box}
use attestation.Android.Integers.Encoded.{Stands, decode_i32-octets, decode_enumerated-octets}
use attestation.Android.Authorizations.Encoded.{HoldsList, decode_authorization_list-HoldsList}
use attestation.Android.Description.{KeyDescription, level_from_i32, from_der}

abbrev pub level_number : SecurityLevel → ℤ
level_number software = pos 0
level_number trusted_environment = pos 1
level_number strong_box = pos 2

level_from_i32-level_number : (s : SecurityLevel) → level_from_i32 (level_number s) ≡ some s
unfolding level_from_i32
level_from_i32-level_number software = refl
level_from_i32-level_number trusted_environment = refl
level_from_i32-level_number strong_box = refl

module _ (d : Der) (l : DerLaws d) where
  open l use {rest, octets}

  -- The octets encode the key description: a SEQUENCE of its eight fields, with anything behind it and
  -- behind the last of them.
  pub record Describes (bytes : Bytes) (kd : KeyDescription) : Type 0 where
    pub version : Bytes
    pub level : Bytes
    pub keymint_version : Bytes
    pub keymint_level : Bytes
    pub software : Bytes
    pub hardware : Bytes
    pub body : Bytes
    pub more : Bytes
    pub tail : Bytes
    pub outer : bytes ≡ octets sequence_tag body ++ more
    pub short : length bytes ≤ max_length
    pub body_short : length body ≤ max_length
    pub inner :
        body
        ≡ octets integer_tag version
          ++ (octets enumerated_tag level
              ++ (octets integer_tag keymint_version
                  ++ (octets enumerated_tag keymint_level
                      ++ (octets octet_string_tag kd.attestation_challenge
                          ++ (octets octet_string_tag kd.unique_id
                              ++ (octets sequence_tag software
                                  ++ (octets sequence_tag hardware ++ tail)))))))
    pub version_is : Stands 4 version kd.attestation_version
    pub version_minimal : IsMinimal version
    pub level_is : Stands 4 level (level_number kd.attestation_security_level)
    pub keymint_version_is : Stands 4 keymint_version kd.keymint_version
    pub keymint_version_minimal : IsMinimal keymint_version
    pub keymint_level_is : Stands 4 keymint_level (level_number kd.keymint_security_level)
    pub software_is : HoldsList d l software kd.software_enforced
    pub hardware_is : HoldsList d l hardware kd.hardware_enforced

  -- On the octets of a key description, with anything behind them, `from_der` returns that description,
  -- where the crate `der` reads what X.690 encodes and the octets are within its limit.
  pub from_der-Describes :
      (bytes : Bytes) (kd : KeyDescription) → Describes bytes kd → from_der d bytes ≡ ok kd
  unfolding from_der
  from_der-Describes bytes kd w =
      let (r0, e0, l0) = l.new_reads bytes w.short in
      let p = l.peek_reads r0 sequence_tag w.body w.more (inl refl) (l0 ∙ w.outer) in
      let (r1, e1, l1) = l.header_reads r0 sequence_tag w.body w.more (inl refl) (l0 ∙ w.outer) in
      let (r2, e2, l2) = l.slice_reads r1 w.body w.more l1 in
      let (b0, f0, m0) = l.new_reads w.body w.body_short in
      let (b1, f1, m1) =
        decode_i32-octets d l b0 w.version _ _ w.version_is w.version_minimal (m0 ∙ w.inner) in
      let (b2, f2, m2) = decode_enumerated-octets d l b1 w.level _ _ w.level_is m1 in
      let (b3, f3, m3) =
        decode_i32-octets d l b2 w.keymint_version _ _ w.keymint_version_is
          w.keymint_version_minimal m2 in
      let (b4, f4, m4) =
        decode_enumerated-octets d l b3 w.keymint_level _ _ w.keymint_level_is m3 in
      let (b5, f5, m5) = l.octet_string_reads b4 kd.attestation_challenge _ m4 in
      let (b6, f6, m6) = l.octet_string_reads b5 kd.unique_id _ m5 in
      let (b7, f7, m7) =
        decode_authorization_list-HoldsList d l b6 w.software _ _ w.software_is m6 in
      let (b8, f8, m8) =
        decode_authorization_list-HoldsList d l b7 w.hardware _ _ w.hardware_is m7 in
      let a = level_from_i32-level_number kd.attestation_security_level in
      let k = level_from_i32-level_number kd.keymint_security_level in
      rw (e0, p, e1, e2, f0, f1, f2, a, f3, f4, k, f5, f6, f7, f8) refl
