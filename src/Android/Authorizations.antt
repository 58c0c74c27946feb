-- ===== src/Android/Authorizations.antt =====
-- `decode_authorization_list` and `decode_root_of_trust` of key_description.rs.
pub mod Encoded
pub mod Fields
pub mod Reading
pub mod Items
pub mod Order
pub mod Root
pub mod Total
use attestation.Common.{
  ℕ, zero, suc, ◌+◌, Bool, true, false, not, Option, none, some, ltb, ◌==◌, if◌then◌else◌, length,
  take, drop, Bytes, Result, ok, err, ok_or, to_option, ◌>>=◌ as and_then,
}
use attestation.Common.Maybe.{◌>>=◌}
use attestation.Common.Int.{ℤ, pos, negsuc, as_u32}
use attestation.Android.Der.{Der, sequence_tag}
use attestation.Android.Errors.{VerifiedBootState, verified, self_signed, unverified, failed}
use attestation.Android.Integers.{decode_i32, decode_u64, decode_enumerated}
use attestation.Android.Tlv.{TlvHeader, parse_tlv_header}

pub record RootOfTrust : Type 0 where
  pub verified_boot_key : Bytes
  pub device_locked : Bool
  pub verified_boot_state : VerifiedBootState
  pub verified_boot_hash : Option Bytes

pub record AuthorizationList : Type 0 where
  pub creation_date_time : Option ℕ
  pub root_of_trust : Option RootOfTrust
  pub os_version : Option ℕ
  pub os_patch_level : Option ℕ
  pub attestation_application_id : Option Bytes

-- `AuthorizationList::default()`
abbrev pub empty_list : AuthorizationList
empty_list = record {
  creation_date_time = none;
  root_of_trust = none;
  os_version = none;
  os_patch_level = none;
  attestation_application_id = none;
}

-- `VerifiedBootState::from_i32`
unfoldable pub boot_state_from_i32 : ℤ → Option VerifiedBootState
boot_state_from_i32 (pos zero) = some verified
boot_state_from_i32 (pos (suc zero)) = some self_signed
boot_state_from_i32 (pos (suc (suc zero))) = some unverified
boot_state_from_i32 (pos (suc (suc (suc zero)))) = some failed
boot_state_from_i32 _ = none

-- What stops the walk. `out_of_fuel` is no value of the code.
pub data Stop : Type 0 where
  malformed out_of_fuel : Stop

-- `bytes[start..start + len]`
abbrev pub slice : Bytes → ℕ → ℕ → Bytes
slice bytes start len = take len (drop start bytes)

module _ (d : Der) where
  open d use {Reader, new, header, read_slice, octet_string, boolean, is_finished}

  unfoldable pub decode_root_of_trust : Reader → Option RootOfTrust
  decode_root_of_trust reader = do
    (h, reader) ← header reader
    if not (h.tag == sequence_tag) then none else do
      (body, _) ← read_slice reader h.length
      br ← new body
      (key, br) ← octet_string br
      (locked, br) ← boolean br
      (state_i, br) ← decode_enumerated d br
      state ← boot_state_from_i32 state_i
      hash ← if is_finished br then some none else (do (v, _) ← octet_string br; some (some v))
      some (record {
        verified_boot_key = key;
        device_locked = locked;
        verified_boot_state = state;
        verified_boot_hash = hash;
      })

  -- The `match tag_num` on an element of the context-specific class.
  unfoldable pub decode_field : AuthorizationList → ℕ → Reader → Option AuthorizationList
  decode_field out tag_num ir =
      if tag_num == 701
      then (do (n, _) ← decode_u64 d ir; some (record out { creation_date_time = some n }))
      else if tag_num == 704
      then (do rot ← decode_root_of_trust ir; some (record out { root_of_trust = some rot }))
      else if tag_num == 705
      then (do (n, _) ← decode_i32 d ir; some (record out { os_version = some (as_u32 n) }))
      else if tag_num == 706
      then (do (n, _) ← decode_i32 d ir; some (record out { os_patch_level = some (as_u32 n) }))
      else if tag_num == 709
      then (do (v, _) ← octet_string ir; some (record out { attestation_application_id = some v }))
      else some out

  unfoldable pub apply_element : AuthorizationList → TlvHeader → Bytes → Option AuthorizationList
  apply_element out h inner =
      if h.class == 2 then (do ir ← new inner; decode_field out h.tag_number ir) else some out

  -- One round of the `while` loop: the new list, and `value_end`.
  unfoldable pub step : Bytes → ℕ → AuthorizationList → Option (AuthorizationList × ℕ)
  step body at out = do
    h ← parse_tlv_header body at
    let value_start = at + h.header_len
    let value_end = value_start + h.body_len
    if ltb (length body) value_end
        then none
        else do out ← apply_element out h (slice body value_start h.body_len); some (out, value_end)

  unfoldable pub walk : ℕ → Bytes → ℕ → AuthorizationList → Result Stop AuthorizationList
  walk zero body at out = err out_of_fuel
  walk (suc fuel) body at out = elim (ltb at (length body)) [
    | true ↦ and_then (ok_or (step body at out) malformed) (λ r. walk fuel body r.1 r.0)
    | false ↦ ok out
  ]

  -- Each round takes two bytes at least, so one round for each byte and one more are enough.
  unfoldable pub decode_body : Bytes → Result Stop AuthorizationList
  decode_body body = walk (suc (length body)) body 0 empty_list

  unfoldable pub decode_authorization_list : Reader → Option (AuthorizationList × Reader)
  decode_authorization_list reader = do
    (h, reader) ← header reader
    if not (h.tag == sequence_tag) then none else do
      (body, reader) ← read_slice reader h.length
      out ← to_option (decode_body body)
      some (out, reader)
