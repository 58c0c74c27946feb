-- ===== src/Apple/AuthData/Layout.antt =====
-- Authenticator data laid out by the standard, and how `parse` reads it.

use Prim.Native.Nat.{◌/◌, ◌%◌, ◌^◌}
use attestation.Common.{
  ℕ, ◌+◌, ◌<◌, ◌≤◌, ◌≡◌, ◌≢◌, refl, sym, ap, ◌∙◌, arith, false, ◌==◌, ltb, bit_and, [], ◌∷◌, ◌++◌,
  length, length-append, take, drop, take-append, drop-append, drop-drop, Bytes, be, ok,
}
use attestation.Apple.AuthData.{AuthData, at_flag, slice, parse}

-- `to_be_bytes` of a `u32` and of a `u16`
abbrev pub be_bytes4 : ℕ → Bytes
be_bytes4 n = n / 2 ^ 24 % 256 ∷ n / 2 ^ 16 % 256 ∷ n / 2 ^ 8 % 256 ∷ n % 256 ∷ []

abbrev pub be_bytes2 : ℕ → Bytes
be_bytes2 n = n / 2 ^ 8 % 256 ∷ n % 256 ∷ []

-- The attested credential data, behind the first 37 octets.
abbrev pub credential : AuthData → Bytes
credential a =
    a.aaguid ++ (be_bytes2 (length a.credential_id) ++ (a.credential_id ++ a.credential_public_key))

-- The authenticator data of the WebAuthn standard, with attested credential data and no extensions.
abbrev pub layout : AuthData → Bytes
layout a = a.rp_id_hash ++ (a.flags ∷ (be_bytes4 a.sign_count ++ credential a))

-- The fields have the sizes that the layout has for them, and the flag AT is set.
pub record IsAuthData (a : AuthData) : Type 0 where
  pub rp_id_size : length a.rp_id_hash ≡ 32
  pub attested : bit_and a.flags at_flag ≢ 0
  pub count_size : a.sign_count < 2 ^ 32
  pub aaguid_size : length a.aaguid ≡ 16
  pub id_size : length a.credential_id < 2 ^ 16

be-be_bytes4 : (n : ℕ) → n < 2 ^ 32 → be (be_bytes4 n) ≡ n
be-be_bytes4 n h = omega arith

be-be_bytes2 : (n : ℕ) → n < 2 ^ 16 → be (be_bytes2 n) ≡ n
be-be_bytes2 n h = omega arith

-- The octets hold the fields where `parse` looks for them.
record Holds (bytes : Bytes) (a : AuthData) : Type 0 where
  long : 55 + length a.credential_id ≤ length bytes
  rp : slice 0 32 bytes ≡ a.rp_id_hash
  flag : be (slice 32 1 bytes) ≡ a.flags
  count : be (slice 33 4 bytes) ≡ a.sign_count
  guid : slice 37 16 bytes ≡ a.aaguid
  id_len : be (slice 53 2 bytes) ≡ length a.credential_id
  id : slice 55 (length a.credential_id) bytes ≡ a.credential_id
  key : drop (55 + length a.credential_id) bytes ≡ a.credential_public_key

ltb-false : (m n : ℕ) → n ≤ m → ltb m n ≡ false
ltb-false m n h = ground arith

==_false : (b : ℕ) → b ≢ 0 → (b == 0) ≡ false
==_false b h = ground arith

Holds-parse :
    (bytes : Bytes) (a : AuthData)
    → bit_and a.flags at_flag ≢ 0
    → Holds bytes a
    → parse bytes ≡ ok a
unfolding parse
Holds-parse bytes a at h =
    let long37 = ltb-false (length bytes) 37 (omega (arith, h.long)) in
    let long55 = ltb-false (length bytes) (37 + 16 + 2) (omega (arith, h.long)) in
    let long = ltb-false (length bytes) (55 + length a.credential_id) h.long in
    rw (long37, h.flag, ==_false _ at, long55, h.id_len, long, h.rp, h.count, h.guid, h.id, h.key)

layout-Holds : (a : AuthData) → IsAuthData a → Holds (layout a) a
layout-Holds a w =
    let bytes = layout a in
    let c = credential a in
    let d32 : drop 32 bytes ≡ a.flags ∷ (be_bytes4 a.sign_count ++ c) =
      drop-append 32 a.rp_id_hash _ w.rp_id_size in
    let d33 : drop 33 bytes ≡ be_bytes4 a.sign_count ++ c =
      sym (drop-drop 32 1 bytes) ∙ ap (drop 1) d32 in
    let d37 : drop 37 bytes ≡ c = sym (drop-drop 32 5 bytes) ∙ ap (drop 5) d32 in
    let d53 : drop 53 bytes
        ≡ be_bytes2 (length a.credential_id) ++ (a.credential_id ++ a.credential_public_key) =
      sym (drop-drop 37 16 bytes) ∙ ap (drop 16) d37 ∙ drop-append 16 a.aaguid _ w.aaguid_size in
    let d55 : drop 55 bytes ≡ a.credential_id ++ a.credential_public_key =
      sym (drop-drop 53 2 bytes) ∙ ap (drop 2) d53 in
    let tail = length-append a.credential_id a.credential_public_key in
    let behind =
      length-append a.aaguid
        (be_bytes2 (length a.credential_id) ++ (a.credential_id ++ a.credential_public_key)) in
    let whole = length-append a.rp_id_hash (a.flags ∷ (be_bytes4 a.sign_count ++ c)) in
    record {
      long = omega (arith, tail, behind, whole, w.rp_id_size, w.aaguid_size);
      rp = take-append 32 a.rp_id_hash _ w.rp_id_size;
      flag = ap (λ t. be (take 1 t)) d32 ∙ omega arith;
      count = ap (λ t. be (take 4 t)) d33 ∙ be-be_bytes4 a.sign_count w.count_size;
      guid = ap (take 16) d37 ∙ take-append 16 a.aaguid _ w.aaguid_size;
      id_len = ap (λ t. be (take 2 t)) d53 ∙ be-be_bytes2 (length a.credential_id) w.id_size;
      id = ap (take (length a.credential_id)) d55 ∙ take-append _ a.credential_id _ refl;
      key =
          sym (drop-drop 55 _ bytes)
          ∙ ap (drop (length a.credential_id)) d55
          ∙ drop-append _ a.credential_id _ refl;
    }

-- `parse` reads back, field by field, what is laid out so.
pub parse-layout : (a : AuthData) → IsAuthData a → parse (layout a) ≡ ok a
parse-layout a w = Holds-parse (layout a) a w.attested (layout-Holds a w)
