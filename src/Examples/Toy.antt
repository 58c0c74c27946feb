-- ===== src/Examples/Toy.antt =====
-- Small instances of the crates: a DER reader for short lengths, certificates of a few octets, signatures
-- that repeat the key, and the first 32 octets in place of the digest.
use attestation.Common.{
  ℕ, ◌==◌, ltb, ◌&&◌, ◌≡◌, arith, All, IsByte, Bool, true, false, not, Option, none, some, List, [],
  ◌∷◌, ◌++◌, take, drop, if◌then◌else◌, Bytes, bytes_eq, replicate, codes, String,
}
use attestation.Common.Int.{ℤ, pos, negsuc}
use attestation.X509.{Extension, X509, Scheme, Crypto}
use attestation.X509.Checks.{oid_basic_constraints, oid_secp256r1, oid_ecdsa_sha256}
use attestation.Android.Chain.{oid_ec_public_key}
use attestation.Android.Der.{Header, Der}
use attestation.Android.Verify.{oid_android_key_attestation}
use attestation.Apple.Cbor.{Cbor}
use attestation.Apple.Nonce.{apple_nonce_extension}

abbrev header_of : Bytes → Option (Header × Bytes)
header_of (t ∷ l ∷ rest) = some (record { tag = t; length = l }, rest)
header_of _ = none

abbrev tlv : Bytes → Option (Bytes × Bytes)
tlv (t ∷ l ∷ rest) = some (take l rest, drop l rest)
tlv _ = none

abbrev boolean_of : Bytes → Option (Bool × Bytes)
boolean_of (t ∷ l ∷ b ∷ rest) = some (not (b == 0), rest)
boolean_of _ = none

abbrev peek_of : Bytes → Option Header
peek_of (t ∷ l ∷ rest) = some (record { tag = t; length = l })
peek_of _ = none

abbrev is_nil : Bytes → Bool
is_nil [] = true
is_nil (b ∷ bs) = false

abbrev pub toy_der : Der
toy_der = record {
  Reader = Bytes;
  new = some;
  peek_header = peek_of;
  header = header_of;
  read_slice = λ r n. some (take n r, drop n r);
  int = tlv;
  octet_string = tlv;
  boolean = boolean_of;
  is_finished = is_nil;
}

-- A certificate: its key, the key that signed it, and the contents of its extensions.
pub record Cert : Type 0 where
  pub own : ℕ
  pub issuer : ℕ
  pub contents : Bytes

abbrev cert_of : Bytes → Option Cert
cert_of (k ∷ i ∷ rest) = some (record { own = k; issuer = i; contents = rest })
cert_of _ = none

abbrev octets_of : Cert → Bytes
octets_of c = c.own ∷ c.issuer ∷ c.contents

abbrev exts_of : Cert → List Extension
exts_of c =
    record { extn_id = oid_android_key_attestation; extn_value = c.contents }
    ∷ record { extn_id = apple_nonce_extension; extn_value = c.contents }
    ∷ record { extn_id = oid_basic_constraints; extn_value = [] }
    ∷ []

-- Valid from one second after the epoch to nine seconds after it.
abbrev pub toy_x509 : X509
toy_x509 = record {
  Certificate = Cert;
  from_der = cert_of;
  to_der = λ c. some (octets_of c);
  tbs_der = λ c. some (octets_of c);
  not_before = λ c. 1;
  not_after = λ c. 9;
  serial_number = λ c. c.own ∷ [];
  extensions = λ c. some (exts_of c);
  spki_algorithm = λ c. oid_ec_public_key;
  spki_curve = λ c. some oid_secp256r1;
  spki_key = λ c. some (c.own ∷ []);
  spki_der = λ c. some (c.own ∷ []);
  signature_algorithm = λ c. oid_ecdsa_sha256;
  signature = λ c. some (c.issuer ∷ []);
  basic_constraints = λ b. some true;
}

abbrev toy_scheme : Scheme
toy_scheme = record {
  Key = Bytes;
  Signature = Bytes;
  key = some;
  signature = some;
  verify = λ key msg sig. bytes_eq key sig;
  verify_prehash = λ key digest sig. bytes_eq key sig;
}

abbrev pub toy_crypto : Crypto
toy_crypto = record {
  p256 = toy_scheme;
  p384 = toy_scheme;
  rsa = toy_scheme;
  sha256 = λ b. take 32 (b ++ replicate 32 0);
}

abbrev pub root_der : Bytes
root_der = 21 ∷ 21 ∷ []

-- A key description with the challenge 7 and a root of trust: locked, GREEN.
abbrev pub description_der : Bytes
description_der =
    0x30 ∷ 0x24 ∷ 0x02 ∷ 1 ∷ 4 ∷ 0x0a ∷ 1 ∷ 1 ∷ 0x02 ∷ 1 ∷ 4 ∷ 0x0a ∷ 1 ∷ 1 ∷ 0x04 ∷ 1 ∷ 7 ∷ 0x04
    ∷ 0 ∷ 0x30 ∷ 0 ∷ 0x30 ∷ 0x0f ∷ 0xbf ∷ 0x85 ∷ 0x40 ∷ 0x0b ∷ 0x30 ∷ 9 ∷ 0x04 ∷ 1 ∷ 9 ∷ 0x01 ∷ 1
    ∷ 0xff ∷ 0x0a ∷ 1 ∷ 0 ∷ []

abbrev pub android_leaf_der : Bytes
android_leaf_der = 20 ∷ 21 ∷ description_der

abbrev pub android_chain : List Bytes
android_chain = android_leaf_der ∷ root_der ∷ []

abbrev pub app_id : Bytes
app_id = replicate 32 5

abbrev pub apple_leaf_der : Bytes
apple_leaf_der = 20 ∷ 21 ∷ app_id

abbrev pub x5c : List Bytes
x5c = apple_leaf_der ∷ root_der ∷ []

abbrev pub auth_data : Bytes
auth_data = app_id ++ (0x40 ∷ 0 ∷ 0 ∷ 0 ∷ 0 ∷ (codes "appattestdevelop" ++ (0 ∷ 1 ∷ 8 ∷ 2 ∷ [])))

abbrev pub p256_key : Bytes
p256_key = 4 ∷ (replicate 32 1 ++ replicate 32 2)

abbrev pub key_id : Bytes
key_id = 4 ∷ replicate 31 1

-- The CBOR values that are read: an attestation object (octet 1) with its statement, a key (octet 2) and
-- an assertion (octet 3).
pub data Value : Type 0 where
  object statement certs key assertion : Value
  text : String → Value
  bytes : Bytes → Value
  number : ℤ → Value

abbrev value_of : Bytes → Option Value
value_of [] = none
value_of (n ∷ _) = if n == 1 then some object else if n == 2 then some key else some assertion

abbrev map_of : Value → Option (List (Value × Value))
map_of object = some (
    (text "fmt", text "apple-appattest")
    ∷ (text "authData", bytes auth_data)
    ∷ (text "attStmt", statement)
    ∷ [])
map_of statement = some ((text "x5c", certs) ∷ (text "receipt", bytes []) ∷ [])
map_of key = some (
    (number (pos 1), number (pos 2))
    ∷ (number (pos 3), number (negsuc 6))
    ∷ (number (negsuc 0), number (pos 1))
    ∷ (number (negsuc 1), bytes (replicate 32 1))
    ∷ (number (negsuc 2), bytes (replicate 32 2))
    ∷ [])
map_of assertion = some (
    (text "signature", bytes p256_key)
    ∷ (text "authenticatorData", bytes (app_id ++ replicate 5 0))
    ∷ [])
map_of _ = none

abbrev text_of : Value → Option String
text_of (text s) = some s
text_of _ = none

abbrev bytes_of : Value → Option Bytes
bytes_of (bytes b) = some b
bytes_of _ = none

abbrev array_of : Value → Option (List Value)
array_of certs = some (bytes apple_leaf_der ∷ bytes root_der ∷ [])
array_of _ = none

abbrev integer_of : Value → Option ℤ
integer_of (number n) = some n
integer_of _ = none

abbrev pub toy_cbor : Cbor
toy_cbor = record {
  Value = Value;
  from_reader = value_of;
  as_map = map_of;
  as_text = text_of;
  as_bytes = bytes_of;
  as_array = array_of;
  as_integer = integer_of;
}

-- Every octet is below 256.
unfoldable pub are_octets : Bytes → Bool
are_octets [] = true
are_octets (b ∷ bs) = ltb b 256 && are_octets bs

pub are_octets-IsByte : (bs : Bytes) → are_octets bs ≡ true → All IsByte bs
unfolding are_octets
are_octets-IsByte [] h = tt
are_octets-IsByte (b ∷ bs) h = (ground arith, are_octets-IsByte bs (ground arith))
