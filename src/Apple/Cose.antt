-- ===== src/Apple/Cose.antt =====
-- rust/attest-apple/src/cose.rs.
pub mod Key
use attestation.Common.{
  ℕ, zero, suc, ◌==◌, not, ◌||◌, length, Bool, false, Option, none, some, List, [], ◌∷◌, ◌++◌,
  Bytes, Result, ok, ok_or, reject_if, ◌>>=◌, ◌>>◌,
}
use attestation.Common.Int.{ℤ, pos, negsuc}
use attestation.Apple.Errors.{Error, cose, not_p256}
use attestation.Apple.Cbor.{Cbor}

-- `opt == Some(pos n)` and `opt == Some(negsuc n)`
abbrev pub is_pos : Option ℤ → ℕ → Bool
is_pos (some (pos m)) n = m == n
is_pos (some (negsuc m)) n = false
is_pos none n = false

abbrev pub is_negsuc : Option ℤ → ℕ → Bool
is_negsuc (some (negsuc m)) n = m == n
is_negsuc (some (pos m)) n = false
is_negsuc none n = false

module _ (v : Cbor) where
  open v use {Value, from_reader, as_map, as_bytes, as_integer}

  -- The variables of the loop.
  pub record Members : Type 0 where
    pub kty : Option ℤ
    pub alg : Option ℤ
    pub crv : Option ℤ
    pub x : Option Bytes
    pub y : Option Bytes

  abbrev pub no_members : Members
  no_members = record { kty = none; alg = none; crv = none; x = none; y = none }

  -- The `match` on the key, which an entry whose key is no `i64` does not reach.
  abbrev pub set_member : Members → Option ℤ → Value → Members
  set_member m (some (pos (suc zero))) value = record {
    kty = as_integer value;
    alg = m.alg;
    crv = m.crv;
    x = m.x;
    y = m.y;
  }
  set_member m (some (pos (suc (suc (suc zero))))) value = record {
    kty = m.kty;
    alg = as_integer value;
    crv = m.crv;
    x = m.x;
    y = m.y;
  }
  set_member m (some (negsuc zero)) value = record {
    kty = m.kty;
    alg = m.alg;
    crv = as_integer value;
    x = m.x;
    y = m.y;
  }
  set_member m (some (negsuc (suc zero))) value = record {
    kty = m.kty;
    alg = m.alg;
    crv = m.crv;
    x = as_bytes value;
    y = m.y;
  }
  set_member m (some (negsuc (suc (suc zero)))) value = record {
    kty = m.kty;
    alg = m.alg;
    crv = m.crv;
    x = m.x;
    y = as_bytes value;
  }
  set_member m _ value = m

  unfoldable pub members : List (Value × Value) → Members → Members
  members [] m = m
  members ((k, value) ∷ map) m = members map (set_member m (as_integer k) value)

  unfoldable pub extract_p256_pk : Bytes → Result Error Bytes
  unfolding members
  extract_p256_pk cose_bytes = do
    value ← ok_or (from_reader cose_bytes) (cose "decode")
    map ← ok_or (as_map value) (cose "COSE_Key is not a map")
    let m = members map no_members
    reject_if (not (is_pos m.kty 2)) not_p256
    reject_if (not (is_negsuc m.alg 6)) (cose "alg must be -7 (ES256)")
    reject_if (not (is_pos m.crv 1)) not_p256
    x ← ok_or m.x (cose "missing x coordinate")
    y ← ok_or m.y (cose "missing y coordinate")
    reject_if (not (length x == 32) || not (length y == 32)) (cose "x/y must be 32 bytes")
    ok (4 ∷ (x ++ y))

-- The whole key.
abbrev pub key_id_input : Bytes → Bytes
key_id_input pk = pk
