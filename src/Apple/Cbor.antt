-- ===== src/Apple/Cbor.antt =====
-- rust/attest-apple/src/cbor.rs, and as parameters what the crate `ciborium` does.
pub mod Texts
pub mod Object
pub mod Statement
use text.Mathlib.Text.{◌==◌ as str_eq}
use attestation.Common.{
  String, Option, none, some, List, [], ◌∷◌, if◌then◌else◌, Bytes, Result, ok, ok_or, ◌>>=◌,
}
use attestation.Common.Int.{ℤ}
use attestation.Apple.Errors.{Error, cbor}

-- `ciborium::value::Value`: `from_reader`, and the accessors. `as_integer` has the number where it fits
-- into an `i64`.
pub record Cbor : Type 1 where
  pub Value : Type 0
  pub from_reader : Bytes → Option Value
  pub as_map : Value → Option (List (Value × Value))
  pub as_text : Value → Option String
  pub as_bytes : Value → Option Bytes
  pub as_array : Value → Option (List Value)
  pub as_integer : Value → Option ℤ

pub record AttestationStatement : Type 0 where
  pub fmt : String
  pub auth_data : Bytes
  pub x5c : List Bytes
  pub receipt : Bytes

module _ (v : Cbor) where
  open v use {Value, from_reader, as_map, as_text, as_bytes, as_array}

  -- The variables of the loop over the top-level map.
  pub record Top : Type 0 where
    pub fmt : Option String
    pub auth_data : Option Bytes
    pub att_stmt : Option Value

  abbrev pub set_top : Top → String → Value → Top
  set_top t key value =
      if str_eq key "fmt"
      then record { fmt = as_text value; auth_data = t.auth_data; att_stmt = t.att_stmt }
      else if str_eq key "authData"
      then record { fmt = t.fmt; auth_data = as_bytes value; att_stmt = t.att_stmt }
      else if str_eq key "attStmt"
      then record { fmt = t.fmt; auth_data = t.auth_data; att_stmt = some value }
      else t

  unfoldable pub top_loop : List (Value × Value) → Top → Result Error Top
  top_loop [] t = ok t
  top_loop ((k, value) ∷ map) t = do
    key ← ok_or (as_text k) (cbor "non-text key at top level")
    top_loop map (set_top t key value)

  -- The loop over the elements of `x5c`.
  unfoldable pub all_bytes : List Value → Result Error (List Bytes)
  all_bytes [] = ok []
  all_bytes (c ∷ arr) = do
    bytes ← ok_or (as_bytes c) (cbor "x5c element is not bytes")
    certs ← all_bytes arr
    ok (bytes ∷ certs)

  -- The variables of the loop over `attStmt`.
  pub record Stmt : Type 0 where
    pub x5c : Option (List Bytes)
    pub receipt : Bytes

  abbrev bytes_or : Option Bytes → Bytes → Bytes
  bytes_or none old = old
  bytes_or (some b) old = b

  abbrev pub set_stmt : Stmt → String → Value → Result Error Stmt
  set_stmt s key value =
      let certs = (do arr ← ok_or (as_array value) (cbor "x5c is not an array"); all_bytes arr) in
      if str_eq key "x5c"
      then (do x5c ← certs; ok (record { x5c = some x5c; receipt = s.receipt }))
      else if str_eq key "receipt"
      then ok (record { x5c = s.x5c; receipt = bytes_or (as_bytes value) s.receipt })
      else ok s

  unfoldable pub stmt_loop : List (Value × Value) → Stmt → Result Error Stmt
  stmt_loop [] s = ok s
  stmt_loop ((k, value) ∷ map) s = do
    key ← ok_or (as_text k) (cbor "non-text key in attStmt")
    s ← set_stmt s key value
    stmt_loop map s

  unfoldable pub decode_attestation_object : Bytes → Result Error AttestationStatement
  unfolding top_loop stmt_loop
  decode_attestation_object bytes = do
    value ← ok_or (from_reader bytes) (cbor "top-level decode")
    map ← ok_or (as_map value) (cbor "top-level value is not a map")
    t ← top_loop map (record { fmt = none; auth_data = none; att_stmt = none })
    fmt ← ok_or t.fmt (cbor "missing 'fmt'")
    auth_data ← ok_or t.auth_data (cbor "missing 'authData'")
    att_stmt ← ok_or t.att_stmt (cbor "missing 'attStmt'")
    att_map ← ok_or (as_map att_stmt) (cbor "attStmt is not a map")
    s ← stmt_loop att_map (record { x5c = none; receipt = [] })
    x5c ← ok_or s.x5c (cbor "missing 'x5c' in attStmt")
    ok (record { fmt = fmt; auth_data = auth_data; x5c = x5c; receipt = s.receipt })
