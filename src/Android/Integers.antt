-- ===== src/Android/Integers.antt =====
-- The integers of key_description.rs: `decode_i32`, `decode_u64`, `decode_enumerated` and
-- `decode_i64_from_int`, each a part that reads and a part that makes a number of the bytes.
pub mod Values
pub mod Encoded
use attestation.Common.{
  ℕ, ◌+◌, ◌-◌, bit_and, Bool, false, not, Option, none, some, [], ◌∷◌, ◌++◌, ltb, ◌==◌,
  if◌then◌else◌, length, replicate, Bytes, be, Result, ok, err,
}
use attestation.Common.Maybe.{◌>>=◌}
use attestation.Common.Int.{ℤ, signed}
use attestation.Android.Der.{Der, enumerated_tag}
use attestation.Android.Errors.{Error, der}

-- `bytes.first().copied().map(|b| b & 0x80 != 0).unwrap_or(false)`
unfoldable pub is_negative : Bytes → Bool
is_negative [] = false
is_negative (b ∷ _) = not (bit_and b 0x80 == 0)

-- A buffer of `width` bytes, filled with the sign, with the bytes copied to its end.
unfoldable pub extend : ℕ → Bytes → Bytes
extend width bytes =
    replicate (width - length bytes) (if is_negative bytes then 0xff else 0) ++ bytes

unfoldable pub i32_of : Bytes → Option ℤ
unfolding is_negative extend
i32_of bytes = if ltb 4 (length bytes) then none else some (signed 31 (be (extend 4 bytes)))

unfoldable pub u64_of : Bytes → Option ℕ
unfolding is_negative
u64_of bytes =
    if is_negative bytes
    then none
    else if ltb 8 (length bytes)
    then none
    else some (be (replicate (8 - length bytes) 0 ++ bytes))

unfoldable pub decode_i64_from_int : Bytes → Result Error ℤ
unfolding is_negative extend
decode_i64_from_int bytes =
    if ltb 8 (length bytes)
    then err (der "AAID version > i64")
    else ok (signed 63 (be (extend 8 bytes)))

module _ (d : Der) where
  open d use {Reader, header, read_slice, int}

  unfoldable pub decode_i32 : Reader → Option (ℤ × Reader)
  decode_i32 reader = do (bytes, reader) ← int reader; n ← i32_of bytes; some (n, reader)

  unfoldable pub decode_u64 : Reader → Option (ℕ × Reader)
  decode_u64 reader = do (bytes, reader) ← int reader; n ← u64_of bytes; some (n, reader)

  unfoldable pub decode_enumerated : Reader → Option (ℤ × Reader)
  decode_enumerated reader = do
    (h, reader) ← header reader
    if not (h.tag == enumerated_tag)
        then none
        else do (body, reader) ← read_slice reader h.length; n ← i32_of body; some (n, reader)
