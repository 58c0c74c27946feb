-- ===== src/Android/Tlv.antt =====
-- `parse_tlv_header` of rust/attest-android/src/key_description.rs. The bytes from `bytes[cur]` on
-- are a list, and each step hands on what is left of it; `cur` counts from `pos`.
pub mod Forms
pub mod Parts
pub mod Read
pub mod Sound
use attestation.Common.{
  ℕ, zero, suc, ◌+◌, ◌*◌, ◌/◌, ◌%◌, ◌^◌, ◌||◌, bit_and, Bool, true, false, not, Option, none, some,
  [], ◌∷◌, ltb, ◌==◌, if◌then◌else◌, drop, Bytes,
}
use attestation.Common.Maybe.{◌>>=◌}

-- `(class, constructed, tag_number, header_length, body_length)`
pub record TlvHeader : Type 0 where
  pub class : ℕ
  pub constructed : Bool
  pub tag_number : ℕ
  pub header_len : ℕ
  pub body_len : ℕ

-- `n.checked_shl(k)` on a word of `w` bits: it refuses a shift by `w` or more, and drops the bits
-- that leave the word.
abbrev pub checked_shl : ℕ → ℕ → ℕ → Option ℕ
checked_shl w n k = if ltb k w then some (n * 2 ^ k % 2 ^ w) else none

-- `a.checked_add(b)` on a word of `w` bits.
abbrev pub checked_add : ℕ → ℕ → ℕ → Option ℕ
checked_add w a b = if ltb (a + b) (2 ^ w) then some (a + b) else none

abbrev push_group : ℕ → ℕ → Option ℕ
push_group n b = do shifted ← checked_shl 32 n 7; checked_add 32 shifted (bit_and b 0x7f)

abbrev push_octet : ℕ → ℕ → Option ℕ
push_octet v b = do shifted ← checked_shl 64 v 8; checked_add 64 shifted b

-- The `loop` over the groups of a long tag number: the number, `cur` and the bytes behind it.
unfoldable pub tag_loop : Bytes → ℕ → ℕ → Option (ℕ × ℕ × Bytes)
tag_loop [] n cur = none
tag_loop (b ∷ rest) n cur = do
  n' ← push_group n b
  elim (bit_and b 0x80 == 0) [
    | true ↦ some (n', cur + 1, rest)
    | false ↦ tag_loop rest n' (cur + 1)
  ]

-- `for _ in 0..n` over the octets of a long length.
unfoldable pub len_loop : ℕ → Bytes → ℕ → ℕ → Option (ℕ × ℕ × Bytes)
len_loop zero bytes v cur = some (v, cur, bytes)
len_loop (suc n) [] v cur = none
len_loop (suc n) (b ∷ rest) v cur = do v' ← push_octet v b; len_loop n rest v' (cur + 1)

unfoldable pub parse_tag : ℕ → Bytes → Option (ℕ × ℕ × Bytes)
parse_tag first rest =
    let low5 = bit_and first 0x1f in
    if ltb low5 0x1f then some (low5, 1, rest) else tag_loop rest 0 1

unfoldable pub parse_len : Bytes → ℕ → Option (ℕ × ℕ × Bytes)
parse_len [] cur = none
parse_len (len_first ∷ rest) cur =
    if bit_and len_first 0x80 == 0
    then some (len_first, cur + 1, rest)
    else let n = bit_and len_first 0x7f in
      if n == 0 || ltb 4 n then none else len_loop n rest 0 (cur + 1)

-- From `bytes[pos]` on.
unfoldable pub parse_header : Bytes → Option TlvHeader
parse_header [] = none
parse_header (first ∷ rest) = do
  (tag, cur, after_tag) ← parse_tag first rest
  (len, end, body) ← parse_len after_tag cur
  some (record {
    class = bit_and (first / 64) 3;
    constructed = not (bit_and first 0x20 == 0);
    tag_number = tag;
    header_len = end;
    body_len = len;
  })

unfoldable pub parse_tlv_header : Bytes → ℕ → Option TlvHeader
parse_tlv_header bytes pos = parse_header (drop pos bytes)
