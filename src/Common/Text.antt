-- ===== src/Common/Text.antt =====
-- What the code uses of Rust's `str`, on UTF-8 bytes: validation, trimming, case.
use mathlib.Core.List.{reverse}
use Prim.Native.Nat.{ℕ, zero, suc, ◌+◌}
use mathlib.Core.Bool.{Bool, true, false, ◌&&◌, ◌||◌}
use mathlib.Core.List.{[], ◌∷◌, map}
use mathlib.Core.Option.{Option, none, some}
use attestation.Common.Tests.{ltb, leb, ◌==◌, if◌then◌else◌}
use attestation.Common.Lists.{length, drop}
use attestation.Common.Octets.{Bytes}

abbrev pub within : ℕ → ℕ → ℕ → Bool
within lo hi c = leb lo c && leb c hi

-- A leading byte: how many bytes continue it, and the range of the first of these.
unfoldable pub lead : ℕ → Option (ℕ × ℕ × ℕ)
lead c =
    if ltb c 0x80
    then some (0, 0, 0)
    else if within 0xc2 0xdf c
    then some (1, 0x80, 0xbf)
    else if c == 0xe0
    then some (2, 0xa0, 0xbf)
    else if c == 0xed
    then some (2, 0x80, 0x9f)
    else if within 0xe1 0xef c
    then some (2, 0x80, 0xbf)
    else if c == 0xf0
    then some (3, 0x90, 0xbf)
    else if within 0xf1 0xf3 c
    then some (3, 0x80, 0xbf)
    else if c == 0xf4
    then some (3, 0x80, 0x8f)
    else none

-- `need` bytes are still to continue a character, the next of them from `lo` to `hi`.
unfoldable pub utf8_from : ℕ → ℕ → ℕ → Bytes → Bool
utf8_from zero lo hi [] = true
utf8_from (suc need) lo hi [] = false
utf8_from zero lo hi (c ∷ cs) = elim (lead c) [ none ↦ false | some t ↦ utf8_from t.0 t.1 t.2 cs ]
utf8_from (suc need) lo hi (c ∷ cs) = within lo hi c && utf8_from need 0x80 0xbf cs

-- `std::str::from_utf8(..).is_ok()`
unfoldable pub is_utf8 : Bytes → Bool
unfolding utf8_from lead
is_utf8 = utf8_from 0 0 0

-- Removes what `front` measures at the front, until it measures nothing; `fuel` rounds at most.
unfoldable pub strip : (Bytes → ℕ) → ℕ → Bytes → Bytes
strip front zero bs = bs
strip front (suc fuel) bs = elim (front bs == 0) [
  | true ↦ bs
  | false ↦ strip front fuel (drop (front bs) bs)
]

unfoldable pub bom_len : Bytes → ℕ
bom_len (a ∷ b ∷ c ∷ _) = if a == 0xef && b == 0xbb && c == 0xbf then 3 else 0
bom_len _ = 0

-- The white space of Unicode: in one byte, in two, in three.
abbrev is_space : ℕ → Bool
is_space a = within 0x09 0x0d a || a == 0x20

abbrev is_space2 : ℕ → ℕ → Bool
is_space2 a b = a == 0xc2 && (b == 0x85 || b == 0xa0)

abbrev is_space3 : ℕ → ℕ → ℕ → Bool
is_space3 a b c =
    (a == 0xe1 && b == 0x9a && c == 0x80)
    || (a == 0xe2 && b == 0x80 && (within 0x80 0x8a c || c == 0xa8 || c == 0xa9 || c == 0xaf))
    || (a == 0xe2 && b == 0x81 && c == 0x9f)
    || (a == 0xe3 && b == 0x80 && c == 0x80)

unfoldable pub space_len : Bytes → ℕ
space_len [] = 0
space_len (a ∷ []) = if is_space a then 1 else 0
space_len (a ∷ b ∷ []) = if is_space a then 1 else if is_space2 a b then 2 else 0
space_len (a ∷ b ∷ c ∷ _) =
    if is_space a then 1 else if is_space2 a b then 2 else if is_space3 a b c then 3 else 0

-- On bytes read backwards.
unfoldable pub space_len_back : Bytes → ℕ
space_len_back [] = 0
space_len_back (a ∷ []) = if is_space a then 1 else 0
space_len_back (b ∷ a ∷ []) = if is_space b then 1 else if is_space2 a b then 2 else 0
space_len_back (c ∷ b ∷ a ∷ _) =
    if is_space c then 1 else if is_space2 b c then 2 else if is_space3 a b c then 3 else 0

-- `s.trim_start_matches('\u{feff}')`
unfoldable pub trim_bom : Bytes → Bytes
unfolding strip bom_len
trim_bom s = strip bom_len (length s) s

-- `s.trim()`
unfoldable pub trim : Bytes → Bytes
unfolding strip space_len space_len_back
trim s =
    let t = strip space_len (length s) s in reverse (strip space_len_back (length t) (reverse t))

abbrev pub ascii_lower : ℕ → ℕ
ascii_lower c = if within b'A' b'Z' c then c + 32 else c

unfoldable pub is_ascii : Bytes → Bool
is_ascii [] = true
is_ascii (c ∷ cs) = ltb c 128 && is_ascii cs

-- `s.to_lowercase()`. The case table of Unicode, for a text that is not ASCII, is a parameter.
unfoldable pub to_lowercase : (Bytes → Bytes) → Bytes → Bytes
unfolding is_ascii
to_lowercase unicode_lower s = if is_ascii s then map ascii_lower s else unicode_lower s
