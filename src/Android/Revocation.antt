-- ===== src/Android/Revocation.antt =====
-- rust/attest-android/src/status_list.rs. A position in the bytes is the list of the bytes from there
-- on, which a step hands on; a position past the end is the empty list.
pub mod Serials
pub mod Printed
pub mod RoundTrip
pub mod Steps
pub mod Total
use mathlib.Core.Option
use attestation.Common.{
  ℕ, zero, suc, Bool, false, not, ◌&&◌, ◌||◌, Option, none, some, List, [], ◌∷◌, ◌==◌,
  if◌then◌else◌, length, Bytes, codes, bytes_eq, Result, ok, err, ok_or, ◌>>=◌, ◌>>◌,
}
use attestation.Common.Text.{is_utf8, trim, trim_bom, to_lowercase}
use attestation.Android.Errors.{Error, der}

pub record StatusEntry : Type 0 where
  pub status : Bytes
  pub reason : Bytes

-- The `HashMap`: no key stands in it twice.
abbrev pub Entries : Type 0
Entries = List (Bytes × StatusEntry)

pub record StatusList : Type 0 where
  pub entries : Entries

unfoldable pub insert : Bytes → StatusEntry → Entries → Entries
insert k v [] = (k, v) ∷ []
insert k v ((j, w) ∷ m) = if bytes_eq j k then (k, v) ∷ m else (j, w) ∷ insert k v m

unfoldable pub get : Bytes → Entries → Option StatusEntry
get k [] = none
get k ((j, w) ∷ m) = if bytes_eq j k then some w else get k m

unfoldable pub lookup_serial : StatusList → Bytes → Option StatusEntry
lookup_serial l serial = get serial l.entries

-- What stops the parser. `out_of_fuel` is no value of the code.
pub data Stop : Type 0 where
  fault : Error → Stop
  out_of_fuel : Stop

abbrev is_ws : ℕ → Bool
is_ws c = c == b' ' || c == b'\n' || c == b'\r' || c == b'\t'

unfoldable pub skip_ws : Bytes → Bytes
skip_ws [] = []
skip_ws (c ∷ rest) = let more = skip_ws rest in if is_ws c then more else c ∷ rest

-- `peek_char(bytes, pos) == Some(c)`
abbrev pub peek_is : Bytes → ℕ → Bool
peek_is [] c = false
peek_is (b ∷ _) c = b == c

abbrev take_char : ℕ → Bytes → Result Stop Bytes
take_char c [] = err (fault (der "status list JSON: expected a character"))
take_char c (b ∷ rest) =
    if b == c then ok rest else err (fault (der "status list JSON: expected a character"))

unfoldable pub expect_char : Bytes → ℕ → Result Stop Bytes
expect_char bytes c = take_char c (skip_ws bytes)

-- The bytes up to the closing quote, and those behind it. After a backslash the next byte is skipped.
unfoldable pub scan : Bool → Bytes → Option (Bytes × Bytes)
scan escaped [] = none
scan escaped (c ∷ rest) =
    let more = Option.map (λ r. (c ∷ r.0, r.1)) (scan (not escaped && c == b'\\') rest) in
    if not escaped && c == b'"' then some ([], rest) else more

open_string : Bytes → Result Stop Bytes
open_string [] = err (fault (der "status list JSON: expected string"))
open_string (b ∷ rest) =
    if b == b'"' then ok rest else err (fault (der "status list JSON: expected string"))

unfoldable pub read_string : Bytes → Result Stop (Bytes × Bytes)
unfolding open_string
read_string bytes = do
  rest ← open_string (skip_ws bytes)
  (s, rest) ← ok_or (scan false rest) (fault (der "status list JSON: unterminated string"))
  if is_utf8 s then ok (s, rest) else err (fault (der "status list utf8"))

-- The `match key.as_str()`.
unfoldable pub set_field : StatusEntry → Bytes → Bytes → StatusEntry
set_field e key val =
    if bytes_eq key (codes "status")
    then record e { status = val }
    else if bytes_eq key (codes "reason")
    then record e { reason = val }
    else e

-- Behind a comma the loop goes round again.
abbrev after_comma : Bytes → Option Bytes
after_comma [] = none
after_comma (b ∷ rest) = if b == b',' then some (skip_ws rest) else none

unfoldable pub fields_loop : ℕ → Bytes → StatusEntry → Result Stop (StatusEntry × Bytes)
fields_loop zero bytes e = err out_of_fuel
fields_loop (suc fuel) bytes e = do
  (key, bytes) ← read_string bytes
  bytes ← expect_char (skip_ws bytes) b':'
  (val, bytes) ← read_string bytes
  let e' = set_field e key val
  elim (after_comma (skip_ws bytes)) [
    | some next ↦ fields_loop fuel next e'
    | none ↦ ok (e', skip_ws bytes)
  ]

abbrev empty_entry : StatusEntry
empty_entry = record { status = []; reason = [] }

unfoldable pub read_status_object : Bytes → Result Stop (StatusEntry × Bytes)
read_status_object bytes = do
  bytes ← expect_char bytes b'{'
  let inside = skip_ws bytes
  (e, bytes) ←
      (if not (peek_is inside b'}')
        then fields_loop (suc (length inside)) inside empty_entry
        else ok (empty_entry, inside))
  bytes ← expect_char bytes b'}'
  ok (e, bytes)

module _ (unicode_lower : Bytes → Bytes) where
  unfoldable pub entries_loop : ℕ → Bytes → Entries → Result Stop (Entries × Bytes)
  entries_loop zero bytes entries = err out_of_fuel
  entries_loop (suc fuel) bytes entries = do
    (serial, bytes) ← read_string bytes
    bytes ← expect_char (skip_ws bytes) b':'
    (entry, bytes) ← read_status_object (skip_ws bytes)
    let entries' = insert (to_lowercase unicode_lower serial) entry entries
    elim (after_comma (skip_ws bytes)) [
      | some next ↦ entries_loop fuel next entries'
      | none ↦ ok (entries', skip_ws bytes)
    ]

  -- Each round of a loop takes a byte at least, so one round more than there are bytes is enough.
  unfoldable pub parse_json : Bytes → Result Stop StatusList
  parse_json json = do
    bytes ← expect_char (trim (trim_bom json)) b'{'
    (key, bytes) ← read_string (skip_ws bytes)
    if not (bytes_eq key (codes "entries"))
        then err (fault (der "status list expected top-level 'entries'"))
        else do
          bytes ← expect_char (skip_ws bytes) b':'
          bytes ← expect_char (skip_ws bytes) b'{'
          let inside = skip_ws bytes
          (entries, bytes) ←
              (if not (peek_is inside b'}')
                then entries_loop (suc (length inside)) inside []
                else ok ([], inside))
          bytes ← expect_char bytes b'}'
          expect_char (skip_ws bytes) b'}'
          ok (record { entries = entries })

  settle : Result Stop StatusList → Result Error StatusList
  settle (ok l) = ok l
  settle (err (fault e)) = err e
  settle (err out_of_fuel) = err (der "")

  -- `StatusList::from_json`. The last clause of `settle` is never reached.
  unfoldable pub from_json : Bytes → Result Error StatusList
  unfolding settle
  from_json json = settle (parse_json json)
