-- ===== src/Android/Revocation/RoundTrip.antt =====
-- The parser reads back every status list that is printed as JSON with no white space.
use attestation.Common.{
  ℕ, zero, suc, ◌≤◌, ◌<◌, ◌≡◌, refl, ◌∙◌, List, [], ◌∷◌, arith, length, length-append, All, Bytes,
  codes, bytes_eq, ok,
}
use attestation.Common.Text.{is_utf8, trim, trim_bom, to_lowercase}
use attestation.Android.Revocation.{
  StatusEntry, Entries, skip_ws, expect_char, scan, open_string, read_string, fields_loop,
  read_status_object, entries_loop, parse_json, insert, empty_entry,
}
use attestation.Android.Revocation.Printed.{
  Member, Record, quoted, member, more_members, object, record_octets, more_records, document,
  entry_of, IsMember, IsRecord, read_string-quoted, expect_colon, fields_loop-members,
}

length-more_members : (ms : List Member) (rest : Bytes) → length ms ≤ length (more_members ms rest)
length-more_members [] rest = omega arith
length-more_members (m ∷ ms) rest = omega (
  arith,
  length-append m.0 (b'"' ∷ b':' ∷ quoted m.1 (more_members ms rest)),
  length-append m.1 (b'"' ∷ more_members ms rest),
  length-more_members ms rest,
)

length-rest : (ms : List Member) (rest : Bytes) → length rest ≤ length (more_members ms rest)
length-rest [] rest = omega arith
length-rest (m ∷ ms) rest = omega (
  arith,
  length-append m.0 (b'"' ∷ b':' ∷ quoted m.1 (more_members ms rest)),
  length-append m.1 (b'"' ∷ more_members ms rest),
  length-rest ms rest,
)

length-member : (m : Member) (rest : Bytes) → length rest < length (member m rest)
length-member m rest =
    omega
      (arith, length-append m.0 (b'"' ∷ b':' ∷ quoted m.1 rest), length-append m.1 (b'"' ∷ rest))

read_status_object_members :
    (m : Member) (inner rest : Bytes) (e : StatusEntry)
    → fields_loop (suc (length (b'"' ∷ inner))) (b'"' ∷ inner) empty_entry ≡ ok (e, b'}' ∷ rest)
    → read_status_object (b'{' ∷ b'"' ∷ inner) ≡ ok (e, rest)
unfolding read_status_object expect_char skip_ws
read_status_object_members m inner rest e h = rw h refl

read_status_object-object :
    (ms : List Member) (rest : Bytes)
    → All IsMember ms
    → read_status_object (object ms rest) ≡ ok (entry_of empty_entry ms, rest)
read_status_object-object [] rest h = unfold read_status_object expect_char skip_ws in refl
read_status_object-object (m ∷ ms) rest (hm, h) = read_status_object_members m _ rest _ (
    fields_loop-members _ m ms rest empty_entry
      (omega (
        arith,
        length-member m (more_members ms (b'}' ∷ rest)),
        length-more_members ms (b'}' ∷ rest),
      ))
      hm h)

skip_ws-object : (ms : List Member) (rest : Bytes) → skip_ws (object ms rest) ≡ object ms rest
unfolding skip_ws
skip_ws-object [] rest = refl
skip_ws-object (m ∷ ms) rest = refl

module _ (unicode_lower : Bytes → Bytes) where
  -- The serials are kept in lower case, and a later entry replaces an earlier one of the same serial.
  abbrev pub entries_of : Entries → List Record → Entries
  entries_of m [] = m
  entries_of m (r ∷ rs) =
      entries_of (insert (to_lowercase unicode_lower r.0) (entry_of empty_entry r.1) m) rs

  entries_loop_comma :
      (fuel : ℕ) (r : Record) (rest : Bytes) (m : Entries)
      → IsRecord r
      → entries_loop unicode_lower (suc fuel) (record_octets r (b',' ∷ b'"' ∷ rest)) m
        ≡ entries_loop unicode_lower fuel
            (b'"' ∷ rest)
            (insert (to_lowercase unicode_lower r.0) (entry_of empty_entry r.1) m)
  unfolding entries_loop
  entries_loop_comma fuel r rest m (hk, h) =
      let tail = b',' ∷ b'"' ∷ rest in
      rw
        (
          read_string-quoted r.0 (b':' ∷ object r.1 tail) hk,
          expect_colon (object r.1 tail),
          skip_ws-object r.1 tail,
          read_status_object-object r.1 tail h,
        )
        (unfold skip_ws in refl)

  entries_loop_brace :
      (fuel : ℕ) (r : Record) (rest : Bytes) (m : Entries)
      → IsRecord r
      → entries_loop unicode_lower (suc fuel) (record_octets r (b'}' ∷ rest)) m
        ≡ ok (insert (to_lowercase unicode_lower r.0) (entry_of empty_entry r.1) m, b'}' ∷ rest)
  unfolding entries_loop
  entries_loop_brace fuel r rest m (hk, h) =
      let tail = b'}' ∷ rest in
      rw
        (
          read_string-quoted r.0 (b':' ∷ object r.1 tail) hk,
          expect_colon (object r.1 tail),
          skip_ws-object r.1 tail,
          read_status_object-object r.1 tail h,
        )
        (unfold skip_ws in refl)

  entries_loop-records :
      (fuel : ℕ) (r : Record) (rs : List Record) (rest : Bytes) (m : Entries)
      → length rs < fuel
      → IsRecord r
      → All IsRecord rs
      → entries_loop unicode_lower fuel (record_octets r (more_records rs (b'}' ∷ rest))) m
        ≡ ok (entries_of m (r ∷ rs), b'}' ∷ rest)
  entries_loop-records zero r rs rest m f hr h = absurd (omega arith)
  entries_loop-records (suc fuel) r [] rest m f hr h = entries_loop_brace fuel r rest m hr
  entries_loop-records (suc fuel) r (q ∷ rs) rest m f hr (hq, h) =
      entries_loop_comma fuel r _ m hr
      ∙ entries_loop-records fuel q rs rest
          (insert (to_lowercase unicode_lower r.0) (entry_of empty_entry r.1) m) (omega arith) hq h

  length-object : (ms : List Member) (rest : Bytes) → length rest < length (object ms rest)
  length-object [] rest = omega arith
  length-object (m ∷ ms) rest =
      omega (arith, length-member m (more_members ms (b'}' ∷ rest)), length-rest ms (b'}' ∷ rest))

  length-more_records :
      (rs : List Record) (rest : Bytes) → length rs ≤ length (more_records rs rest)
  length-more_records [] rest = omega arith
  length-more_records (r ∷ rs) rest = omega (
    arith,
    length-append r.0 (b'"' ∷ b':' ∷ object r.1 (more_records rs rest)),
    length-object r.1 (more_records rs rest),
    length-more_records rs rest,
  )

  parse_json_records :
      (json inner rest : Bytes) (m : Entries)
      → trim (trim_bom json) ≡ b'{' ∷ quoted (codes "entries") (b':' ∷ b'{' ∷ b'"' ∷ inner)
      → entries_loop unicode_lower (suc (length (b'"' ∷ inner))) (b'"' ∷ inner) []
        ≡ ok (m, b'}' ∷ rest)
      → rest ≡ b'}' ∷ []
      → parse_json unicode_lower json ≡ ok (record { entries = m })
  unfolding parse_json expect_char read_string scan skip_ws open_string is_utf8 bytes_eq
  parse_json_records json inner rest m e l r = rw e (rw l (rw r refl))

  -- On a text that is, once trimmed, the document of some records, `from_json` returns the entries of
  -- the records: keyed by the serials in lower case, a later record replacing an earlier one.
  pub parse_json-document :
      (json : Bytes) (rs : List Record)
      → All IsRecord rs
      → trim (trim_bom json) ≡ document rs
      → parse_json unicode_lower json ≡ ok (record { entries = entries_of [] rs })
  unfolding parse_json
  parse_json-document json [] h e =
      rw e (unfold expect_char read_string scan skip_ws open_string is_utf8 bytes_eq in refl)
  parse_json-document json (r ∷ rs) (hr, h) e =
      parse_json_records json _ (b'}' ∷ []) _ e
        (entries_loop-records _ r rs (b'}' ∷ []) []
          (omega (
            arith,
            length-append r.0 (b'"' ∷ b':' ∷ object r.1 (more_records rs (b'}' ∷ b'}' ∷ []))),
            length-object r.1 (more_records rs (b'}' ∷ b'}' ∷ [])),
            length-more_records rs (b'}' ∷ b'}' ∷ []),
          ))
          hr h)
        refl
