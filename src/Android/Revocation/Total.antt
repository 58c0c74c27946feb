-- ===== src/Android/Revocation/Total.antt =====
-- The parser of the status list ends on every text.
use attestation.Common.{
  ℕ, zero, suc, ◌<◌, ◌≢◌, Bool, true, false, not, [], arith, if◌then◌else◌, length, Bytes, bytes_eq,
  codes, Result, ok, err, ◌>>=◌, ◌>>◌,
}
use attestation.Common.Text.{trim, trim_bom, to_lowercase}
use attestation.Android.Errors.{Error}
use attestation.Android.Revocation.{
  StatusEntry, StatusList, Entries, Stop, fault, out_of_fuel, skip_ws, peek_is, expect_char,
  read_string, set_field, fields_loop, read_status_object, entries_loop, parse_json, insert,
  empty_entry,
}
use attestation.Android.Revocation.Steps.{
  length-skip_ws, Shrinks, left_of, Shrinks-mono, expect_char-Shrinks, Shrinks-bind,
  read_string-Shrinks, expect_behind, expect_after, read_string_behind, round-Shrinks,
}

fields_loop-Shrinks :
    (fuel : ℕ) (bs : Bytes) (e : StatusEntry)
    → length bs < fuel
    → Shrinks left_of (length bs) (fields_loop fuel bs e)
unfolding fields_loop
fields_loop-Shrinks zero bs e h = absurd (omega arith)
fields_loop-Shrinks (suc fuel) bs e h =
    Shrinks-bind left_of left_of (length bs) (read_string bs) _ (read_string-Shrinks bs) (λ key k.
      Shrinks-bind length left_of (length bs) (expect_char (skip_ws key.1) b':') _
        (expect_behind _ key.1 b':' k)
        (λ colon c.
          Shrinks-bind left_of left_of (length bs) (read_string colon) _
            (read_string_behind _ colon (omega arith))
            (λ val v.
              round-Shrinks left_of (length bs) (skip_ws val.1) _ _
                (omega (arith, length-skip_ws val.1)) (omega arith)
                (λ next lt. Shrinks-mono left_of _ _ _ (omega (arith, length-skip_ws val.1)) (
                  fields_loop-Shrinks fuel next (set_field e key.0 val.0)
                    (omega (arith, length-skip_ws val.1)))))))

-- The rest of an object, once its members are read: a closing brace.
close-Shrinks :
    {A : Type 0} (n : ℕ) (r : Result Stop (A × Bytes))
    → Shrinks left_of n r
    → Shrinks left_of n (do (a, bs) ← r; bs ← expect_char bs b'}'; ok (a, bs))
close-Shrinks n r h = Shrinks-bind left_of left_of n r _ h (λ t lt.
    Shrinks-bind length left_of n (expect_char t.1 b'}') _ (expect_after n t.1 b'}' lt) (λ bs s. s))

guard-Shrinks {ℓ} :
    {A : Type ℓ} (left : A → ℕ) (n : ℕ) (b : Bool) (e : Error) (x : Result Stop A)
    → Shrinks left n x
    → Shrinks left n (if b then err (fault e) else x)
guard-Shrinks left n true e x h = tt
guard-Shrinks left n false e x h = h

-- The members of an object: none at all, or what the loop reads.
members-Shrinks :
    {A : Type 0} (n : ℕ) (inner : Bytes) (b : Bool) (x : Result Stop (A × Bytes)) (a : A)
    → length inner < n
    → Shrinks left_of (length (skip_ws inner)) x
    → Shrinks left_of n (if b then x else ok (a, skip_ws inner))
members-Shrinks n inner true x a lt h =
    Shrinks-mono left_of _ _ x (omega (arith, length-skip_ws inner)) h
members-Shrinks n inner false x a lt h = omega (arith, length-skip_ws inner)

read_status_object-Shrinks : (bs : Bytes) → Shrinks left_of (length bs) (read_status_object bs)
unfolding read_status_object
read_status_object-Shrinks bs =
    Shrinks-bind length left_of (length bs) (expect_char bs b'{') _ (expect_char-Shrinks bs b'{')
      (λ inner lt.
        close-Shrinks (length bs)
          (if not (peek_is (skip_ws inner) b'}')
            then fields_loop (suc (length (skip_ws inner))) (skip_ws inner) empty_entry
            else ok (empty_entry, skip_ws inner))
          (members-Shrinks (length bs) inner _ _ empty_entry lt (
            fields_loop-Shrinks (suc (length (skip_ws inner))) (skip_ws inner) empty_entry
              (omega arith))))

abbrev nothing : StatusList → ℕ
nothing l = 0

module _ (unicode_lower : Bytes → Bytes) where
  entries_loop-Shrinks :
      (fuel : ℕ) (bs : Bytes) (entries : Entries)
      → length bs < fuel
      → Shrinks left_of (length bs) (entries_loop unicode_lower fuel bs entries)
  unfolding entries_loop
  entries_loop-Shrinks zero bs entries h = absurd (omega arith)
  entries_loop-Shrinks (suc fuel) bs entries h =
      Shrinks-bind left_of left_of (length bs) (read_string bs) _ (read_string-Shrinks bs) (λ key k.
        Shrinks-bind length left_of (length bs) (expect_char (skip_ws key.1) b':') _
          (expect_behind _ key.1 b':' k)
          (λ colon c.
            Shrinks-bind left_of left_of (length bs) (read_status_object (skip_ws colon)) _
              (Shrinks-mono left_of _ _ (read_status_object (skip_ws colon))
                (omega (arith, length-skip_ws colon)) (read_status_object-Shrinks (skip_ws colon)))
              (λ val v.
                round-Shrinks left_of (length bs) (skip_ws val.1) _ _
                  (omega (arith, length-skip_ws val.1)) (omega arith)
                  (λ next lt. Shrinks-mono left_of _ _ _ (omega (arith, length-skip_ws val.1)) (
                    entries_loop-Shrinks fuel next
                      (insert (to_lowercase unicode_lower key.0) val.0 entries)
                      (omega (arith, length-skip_ws val.1)))))))

  -- The list that is returned is no part of the text: it counts as nothing.
  parse_json-Shrinks :
      (json : Bytes)
      → Shrinks nothing (suc (length (trim (trim_bom json)))) (parse_json unicode_lower json)
  unfolding parse_json
  parse_json-Shrinks json =
      let n = suc (length (trim (trim_bom json))) in
      Shrinks-bind length nothing n (expect_char (trim (trim_bom json)) b'{') _
        (Shrinks-mono length _ _ (expect_char (trim (trim_bom json)) b'{') (omega arith)
          (expect_char-Shrinks (trim (trim_bom json)) b'{'))
        (λ inner lt.
          Shrinks-bind left_of nothing n (read_string (skip_ws inner)) _
            (read_string_behind n (skip_ws inner) (omega (arith, length-skip_ws inner)))
            (λ key k. guard-Shrinks nothing n (not (bytes_eq key.0 (codes "entries"))) _ _ (
              Shrinks-bind length nothing n (expect_char (skip_ws key.1) b':') _
                (expect_behind n key.1 b':' k)
                (λ colon c.
                  Shrinks-bind length nothing n (expect_char (skip_ws colon) b'{') _
                    (expect_behind n colon b'{' c) (entries_part n)))))
    where
      entries_part :
          (n : ℕ) (inner : Bytes)
          → length inner < n
          → Shrinks nothing n (do
            (entries, bytes) ←
                (if not (peek_is (skip_ws inner) b'}')
                  then entries_loop unicode_lower (suc (length (skip_ws inner))) (skip_ws inner) []
                  else ok ([], skip_ws inner))
            bytes ← expect_char bytes b'}'
            expect_char (skip_ws bytes) b'}'
            ok (record { entries = entries }))
      entries_part n inner lt =
          Shrinks-bind left_of nothing n _ _
            (members-Shrinks n inner _ _ [] lt (
              entries_loop-Shrinks (suc (length (skip_ws inner))) (skip_ws inner) [] (omega arith)))
            (λ t k.
              Shrinks-bind length nothing n (expect_char t.1 b'}') _ (expect_after n t.1 b'}' k)
                (λ bs b.
                  Shrinks-bind length nothing n (expect_char (skip_ws bs) b'}')
                    (λ _. ok (record { entries = t.0 })) (expect_behind n bs b'}' b)
                    (λ _ _. omega arith)))

  -- The parser ends on every text: the fuel of its loops is never used up.
  pub parse_json-ne-out_of_fuel : (json : Bytes) → parse_json unicode_lower json ≢ err out_of_fuel
  parse_json-ne-out_of_fuel json e = rw e at (parse_json-Shrinks json)
