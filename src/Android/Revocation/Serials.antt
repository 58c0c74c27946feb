-- ===== src/Android/Revocation/Serials.antt =====
-- The entries of a status list as a map: no serial twice, and the last record of a serial is the one
-- that is looked up.
use attestation.Common.{
  ℕ, zero, suc, ◌≡◌, ◌≢◌, inl, inr, refl, sym, ◌∙◌, true, false, not, Option, none, some, List, [],
  ◌∷◌, if◌then◌else◌, length, All, Bytes, bytes_eq, bytes_eq_iff, codes, Bool-cases, Option-cases,
  Result, ok, err, ◌>>=◌,
}
use attestation.Common.Text.{trim, trim_bom, to_lowercase}
use attestation.Android.Revocation.{
  StatusEntry, StatusList, Entries, insert, get, lookup_serial, entries_loop, parse_json, from_json,
  empty_entry, read_string, expect_char, skip_ws, read_status_object, peek_is, after_comma, Stop,
}
use attestation.Android.Revocation.Printed.{Record, IsRecord, document, entry_of}
use attestation.Android.Revocation.RoundTrip.{entries_of, parse_json-document}

true-ne-false : true ≢ false
true-ne-false e = cc

-- No key stands twice.
abbrev pub IsMap : Entries → Type 0
IsMap [] = Unit {0}
IsMap ((k, v) ∷ m) = (get k m ≡ none) × IsMap m

bytes_eq_refl : (k : Bytes) → bytes_eq k k ≡ true
bytes_eq_refl k = (bytes_eq_iff k k).1 refl

get-insert :
    (j k : Bytes) (v : StatusEntry) (m : Entries)
    → get j (insert k v m) ≡ (if bytes_eq k j then some v else get j m)
unfolding get insert
get-insert j k v [] = refl
get-insert j k v ((i, w) ∷ m) = elim (Bool-cases (bytes_eq i k)) [
  | inl same ↦ rw same (
      rw ((bytes_eq_iff i k).0 same)
        (elim (Bool-cases (bytes_eq k j)) [ inl e ↦ rw e refl | inr e ↦ rw e refl ]))
  | inr other ↦ rw other (elim (Bool-cases (bytes_eq i j)) [
    | inl e ↦ elim (Bool-cases (bytes_eq k j)) [
      | inl e' ↦ absurd (
          true-ne-false (
            sym (bytes_eq_refl j)
            ∙ (rw ((bytes_eq_iff i j).0 e, (bytes_eq_iff k j).0 e') at other)))
      | inr e' ↦ rw (e, e') refl
    ]
    | inr e ↦ rw (e, get-insert j k v m) refl
  ])
]

apart : (i k : Bytes) → bytes_eq i k ≡ false → bytes_eq k i ≡ false
apart i k h = elim (Bool-cases (bytes_eq k i)) [
  | inl e ↦ absurd (true-ne-false (sym (bytes_eq_refl i) ∙ (rw ((bytes_eq_iff k i).0 e) at h)))
  | inr e ↦ e
]

insert-IsMap : (k : Bytes) (v : StatusEntry) (m : Entries) → IsMap m → IsMap (insert k v m)
unfolding insert
insert-IsMap k v [] h = (unfold get in refl, tt)
insert-IsMap k v ((i, w) ∷ m) (gone, h) = elim (Bool-cases (bytes_eq i k)) [
  | inl same ↦ rw same (rw ((bytes_eq_iff i k).0 same) at gone, h)
  | inr other ↦ rw other (get-insert i k v m ∙ rw (apart i k other) gone, insert-IsMap k v m h)
]

-- A result that is none, or has the property.
abbrev Keeps {ℓ} : {A : Type ℓ} → (A → Type 0) → Result Stop A → Type 0
Keeps P (ok a) = P a
Keeps P (err e) = Unit {0}

Keeps-bind {ℓ κ} :
    {A : Type ℓ} {B : Type κ} (P : B → Type 0) (r : Result Stop A) (f : A → Result Stop B)
    → ((a : A) → Keeps P (f a))
    → Keeps P (r >>= f)
Keeps-bind P (ok a) f h = h a
Keeps-bind P (err e) f h = tt

Keeps-from {ℓ κ} :
    {A : Type ℓ} {B : Type κ} (Q : A → Type 0) (P : B → Type 0) (r : Result Stop A)
    (f : A → Result Stop B)
    → Keeps Q r
    → ((a : A) → Q a → Keeps P (f a))
    → Keeps P (r >>= f)
Keeps-from Q P (ok a) f q h = h a q
Keeps-from Q P (err e) f q h = tt

or_none : (o : Option StatusEntry) → elim o [ some e ↦ some e | none ↦ none ] ≡ o
or_none none = refl
or_none (some e) = refl

module _ (unicode_lower : Bytes → Bytes) where
  abbrev AreEntries : Entries × Bytes → Type 0
  AreEntries r = IsMap r.0

  entries_loop-Keeps :
      (fuel : ℕ) (bytes : Bytes) (m : Entries)
      → IsMap m
      → Keeps AreEntries (entries_loop unicode_lower fuel bytes m)
  unfolding entries_loop
  entries_loop-Keeps zero bytes m h = tt
  entries_loop-Keeps (suc fuel) bytes m h = Keeps-bind AreEntries (read_string bytes) _ (λ s.
      Keeps-bind AreEntries (expect_char (skip_ws s.1) b':') _ (λ b.
        Keeps-bind AreEntries (read_status_object (skip_ws b)) _ (λ o.
          let kept = insert-IsMap (to_lowercase unicode_lower s.0) o.0 m h in
          elim (Option-cases (after_comma (skip_ws o.1))) [
            | inl last ↦ rw last kept
            | inr (next, comma) ↦ rw comma (entries_loop-Keeps fuel next _ kept)
          ])))

  parse_json-Keeps :
      (json : Bytes) → Keeps (λ l. IsMap (StatusList.entries l)) (parse_json unicode_lower json)
  unfolding parse_json
  parse_json-Keeps json =
      let P = λ (l : StatusList). IsMap l.entries in
      Keeps-bind P (expect_char (trim (trim_bom json)) b'{') _ (λ b.
        Keeps-bind P (read_string (skip_ws b)) _ (λ k.
          elim (Bool-cases (bytes_eq k.0 (codes "entries"))) [
            | inl e ↦ rw e (
                Keeps-bind P (expect_char (skip_ws k.1) b':') _ (λ c.
                  Keeps-bind P (expect_char (skip_ws c) b'{') _ (λ o.
                    Keeps-from AreEntries P _ _ (inside (skip_ws o)) (λ m kept.
                      Keeps-bind P (expect_char m.1 b'}') _
                        (λ z. Keeps-bind P (expect_char (skip_ws z) b'}') _ (λ y. kept))))))
            | inr e ↦ rw e tt
          ]))
    where
      inside :
          (bs : Bytes)
          → Keeps AreEntries (
              if not (peek_is bs b'}')
              then entries_loop unicode_lower (suc (length bs)) bs []
              else ok ([], bs))
      inside bs = elim (Bool-cases (peek_is bs b'}')) [
        | inl e ↦ rw e tt
        | inr e ↦ rw e (entries_loop-Keeps (suc (length bs)) bs [] tt)
      ]

  -- In the list that the parser returns no serial stands twice.
  pub parse_json-IsMap :
      (json : Bytes) (l : StatusList) → parse_json unicode_lower json ≡ ok l → IsMap l.entries
  parse_json-IsMap json l e = let kept = parse_json-Keeps json in rw e at kept

  -- What the records say of a serial: the entry of the last one whose serial is that in lower case.
  abbrev pub says : Bytes → List Record → Option StatusEntry
  says serial [] = none
  says serial (r ∷ rs) = elim (says serial rs) [
    | some e ↦ some e
    | none ↦
        if bytes_eq (to_lowercase unicode_lower r.0) serial
        then some (entry_of empty_entry r.1)
        else none
  ]

  get-entries_of :
      (serial : Bytes) (rs : List Record) (m : Entries)
      → get serial (entries_of unicode_lower m rs)
        ≡ elim (says serial rs) [ some e ↦ some e | none ↦ get serial m ]
  get-entries_of serial [] m = refl
  get-entries_of serial (r ∷ rs) m =
      let put = get-insert serial (to_lowercase unicode_lower r.0) (entry_of empty_entry r.1) m in
      get-entries_of serial rs _ ∙ (elim (Option-cases (says serial rs)) [
        | inr (e, found) ↦ rw found refl
        | inl gone ↦
            rw (gone, put)
              (elim (Bool-cases (bytes_eq (to_lowercase unicode_lower r.0) serial)) [
                | inl e ↦ rw e refl
                | inr e ↦ rw e refl
              ])
      ])

  -- On a text that is, once trimmed, the document of some records, `from_json` returns a list that has, for
  -- every serial, the entry of the last record whose serial is that in lower case, or none.
  pub lookup_serial-says :
      (json : Bytes) (rs : List Record)
      → All IsRecord rs
      → trim (trim_bom json) ≡ document rs
      → (l : StatusList) × (from_json unicode_lower json ≡ ok l)
        × ((serial : Bytes) → lookup_serial l serial ≡ says serial rs)
  unfolding from_json lookup_serial
  lookup_serial-says json rs h e = (
    record { entries = entries_of unicode_lower [] rs },
    rw (parse_json-document unicode_lower json rs h e) refl,
    λ serial. get-entries_of serial rs [] ∙ unfold get in or_none (says serial rs),
  )
