-- ===== src/Apple/Cbor/Statement.antt =====
-- The loop over the entries of `attStmt` in cbor.rs.
use text.Mathlib.Text.{◌==◌ as str_eq}
use attestation.Common.{
  ◌≡◌, ◌↔◌, refl, sym, ap, ◌∙◌, String, true, false, Option, none, some, List, [], ◌∷◌, All,
  if◌then◌else◌, Bytes, Result, ok, ok_or, ◌>>=◌, >>=-eq-ok, ok-eq-ok, Option-cases, Bool-cases,
  inl, inr,
}
use attestation.Apple.Entries.{run, last, or_old}
use attestation.Apple.Errors.{Error, cbor}
use attestation.Apple.Cbor.{Cbor, all_bytes, Stmt, set_stmt, stmt_loop}
use attestation.Apple.Cbor.Texts.{
  IsEntry, named, at_text, on_key, on_text, loop_iff, variable-last, other_name,
}

module _ (v : Cbor) where
  open v use {Value, from_reader, as_map, as_text, as_bytes, as_array}

  -- The octet strings of an array of such, where it is one.
  abbrev pub octet_strings : List Value → Option (List Bytes)
  octet_strings [] = some []
  octet_strings (c ∷ arr) = elim (as_bytes c) [
    | none ↦ none
    | some b ↦ elim (octet_strings arr) [ none ↦ none | some bs ↦ some (b ∷ bs) ]
  ]

  abbrev pub certificates : Value → Option (List Bytes)
  certificates value = elim (as_array value) [ none ↦ none | some arr ↦ octet_strings arr ]

  all_bytes-octet_strings :
      (arr : List Value) (certs : List Bytes)
      → (all_bytes v arr ≡ ok certs) ↔ (octet_strings arr ≡ some certs)
  unfolding all_bytes
  all_bytes-octet_strings [] certs = ((λ h. cc), (λ h. cc))
  all_bytes-octet_strings (c ∷ arr) certs = elim (Option-cases (as_bytes c)) [
    | inl gone ↦ ((λ h. cc (rw gone at h)), (λ h. cc (rw (octet_strings, gone) at h)))
    | inr (b, found) ↦ (
      (λ h.
          let (bs, e1, e2) = >>=-eq-ok (all_bytes v arr) (λ bs. ok (b ∷ bs)) (rw found at h) in
          let rest = (all_bytes-octet_strings arr bs).0 e1 in
          rw (octet_strings, found, rest) (ap some (ok-eq-ok e2))),
      (λ h. elim (Option-cases (octet_strings arr)) [
        | inl none_left ↦ cc (rw (octet_strings, found, none_left) at h)
        | inr (bs, rest) ↦
            let each = (all_bytes-octet_strings arr bs).1 rest in
            rw (found, each) (cc (rw (octet_strings, found, rest) at h))
      ]),
    )
  ]

  abbrev read_certs : Value → Result Error (List Bytes)
  read_certs value = ok_or (as_array value) (cbor "x5c is not an array") >>= λ arr. all_bytes v arr

  read_certs-certificates :
      (value : Value) (certs : List Bytes)
      → (read_certs value ≡ ok certs) ↔ (certificates value ≡ some certs)
  read_certs-certificates value certs = elim (Option-cases (as_array value)) [
    | inl gone ↦ ((λ h. cc (rw (read_certs, gone) at h)), (λ h. cc (rw (certificates, gone) at h)))
    | inr (arr, found) ↦ rw (read_certs, certificates, found) (all_bytes-octet_strings arr certs)
  ]

  -- Under "x5c" stands an array of octet strings.
  abbrev pub GoodX5c : String → Value → Type 0
  GoodX5c key value =
      str_eq key "x5c" ≡ true → (certs : List Bytes) × (certificates value ≡ some certs)

  abbrev pub receipt_read : String → Value → Option Bytes
  receipt_read key value = if str_eq key "receipt" then as_bytes value else none

  abbrev pub put_stmt : Stmt v → String → Value → Stmt v
  put_stmt s key value =
      if str_eq key "x5c"
      then record { x5c = certificates value; receipt = s.receipt }
      else record { x5c = s.x5c; receipt = or_old (receipt_read key value) s.receipt }

  set_stmt_other :
      (s : Stmt v) (key : String) (value : Value)
      → str_eq key "x5c" ≡ false
      → set_stmt v s key value ≡ ok (put_stmt s key value)
  set_stmt_other s key value other = elim (Bool-cases (str_eq key "receipt")) [
    | inl same ↦ elim (Option-cases (as_bytes value)) [
      | inl gone ↦ rw (other, same, gone) refl
      | inr (b, found) ↦ rw (other, same, found) refl
    ]
    | inr no_receipt ↦ rw (other, no_receipt) refl
  ]

  set_stmt-put_stmt :
      (s : Stmt v) (key : String) (value : Value) (s' : Stmt v)
      → (set_stmt v s key value ≡ ok s') ↔ (GoodX5c key value × (put_stmt s key value ≡ s'))
  set_stmt-put_stmt s key value s' = elim (Bool-cases (str_eq key "x5c")) [
    | inl same ↦ (
      (λ h.
          let (certs, e1, e2) = >>=-eq-ok (read_certs value) _ (rw same at h) in
          let found = (read_certs-certificates value certs).0 e1 in
          ((λ _. (certs, found)), rw (same, found) (ok-eq-ok e2))),
      (λ h.
          let (certs, found) = h.0 same in
          let each = (read_certs-certificates value certs).1 found in
          rw (same, each) (rw (same, found) at (ap {B = Result Error (Stmt v)} ok (h.1)))),
    )
    | inr other ↦ (
      (λ h. ((λ same. cc (same, other)), ok-eq-ok (sym (set_stmt_other s key value other) ∙ h))),
      (λ h. set_stmt_other s key value other ∙ ap {B = Result Error (Stmt v)} ok (h.1)),
    )
  ]

  pub stmt_loop_iff :
      (map : List (Value × Value)) (s s' : Stmt v)
      → (stmt_loop v map s ≡ ok s')
        ↔ (All (IsEntry v GoodX5c) map × (run (on_text v put_stmt) map s ≡ s'))
  unfolding stmt_loop
  stmt_loop_iff =
      loop_iff v (set_stmt v) put_stmt GoodX5c set_stmt-put_stmt (cbor "non-text key in attStmt")
        (stmt_loop v) (λ s. refl) (λ k value map s. refl)

  pub x5c-last :
      (map : List (Value × Value)) (s : Stmt v)
      → Stmt.x5c (run (on_text v put_stmt) map s)
        ≡ or_old (last (at_text v "x5c" certificates) map) (Stmt.x5c s)
  x5c-last =
      variable-last v put_stmt (λ s. Stmt.x5c s) (named v "x5c" certificates)
        λ s key value. elim (Bool-cases (str_eq key "x5c")) [
          | inl same ↦ rw same refl
          | inr other ↦ rw other refl
        ]

  pub receipt-last :
      (map : List (Value × Value)) (s : Stmt v)
      → Stmt.receipt (run (on_text v put_stmt) map s)
        ≡ or_old (last (on_key v receipt_read) map) (Stmt.receipt s)
  receipt-last =
      variable-last v put_stmt (λ s. Stmt.receipt s) receipt_read
        λ s key value. elim (Bool-cases (str_eq key "x5c")) [
          | inl same ↦ rw (same, other_name key "x5c" "receipt" refl same) refl
          | inr other ↦ rw other refl
        ]
