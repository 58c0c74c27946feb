-- ===== src/Apple/Cbor/Object.antt =====
-- When `decode_attestation_object` returns a statement.
use text.Mathlib.Text.{◌==◌ as str_eq}
use mathlib.Core.Path.{subst}
use attestation.Common.{
  ◌≡◌, ◌↔◌, refl, sym, ap, ◌∙◌, none, some, List, [], All, Bytes, arith, ok, ok_or, >>=-eq-ok,
  ok_or-eq-ok, ok-eq-ok, Bool-cases, inl, inr,
}
use attestation.Apple.Entries.{run, last, or_old, or_old-eq-some}
use attestation.Apple.Errors.{cbor}
use attestation.Apple.Cbor.{
  Cbor, AttestationStatement, Top, set_top, top_loop, Stmt, stmt_loop, decode_attestation_object,
}
use attestation.Apple.Cbor.Texts.{
  IsEntry, Anything, named, at_text, on_key, on_text, loop_iff, variable-last, other_name,
}
use attestation.Apple.Cbor.Statement.{
  certificates, GoodX5c, receipt_read, stmt_loop_iff, x5c-last, receipt-last,
}

module _ (v : Cbor) where
  open v use {Value, from_reader, as_map, as_text, as_bytes, as_array}

  abbrev no_top : Top v
  no_top = record { fmt = none; auth_data = none; att_stmt = none }

  top_loop_iff :
      (map : List (Value × Value)) (s s' : Top v)
      → (top_loop v map s ≡ ok s')
        ↔ (All (IsEntry v (Anything v)) map × (run (on_text v (set_top v)) map s ≡ s'))
  unfolding top_loop
  top_loop_iff =
      loop_iff v (λ t key value. ok (set_top v t key value)) (set_top v) (Anything v)
        (λ t key value t'. ((λ h. (tt, ok-eq-ok h)), (λ h. ap ok (h.1))))
        (cbor "non-text key at top level") (top_loop v) (λ s. refl) (λ k value map s. refl)

  fmt-last :
      (map : List (Value × Value)) (s : Top v)
      → Top.fmt (run (on_text v (set_top v)) map s)
        ≡ or_old (last (at_text v "fmt" as_text) map) (Top.fmt s)
  fmt-last =
      variable-last v (set_top v) (λ s. Top.fmt s) (named v "fmt" as_text)
        λ s key value. elim (Bool-cases (str_eq key "fmt")) [
          | inl same ↦ rw same
          | inr other ↦ ground arith
        ]

  auth_data-last :
      (map : List (Value × Value)) (s : Top v)
      → Top.auth_data (run (on_text v (set_top v)) map s)
        ≡ or_old (last (at_text v "authData" as_bytes) map) (Top.auth_data s)
  auth_data-last =
      variable-last v (set_top v) (λ s. Top.auth_data s) (named v "authData" as_bytes)
        λ s key value. ground (arith, other_name key "authData" "fmt" refl)

  att_stmt-last :
      (map : List (Value × Value)) (s : Top v)
      → Top.att_stmt (run (on_text v (set_top v)) map s)
        ≡ or_old (last (at_text v "attStmt" some) map) (Top.att_stmt s)
  att_stmt-last =
      variable-last v (set_top v) (λ s. Top.att_stmt s) (named v "attStmt" some)
        λ s key value.
          ground
            (arith, other_name key "attStmt" "fmt" refl, other_name key "attStmt" "authData" refl)

  -- The octets are a CBOR map with texts for keys, in which the last entries under "fmt", "authData" and
  -- "attStmt" are a text, an octet string and a map with texts for keys, and in that one every entry
  -- under "x5c" is an array of octet strings; the statement has the text, the octet string, the last such
  -- array and the last octet string under "receipt", or no octets where there is none.
  pub record IsObject (bytes : Bytes) (stmt : AttestationStatement) : Type 0 where
    pub value : Value
    pub map : List (Value × Value)
    pub att_stmt : Value
    pub att_map : List (Value × Value)
    pub reads : from_reader bytes ≡ some value
    pub maps : as_map value ≡ some map
    pub entries : All (IsEntry v (Anything v)) map
    pub fmt : last (at_text v "fmt" as_text) map ≡ some (some stmt.fmt)
    pub auth_data : last (at_text v "authData" as_bytes) map ≡ some (some stmt.auth_data)
    pub att_stmt_is : last (at_text v "attStmt" some) map ≡ some (some att_stmt)
    pub att_maps : as_map att_stmt ≡ some att_map
    pub att_entries : All (IsEntry v (GoodX5c v)) att_map
    pub x5c : last (at_text v "x5c" (certificates v)) att_map ≡ some (some stmt.x5c)
    pub receipt : or_old (last (on_key v (receipt_read v)) att_map) [] ≡ stmt.receipt

  abbrev start : Stmt v
  start = record { x5c = none; receipt = [] }

  decode_attestation_object-IsObject :
      (bytes : Bytes) (stmt : AttestationStatement)
      → decode_attestation_object v bytes ≡ ok stmt
      → IsObject bytes stmt
  unfolding decode_attestation_object
  decode_attestation_object-IsObject bytes stmt h =
      let (value, e1, h1) = >>=-eq-ok (ok_or (from_reader bytes) _) _ h in
      let (map, e2, h2) = >>=-eq-ok (ok_or (as_map value) _) _ h1 in
      let (t, e3, h3) = >>=-eq-ok (top_loop v map no_top) _ h2 in
      let (fmt, e4, h4) = >>=-eq-ok (ok_or (Top.fmt t) _) _ h3 in
      let (auth_data, e5, h5) = >>=-eq-ok (ok_or (Top.auth_data t) _) _ h4 in
      let (att_stmt, e6, h6) = >>=-eq-ok (ok_or (Top.att_stmt t) _) _ h5 in
      let (att_map, e7, h7) = >>=-eq-ok (ok_or (as_map att_stmt) _) _ h6 in
      let (s, e8, h8) = >>=-eq-ok (stmt_loop v att_map start) _ h7 in
      let (x5c, e9, h9) = >>=-eq-ok (ok_or (Stmt.x5c s) _) _ h8 in
      let (entries, ends) = (top_loop_iff map no_top t).0 e3 in
      let (att_entries, att_ends) = (stmt_loop_iff v att_map start s).0 e8 in
      subst (IsObject bytes) (ok-eq-ok h9) (record {
        value = value;
        map = map;
        att_stmt = att_stmt;
        att_map = att_map;
        reads = ok_or-eq-ok _ _ e1;
        maps = ok_or-eq-ok _ _ e2;
        entries = entries;
        fmt =
            (or_old-eq-some _ fmt).0
              (sym (fmt-last map no_top) ∙ ap (λ t. Top.fmt t) ends ∙ ok_or-eq-ok _ _ e4);
        auth_data =
            (or_old-eq-some _ auth_data).0 (
              sym (auth_data-last map no_top)
              ∙ ap (λ t. Top.auth_data t) ends
              ∙ ok_or-eq-ok _ _ e5);
        att_stmt_is =
            (or_old-eq-some _ att_stmt).0
              (sym (att_stmt-last map no_top) ∙ ap (λ t. Top.att_stmt t) ends ∙ ok_or-eq-ok _ _ e6);
        att_maps = ok_or-eq-ok _ _ e7;
        att_entries = att_entries;
        x5c =
            (or_old-eq-some _ x5c).0
              (sym (x5c-last v att_map start) ∙ ap (λ s. Stmt.x5c s) att_ends ∙ ok_or-eq-ok _ _ e9);
        receipt = sym (receipt-last v att_map start) ∙ ap (λ s. Stmt.receipt s) att_ends;
      })

  IsObject-decode_attestation_object :
      (bytes : Bytes) (stmt : AttestationStatement)
      → IsObject bytes stmt
      → decode_attestation_object v bytes ≡ ok stmt
  unfolding decode_attestation_object
  IsObject-decode_attestation_object bytes stmt o =
      let top = (top_loop_iff o.map no_top _).1 (o.entries, refl) in
      let fmt = fmt-last o.map no_top ∙ (or_old-eq-some _ _).1 o.fmt in
      let auth_data = auth_data-last o.map no_top ∙ (or_old-eq-some _ _).1 o.auth_data in
      let att_stmt = att_stmt-last o.map no_top ∙ (or_old-eq-some _ _).1 o.att_stmt_is in
      let att = (stmt_loop_iff v o.att_map start _).1 (o.att_entries, refl) in
      let x5c = x5c-last v o.att_map start ∙ (or_old-eq-some _ _).1 o.x5c in
      let receipt = receipt-last v o.att_map start ∙ o.receipt in
      rw (o.reads, o.maps, top, fmt, auth_data, att_stmt, o.att_maps, att, x5c, receipt) refl

  -- `decode_attestation_object` returns a statement exactly when the octets are a CBOR map, all of whose keys
  -- are texts; its last entries under "fmt", "authData" and "attStmt" are the statement's text, its octet
  -- string and a map; all keys of that map are texts, and every entry of it under "x5c" is an array of octet
  -- strings; and the statement has the last such array, and the last octet string under "receipt" or none.
  pub decode_attestation_object_iff :
      (bytes : Bytes) (stmt : AttestationStatement)
      → (decode_attestation_object v bytes ≡ ok stmt) ↔ IsObject bytes stmt
  decode_attestation_object_iff bytes stmt =
      (decode_attestation_object-IsObject bytes stmt, IsObject-decode_attestation_object bytes stmt)
