-- ===== src/Apple/Assertion/Fields.antt =====
-- When `decode_assertion` returns a signature and authenticator data.
use mathlib.Core.Path.{subst}
use attestation.Common.{
  ◌≡◌, ◌↔◌, refl, sym, ap, ◌∙◌, arith, none, some, List, All, Bytes, ok, ok_or, >>=-eq-ok,
  ok_or-eq-ok, ok-eq-ok,
}
use attestation.Apple.Entries.{run, last, or_old, or_old-eq-some}
use attestation.Apple.Errors.{cbor}
use attestation.Apple.Cbor.{Cbor}
use attestation.Apple.Cbor.Texts.{
  IsEntry, Anything, named, at_text, on_text, loop_iff, variable-last, other_name,
}
use attestation.Apple.Assertion.{Parts, set_part, parts_loop, decode_assertion}

module _ (v : Cbor) where
  open v use {Value, from_reader, as_map, as_bytes}

  abbrev no_parts : Parts v
  no_parts = (none, none)

  parts_loop_iff :
      (map : List (Value × Value)) (p p' : Parts v)
      → (parts_loop v map p ≡ ok p')
        ↔ (All (IsEntry v (Anything v)) map × (run (on_text v (set_part v)) map p ≡ p'))
  unfolding parts_loop
  parts_loop_iff =
      loop_iff v (λ p key value. ok (set_part v p key value)) (set_part v) (Anything v)
        (λ p key value p'. ((λ h. (tt, ok-eq-ok h)), (λ h. ap ok (h.1))))
        (cbor "non-text key in assertion") (parts_loop v) (λ p. refl) (λ k value map p. refl)

  signature-last :
      (map : List (Value × Value)) (p : Parts v)
      → (run (on_text v (set_part v)) map p).0
        ≡ or_old (last (at_text v "signature" as_bytes) map) (p.0)
  signature-last =
      variable-last v (set_part v) (λ p. p.0) (named v "signature" as_bytes)
        λ p key value. ground arith

  auth_data-last :
      (map : List (Value × Value)) (p : Parts v)
      → (run (on_text v (set_part v)) map p).1
        ≡ or_old (last (at_text v "authenticatorData" as_bytes) map) (p.1)
  auth_data-last =
      variable-last v (set_part v) (λ p. p.1) (named v "authenticatorData" as_bytes)
        λ p key value. ground (arith, other_name key "authenticatorData" "signature" refl)

  -- The octets are a CBOR map with texts for keys, in which the last entries under "signature" and
  -- "authenticatorData" are these octet strings.
  pub record IsAssertion (bytes signature auth_data : Bytes) : Type 0 where
    pub value : Value
    pub map : List (Value × Value)
    pub reads : from_reader bytes ≡ some value
    pub maps : as_map value ≡ some map
    pub entries : All (IsEntry v (Anything v)) map
    pub signature_is : last (at_text v "signature" as_bytes) map ≡ some (some signature)
    pub auth_data_is : last (at_text v "authenticatorData" as_bytes) map ≡ some (some auth_data)

  decode_assertion-IsAssertion :
      (bytes signature auth_data : Bytes)
      → decode_assertion v bytes ≡ ok (signature, auth_data)
      → IsAssertion bytes signature auth_data
  unfolding decode_assertion
  decode_assertion-IsAssertion bytes signature auth_data h =
      let (value, e1, h1) = >>=-eq-ok (ok_or (from_reader bytes) _) _ h in
      let (map, e2, h2) = >>=-eq-ok (ok_or (as_map value) _) _ h1 in
      let (p, e3, h3) = >>=-eq-ok (parts_loop v map no_parts) _ h2 in
      let (s, e4, h4) = >>=-eq-ok (ok_or (p.0) _) _ h3 in
      let (a, e5, h5) = >>=-eq-ok (ok_or (p.1) _) _ h4 in
      let (entries, ends) = (parts_loop_iff map no_parts p).0 e3 in
      let same : ◌≡◌ {A = Bytes × Bytes} (s, a) (signature, auth_data) = ok-eq-ok h5 in
      subst (λ (q : Bytes × Bytes). IsAssertion bytes (q.0) (q.1)) same
        (record {
          value = value;
          map = map;
          reads = ok_or-eq-ok _ _ e1;
          maps = ok_or-eq-ok _ _ e2;
          entries = entries;
          signature_is = (or_old-eq-some _ s).0 (
              sym (signature-last map no_parts)
              ∙ ap (λ (p : Parts v). p.0) ends
              ∙ ok_or-eq-ok _ _ e4);
          auth_data_is = (or_old-eq-some _ a).0 (
              sym (auth_data-last map no_parts)
              ∙ ap (λ (p : Parts v). p.1) ends
              ∙ ok_or-eq-ok _ _ e5);
        })

  IsAssertion-decode_assertion :
      (bytes signature auth_data : Bytes)
      → IsAssertion bytes signature auth_data
      → decode_assertion v bytes ≡ ok (signature, auth_data)
  unfolding decode_assertion
  IsAssertion-decode_assertion bytes signature auth_data i =
      let loop = (parts_loop_iff i.map no_parts _).1 (i.entries, refl) in
      let s = signature-last i.map no_parts ∙ (or_old-eq-some _ _).1 i.signature_is in
      let a = auth_data-last i.map no_parts ∙ (or_old-eq-some _ _).1 i.auth_data_is in
      rw (i.reads, i.maps, loop, s, a) refl

  -- `decode_assertion` returns the two exactly when the octets are a CBOR map, all of whose keys are texts, and
  -- its last entries under "signature" and "authenticatorData" are these two octet strings.
  pub decode_assertion_iff :
      (bytes signature auth_data : Bytes)
      → (decode_assertion v bytes ≡ ok (signature, auth_data))
        ↔ IsAssertion bytes signature auth_data
  decode_assertion_iff bytes signature auth_data = (
    decode_assertion-IsAssertion bytes signature auth_data,
    IsAssertion-decode_assertion bytes signature auth_data,
  )
