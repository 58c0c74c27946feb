-- ===== src/Move/Enclave/Payloads.antt =====
-- What a payload tells of the answer it belongs to.
use attestation.Common.{◌≡◌, ◌≢◌, refl, ◌∷◌, ◌∙◌, sym, [], ◌++◌, append-nil, Bytes}
use attestation.Server.Data.{Host}
use attestation.Server.Digest.{BcsLaws}
use attestation.Move.Framework.{Sui}
use attestation.Move.Enclave.{Bridge}

module _ (h : Host) (l : BcsLaws h) (sui : Sui) (b : Bridge h l sui) where
  open l use {field}

  -- On the chain, three fields and two.
  abbrev pub three : (x y z : Bytes) → Bytes
  three x y z = Sui.bcs_field sui x ++ (Sui.bcs_field sui y ++ Sui.bcs_field sui z)

  abbrev pub two : (x y : Bytes) → Bytes
  two x y = Sui.bcs_field sui x ++ Sui.bcs_field sui y

  three_fields : (x y z : Bytes) → three x y z ≡ field x ++ (field y ++ (field z ++ []))
  three_fields x y z =
      rw (b.same_field x, b.same_field y, b.same_field z, append-nil (field z)) refl

  two_fields : (x y : Bytes) → two x y ≡ field x ++ (field y ++ [])
  two_fields x y = rw (b.same_field x, b.same_field y, append-nil (field y)) refl

  -- A field takes an octet at least: otherwise every vector would be it.
  field-ne-nil : (x : Bytes) → field x ≢ []
  field-ne-nil x empty =
      let same =
        λ (y : Bytes). (l.field_ends x y (field y) [] (cc (empty, append-nil (field y)))).0 in
      cc (same [], same (0 ∷ []))

  -- Three fields are the three fields of an answer only where they are the same fields.
  pub three-three :
      (x y z p q r payload : Bytes)
      → payload ≡ field p ++ (field q ++ (field r ++ []))
      → payload ≡ three x y z
      → (p ≡ x) × (q ≡ y) × (r ≡ z)
  three-three x y z p q r payload written same =
      let e = sym written ∙ same ∙ three_fields x y z in
      let (key, e1) = l.field_ends p x _ _ e in
      let (challenge, e2) = l.field_ends q y _ _ e1 in
      let (detail, e3) = l.field_ends r z _ _ e2 in (key, challenge, detail)

  pub two-two :
      (x y p q payload : Bytes)
      → payload ≡ field p ++ (field q ++ [])
      → payload ≡ two x y
      → (p ≡ x) × (q ≡ y)
  two-two x y p q payload written same =
      let e = sym written ∙ same ∙ two_fields x y in
      let (key, e1) = l.field_ends p x _ _ e in
      let (client, e2) = l.field_ends q y _ _ e1 in (key, client)

  -- Two fields are never three.
  pub two-ne-three :
      (x y z p q payload : Bytes) → payload ≡ field p ++ (field q ++ []) → payload ≢ three x y z
  two-ne-three x y z p q payload written same =
      let e = sym written ∙ same ∙ three_fields x y z in
      let (key, e1) = l.field_ends p x _ _ e in
      let (challenge, e2) = l.field_ends q y _ _ e1 in
      field-ne-nil z (sym (append-nil (field z)) ∙ sym e2)

  pub three-ne-two :
      (x y p q r payload : Bytes)
      → payload ≡ field p ++ (field q ++ (field r ++ []))
      → payload ≢ two x y
  three-ne-two x y p q r payload written same =
      let e = sym written ∙ same ∙ two_fields x y in
      let (key, e1) = l.field_ends p x _ _ e in
      let (challenge, e2) = l.field_ends q y _ _ e1 in
      field-ne-nil r (sym (append-nil (field r)) ∙ e2)

  pub three_written :
      (x y z payload : Bytes)
      → payload ≡ field x ++ (field y ++ (field z ++ []))
      → three x y z ≡ payload
  three_written x y z payload written = three_fields x y z ∙ sym written

  pub two_written : (x y payload : Bytes) → payload ≡ field x ++ (field y ++ []) → two x y ≡ payload
  two_written x y payload written = two_fields x y ∙ sym written
