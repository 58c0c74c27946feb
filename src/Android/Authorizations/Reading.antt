-- ===== src/Android/Authorizations/Reading.antt =====
-- What the elements of an AuthorizationList tell, one by one.
use attestation.Common.{
  ℕ, ◌≡◌, ◌⊎◌, inl, inr, refl, sym, ap, ◌∙◌, ◌==◌, ==_iff, Bool-cases, Option-cases, Option, some,
  if◌then◌else◌, Bytes,
}
use attestation.Common.Maybe.{◌>>=◌}
use attestation.Android.Der.{Der}
use attestation.Android.Integers.{decode_i32, decode_u64}
use attestation.Android.Tlv.{TlvHeader}
use attestation.Android.Authorizations.{
  AuthorizationList, decode_root_of_trust, decode_field, apply_element,
}
use attestation.Android.Authorizations.Fields.{
  Field, put, kind, creation_date_time, root_of_trust, os_version, os_patch_level,
  attestation_application_id, nothing,
}

some-eq-some : {f g : Field} → ◌≡◌ {A = Option Field} (some f) (some g) → f ≡ g
some-eq-some h = cc

module _ (d : Der) where
  open d use {Reader, new, octet_string}

  abbrev pub read_field : ℕ → Reader → Option Field
  read_field tag ir =
      if tag == 701
      then (do (n, _) ← decode_u64 d ir; some (creation_date_time n))
      else if tag == 704
      then (do rot ← decode_root_of_trust d ir; some (root_of_trust rot))
      else if tag == 705
      then (do (n, _) ← decode_i32 d ir; some (os_version n))
      else if tag == 706
      then (do (n, _) ← decode_i32 d ir; some (os_patch_level n))
      else if tag == 709
      then (do (v, _) ← octet_string ir; some (attestation_application_id v))
      else some nothing

  abbrev pub read_element : TlvHeader → Bytes → Option Field
  read_element h inner =
      if h.class == 2 then (do ir ← new inner; read_field h.tag_number ir) else some nothing

  -- A field is put in the list, whatever the list was.
  decode_field-read_field :
      (out : AuthorizationList) (tag : ℕ) (ir : Reader)
      → decode_field d out tag ir ≡ (do f ← read_field tag ir; some (put out f))
  unfolding decode_field
  decode_field-read_field out tag ir = elim (Bool-cases (tag == 701)) [
    | inl a ↦
        rw a (elim (Option-cases (decode_u64 d ir)) [ inl e ↦ rw e refl | inr (x, e) ↦ rw e refl ])
    | inr a ↦ elim (Bool-cases (tag == 704)) [
      | inl b ↦
          rw (a, b)
            (elim (Option-cases (decode_root_of_trust d ir)) [
              | inl e ↦ rw e refl
              | inr (x, e) ↦ rw e refl
            ])
      | inr b ↦ elim (Bool-cases (tag == 705)) [
        | inl c ↦
            rw (a, b, c)
              (elim (Option-cases (decode_i32 d ir)) [ inl e ↦ rw e refl | inr (x, e) ↦ rw e refl ])
        | inr c ↦ elim (Bool-cases (tag == 706)) [
          | inl k ↦
              rw (a, b, c, k)
                (elim (Option-cases (decode_i32 d ir)) [
                  | inl e ↦ rw e refl
                  | inr (x, e) ↦ rw e refl
                ])
          | inr k ↦ elim (Bool-cases (tag == 709)) [
            | inl m ↦
                rw (a, b, c, k, m)
                  (elim (Option-cases (octet_string ir)) [
                    | inl e ↦ rw e refl
                    | inr (x, e) ↦ rw e refl
                  ])
            | inr m ↦ rw (a, b, c, k, m) refl
          ]
        ]
      ]
    ]
  ]

  read_field-kind :
      (tag : ℕ) (ir : Reader) (f : Field)
      → read_field tag ir ≡ some f
      → (f ≡ nothing) ⊎ (kind f ≡ tag)
  read_field-kind tag ir f h = elim (Bool-cases (tag == 701)) [
    | inl a ↦ elim (Option-cases (decode_u64 d ir)) [
      | inl e ↦ cc (rw (a, e) at h)
      | inr (x, e) ↦
          let is : creation_date_time x.0 ≡ f = some-eq-some (rw (a, e) at h) in
          inr (ap kind (sym is) ∙ sym ((==_iff tag 701).0 a))
    ]
    | inr a ↦ elim (Bool-cases (tag == 704)) [
      | inl b ↦ elim (Option-cases (decode_root_of_trust d ir)) [
        | inl e ↦ cc (rw (a, b, e) at h)
        | inr (x, e) ↦
            let is : root_of_trust x ≡ f = some-eq-some (rw (a, b, e) at h) in
            inr (ap kind (sym is) ∙ sym ((==_iff tag 704).0 b))
      ]
      | inr b ↦ elim (Bool-cases (tag == 705)) [
        | inl c ↦ elim (Option-cases (decode_i32 d ir)) [
          | inl e ↦ cc (rw (a, b, c, e) at h)
          | inr (x, e) ↦
              let is : os_version x.0 ≡ f = some-eq-some (rw (a, b, c, e) at h) in
              inr (ap kind (sym is) ∙ sym ((==_iff tag 705).0 c))
        ]
        | inr c ↦ elim (Bool-cases (tag == 706)) [
          | inl k ↦ elim (Option-cases (decode_i32 d ir)) [
            | inl e ↦ cc (rw (a, b, c, k, e) at h)
            | inr (x, e) ↦
                let is : os_patch_level x.0 ≡ f = some-eq-some (rw (a, b, c, k, e) at h) in
                inr (ap kind (sym is) ∙ sym ((==_iff tag 706).0 k))
          ]
          | inr k ↦ elim (Bool-cases (tag == 709)) [
            | inl m ↦ elim (Option-cases (octet_string ir)) [
              | inl e ↦ cc (rw (a, b, c, k, m, e) at h)
              | inr (x, e) ↦
                  let is : attestation_application_id x.0 ≡ f =
                    some-eq-some (rw (a, b, c, k, m, e) at h) in
                  inr (ap kind (sym is) ∙ sym ((==_iff tag 709).0 m))
            ]
            | inr m ↦ inl (sym (some-eq-some (rw (a, b, c, k, m) at h)))
          ]
        ]
      ]
    ]
  ]

  pub apply_element-read_element :
      (out : AuthorizationList) (h : TlvHeader) (inner : Bytes)
      → apply_element d out h inner ≡ (do f ← read_element h inner; some (put out f))
  unfolding apply_element
  apply_element-read_element out h inner = elim (Bool-cases (h.class == 2)) [
    | inl e ↦ elim (Option-cases (new inner)) [
      | inl g ↦ rw (e, g) refl
      | inr (ir, g) ↦ rw (e, g) (decode_field-read_field out h.tag_number ir)
    ]
    | inr e ↦ rw e refl
  ]

  pub read_element-kind :
      (h : TlvHeader) (inner : Bytes) (f : Field)
      → read_element h inner ≡ some f
      → (f ≡ nothing) ⊎ ((h.class ≡ 2) × (kind f ≡ h.tag_number))
  read_element-kind h inner f e = elim (Bool-cases (h.class == 2)) [
    | inl c ↦ elim (Option-cases (new inner)) [
      | inl g ↦ cc (rw (c, g) at e)
      | inr (ir, g) ↦ elim (read_field-kind h.tag_number ir f (rw (c, g) at e)) [
        | inl is ↦ inl is
        | inr is ↦ inr ((==_iff h.class 2).0 c, is)
      ]
    ]
    | inr c ↦ inl (sym (some-eq-some (rw c at e)))
  ]
