-- ===== src/Android/Authorizations/Encoded.antt =====
-- What `apply_element` makes of the encoded fields of an AuthorizationList.
use attestation.Common.{
  ℕ, ◌≤◌, ◌<◌, ◌≡◌, ◌≢◌, ◌⊎◌, inl, inr, refl, arith, false, ◌==◌, some, List, [], ◌∷◌, ◌++◌, length,
  Bytes, Bool-cases, ==_iff, All, ◌%◌, ◌^◌,
}
use attestation.Common.Int.{ℤ, pos}
use attestation.Android.Der.{Der, sequence_tag}
use attestation.Android.Der.Laws.{DerLaws, IsMinimal, integer_tag, octet_string_tag, max_length}
use attestation.Android.Integers.Encoded.{Stands, decode_i32-octets, decode_u64-octets}
use attestation.Android.Tlv.Forms.{tag_value, header_of}
use attestation.Android.Authorizations.{
  RootOfTrust, AuthorizationList, empty_list, decode_field, apply_element,
  decode_authorization_list,
}
use attestation.Android.Authorizations.Fields.{
  Field, put, put_all, creation_date_time, root_of_trust, os_version, os_patch_level,
  attestation_application_id, nothing,
}
use attestation.Android.Authorizations.Items.{
  Element, IsElement, elements_octets, apply_elements, decode_body-elements,
}
use attestation.Android.Authorizations.Root.{HoldsRoot, decode_root_of_trust-HoldsRoot}

ne-== : (a b : ℕ) → a ≢ b → (a == b) ≡ false
ne-== a b n = elim (Bool-cases (a == b)) [ inl e ↦ absurd (n ((==_iff a b).0 e)) | inr e ↦ e ]

module _ (d : Der) (l : DerLaws d) where
  open d use {Reader}
  open l use {rest, octets}

  -- The tag numbers that the code reads.
  abbrev pub IsRead : ℕ → Type 0
  IsRead t = (t ≡ 701) ⊎ (t ≡ 704) ⊎ (t ≡ 705) ⊎ (t ≡ 706) ⊎ (t ≡ 709)

  -- What is encoded under a context-specific tag.
  pub data Tagged (tag : ℕ) (contents : Bytes) (f : Field) : Type 0 where
    is_creation :
        (octs more : Bytes) (n : ℕ)
        → tag ≡ 701
        → contents ≡ octets integer_tag octs ++ more
        → Stands 8 octs (pos n)
        → IsMinimal octs
        → f ≡ creation_date_time n
        → Tagged tag contents f
    is_root :
        (rot : RootOfTrust)
        → tag ≡ 704
        → HoldsRoot d l contents rot
        → f ≡ root_of_trust rot
        → Tagged tag contents f
    is_version :
        (octs more : Bytes) (n : ℤ)
        → tag ≡ 705
        → contents ≡ octets integer_tag octs ++ more
        → Stands 4 octs n
        → IsMinimal octs
        → f ≡ os_version n
        → Tagged tag contents f
    is_patch_level :
        (octs more : Bytes) (n : ℤ)
        → tag ≡ 706
        → contents ≡ octets integer_tag octs ++ more
        → Stands 4 octs n
        → IsMinimal octs
        → f ≡ os_patch_level n
        → Tagged tag contents f
    is_application :
        (id more : Bytes)
        → tag ≡ 709
        → contents ≡ octets octet_string_tag id ++ more
        → f ≡ attestation_application_id id
        → Tagged tag contents f
    is_other : ¬ IsRead tag → f ≡ nothing → Tagged tag contents f

  decode_field-Tagged :
      (out : AuthorizationList) (tag : ℕ) (r : Reader) (f : Field)
      → Tagged tag (rest r) f
      → decode_field d out tag r ≡ some (put out f)
  unfolding decode_field
  decode_field-Tagged out tag r f (is_creation octs more n t e w m is) =
      let (s, reads, _) = decode_u64-octets d l r octs more n w m e in rw (t, is, reads)
  decode_field-Tagged out tag r f (is_root rot t w is) =
      let reads = decode_root_of_trust-HoldsRoot d l r rot w in rw (t, is, reads)
  decode_field-Tagged out tag r f (is_version octs more n t e w m is) =
      let (s, reads, _) = decode_i32-octets d l r octs more n w m e in rw (t, is, reads)
  decode_field-Tagged out tag r f (is_patch_level octs more n t e w m is) =
      let (s, reads, _) = decode_i32-octets d l r octs more n w m e in rw (t, is, reads)
  decode_field-Tagged out tag r f (is_application id more t e is) =
      let (s, reads, _) = l.octet_string_reads r id more e in rw (t, is, reads)
  decode_field-Tagged out tag r f (is_other n is) = rw (
    ne-== tag 701 (λ e. n (inl e)),
    ne-== tag 704 (λ e. n (inr (inl e))),
    ne-== tag 705 (λ e. n (inr (inr (inl e)))),
    ne-== tag 706 (λ e. n (inr (inr (inr (inl e))))),
    ne-== tag 709 (λ e. n (inr (inr (inr (inr e))))),
    is,
  )

  -- What an element of the context-specific class stands for, and one of any other class.
  pub data Tells (e : Element) (f : Field) : Type 0 where
    is_context :
        e.form.class ≡ 2
        → length e.contents ≤ max_length
        → tag_value e.form.tag < 2 ^ 32
        → Tagged (tag_value e.form.tag) e.contents f
        → Tells e f
    is_foreign : e.form.class ≢ 2 → f ≡ nothing → Tells e f

  abbrev pub TellAll : List Element → List Field → Type 0
  TellAll [] [] = Unit {0}
  TellAll [] (f ∷ fs) = ⊥
  TellAll (e ∷ es) [] = ⊥
  TellAll (e ∷ es) (f ∷ fs) = Tells e f × TellAll es fs

  apply_element-Tells :
      (out : AuthorizationList) (e : Element) (f : Field)
      → Tells e f
      → apply_element d out (header_of e.form) e.contents ≡ some (put out f)
  unfolding apply_element
  apply_element-Tells out e f (is_context c short fits t) =
      let (r, reads, left) = l.new_reads e.contents short in
      let whole : tag_value e.form.tag % 2 ^ 32 ≡ tag_value e.form.tag = omega (arith, fits) in
      let reads' = decode_field-Tagged out (tag_value e.form.tag) r f (rw left t) in
      rw (c, reads, whole, reads')
  apply_element-Tells out e f (is_foreign n is) = rw (ne-== e.form.class 2 n, is)

  apply_elements-TellAll :
      (out : AuthorizationList) (es : List Element) (fs : List Field)
      → TellAll es fs
      → apply_elements d out es ≡ some (put_all out fs)
  apply_elements-TellAll out [] [] h = refl
  apply_elements-TellAll out [] (f ∷ fs) h = elim h [ ]
  apply_elements-TellAll out (e ∷ es) [] h = elim h [ ]
  apply_elements-TellAll out (e ∷ es) (f ∷ fs) (h, hs) =
      rw (apply_element-Tells out e f h) (apply_elements-TellAll (put out f) es fs hs)

  -- An AuthorizationList: elements that tell the fields of the list.
  pub record HoldsList (body : Bytes) (out : AuthorizationList) : Type 0 where
    pub elements : List Element
    pub fields : List Field
    pub are_elements : All IsElement elements
    pub body_is : body ≡ elements_octets elements
    pub tell : TellAll elements fields
    pub out_is : out ≡ put_all empty_list fields

  pub decode_authorization_list-HoldsList :
      (r : Reader) (body more : Bytes) (out : AuthorizationList)
      → HoldsList body out
      → rest r ≡ octets sequence_tag body ++ more
      → (s : Reader) × (decode_authorization_list d r ≡ some (out, s)) × (rest s ≡ more)
  unfolding decode_authorization_list
  decode_authorization_list-HoldsList r body more out w e =
      let (r1, e1, l1) = l.header_reads r sequence_tag body more (inl refl) e in
      let (r2, e2, l2) = l.slice_reads r1 body more l1 in
      let e3 = decode_body-elements d w.elements w.are_elements in
      let e4 = apply_elements-TellAll empty_list w.elements w.fields w.tell in
      (r2, rw (e1, e2, w.body_is, e3, e4, w.out_is) refl, l2)
