-- ===== src/Android/Authorizations/Order.antt =====
-- The order of the elements of an AuthorizationList.
use mathlib.Core.Path.{subst}
use mathlib.Core.List.{Permᴰ}
use attestation.Common.{
  ◌≡◌, ◌≢◌, ◌⊎◌, inl, inr, refl, sym, ap, ◌∙◌, Option, none, some, Option-cases, List, [], ◌∷◌, All,
  ok_or,
}
use attestation.Common.Maybe.{◌>>=◌}
use attestation.Android.Der.{Der}
use attestation.Android.Tlv.Forms.{header_of}
use attestation.Android.Authorizations.{
  AuthorizationList, empty_list, malformed, apply_element, decode_body,
}
use attestation.Android.Authorizations.Fields.{Field, put, put_comm}
use attestation.Android.Authorizations.Reading.{
  read_element, read_element-kind, apply_element-read_element,
}
use attestation.Android.Authorizations.Items.{
  Element, IsElement, elements_octets, apply_elements, decode_body-elements,
}

-- Two elements are not both of the context-specific class with one tag number, as the code reads it.
abbrev pub Apart : Element → Element → Type 0
Apart a b =
    ((header_of a.form).class ≢ 2)
    ⊎ ((header_of b.form).class ≢ 2)
    ⊎ ((header_of a.form).tag_number ≢ (header_of b.form).tag_number)

abbrev pub AllApart : List Element → Type 0
AllApart [] = Unit {0}
AllApart (e ∷ es) = All (Apart e) es × AllApart es

Apart-comm : (a b : Element) → Apart a b → Apart b a
Apart-comm a b (inl n) = inr (inl n)
Apart-comm a b (inr (inl n)) = inl n
Apart-comm a b (inr (inr n)) = inr (inr (λ e. n (sym e)))

All-Perm : {A : Type 0} (P : A → Type 0) {xs ys : List A} → Permᴰ xs ys → All P xs → All P ys
All-Perm P Permᴰ.nil h = h
All-Perm P (Permᴰ.cons e p) (h, hs) = (subst P e h, All-Perm P p hs)
All-Perm P (Permᴰ.swap e f) (h, (k, hs)) = (subst P f k, (subst P e h, hs))
All-Perm P (Permᴰ.trans p q) h = All-Perm P q (All-Perm P p h)

AllApart-Perm : {xs ys : List Element} → Permᴰ xs ys → AllApart xs → AllApart ys
AllApart-Perm Permᴰ.nil h = h
AllApart-Perm (Permᴰ.cons {a} {b} {l₁ = xs} {l₂ = ys} e p) (h, hs) =
    (subst (λ x. All (Apart x) ys) e (All-Perm (Apart a) p h), AllApart-Perm p hs)
AllApart-Perm (Permᴰ.swap {a} {b} {a'} {b'} {l} e f) ((n, h), (k, hs)) = (
  (
    subst (λ x. Apart x b') f (subst (Apart b) e (Apart-comm a b n)),
    subst (λ x. All (Apart x) l) f k,
  ),
  (subst (λ x. All (Apart x) l) e h, hs),
)
AllApart-Perm (Permᴰ.trans p q) h = AllApart-Perm q (AllApart-Perm p h)

module _ (d : Der) where
  -- What an element tells: nothing that can be read, or a field.
  abbrev reading : Element → Option Field
  reading e = read_element d (header_of e.form) e.contents

  apply_reading :
      (out : AuthorizationList) (e : Element) (r : Option Field)
      → reading e ≡ r
      → apply_element d out (header_of e.form) e.contents ≡ (do f ← r; some (put out f))
  apply_reading out e r h =
      apply_element-read_element d out (header_of e.form) e.contents
      ∙ ap (λ r. do f ← r; some (put out f)) h

  put-Apart :
      (out : AuthorizationList) (a b : Element) (f g : Field)
      → Apart a b
      → reading a ≡ some f
      → reading b ≡ some g
      → put (put out f) g ≡ put (put out g) f
  put-Apart out a b f g n ra rb = elim (read_element-kind d (header_of a.form) a.contents f ra) [
    | inl is ↦ put_comm out f g (inl is)
    | inr (ca, ka) ↦ elim (read_element-kind d (header_of b.form) b.contents g rb) [
      | inl is ↦ sym (put_comm out g f (inl is))
      | inr (cb, kb) ↦ elim n [
        | inl m ↦ absurd (m ca)
        | inr (inl m) ↦ absurd (m cb)
        | inr (inr m) ↦ put_comm out f g (inr (λ e. m (sym ka ∙ e ∙ kb)))
      ]
    ]
  ]

  -- Two elements that are apart may be applied in either order.
  apply_elements_swap :
      (out : AuthorizationList) (a b : Element) (es : List Element)
      → Apart a b
      → apply_elements d out (a ∷ b ∷ es) ≡ apply_elements d out (b ∷ a ∷ es)
  apply_elements_swap out a b es n = elim (Option-cases (reading a)) [
    | inl ra ↦ elim (Option-cases (reading b)) [
      | inl rb ↦ rw (apply_reading out a none ra, apply_reading out b none rb) refl
      | inr (g, rb) ↦
          rw
            (
              apply_reading out a none ra,
              apply_reading out b (some g) rb,
              apply_reading (put out g) a none ra,
            )
            refl
    ]
    | inr (f, ra) ↦ elim (Option-cases (reading b)) [
      | inl rb ↦
          rw
            (
              apply_reading out a (some f) ra,
              apply_reading out b none rb,
              apply_reading (put out f) b none rb,
            )
            refl
      | inr (g, rb) ↦
          rw
            (
              apply_reading out a (some f) ra,
              apply_reading out b (some g) rb,
              apply_reading (put out f) b (some g) rb,
              apply_reading (put out g) a (some f) ra,
            )
            (ap (λ o. apply_elements d o es) (put-Apart out a b f g n ra rb))
    ]
  ]

  apply_elements-Perm :
      {es fs : List Element} (out : AuthorizationList)
      → Permᴰ es fs
      → AllApart es
      → apply_elements d out es ≡ apply_elements d out fs
  apply_elements-Perm out Permᴰ.nil h = refl
  apply_elements-Perm out (Permᴰ.cons {a} {b} {l₁ = xs} {l₂ = ys} e p) (n, h) =
      subst (λ x. apply_elements d out (a ∷ xs) ≡ apply_elements d out (x ∷ ys)) e
        (elim (Option-cases (apply_element d out (header_of a.form) a.contents)) [
          | inl gone ↦ rw gone refl
          | inr (o, took) ↦ rw took (apply_elements-Perm o p h)
        ])
  apply_elements-Perm out (Permᴰ.swap {a} {b} {a'} {b'} {l} e f) ((n, h), (k, hs)) =
      apply_elements_swap out a b l n
      ∙ ap (λ x. apply_elements d out (x ∷ a ∷ l)) f
      ∙ ap (λ x. apply_elements d out (a' ∷ x ∷ l)) e
  apply_elements-Perm out (Permᴰ.trans p q) h =
      apply_elements-Perm out p h ∙ apply_elements-Perm out q (AllApart-Perm p h)

  -- Bodies that hold the same well-formed elements in any two orders decode alike, whether to a list or to
  -- a failure, where no two of the elements are context-specific with one tag number.
  pub decode_body-Perm :
      (es fs : List Element)
      → All IsElement es
      → AllApart es
      → Permᴰ es fs
      → decode_body d (elements_octets es) ≡ decode_body d (elements_octets fs)
  decode_body-Perm es fs are apart p =
      decode_body-elements d es are
      ∙ ap (λ o. ok_or o malformed) (apply_elements-Perm empty_list p apart)
      ∙ sym (decode_body-elements d fs (All-Perm IsElement p are))
