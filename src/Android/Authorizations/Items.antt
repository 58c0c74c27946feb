-- ===== src/Android/Authorizations/Items.antt =====
-- The walk over the body of an AuthorizationList against its elements, one after the other.
use attestation.Common.{
  ℕ, zero, suc, ◌+◌, ◌≤◌, ◌<◌, ◌≡◌, inl, inr, refl, ap, ◌∙◌, true, false, Option, some, List, [],
  ◌∷◌, ◌++◌, append_assoc, arith, ltb, length, length-append, drop-append, take-append, drop-drop,
  All, Bytes, ok, ok_or, ◌>>=◌ as and_then, Option-cases,
}
use attestation.Common.Maybe.{◌>>=◌}
use attestation.Android.Der.{Der}
use attestation.Android.Tlv.Forms.{HeaderForm, IsHeader, header_of, octets, len_value}
use attestation.Android.Tlv.Read.{parse_tlv_header-octets}
use attestation.Android.Authorizations.{
  AuthorizationList, empty_list, malformed, slice, apply_element, step, walk, decode_body,
}

-- An element: its header and its contents.
pub record Element : Type 0 where
  pub form : HeaderForm
  pub contents : Bytes

pub record IsElement (e : Element) : Type 0 where
  pub is_header : IsHeader e.form
  pub len_is : len_value e.form.len ≡ length e.contents

abbrev pub elements_octets : List Element → Bytes
elements_octets [] = []
elements_octets (e ∷ es) = octets e.form ++ (e.contents ++ elements_octets es)

module _ (d : Der) where
  -- What the elements amount to, in their order: a later one replaces an earlier one.
  abbrev pub apply_elements : AuthorizationList → List Element → Option AuthorizationList
  apply_elements out [] = some out
  apply_elements out (e ∷ es) = do
    out' ← apply_element d out (header_of e.form) e.contents
    apply_elements out' es

  slice_contents :
      (before head contents rest : Bytes)
      → slice
          (before ++ (head ++ (contents ++ rest)))
          (length before + length head)
          (length contents)
        ≡ contents
  slice_contents before head contents rest =
      rw (← drop-drop (length before) (length head) (before ++ (head ++ (contents ++ rest)))) (
        rw (drop-append (length before) before (head ++ (contents ++ rest)) refl) (
          rw (drop-append (length head) head (contents ++ rest) refl)
            (take-append (length contents) contents rest refl)))

  step_element :
      (before : Bytes) (e : Element) (rest : Bytes) (out : AuthorizationList)
      → IsElement e
      → step d (before ++ (octets e.form ++ (e.contents ++ rest))) (length before) out ≡ (do
        out' ← apply_element d out (header_of e.form) e.contents
        some (out', length before + length (octets e.form) + length e.contents))
  unfolding step
  step_element before e rest out w =
      rw
        (
          parse_tlv_header-octets before e.form (e.contents ++ rest) w.is_header,
          w.len_is,
          slice_contents before (octets e.form) e.contents rest,
        )
        (rw fits refl)
    where
      fits :
          ltb
            (length (before ++ (octets e.form ++ (e.contents ++ rest))))
            (length before + length (octets e.form) + length e.contents)
          ≡ false
      fits = ground (
        arith,
        length-append before (octets e.form ++ (e.contents ++ rest)),
        length-append (octets e.form) (e.contents ++ rest),
        length-append e.contents rest,
      )

  pub walk-end :
      (fuel : ℕ) (body : Bytes) (at : ℕ) (out : AuthorizationList)
      → length body ≤ at
      → walk d (suc fuel) body at out ≡ ok out
  unfolding walk
  walk-end fuel body at out h = let e : ltb at (length body) ≡ false = ground arith in rw (e, walk)

  pub walk-step :
      (fuel : ℕ) (body : Bytes) (at : ℕ) (out : AuthorizationList)
      → at < length body
      → walk d (suc fuel) body at out
        ≡ and_then (ok_or (step d body at out) malformed) (λ r. walk d fuel body r.1 r.0)
  unfolding walk
  walk-step fuel body at out h = let e : ltb at (length body) ≡ true = ground arith in rw (e, walk)

  walk-elements :
      (es : List Element) (fuel : ℕ) (body before : Bytes) (at : ℕ) (out : AuthorizationList)
      → All IsElement es
      → length es < fuel
      → body ≡ before ++ elements_octets es
      → at ≡ length before
      → walk d fuel body at out ≡ ok_or (apply_elements out es) malformed
  walk-elements es zero body before at out h f e a = absurd (omega arith)
  walk-elements [] (suc fuel) body before at out h f e a =
      walk-end fuel body at out (omega (arith, ap length e, length-append before []))
  walk-elements (x ∷ es) (suc fuel) body before at out (hx, h) f e a =
      walk-step fuel body at out
        (omega (arith, ap length e, length-append before (elements_octets (x ∷ es))))
      ∙ rw (e, a, step_element before x (elements_octets es) out hx)
          (elim (Option-cases (apply_element d out (header_of x.form) x.contents)) [
            | inl refused ↦ rw refused
            | inr (out', taken) ↦
                rw taken (walk-elements es fuel _ next _ out' h (omega arith) next_is next_length)
          ])
    where
      next : Bytes
      next = before ++ (octets x.form ++ x.contents)

      next_is :
          before ++ (octets x.form ++ (x.contents ++ elements_octets es))
          ≡ next ++ elements_octets es
      next_is = simp append_assoc

      next_length : length before + length (octets x.form) + length x.contents ≡ length next
      next_length = omega (
        arith,
        length-append before (octets x.form ++ x.contents),
        length-append (octets x.form) x.contents,
      )

  length-elements_octets : (es : List Element) → length es ≤ length (elements_octets es)
  length-elements_octets [] = omega arith
  length-elements_octets (e ∷ es) = omega (
    arith,
    length-elements_octets es,
    length-append (octets e.form) (e.contents ++ elements_octets es),
    length-append e.contents (elements_octets es),
  )

  -- On the octets of a list of elements the walk does for each element, in order, what
  -- `apply_element` does with it, and is malformed exactly if that refuses one of them.
  pub decode_body-elements :
      (es : List Element)
      → All IsElement es
      → decode_body d (elements_octets es) ≡ ok_or (apply_elements empty_list es) malformed
  unfolding decode_body
  decode_body-elements es h =
      walk-elements es _ (elements_octets es) [] 0 empty_list h
        (omega (arith, length-elements_octets es)) refl refl
