-- ===== src/Android/Authorizations/Total.antt =====
-- The walk ends on every body, and what it accepts is a list of elements that tile the body.
use attestation.Common.{
  ℕ, zero, suc, ◌+◌, ◌≤◌, ◌<◌, ◌≡◌, ◌≢◌, refl, sym, ap, ◌∙◌, Option, none, some, List, [], ◌∷◌,
  ◌++◌, arith, ltb, length, drop, drop-append, drop-drop, drop-all, All, Bytes, IsByte, ok, err,
  if◌then◌else◌, length-take, Option-cases, length-drop, take-append-drop, Bool-cases, inl, inr,
}
use attestation.Common.Maybe.{◌>>=◌, >>=-eq-some}
use attestation.Android.Der.{Der}
use attestation.Android.Tlv.{TlvHeader, parse_tlv_header}
use attestation.Android.Tlv.Forms.{header_of, octets, len_value}
use attestation.Android.Tlv.Sound.{HeaderRead, parse_tlv_header-HeaderRead, parse_tlv_header_bounds}
use attestation.Android.Authorizations.{
  AuthorizationList, empty_list, out_of_fuel, slice, apply_element, step, walk, decode_body,
}
use attestation.Android.Authorizations.Items.{
  Element, IsElement, elements_octets, apply_elements, walk-end, walk-step,
}

-- The element that one round has read.
record StepRead (d : Der) (body : Bytes) (at end : ℕ) (out out' : AuthorizationList) : Type 0 where
  element : Element
  is_element : IsElement element
  splits : drop at body ≡ octets element.form ++ (element.contents ++ drop end body)
  applied : apply_element d out (header_of element.form) element.contents ≡ some out'
  goes_on : at + 2 ≤ end
  within : end ≤ length body

behind-eq :
    (body behind : Bytes) (at : ℕ) (head : Bytes)
    → drop at body ≡ head ++ behind
    → drop (at + length head) body ≡ behind
behind-eq body behind at head e =
    sym (drop-drop at (length head) body)
    ∙ ap (drop (length head)) e
    ∙ drop-append (length head) head behind refl

module _ (d : Der) where
  StepRead-parts :
      (body : Bytes) (at : ℕ) (out out' : AuthorizationList) (h : TlvHeader)
      → HeaderRead (drop at body) h
      → 2 ≤ h.header_len
      → at + h.header_len + h.body_len ≤ length body
      → apply_element d out h (slice body (at + h.header_len) h.body_len) ≡ some out'
      → StepRead d body at (at + h.header_len + h.body_len) out out'
  StepRead-parts body at out out' h p two fits taken =
      let n : h.header_len ≡ length (octets p.form) =
        ap (λ (r : TlvHeader). r.header_len) p.fields in
      let m : h.body_len ≡ len_value p.form.len = ap (λ (r : TlvHeader). r.body_len) p.fields in
      let b : drop (at + h.header_len) body ≡ p.behind =
        rw n (behind-eq body p.behind at (octets p.form) p.splits) in
      record {
        element = record { form = p.form; contents = slice body (at + h.header_len) h.body_len };
        is_element = record {
          is_header = p.is_header;
          len_is = omega (
            arith,
            m,
            length-take h.body_len (drop (at + h.header_len) body),
            length-drop (at + h.header_len) body,
          );
        };
        splits =
            p.splits
            ∙ ap (λ r. octets p.form ++ r)
                (sym b
                  ∙ sym (take-append-drop h.body_len (drop (at + h.header_len) body))
                  ∙ ap (λ r. slice body (at + h.header_len) h.body_len ++ r)
                      (drop-drop (at + h.header_len) h.body_len body));
        applied =
            sym
              (ap (λ r. apply_element d out r (slice body (at + h.header_len) h.body_len)) p.fields)
            ∙ taken;
        goes_on = omega arith;
        within = fits;
      }

  step-StepRead :
      (body : Bytes) (at : ℕ) (out : AuthorizationList) (r : AuthorizationList × ℕ)
      → All IsByte body
      → step d body at out ≡ some r
      → StepRead d body at r.1 out r.0
  unfolding step
  step-StepRead body at out r hb e =
      let (h, e1, e2) = >>=-eq-some (parse_tlv_header body at) _ e in
      finish h e1 (apply_element d out h (slice body (at + h.header_len) h.body_len)) refl e2
    where
      finish :
          (h : TlvHeader)
          → parse_tlv_header body at ≡ some h
          → (o : Option AuthorizationList)
          → apply_element d out h (slice body (at + h.header_len) h.body_len) ≡ o
          → (if ltb (length body) (at + h.header_len + h.body_len)
              then none
              else (o >>= λ out'. some (out', at + h.header_len + h.body_len)))
            ≡ some r
          → StepRead d body at r.1 out r.0
      finish h e1 none taken e2 = absurd (ground arith)
      finish h e1 (some out') taken e2 =
          let r_is : r ≡ (out', at + h.header_len + h.body_len) = ground arith in
          rw r_is (
            StepRead-parts body at out out' h (parse_tlv_header-HeaderRead body at h hb e1)
              (parse_tlv_header_bounds body at h hb e1).0 (ground arith) taken)

  -- What a list of elements that tile the body from `at` on amounts to.
  pub record Tiles (body : Bytes) (at : ℕ) (out result : AuthorizationList) : Type 0 where
    pub elements : List Element
    pub are_elements : All IsElement elements
    pub splits : drop at body ≡ elements_octets elements
    pub applied : apply_elements d out elements ≡ some result

  walk-ne-out_of_fuel :
      (fuel : ℕ) (body : Bytes) (at : ℕ) (out : AuthorizationList)
      → All IsByte body
      → at ≤ length body
      → length body < at + fuel
      → walk d fuel body at out ≢ err out_of_fuel
  walk-ne-out_of_fuel zero body at out h le f = absurd (omega arith)
  walk-ne-out_of_fuel (suc fuel) body at out h le f = elim (Bool-cases (ltb at (length body))) [
    | inl more ↦
        rw (walk-step d fuel body at out (ground arith)) (elim (Option-cases (step d body at out)) [
          | inl refused ↦ rw refused (λ q. cc)
          | inr (r, took) ↦
              let s = step-StepRead body at out r h took in
              rw took (walk-ne-out_of_fuel fuel body r.1 r.0 h s.within (omega (arith, s.goes_on)))
        ])
    | inr done ↦ rw (walk-end d fuel body at out (ground arith)) (λ q. cc)
  ]

  Tiles-cons :
      {body : Bytes} {at end : ℕ} {out mid result : AuthorizationList}
      → StepRead d body at end out mid
      → Tiles body end mid result
      → Tiles body at out result
  Tiles-cons s t = record {
    elements = s.element ∷ t.elements;
    are_elements = (s.is_element, t.are_elements);
    splits = s.splits ∙ ap (λ r. octets s.element.form ++ (s.element.contents ++ r)) t.splits;
    applied = rw s.applied t.applied;
  }

  walk-Tiles :
      (fuel : ℕ) (body : Bytes) (at : ℕ) (out result : AuthorizationList)
      → All IsByte body
      → walk d fuel body at out ≡ ok result
      → Tiles body at out result
  walk-Tiles zero body at out result h e = unfold walk in cc
  walk-Tiles (suc fuel) body at out result h e = elim (Bool-cases (ltb at (length body))) [
    | inl more ↦
        let e' = sym (walk-step d fuel body at out (ground arith)) ∙ e in
        elim (Option-cases (step d body at out)) [
          | inl refused ↦ cc (rw refused at e')
          | inr (r, took) ↦
              Tiles-cons (step-StepRead body at out r h took)
                (walk-Tiles fuel body r.1 r.0 result h (rw took at e'))
        ]
    | inr done ↦ record {
      elements = [];
      are_elements = tt;
      splits = drop-all at body (ground arith);
      applied = ground (arith, walk-end d fuel body at out (ground arith));
    }
  ]

  -- The walk ends on every string of bytes: the fuel of `decode_body` is never used up.
  pub decode_body-ne-out_of_fuel :
      (body : Bytes) → All IsByte body → decode_body d body ≢ err out_of_fuel
  unfolding decode_body
  decode_body-ne-out_of_fuel body h =
      walk-ne-out_of_fuel (suc (length body)) body 0 empty_list h (omega arith) (omega arith)

  -- Whatever list the walk returns, the body is the octets of well-formed elements, one after the
  -- other with nothing between or behind them, and the list is what these elements amount to in order.
  pub decode_body-Tiles :
      (body : Bytes) (result : AuthorizationList)
      → All IsByte body
      → decode_body d body ≡ ok result
      → Tiles body 0 empty_list result
  unfolding decode_body
  decode_body-Tiles body result h = walk-Tiles (suc (length body)) body 0 empty_list result h
