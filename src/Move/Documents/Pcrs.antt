-- ===== src/Move/Documents/Pcrs.antt =====
-- When `assert_pcrs_match` passes.
use attestation.Common.{
  ◌≤◌, ◌≡◌, ◌↔◌, ◌∙◌, sym, refl, arith, not, ◌&&◌, Bool, true, false, List, [], ◌∷◌, Bytes,
  bytes_eq, inl, inr, Result, reject_if, ◌>>◌,
}
use attestation.X509.Checks.Laws.{Passes, seq-Passes}
use attestation.X509.Checks.Equal.{equal_octets_iff}
use attestation.Move.Framework.{Abort, PcrEntry, Document, Policy}
use attestation.Move.Documents.{wrong_pcr, pcr_loop, assert_pcrs_match}
use attestation.Move.Documents.Measured.{
  FromImage, Found-nil, missed, index_cases, Sees, Sees-first, Sees-second, Sees-third, Sees-other,
}

all_found :
    (a b c : Bool)
    → Passes (reject_if (not (a && b && c)) wrong_pcr) ↔ ((a ≡ true) × (b ≡ true) × (c ≡ true))
all_found a b c = ground arith

module _ (policy : Policy) where
  pcr_loop-first :
      (e : PcrEntry) (es : List PcrEntry) (f0 f1 f2 : Bool)
      → e.index ≡ 0
      → pcr_loop policy (e ∷ es) f0 f1 f2 ≡ (
          reject_if (not (bytes_eq e.value policy.pcr0)) wrong_pcr >> pcr_loop policy es true f1 f2)
  unfolding pcr_loop
  pcr_loop-first e es f0 f1 f2 h = rw h refl

  pcr_loop-second :
      (e : PcrEntry) (es : List PcrEntry) (f0 f1 f2 : Bool)
      → e.index ≡ 1
      → pcr_loop policy (e ∷ es) f0 f1 f2 ≡ (
          reject_if (not (bytes_eq e.value policy.pcr1)) wrong_pcr >> pcr_loop policy es f0 true f2)
  unfolding pcr_loop
  pcr_loop-second e es f0 f1 f2 h = rw h refl

  pcr_loop-third :
      (e : PcrEntry) (es : List PcrEntry) (f0 f1 f2 : Bool)
      → e.index ≡ 2
      → pcr_loop policy (e ∷ es) f0 f1 f2 ≡ (
          reject_if (not (bytes_eq e.value policy.pcr2)) wrong_pcr >> pcr_loop policy es f0 f1 true)
  unfolding pcr_loop
  pcr_loop-third e es f0 f1 f2 h = rw h refl

  pcr_loop-other :
      (e : PcrEntry) (es : List PcrEntry) (f0 f1 f2 : Bool)
      → 3 ≤ e.index
      → pcr_loop policy (e ∷ es) f0 f1 f2 ≡ pcr_loop policy es f0 f1 f2
  unfolding pcr_loop
  pcr_loop-other e es f0 f1 f2 h = ground arith

  -- The loop goes on exactly where the value is the expected one.
  expected_iff :
      (a b : Bytes) (rest loop : Result Abort (Unit {0})) {R S : Type 0}
      → loop ≡ (reject_if (not (bytes_eq a b)) wrong_pcr >> rest)
      → Passes rest ↔ R
      → ((a ≡ b) × R) ↔ S
      → Passes loop ↔ S
  expected_iff a b rest loop is_step induction sees = (
    (λ h.
        let (expected, passed) = (seq-Passes _ _).0 (sym is_step ∙ h) in
        sees.0 ((equal_octets_iff a b wrong_pcr).0 expected, induction.0 passed)),
    (λ s.
        let (value, r) = sees.1 s in
        is_step ∙ (seq-Passes _ _).1 ((equal_octets_iff a b wrong_pcr).1 value, induction.1 r)),
  )

  pcr_loop_iff :
      (es : List PcrEntry) (f0 f1 f2 : Bool)
      → Passes (pcr_loop policy es f0 f1 f2) ↔ Sees policy es f0 f1 f2
  unfolding pcr_loop
  pcr_loop_iff [] f0 f1 f2 = (
    (λ h.
        let (a, b, c) = (all_found f0 f1 f2).0 h in
        record { agree = tt; first = inl a; second = inl b; third = inl c }),
    (λ s.
        (all_found f0 f1 f2).1
          (Found-nil f0 0 s.first, Found-nil f1 1 s.second, Found-nil f2 2 s.third)),
  )
  pcr_loop_iff (e ∷ es) f0 f1 f2 = elim (index_cases e.index) [
    | inl same ↦
        expected_iff e.value policy.pcr0 _ _ (pcr_loop-first e es f0 f1 f2 same)
          (pcr_loop_iff es true f1 f2) (Sees-first policy e es f0 f1 f2 same)
    | inr (inl same) ↦
        expected_iff e.value policy.pcr1 _ _ (pcr_loop-second e es f0 f1 f2 same)
          (pcr_loop_iff es f0 true f2) (Sees-second policy e es f0 f1 f2 same)
    | inr (inr (inl same)) ↦
        expected_iff e.value policy.pcr2 _ _ (pcr_loop-third e es f0 f1 f2 same)
          (pcr_loop_iff es f0 f1 true) (Sees-third policy e es f0 f1 f2 same)
    | inr (inr (inr beyond)) ↦
        let (sees, seen) = Sees-other policy e es f0 f1 f2 beyond in
        let (passes, pass) = pcr_loop_iff es f0 f1 f2 in
        let is_step = pcr_loop-other e es f0 f1 f2 beyond in
        ((λ h. sees (passes (sym is_step ∙ h))), (λ s. is_step ∙ pass (seen s)))
  ]

  -- `assert_pcrs_match` passes exactly where the document's entries are the image's.
  pub assert_pcrs_match_iff :
      (doc : Document) → Passes (assert_pcrs_match policy doc) ↔ FromImage policy doc.pcrs
  assert_pcrs_match_iff doc =
      let (passes, pass) = pcr_loop_iff doc.pcrs false false false in
      (
        (λ h.
            let s = passes h in
            record {
              agree = s.agree;
              first = missed 0 doc.pcrs s.first;
              second = missed 1 doc.pcrs s.second;
              third = missed 2 doc.pcrs s.third;
            }),
        (λ i. pass (record {
          agree = i.agree;
          first = inr i.first;
          second = inr i.second;
          third = inr i.third;
        })),
      )
