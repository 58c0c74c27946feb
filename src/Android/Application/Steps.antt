-- ===== src/Android/Application/Steps.antt =====
-- The rounds of the loops of `attestation_application_id`: each moves its reader forward.
use attestation.Common.{
  ℕ, suc, ◌<◌, ◌≡◌, ap, arith, true, false, not, ◌==◌, List, [], ◌∷◌, ◌++◌, length, Result, ok, err,
  ok_or, map_err, ◌>>=◌, reject_if, >>=-eq-ok, ok_or-eq-ok,
}
use attestation.Android.Der.{Der, sequence_tag}
use attestation.Android.Der.Laws.{DerLaws}
use attestation.Android.Errors.{Error, der}
use attestation.Android.Integers.{decode_i64_from_int}
use attestation.Android.Application.{fault, read_package, read_digest, read_all}

module _ (d : Der) (l : DerLaws d) where
  open d use {Reader, is_finished}
  open l use {rest, octets}

  pub read_all-end :
      {A : Type 0} (read : Reader → Result Error (A × Reader)) (fuel : ℕ) (r : Reader)
      (out : List A)
      → is_finished r ≡ true
      → read_all d read (suc fuel) r out ≡ ok out
  unfolding read_all
  read_all-end read fuel r out h = rw (h, read_all)

  pub read_all-step :
      {A : Type 0} (read : Reader → Result Error (A × Reader)) (fuel : ℕ) (r : Reader)
      (out : List A)
      → is_finished r ≡ false
      → read_all d read (suc fuel) r out
        ≡ (map_err fault (read r) >>= (λ q. read_all d read fuel q.1 (out ++ (q.0 ∷ []))))
  unfolding read_all
  read_all-step read fuel r out h = rw (h, read_all)

  abbrev pub MovesForward : {A : Type 0} → (Reader → Result Error (A × Reader)) → Type 0
  MovesForward {A} read =
      (r s : Reader) (a : A) → read r ≡ ok (a, s) → length (rest s) < length (rest r)

  pub read_package-MovesForward : MovesForward (read_package d)
  unfolding read_package
  read_package-MovesForward r s a e =
      let (q, h, e1) = >>=-eq-ok (ok_or (d.header r) (der "")) _ e in
      let (_, h1, e2) =
        >>=-eq-ok
          (reject_if (not (q.0.tag == sequence_tag)) (der "AAID PackageInfo expected SEQ got")) _
          e1 in
      let (q1, h2, e3) = >>=-eq-ok (ok_or (d.read_slice q.1 q.0.length) (der "")) _ e2 in
      let (q2, h3, e4) = >>=-eq-ok (ok_or (d.new q1.0) (der "")) _ e3 in
      let (q3, h4, e5) = >>=-eq-ok (ok_or (d.octet_string q2) (der "")) _ e4 in
      let (q4, h5, e6) = >>=-eq-ok (ok_or (d.int q3.1) (der "")) _ e5 in
      let (n, h6, e7) = >>=-eq-ok (decode_i64_from_int q4.0) _ e6 in
      let same : q1.1 ≡ s = ap (λ x. elim x [ ok v ↦ v.1 | err c ↦ s ]) e7 in
      omega (
        arith,
        l.header_forward r q.1 q.0 (ok_or-eq-ok _ _ h),
        l.slice_forward q.1 q1.1 q.0.length q1.0 (ok_or-eq-ok _ _ h2),
        ap (λ t. length (rest t)) same,
      )

  pub read_digest-MovesForward : MovesForward (read_digest d)
  unfolding read_digest
  read_digest-MovesForward r s a e =
      l.octet_string_forward r s a (ok_or-eq-ok (d.octet_string r) (der "") e)
