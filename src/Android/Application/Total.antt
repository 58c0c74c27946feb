-- ===== src/Android/Application/Total.antt =====
-- The loops of `attestation_application_id` end: their fuel is never used up.
use attestation.Common.{
  ℕ, zero, suc, ◌<◌, ◌≡◌, ◌≢◌, inl, inr, refl, ap, arith, Bool, true, false, not, ◌==◌, Bool-cases,
  Option, none, some, List, [], ◌∷◌, ◌++◌, length, Bytes, Result, ok, err, ok_or, ◌>>=◌, ◌>>◌,
  reject_if, ok_or-eq-ok, Result-cases,
}
use attestation.Android.Der.{Der, sequence_tag, set_tag}
use attestation.Android.Der.Laws.{DerLaws}
use attestation.Android.Errors.{Error, der}
use attestation.Android.Application.{
  Stop, fault, out_of_fuel, read_package, read_digest, read_all, read_set,
  attestation_application_id,
}
use attestation.Android.Application.Steps.{
  MovesForward, read_all-end, read_all-step, read_package-MovesForward, read_digest-MovesForward,
}

-- A chain of steps ends early only with the fault of a step.
>>=-ne-out_of_fuel :
    {A B : Type 0} (r : Result Stop A) (next : A → Result Stop B)
    → r ≢ err out_of_fuel
    → ((a : A) → r ≡ ok a → next a ≢ err out_of_fuel)
    → (r >>= next) ≢ err out_of_fuel
>>=-ne-out_of_fuel (ok a) next h rest = rest a refl
>>=-ne-out_of_fuel (err e) next h rest =
    λ q. h (ap (λ x. elim x [ ok b ↦ err e | err c ↦ err c ]) q)

>>-ne-out_of_fuel :
    {A B : Type 0} (r : Result Stop A) (next : Result Stop B)
    → r ≢ err out_of_fuel
    → next ≢ err out_of_fuel
    → (r >> next) ≢ err out_of_fuel
>>-ne-out_of_fuel (ok a) next h rest = rest
>>-ne-out_of_fuel (err e) next h rest = λ q. h (ap (λ x. elim x [ ok b ↦ err e | err c ↦ err c ]) q)

ok_or-ne-out_of_fuel : {A : Type 0} (o : Option A) (e : Error) → ok_or o (fault e) ≢ err out_of_fuel
ok_or-ne-out_of_fuel none e = λ q. cc
ok_or-ne-out_of_fuel (some a) e = λ q. cc

reject_if-ne-out_of_fuel : (b : Bool) (e : Error) → reject_if b (fault e) ≢ err out_of_fuel
reject_if-ne-out_of_fuel true e = λ q. cc
reject_if-ne-out_of_fuel false e = λ q. cc

module _ (d : Der) (l : DerLaws d) where
  open d use {Reader, is_finished}
  open l use {rest, octets}

  read_all-ne-out_of_fuel :
      {A : Type 0} (read : Reader → Result Error (A × Reader)) (fuel : ℕ) (r : Reader)
      (out : List A)
      → MovesForward d l read
      → length (rest r) < fuel
      → read_all d read fuel r out ≢ err out_of_fuel
  read_all-ne-out_of_fuel read zero r out w f = absurd (omega arith)
  read_all-ne-out_of_fuel read (suc fuel) r out w f = elim (Bool-cases (is_finished r)) [
    | inl done ↦ rw (read_all-end d l read fuel r out done) (λ q. cc)
    | inr open_ ↦ rw (read_all-step d l read fuel r out open_) (elim (Result-cases (read r)) [
      | inl (q, took) ↦ rw took (
          read_all-ne-out_of_fuel read fuel q.1 (out ++ (q.0 ∷ [])) w
            (omega (arith, w r q.1 q.0 took)))
      | inr (e, refused) ↦ rw refused (λ q. cc)
    ])
  ]

  read_set-ne-out_of_fuel :
      {A : Type 0} (read : Reader → Result Error (A × Reader)) (unexpected : Error) (r : Reader)
      → MovesForward d l read
      → read_set d read unexpected r ≢ err out_of_fuel
  unfolding read_set
  read_set-ne-out_of_fuel read unexpected r m =
      >>=-ne-out_of_fuel _ _ (ok_or-ne-out_of_fuel (d.header r) (der "")) (λ q got.
        >>-ne-out_of_fuel _ _ (reject_if-ne-out_of_fuel (not (q.0.tag == set_tag)) unexpected) (
          >>=-ne-out_of_fuel _ _ (ok_or-ne-out_of_fuel (d.read_slice q.1 q.0.length) (der ""))
            (λ b got.
              >>=-ne-out_of_fuel _ _ (ok_or-ne-out_of_fuel (d.new b.0) (der "")) (λ r' opened.
                >>=-ne-out_of_fuel _ _
                  (read_all-ne-out_of_fuel read (suc (length b.0)) r' [] m (
                    omega (
                      arith,
                      ap length
                          (l.new_rest b.0 r' (ok_or-eq-ok (d.new b.0) (fault (der "")) opened)),
                    )))
                  (λ out got h. cc)))))

  -- `attestation_application_id` ends on every string of bytes, where every reading of the crate `der` moves
  -- its reader forward: the fuel of its loops is never used up.
  pub attestation_application_id-ne-out_of_fuel :
      (bytes : Bytes) → attestation_application_id d bytes ≢ err out_of_fuel
  unfolding attestation_application_id
  attestation_application_id-ne-out_of_fuel bytes =
      >>=-ne-out_of_fuel _ _ (ok_or-ne-out_of_fuel (d.new bytes) (der "AAID outer")) (λ r got.
        >>=-ne-out_of_fuel _ _ (ok_or-ne-out_of_fuel (d.header r) (der "")) (λ q got.
          >>-ne-out_of_fuel _ _
            (reject_if-ne-out_of_fuel (not (q.0.tag == sequence_tag))
              (der "AAID expected SEQUENCE got"))
            (>>=-ne-out_of_fuel _ _
              (ok_or-ne-out_of_fuel (d.read_slice q.1 q.0.length) (der "AAID body"))
              (λ b got.
                >>=-ne-out_of_fuel _ _ (ok_or-ne-out_of_fuel (d.new b.0) (der "AAID body reader"))
                  (λ br got.
                    >>=-ne-out_of_fuel _ _
                      (read_set-ne-out_of_fuel (read_package d) _ br
                        (read_package-MovesForward d l))
                      (λ ps got.
                        >>=-ne-out_of_fuel _ _
                          (read_set-ne-out_of_fuel (read_digest d) _ ps.1
                            (read_digest-MovesForward d l))
                          (λ ds got h. cc)))))))
