-- ===== src/Android/Verify/Listed.antt =====
-- From the text of a status list to the refusal of a chain.
use attestation.Common.{
  ◌≡◌, ◌≢◌, ◌≤◌, ℕ, inl, inr, sym, arith, ◌∙◌, some, List, [], ◌∷◌, ◌++◌, All, Any, Bytes, ok,
  replicate, ok-eq-ok,
}
use attestation.Common.Text.{trim, trim_bom}
use attestation.Core.{Outcome}
use attestation.X509.{X509, Crypto}
use attestation.Android.Der.{Der}
use attestation.Android.Revocation.{StatusEntry, StatusList, lookup_serial, from_json}
use attestation.Android.Revocation.Printed.{Record, IsRecord, document}
use attestation.Android.Revocation.Serials.{says, lookup_serial-says}
use attestation.Android.Verify.{Policy, verify_attestation}
use attestation.Android.Verify.Serial.{canonical, check_status-revoked}
use attestation.Android.Verify.Sound.{verify_attestation-IsAttested}
use attestation.Android.Verify.Revoked.{NotFound, NotFound-check_status}

module _ (x : X509) (unicode_lower : Bytes → Bytes) (rs : List Record) where
  -- A certificate whose serial number the records list in canonical hexadecimal, where the first octet of
  -- the number that is not 0 is at least 16.
  pub record IsListed (bytes : Bytes) : Type 0 where
    pub cert : X509.Certificate x
    pub parses : X509.from_der x bytes ≡ some cert
    pub zeros : ℕ
    pub first : ℕ
    pub others : Bytes
    pub first_size : 16 ≤ first
    pub serial : X509.serial_number x cert ≡ replicate zeros 0 ++ (first ∷ others)
    pub entry : StatusEntry
    pub listed : says unicode_lower (canonical first others) rs ≡ some entry

  IsListed-NotFound :
      (bytes : Bytes) (l : StatusList)
      → ((serial : Bytes) → lookup_serial l serial ≡ says unicode_lower serial rs)
      → IsListed bytes
      → NotFound x l bytes
      → ⊥
  IsListed-NotFound bytes l same w n =
      let revoked =
        check_status-revoked x l bytes w.cert w.parses w.zeros w.first w.others
          (λ e. omega (arith, w.first_size, e)) w.serial w.entry w.first_size
          (same (canonical w.first w.others) ∙ w.listed) in
      let passes = NotFound-check_status x l bytes n in cc (revoked, passes)

  Any-NotFound :
      (chain : List Bytes) (l : StatusList)
      → ((serial : Bytes) → lookup_serial l serial ≡ says unicode_lower serial rs)
      → Any IsListed chain
      → All (NotFound x l) chain
      → ⊥
  Any-NotFound [] l same h n = absurd h
  Any-NotFound (bytes ∷ chain) l same h (n, ns) = elim h [
    | inl w ↦ IsListed-NotFound bytes l same w n
    | inr later ↦ Any-NotFound chain l same later ns
  ]

  -- Under a policy with the status list that is read from the document of the records, no chain with a listed
  -- certificate has an outcome, whatever the roots, the challenge and the clock.
  pub verify_attestation-IsListed :
      (c : Crypto) (d : Der) (pinned chain : List Bytes) (challenge : Bytes) (policy : Policy)
      (now : ℕ) (json : Bytes) (l : StatusList)
      → All IsRecord rs
      → trim (trim_bom json) ≡ document rs
      → from_json unicode_lower json ≡ ok l
      → policy.status_list ≡ some l
      → Any IsListed chain
      → (o : Outcome) → verify_attestation x c d pinned chain challenge policy now ≢ ok o
  verify_attestation-IsListed c d pinned chain challenge policy now json l rs_are text reads list
        listed o verifies =
      let (l', reads', same) = lookup_serial-says unicode_lower json rs rs_are text in
      let same_list : l' ≡ l = ok-eq-ok (sym reads' ∙ reads) in
      let a = verify_attestation-IsAttested x c d pinned chain challenge policy now o verifies in
      let fresh = a.unfound in Any-NotFound chain l (rw same_list at same) listed (rw list at fresh)
