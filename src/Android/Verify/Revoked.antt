-- ===== src/Android/Verify/Revoked.antt =====
-- When `check_status` finds no certificate of a chain in the status list.

use attestation.Common.{
  ◌≡◌, inl, inr, refl, Option, none, some, List, All, Bytes, ok_or, >>=-eq-ok, ok_or-eq-ok,
  Option-cases, All-map,
}
use attestation.X509.{X509}
use attestation.X509.Checks.Laws.{Passes, check_all_iff}
use attestation.Android.Revocation.{StatusList, lookup_serial}
use attestation.Android.Verify.{serial_hex, check_status, check_statuses}

module _ (x : X509) where
  open x use {Certificate}

  -- The encoding is that of a certificate, and the list has no entry for its serial number as the code
  -- writes it.
  abbrev pub NotFound : StatusList → Bytes → Type 0
  NotFound list bytes =
      (cert : Certificate) × (X509.from_der x bytes ≡ some cert)
      × (lookup_serial list (serial_hex (X509.serial_number x cert)) ≡ none)

  abbrev pub NoneFound : Option StatusList → List Bytes → Type 0
  NoneFound none chain = Unit {0}
  NoneFound (some list) chain = All (NotFound list) chain

  check_status-NotFound :
      (list : StatusList) (bytes : Bytes) → Passes (check_status x list bytes) → NotFound list bytes
  unfolding check_status
  check_status-NotFound list bytes h =
      let (cert, e1, h1) = >>=-eq-ok (ok_or (X509.from_der x bytes) _) _ h in
      (
        cert,
        ok_or-eq-ok _ _ e1,
        elim (Option-cases (lookup_serial list (serial_hex (X509.serial_number x cert)))) [
          | inl gone ↦ gone
          | inr (entry, found) ↦ cc (rw found at h1)
        ],
      )

  pub check_statuses-NoneFound :
      (list : Option StatusList) (chain : List Bytes)
      → Passes (check_statuses x list chain)
      → NoneFound list chain
  check_statuses-NoneFound none chain h = tt
  check_statuses-NoneFound (some list) chain h =
      All-map (check_status-NotFound list) chain ((check_all_iff (check_status x list) chain).0 h)

  pub NotFound-check_status :
      (list : StatusList) (bytes : Bytes) → NotFound list bytes → Passes (check_status x list bytes)
  unfolding check_status
  NotFound-check_status list bytes (cert, parses, gone) = rw (parses, gone)

  pub NoneFound-check_statuses :
      (list : Option StatusList) (chain : List Bytes)
      → NoneFound list chain
      → Passes (check_statuses x list chain)
  NoneFound-check_statuses none chain h = refl
  NoneFound-check_statuses (some list) chain h =
      (check_all_iff (check_status x list) chain).1 (All-map (NotFound-check_status list) chain h)
