-- ===== src/Android/Authorizations/Root.antt =====
-- What `decode_root_of_trust` reads of an encoded root of trust.
use attestation.Common.{
  ◌≤◌, ◌≡◌, inl, inr, refl, ap, ◌∙◌, arith, Option, none, some, [], ◌++◌, length, Bytes,
  if◌then◌else◌, Bool-cases,
}
use attestation.Common.Maybe.{◌>>=◌}
use attestation.Common.Int.{ℤ, pos}
use attestation.Android.Der.{Der, sequence_tag, enumerated_tag}
use attestation.Android.Der.Laws.{
  DerLaws, boolean_tag, octet_string_tag, boolean_octets, max_length,
}
use attestation.Android.Errors.{VerifiedBootState, verified, self_signed, unverified, failed}
use attestation.Android.Integers.Encoded.{Stands, decode_enumerated-octets}
use attestation.Android.Authorizations.{RootOfTrust, boot_state_from_i32, decode_root_of_trust}

abbrev pub state_number : VerifiedBootState → ℤ
state_number verified = pos 0
state_number self_signed = pos 1
state_number unverified = pos 2
state_number failed = pos 3

boot_state_from_i32-state_number :
    (s : VerifiedBootState) → boot_state_from_i32 (state_number s) ≡ some s
unfolding boot_state_from_i32
boot_state_from_i32-state_number verified = refl
boot_state_from_i32-state_number self_signed = refl
boot_state_from_i32-state_number unverified = refl
boot_state_from_i32-state_number failed = refl

module _ (d : Der) (l : DerLaws d) where
  open d use {Reader, new, header, read_slice, octet_string, boolean, is_finished}
  open l use {rest, octets}

  -- The octets behind the boot state: none, or an OCTET STRING with the hash.
  abbrev pub HoldsHash : Option Bytes → Bytes → Type 0
  HoldsHash none tail = tail ≡ []
  HoldsHash (some hash) tail = (more : Bytes) × (tail ≡ octets octet_string_tag hash ++ more)

  -- The encoding of a root of trust.
  pub record HoldsRoot (contents : Bytes) (rot : RootOfTrust) : Type 0 where
    pub body : Bytes
    pub more : Bytes
    pub state : Bytes
    pub tail : Bytes
    pub outer : contents ≡ octets sequence_tag body ++ more
    pub short : length body ≤ max_length
    pub inner :
        body
        ≡ octets octet_string_tag rot.verified_boot_key
          ++ (octets boolean_tag (boolean_octets rot.device_locked)
              ++ (octets enumerated_tag state ++ tail))
    pub stands : Stands 4 state (state_number rot.verified_boot_state)
    pub hash : HoldsHash rot.verified_boot_hash tail

  abbrev read_hash : Reader → Option (Option Bytes)
  read_hash br = if is_finished br then some none else (do (v, _) ← octet_string br; some (some v))

  read_hash-HoldsHash :
      (br : Reader) (hash : Option Bytes) (tail : Bytes)
      → rest br ≡ tail
      → HoldsHash hash tail
      → read_hash br ≡ some hash
  read_hash-HoldsHash br none tail e h = let done = (l.finished_iff br).1 (e ∙ h) in rw done
  read_hash-HoldsHash br (some hash) tail e (more, h) =
      let (s, reads, left) = l.octet_string_reads br hash more (e ∙ h) in
      elim (Bool-cases (is_finished br)) [
        | inl done ↦ absurd (
            omega (
              arith,
              l.octet_string_forward br s hash reads,
              ap length ((l.finished_iff br).0 done),
            ))
        | inr open_ ↦ rw (open_, reads)
      ]

  pub decode_root_of_trust-HoldsRoot :
      (r : Reader) (rot : RootOfTrust)
      → HoldsRoot (rest r) rot
      → decode_root_of_trust d r ≡ some rot
  unfolding decode_root_of_trust
  decode_root_of_trust-HoldsRoot r rot w =
      let (r1, e1, l1) = l.header_reads r sequence_tag w.body w.more (inl refl) w.outer in
      let (r2, e2, l2) = l.slice_reads r1 w.body w.more l1 in
      let (b0, e3, l3) = l.new_reads w.body w.short in
      let (b1, e4, l4) = l.octet_string_reads b0 rot.verified_boot_key _ (l3 ∙ w.inner) in
      let (b2, e5, l5) = l.boolean_reads b1 rot.device_locked _ l4 in
      let (b3, e6, l6) = decode_enumerated-octets d l b2 w.state w.tail _ w.stands l5 in
      let e7 = boot_state_from_i32-state_number rot.verified_boot_state in
      let e8 = read_hash-HoldsHash b3 rot.verified_boot_hash w.tail l6 w.hash in
      rw (e1, e2, e3, e4, e5, e6, e7, e8)
