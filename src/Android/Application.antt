-- ===== src/Android/Application.antt =====
-- `AttestationApplicationId`, `PackageInfo` and `attestation_application_id` of key_description.rs.
pub mod Encoded
pub mod Steps
pub mod Total
use attestation.Common.{
  ℕ, zero, suc, Bool, true, false, not, Option, none, some, List, [], ◌∷◌, ◌++◌, ◌==◌, length,
  Bytes, Result, ok, err, ok_or, reject_if, map_err, ◌>>=◌, ◌>>◌,
}
use attestation.Common.Int.{ℤ}
use attestation.Android.Der.{Der, sequence_tag, set_tag}
use attestation.Android.Errors.{Error, der}
use attestation.Android.Integers.{decode_i64_from_int}

pub record PackageInfo : Type 0 where
  pub package_name : Bytes
  pub version : ℤ

pub record AttestationApplicationId : Type 0 where
  pub package_infos : List PackageInfo
  pub signature_digests : List Bytes

-- What stops the reading. `out_of_fuel` is no value of the code.
pub data Stop : Type 0 where
  fault : Error → Stop
  out_of_fuel : Stop

module _ (d : Der) where
  open d use {Reader, new, header, read_slice, int, octet_string, is_finished}

  -- One round of the loop over the packages.
  unfoldable pub read_package : Reader → Result Error (PackageInfo × Reader)
  read_package pr = do
    (h, pr) ← ok_or (header pr) (der "")
    reject_if (not (h.tag == sequence_tag)) (der "AAID PackageInfo expected SEQ got")
    (pbody, pr) ← ok_or (read_slice pr h.length) (der "")
    pbr ← ok_or (new pbody) (der "")
    (name, pbr) ← ok_or (octet_string pbr) (der "")
    (version_int, _) ← ok_or (int pbr) (der "")
    version ← decode_i64_from_int version_int
    ok (record { package_name = name; version = version }, pr)

  -- One round of the loop over the digests.
  unfoldable pub read_digest : Reader → Result Error (Bytes × Reader)
  read_digest sr = ok_or (octet_string sr) (der "")

  -- A `while` loop over a reader, which pushes what each round reads.
  unfoldable pub read_all :
      {A : Type 0}
      → (Reader → Result Error (A × Reader))
      → ℕ
      → Reader
      → List A
      → Result Stop (List A)
  read_all read zero r out = err out_of_fuel
  read_all read (suc fuel) r out = elim (is_finished r) [
    | true ↦ ok out
    | false ↦ map_err fault (read r) >>= (λ q. read_all read fuel q.1 (out ++ (q.0 ∷ [])))
  ]

  -- The body of a SET, read to its end. Each round reads an octet at least, so one round for each octet and one
  -- more are enough.
  unfoldable pub read_set :
      {A : Type 0}
      → (Reader → Result Error (A × Reader))
      → Error
      → Reader
      → Result Stop (List A × Reader)
  read_set read unexpected br = do
    (h, br) ← ok_or (header br) (fault (der ""))
    reject_if (not (h.tag == set_tag)) (fault unexpected)
    (body, br) ← ok_or (read_slice br h.length) (fault (der ""))
    r ← ok_or (new body) (fault (der ""))
    out ← read_all read (suc (length body)) r []
    ok (out, br)

  unfoldable pub attestation_application_id : Bytes → Result Stop AttestationApplicationId
  attestation_application_id bytes = do
    reader ← ok_or (new bytes) (fault (der "AAID outer"))
    (h, reader) ← ok_or (header reader) (fault (der ""))
    reject_if (not (h.tag == sequence_tag)) (fault (der "AAID expected SEQUENCE got"))
    (body, _) ← ok_or (read_slice reader h.length) (fault (der "AAID body"))
    br ← ok_or (new body) (fault (der "AAID body reader"))
    (package_infos, br) ← read_set read_package (der "AAID packageInfos expected SET got") br
    (signature_digests, _) ← read_set read_digest (der "AAID signatureDigests expected SET got") br
    ok (record { package_infos = package_infos; signature_digests = signature_digests })
