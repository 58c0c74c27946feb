-- ===== src/Android/Application/Encoded.antt =====
-- What `attestation_application_id` reads of an encoded application id.
use attestation.Common.{
  ℕ, zero, suc, ◌≤◌, ◌<◌, ◌≡◌, inl, inr, refl, sym, ap, ◌∙◌, arith, Bool-cases, List, [], ◌∷◌, ◌++◌,
  append_assoc, append-nil, length, Bytes, Result, ok,
}
use attestation.Android.Der.{Der, sequence_tag, set_tag}
use attestation.Android.Der.Laws.{DerLaws, IsMinimal, integer_tag, octet_string_tag, max_length}
use attestation.Android.Errors.{Error, der}
use attestation.Android.Integers.Values.{decode_i64_from_int-twos_complement}
use attestation.Android.Integers.Encoded.{Stands}
use attestation.Android.Application.{
  PackageInfo, AttestationApplicationId, read_package, read_digest, read_all, read_set,
  attestation_application_id,
}
use attestation.Android.Application.Steps.{
  MovesForward, read_all-end, read_all-step, read_package-MovesForward, read_digest-MovesForward,
}

module _ (d : Der) (l : DerLaws d) where
  open d use {Reader, is_finished}
  open l use {rest, octets}

  -- A round reads the item off its encoding.
  abbrev Reads : {A : Type 0} → (Reader → Result Error (A × Reader)) → (Bytes → A → Type 0) → Type 0
  Reads {A} read Encodes =
      (r : Reader) (item more : Bytes) (a : A)
      → Encodes item a
      → rest r ≡ item ++ more
      → (s : Reader) × (read r ≡ ok (a, s)) × (rest s ≡ more)

  -- The octets are the encodings of the items, one after the other.
  pub data Row {A : Type 0} (Encodes : Bytes → A → Type 0) : Bytes → List A → Type 0 where
    none_left : Row Encodes [] []
    one_more :
        (item : Bytes) (a : A) (more : Bytes) (items : List A)
        → Encodes item a
        → Row Encodes more items
        → Row Encodes (item ++ more) (a ∷ items)

  read_all-Row :
      {A : Type 0} (read : Reader → Result Error (A × Reader)) (Encodes : Bytes → A → Type 0)
      (fuel : ℕ) (r : Reader) (out : List A) (body : Bytes) (items : List A)
      → Reads read Encodes
      → MovesForward d l read
      → Row Encodes body items
      → rest r ≡ body
      → length body < fuel
      → read_all d read fuel r out ≡ ok (out ++ items)
  read_all-Row read Encodes zero r out body items w m row e f = absurd (omega arith)
  read_all-Row read Encodes (suc fuel) r out body items w m none_left e f =
      read_all-end d l read fuel r out ((l.finished_iff r).1 e) ∙ ap ok (sym (append-nil out))
  read_all-Row read Encodes (suc fuel) r out body items w m (one_more item a more items' enc row) e
        f =
      let (s, reads, left) = w r item more a enc e in
      elim (Bool-cases (is_finished r)) [
        | inl done ↦ absurd (omega (arith, m r s a reads, ap length ((l.finished_iff r).0 done)))
        | inr open_ ↦
            read_all-step d l read fuel r out open_
            ∙ rw reads (
                rw
                  (read_all-Row read Encodes fuel s (out ++ (a ∷ [])) more items' w m row left
                    (omega (arith, m r s a reads, ap length e, ap length left)))
                  (rw append_assoc))
      ]

  -- A package is a SEQUENCE of its name and its version, with anything behind them.
  pub record HoldsPackage (item : Bytes) (p : PackageInfo) : Type 0 where
    pub body : Bytes
    pub number : Bytes
    pub tail : Bytes
    pub outer : item ≡ octets sequence_tag body
    pub short : length body ≤ max_length
    pub inner : body ≡ octets octet_string_tag p.package_name ++ (octets integer_tag number ++ tail)
    pub version_is : Stands 8 number p.version
    pub minimal : IsMinimal number

  abbrev pub HoldsDigest : Bytes → Bytes → Type 0
  HoldsDigest item digest = item ≡ octets octet_string_tag digest

  read_package-HoldsPackage : Reads (read_package d) HoldsPackage
  unfolding read_package
  read_package-HoldsPackage r item more p w e =
      let (r1, e1, l1) = l.header_reads r sequence_tag w.body more (inl refl) (rw w.outer at e) in
      let (r2, e2, l2) = l.slice_reads r1 w.body more l1 in
      let (b0, e3, l3) = l.new_reads w.body w.short in
      let (b1, e4, l4) = l.octet_string_reads b0 p.package_name _ (l3 ∙ w.inner) in
      let (b2, e5, l5) = l.int_reads b1 w.number w.tail w.minimal l4 in
      let e6 =
        decode_i64_from_int-twos_complement w.number w.version_is.are_octets w.version_is.size in
      (r2, rw (e1, e2, e3, e4, e5, e6, w.version_is.value) refl, l2)

  read_digest-HoldsDigest : Reads (read_digest d) HoldsDigest
  unfolding read_digest
  read_digest-HoldsDigest r item more p w e =
      let (s, reads, left) = l.octet_string_reads r p more (rw w at e) in (s, rw reads refl, left)

  -- A SET of items, whole.
  pub record HoldsSet {A : Type 0} (Encodes : Bytes → A → Type 0) (item : Bytes) (items : List A)
      : Type 0 where
    pub body : Bytes
    pub outer : item ≡ octets set_tag body
    pub short : length body ≤ max_length
    pub row : Row Encodes body items

  read_set-HoldsSet :
      {A : Type 0} (read : Reader → Result Error (A × Reader)) (Encodes : Bytes → A → Type 0)
      (unexpected : Error) (r : Reader) (item more : Bytes) (items : List A)
      → Reads read Encodes
      → MovesForward d l read
      → HoldsSet Encodes item items
      → rest r ≡ item ++ more
      → (s : Reader) × (read_set d read unexpected r ≡ ok (items, s)) × (rest s ≡ more)
  unfolding read_set
  read_set-HoldsSet read Encodes unexpected r item more items reads m w e =
      let (r1, e1, l1) = l.header_reads r set_tag w.body more (inr (inl refl)) (rw w.outer at e) in
      let (r2, e2, l2) = l.slice_reads r1 w.body more l1 in
      let (b0, e3, l3) = l.new_reads w.body w.short in
      let e4 =
        read_all-Row read Encodes (suc (length w.body)) b0 [] w.body items reads m w.row l3
          (omega arith) in
      (r2, rw (e1, e2, e3, e4) refl, l2)

  -- The octets encode the application id: a SEQUENCE of a SET of packages and a SET of digests.
  pub record HoldsApplication (bytes : Bytes) (id : AttestationApplicationId) : Type 0 where
    pub body : Bytes
    pub more : Bytes
    pub packages : Bytes
    pub digests : Bytes
    pub tail : Bytes
    pub outer : bytes ≡ octets sequence_tag body ++ more
    pub short : length bytes ≤ max_length
    pub body_short : length body ≤ max_length
    pub inner : body ≡ packages ++ (digests ++ tail)
    pub packages_are : HoldsSet HoldsPackage packages id.package_infos
    pub digests_are : HoldsSet HoldsDigest digests id.signature_digests

  -- On the octets of an application id, with anything behind them, `attestation_application_id` returns that
  -- id, its packages and digests in their order, where the crate `der` reads what X.690 encodes and the octets
  -- are within its limit.
  pub attestation_application_id-HoldsApplication :
      (bytes : Bytes) (id : AttestationApplicationId)
      → HoldsApplication bytes id
      → attestation_application_id d bytes ≡ ok id
  unfolding attestation_application_id
  attestation_application_id-HoldsApplication bytes id w =
      let (r0, e0, l0) = l.new_reads bytes w.short in
      let (r1, e1, l1) = l.header_reads r0 sequence_tag w.body w.more (inl refl) (l0 ∙ w.outer) in
      let (r2, e2, l2) = l.slice_reads r1 w.body w.more l1 in
      let (b0, e3, l3) = l.new_reads w.body w.body_short in
      let (b1, e4, l4) =
        read_set-HoldsSet (read_package d) HoldsPackage (der "AAID packageInfos expected SET got")
          b0 w.packages _ id.package_infos read_package-HoldsPackage (read_package-MovesForward d l)
          w.packages_are (l3 ∙ w.inner) in
      let (b2, e5, l5) =
        read_set-HoldsSet (read_digest d) HoldsDigest (der "AAID signatureDigests expected SET got")
          b1 w.digests _ id.signature_digests read_digest-HoldsDigest (read_digest-MovesForward d l)
          w.digests_are l4 in
      rw (e0, e1, e2, e3, e4, e5) refl
