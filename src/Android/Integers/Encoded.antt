-- ===== src/Android/Integers/Encoded.antt =====
-- The integers that `decode_i32`, `decode_u64` and `decode_enumerated` read of their encodings.
use attestation.Common.{
  inr, ℕ, ◌≤◌, ◌≡◌, refl, arith, ltb, false, some, ◌++◌, length, All, IsByte, Bytes,
}
use attestation.Common.Int.{ℤ, pos}
use attestation.Android.Der.{Der, enumerated_tag}
use attestation.Android.Der.Laws.{DerLaws, IsMinimal, integer_tag}
use attestation.Android.Integers.{decode_i32, decode_u64, decode_enumerated}
use attestation.Android.Integers.Values.{twos_complement, i32_of-twos_complement, u64_of-as_u64}

-- The octets stand for the integer, in at most `width` of them.
pub record Stands (width : ℕ) (contents : Bytes) (n : ℤ) : Type 0 where
  pub are_octets : All IsByte contents
  pub size : length contents ≤ width
  pub value : twos_complement contents ≡ n

module _ (d : Der) (l : DerLaws d) where
  open d use {Reader}
  open l use {rest, octets}

  pub decode_i32-octets :
      (r : Reader) (contents more : Bytes) (n : ℤ)
      → Stands 4 contents n
      → IsMinimal contents
      → rest r ≡ octets integer_tag contents ++ more
      → (s : Reader) × (decode_i32 d r ≡ some (n, s)) × (rest s ≡ more)
  unfolding decode_i32
  decode_i32-octets r contents more n w m e =
      let (s, reads, left) = l.int_reads r contents more m e in
      (s, rw (reads, i32_of-twos_complement contents w.are_octets w.size, w.value) refl, left)

  pub decode_u64-octets :
      (r : Reader) (contents more : Bytes) (n : ℕ)
      → Stands 8 contents (pos n)
      → IsMinimal contents
      → rest r ≡ octets integer_tag contents ++ more
      → (s : Reader) × (decode_u64 d r ≡ some (n, s)) × (rest s ≡ more)
  unfolding decode_u64
  decode_u64-octets r contents more n w m e =
      let (s, reads, left) = l.int_reads r contents more m e in
      let fits : ltb 8 (length contents) ≡ false = ground (arith, w.size) in
      (s, rw (reads, u64_of-as_u64 contents w.are_octets, w.value, fits) refl, left)

  pub decode_enumerated-octets :
      (r : Reader) (contents more : Bytes) (n : ℤ)
      → Stands 4 contents n
      → rest r ≡ octets enumerated_tag contents ++ more
      → (s : Reader) × (decode_enumerated d r ≡ some (n, s)) × (rest s ≡ more)
  unfolding decode_enumerated
  decode_enumerated-octets r contents more n w e =
      let (s, reads, left) = l.header_reads r enumerated_tag contents more (inr (inr refl)) e in
      let (s', slices, left') = l.slice_reads s contents more left in
      (
        s',
        rw (reads, slices, i32_of-twos_complement contents w.are_octets w.size, w.value) refl,
        left',
      )
