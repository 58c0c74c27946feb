-- ===== src/Move/Schemes/Spki.antt =====
-- What the P-256 package makes of a key that an Android witness carries: a SubjectPublicKeyInfo in DER.
use attestation.Common.{
  ℕ, ◌+◌, ◌%◌, ◌≡◌, ◌≢◌, ◌∙◌, sym, ap, arith, true, [], ◌∷◌, ◌++◌, list_laws, length, length-append,
  Bytes, ok, ok-eq-ok,
}
use attestation.Move.Framework.{Sui}
use attestation.Move.DeviceBinding.{Verified, secp256r1}
use attestation.Move.Schemes.{compress, verify_secp256r1}
use attestation.Move.Schemes.Compress.{compress-layout}
use attestation.Move.Schemes.Checked.{verify_secp256r1_iff}

-- RFC 5480 for P-256: what stands between the first octet and the point.
abbrev pub p256_info : Bytes
p256_info =
    0x59 ∷ 0x30 ∷ 0x13 ∷ 0x06 ∷ 0x07 ∷ 0x2a ∷ 0x86 ∷ 0x48 ∷ 0xce ∷ 0x3d ∷ 0x02 ∷ 0x01 ∷ 0x06 ∷ 0x08
    ∷ 0x2a ∷ 0x86 ∷ 0x48 ∷ 0xce ∷ 0x3d ∷ 0x03 ∷ 0x01 ∷ 0x07 ∷ 0x03 ∷ 0x42 ∷ 0x00 ∷ []

-- The coordinates of a point, taken apart where `compress` reads them in the encoding: the first seven
-- octets and the others of the first coordinate, and the octets around the sixth of the second.
pub record Point : Type 0 where
  pub lead : ℕ
  pub next : Bytes
  pub tail : Bytes
  pub front : Bytes
  pub sixth : ℕ
  pub back : Bytes
  pub final : ℕ
  pub next_size : length next ≡ 5
  pub tail_size : length tail ≡ 26
  pub front_size : length front ≡ 5
  pub back_size : length back ≡ 25

regroup :
    (a b c d e : Bytes) (s : ℕ)
    → (a ++ b) ++ ((c ++ (s ∷ d)) ++ e) ≡ a ++ ((b ++ c) ++ (s ∷ (d ++ e)))
regroup a b c d e s = simp list_laws

module _ (p : Point) where
  -- The uncompressed point, 65 octets.
  abbrev pub uncompressed : Bytes
  uncompressed =
      4 ∷ ((p.lead ∷ (p.next ++ p.tail)) ++ ((p.front ++ (p.sixth ∷ p.back)) ++ (p.final ∷ [])))

  -- Its SubjectPublicKeyInfo, 91 octets.
  abbrev pub spki : Bytes
  spki = 0x30 ∷ (p256_info ++ uncompressed)

  -- The key that is checked in its place: of the header's octets and the first six of the point.
  abbrev pub garbled : Bytes
  garbled = (2 + p.sixth % 2) ∷ (p256_info ++ (4 ∷ p.lead ∷ p.next))

  compress-uncompressed :
      compress uncompressed ≡ ok ((2 + p.final % 2) ∷ (p.lead ∷ (p.next ++ p.tail)))
  compress-uncompressed =
      compress-layout 4 (p.lead ∷ (p.next ++ p.tail)) (p.front ++ (p.sixth ∷ p.back)) p.final []
        (omega (arith, length-append p.next p.tail, p.next_size, p.tail_size))
        (omega (arith, length-append p.front (p.sixth ∷ p.back), p.front_size, p.back_size))

  compress-spki : compress spki ≡ ok garbled
  compress-spki =
      let shape : spki
          ≡ 0x30
            ∷ ((p256_info ++ (4 ∷ p.lead ∷ p.next))
                ++ ((p.tail ++ p.front) ++ (p.sixth ∷ (p.back ++ (p.final ∷ []))))) =
        ap (λ b. 0x30 ∷ (p256_info ++ (4 ∷ p.lead ∷ b)))
          (regroup p.next p.tail p.front p.back (p.final ∷ []) p.sixth) in
      ap compress shape
      ∙ compress-layout 0x30 (p256_info ++ (4 ∷ p.lead ∷ p.next)) (p.tail ++ p.front) p.sixth
          (p.back ++ (p.final ∷ [])) (omega (arith, p.next_size))
          (omega (arith, length-append p.tail p.front, p.tail_size, p.front_size))

  -- The P-256 package gives a receipt for the SubjectPublicKeyInfo of a point only where the native check
  -- holds for a key that is not the point's, unless the point's first coordinate begins with 0x59.
  pub verify_secp256r1-spki :
      (sui : Sui) (message signature : Bytes) (r : Verified secp256r1) (point_key : Bytes)
      → p.lead ≢ 0x59
      → compress uncompressed ≡ ok point_key
      → verify_secp256r1 sui spki message signature ≡ ok r
      → (Sui.secp256r1_verify sui signature garbled message ≡ true) × (garbled ≢ point_key)
  verify_secp256r1-spki sui message signature r point_key other compresses e =
      let (key, made, holds, shape) = (verify_secp256r1_iff sui spki message signature r).0 e in
      let same : key ≡ garbled = ok-eq-ok (sym made ∙ compress-spki) in
      let own = ok-eq-ok (sym compresses ∙ compress-uncompressed) in
      (rw same at holds, (λ equal. other (cc (equal, own))))
