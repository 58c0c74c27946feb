-- ===== src/Move/Schemes/Checked.antt =====
-- When the schemes' verifiers return a receipt.
use attestation.Common.{
  ◌≡◌, ◌↔◌, sym, refl, true, false, not, Bytes, ok, reject_if, >>=-eq-ok, ok-eq-ok, Bool,
}
use attestation.X509.Checks.Laws.{Passes, then-Passes}
use attestation.Move.Framework.{Sui}
use attestation.Move.DeviceBinding.{Verified, verified, ed25519, secp256k1, secp256r1}
use attestation.Move.Schemes.{
  bad_signature, compress, verify_ed25519, verify_secp256k1, verify_secp256r1,
}

holds_iff : (b : Bool) → Passes (reject_if (not b) bad_signature) ↔ (b ≡ true)
holds_iff true = ((λ _. refl), (λ _. refl))
holds_iff false = ((λ h. cc), (λ h. cc))

module _ (sui : Sui) (pk message signature : Bytes) where
  -- A receipt of Ed25519 is given exactly where the native check holds, and names the key and the message.
  pub verify_ed25519_iff :
      (r : Verified ed25519)
      → (verify_ed25519 sui pk message signature ≡ ok r)
        ↔ ((Sui.ed25519_verify sui signature pk message ≡ true) × (r ≡ verified ed25519 pk message))
  unfolding verify_ed25519
  verify_ed25519_iff r = (
    (λ h.
        let (passes, made) =
          then-Passes (reject_if (not (Sui.ed25519_verify sui signature pk message)) bad_signature)
            _ h in
        ((holds_iff _).0 passes, sym (ok-eq-ok made))),
    (λ (holds, made). rw (holds, made) refl),
  )

  -- A receipt of the curves is given exactly where the native check holds for the compressed key.
  pub verify_secp256k1_iff :
      (r : Verified secp256k1)
      → (verify_secp256k1 sui pk message signature ≡ ok r) ↔ (
          (key : Bytes) × (compress pk ≡ ok key)
          × (Sui.secp256k1_verify sui signature key message ≡ true)
          × (r ≡ verified secp256k1 pk message))
  unfolding verify_secp256k1
  verify_secp256k1_iff r = (
    (λ h.
        let (key, compresses, h1) = >>=-eq-ok (compress pk) _ h in
        let (passes, made) =
          then-Passes
            (reject_if (not (Sui.secp256k1_verify sui signature key message)) bad_signature) _ h1 in
        (key, compresses, (holds_iff _).0 passes, sym (ok-eq-ok made))),
    (λ (key, compresses, holds, made). rw (compresses, holds, made) refl),
  )

  pub verify_secp256r1_iff :
      (r : Verified secp256r1)
      → (verify_secp256r1 sui pk message signature ≡ ok r) ↔ (
          (key : Bytes) × (compress pk ≡ ok key)
          × (Sui.secp256r1_verify sui signature key message ≡ true)
          × (r ≡ verified secp256r1 pk message))
  unfolding verify_secp256r1
  verify_secp256r1_iff r = (
    (λ h.
        let (key, compresses, h1) = >>=-eq-ok (compress pk) _ h in
        let (passes, made) =
          then-Passes
            (reject_if (not (Sui.secp256r1_verify sui signature key message)) bad_signature) _ h1 in
        (key, compresses, (holds_iff _).0 passes, sym (ok-eq-ok made))),
    (λ (key, compresses, holds, made). rw (compresses, holds, made) refl),
  )
