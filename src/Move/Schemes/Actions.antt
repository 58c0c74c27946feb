-- ===== src/Move/Schemes/Actions.antt =====
-- When a signature authorizes an action: the scheme's `verify` and then `verify_action`.
use attestation.Common.{ℕ, ◌≤◌, ◌≡◌, ◌↔◌, ◌∙◌, sym, ap, refl, true, Bytes, Result, ok}
use attestation.Move.Framework.{Abort, Sui}
use attestation.Move.Witness.{Source}
use attestation.Move.DeviceBinding.{
  Scheme, ed25519, secp256k1, secp256r1, DeviceBinding, Verified, verified, action_message,
  canonical_message, verify_action,
}
use attestation.Move.DeviceBinding.Authorized.{verify_action_iff}
use attestation.Move.Schemes.{compress, verify_ed25519, verify_secp256k1, verify_secp256r1}
use attestation.Move.Schemes.Checked.{
  verify_ed25519_iff, verify_secp256k1_iff, verify_secp256r1_iff,
}

-- The schemes whose packages are modelled.
pub data Packaged : Scheme → Type 0 where
  by_ed25519 : Packaged ed25519
  by_secp256k1 : Packaged secp256k1
  by_secp256r1 : Packaged secp256r1

-- `verify` of the package of each scheme
abbrev pub verify_of :
    {scheme : Scheme}
    → Packaged scheme
    → Sui
    → (pk message signature : Bytes) → Result Abort (Verified scheme)
verify_of by_ed25519 = verify_ed25519
verify_of by_secp256k1 = verify_secp256k1
verify_of by_secp256r1 = verify_secp256r1

-- Sui's native check holds: for the key itself, or for the compressed key.
abbrev pub Signs :
    {scheme : Scheme} → Packaged scheme → Sui → (pk message signature : Bytes) → Type 0
Signs by_ed25519 sui pk message signature = Sui.ed25519_verify sui signature pk message ≡ true
Signs by_secp256k1 sui pk message signature =
    (key : Bytes) × (compress pk ≡ ok key) × (Sui.secp256k1_verify sui signature key message ≡ true)
Signs by_secp256r1 sui pk message signature =
    (key : Bytes) × (compress pk ≡ ok key) × (Sui.secp256r1_verify sui signature key message ≡ true)

verify_of_iff :
    {scheme : Scheme} (own : Packaged scheme) (sui : Sui) (pk message signature : Bytes)
    (r : Verified scheme)
    → (verify_of own sui pk message signature ≡ ok r)
      ↔ (Signs own sui pk message signature × (r ≡ verified scheme pk message))
verify_of_iff by_ed25519 sui pk message signature r = verify_ed25519_iff sui pk message signature r
verify_of_iff by_secp256k1 sui pk message signature r =
    let (checked, returns) = verify_secp256k1_iff sui pk message signature r in
    (
      (λ h. let (key, compresses, holds, made) = checked h in ((key, compresses, holds), made)),
      (λ ((key, compresses, holds), made). returns (key, compresses, holds, made)),
    )
verify_of_iff by_secp256r1 sui pk message signature r =
    let (checked, returns) = verify_secp256r1_iff sui pk message signature r in
    (
      (λ h. let (key, compresses, holds, made) = checked h in ((key, compresses, holds), made)),
      (λ ((key, compresses, holds), made). returns (key, compresses, holds, made)),
    )

-- Some receipt that the scheme's package gives for the signature passes `verify_action`.
abbrev pub PassesAction :
    {source : Source} {scheme : Scheme}
    → Packaged scheme
    → Sui
    → DeviceBinding source scheme
    → (domain action_hash : Bytes) (expiry_ms now : ℕ) (signature : Bytes) → Type 0
PassesAction {source} {scheme} own sui binding domain action_hash expiry_ms now signature =
    (pk : Bytes) × (message : Bytes) × (receipt : Verified scheme) × (verify_of own sui pk message
        signature
      ≡ ok receipt)
    × (verify_action sui binding receipt domain action_hash expiry_ms now ≡ true)

-- Through the package of the binding's scheme, one of the three, a signature authorizes an action exactly
-- where the action has not expired and the native check holds for the binding's key and the message of the action.
pub verify_action-verify :
    {source : Source} {scheme : Scheme} (own : Packaged scheme) (sui : Sui)
    (binding : DeviceBinding source scheme) (domain action_hash : Bytes) (expiry_ms now : ℕ)
    (signature : Bytes)
    → PassesAction own sui binding domain action_hash expiry_ms now signature ↔ (
        (now ≤ expiry_ms)
        × Signs own sui binding.pk
            (action_message sui binding domain action_hash expiry_ms)
            signature)
unfolding action_message
verify_action-verify {scheme = scheme} own sui binding domain action_hash expiry_ms now signature =
    (
      (λ (pk, message, receipt, verifies, acts).
          let (signs, made) = (verify_of_iff own sui pk message signature receipt).0 verifies in
          let a = (verify_action_iff sui binding receipt domain action_hash expiry_ms now).0 acts in
          let key : pk ≡ binding.pk = sym (ap (λ (r : Verified scheme). r.pk) made) ∙ a.key in
          let text = sym (ap (λ (r : Verified scheme). r.message) made) ∙ a.message in
          (a.unexpired, rw (key, text) at signs)),
      (λ (unexpired, signs).
          let message = canonical_message sui binding.id domain action_hash expiry_ms in
          let receipt = verified scheme binding.pk message in
          (
            binding.pk,
            message,
            receipt,
            (verify_of_iff own sui binding.pk message signature receipt).1 (signs, refl),
            (verify_action_iff sui binding receipt domain action_hash expiry_ms now).1
                (record { unexpired = unexpired; key = refl; message = refl }),
          )),
    )
