-- ===== src/Move/DeviceBinding/Authorized.antt =====
-- Which actions a binding authorizes.
use attestation.Common.{
  ℕ, ◌^◌, ◌<◌, ◌≤◌, ◌≡◌, ◌↔◌, ◌∙◌, sym, ap, refl, arith, true, leb, ◌&&◌, Bool, ◌++◌, length, Bytes,
  bytes_eq, bytes_eq_iff,
}
use attestation.Move.Framework.{Sui}
use attestation.Move.Witness.{Source}
use attestation.Move.DeviceBinding.{
  Scheme, DeviceBinding, Verified, canonical_message, verify_action,
}
use attestation.Move.DeviceBinding.Message.{
  MessageLaws, canonical_message-injective, canonical_message-overlap,
}

-- The receipt is of the binding's key for the message of the action, and the action has not expired.
pub record Authorizes {source : Source} {scheme : Scheme} (sui : Sui)
    (binding : DeviceBinding source scheme) (receipt : Verified scheme) (domain action_hash : Bytes)
    (expiry_ms now : ℕ) : Type 0 where
  pub unexpired : now ≤ expiry_ms
  pub key : receipt.pk ≡ binding.pk
  pub message : receipt.message ≡ canonical_message sui binding.id domain action_hash expiry_ms

both : (a b : Bool) → ((a && b) ≡ true) ↔ ((a ≡ true) × (b ≡ true))
both a b = ground arith

module _ {source : Source} {scheme : Scheme} (sui : Sui) where
  -- `verify_action` is true exactly where the receipt authorizes the action.
  pub verify_action_iff :
      (binding : DeviceBinding source scheme) (receipt : Verified scheme)
      (domain action_hash : Bytes) (expiry_ms now : ℕ)
      → (verify_action sui binding receipt domain action_hash expiry_ms now ≡ true)
        ↔ Authorizes sui binding receipt domain action_hash expiry_ms now
  unfolding verify_action
  verify_action_iff binding receipt domain action_hash expiry_ms now = (
    (λ h.
        let signed =
          bytes_eq receipt.message
            (canonical_message sui binding.id domain action_hash expiry_ms) in
        let (first, message) =
          (both (leb now expiry_ms && bytes_eq receipt.pk binding.pk) signed).0 h in
        let (time, key) = (both (leb now expiry_ms) (bytes_eq receipt.pk binding.pk)).0 first in
        record {
          unexpired = ground (arith, time);
          key = (bytes_eq_iff _ _).0 key;
          message = (bytes_eq_iff _ _).0 message;
        }),
    (λ a.
        let unexpired : leb now expiry_ms ≡ true = ground (arith, a.unexpired) in
        let key = (bytes_eq_iff receipt.pk binding.pk).1 a.key in
        let message = (bytes_eq_iff receipt.message _).1 a.message in
        rw (unexpired, key, message) refl),
  )

module _ {source : Source} {scheme : Scheme} (sui : Sui) where
  -- A receipt authorizes one action only, for identities and expiries in range and action hashes of one
  -- length: for which binding, domain and hash, and until when.
  pub verify_action_once :
      (l : MessageLaws sui) {source' : Source} (binding : DeviceBinding source scheme)
      (binding' : DeviceBinding source' scheme) (receipt : Verified scheme)
      (domain domain' action_hash action_hash' : Bytes) (expiry_ms expiry_ms' now now' : ℕ)
      → binding.id < 2 ^ 256
      → binding'.id < 2 ^ 256
      → expiry_ms < 2 ^ 64
      → expiry_ms' < 2 ^ 64
      → length action_hash ≡ length action_hash'
      → verify_action sui binding receipt domain action_hash expiry_ms now ≡ true
      → verify_action sui binding' receipt domain' action_hash' expiry_ms' now' ≡ true
      → (binding.id ≡ binding'.id)
        × (binding.pk ≡ binding'.pk)
        × (domain ≡ domain')
        × (action_hash ≡ action_hash')
        × (expiry_ms ≡ expiry_ms')
  verify_action_once l binding binding' receipt domain domain' hash hash' expiry expiry' now now' i
        i' x x' size h h' =
      let a = (verify_action_iff sui binding receipt domain hash expiry now).0 h in
      let a' = (verify_action_iff sui binding' receipt domain' hash' expiry' now').0 h' in
      let (id, d, action, e) =
        canonical_message-injective sui l binding.id binding'.id domain domain' hash hash' expiry
          expiry' size i i' x x' (sym a.message ∙ a'.message) in
      (id, sym a.key ∙ a'.key, d, action, e)

  -- A receipt for an action whose hash holds the binding's identity serves as well for the action whose
  -- domain reaches behind it and whose hash is the rest, and the other way round.
  pub verify_action_overlap :
      (binding : DeviceBinding source scheme) (receipt : Verified scheme) (domain x y : Bytes)
      (expiry_ms now : ℕ)
      → verify_action sui binding receipt domain
          (x ++ (Sui.bcs_id sui binding.id ++ y))
          expiry_ms
          now
        ≡ verify_action sui binding receipt
            (domain ++ (Sui.bcs_id sui binding.id ++ x))
            y
            expiry_ms
            now
  unfolding verify_action
  verify_action_overlap binding receipt domain x y expiry now =
      ap
        (λ message.
          leb now expiry && bytes_eq receipt.pk binding.pk && bytes_eq receipt.message message)
        (canonical_message-overlap sui binding.id domain x y expiry)
