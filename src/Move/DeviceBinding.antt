-- ===== src/Move/DeviceBinding.antt =====
-- move/device_binding/sources/device_binding.move. An `ID` is a number, and a function returns what it emits.
pub mod Message
pub mod Authorized
use attestation.Common.{
  ℕ, String, ◌≡◌, ◌&&◌, not, leb, Bool, ◌++◌, Bytes, bytes_eq, codes, Result, ok, reject_if, ◌>>=◌,
  ◌>>◌,
}
use attestation.Move.Framework.{Abort, code, Sui}
use attestation.Move.Witness.{Source, Witness}

-- The markers of the scheme packages; there may be others, told apart by a number.
pub data Scheme : Type 0 where
  ed25519 secp256k1 secp256r1 : Scheme
  other_scheme : ℕ → Scheme

abbrev pub key_mismatch : Abort
key_mismatch = code 0

abbrev pub message_prefix : Bytes
message_prefix = codes "device_binding::verify_action::v1"

pub record DeviceBinding (source : Source) (scheme : Scheme) : Type 0 where
  pub id : ℕ
  pub pk : Bytes
  pub issued_at_ms : ℕ

-- A binding and the account that owns it.
pub record Held : Type 0 where
  pub source : Source
  pub scheme : Scheme
  pub owner : ℕ
  pub binding : DeviceBinding source scheme

-- `DeviceBoundEvent`, with the types in place of their names, and `DeviceBindingDestroyedEvent`
pub data Event : Type 0 where
  device_bound : (binding_id : ℕ) (source : Source) (scheme : Scheme) → Event
  device_binding_destroyed : (binding_id : ℕ) → Event

-- The receipt of a scheme's verifier.
pub record Verified (scheme : Scheme) : Type 0 where
  pub pk : Bytes
  pub message : Bytes

-- `verified`, which only the scheme's package can call
abbrev pub verified : (scheme : Scheme) → (pk message : Bytes) → Verified scheme
verified scheme pk message = record { pk = pk; message = message }

-- `new`, with the identity that the transaction's context gives
unfoldable pub new :
    (source : Source) (scheme : Scheme)
    → Witness source
    → (pk : Bytes) (now id : ℕ) → Result Abort (DeviceBinding source scheme × Event)
new source scheme attestation pk now id = do
  reject_if (not (bytes_eq pk attestation.attested_value)) key_mismatch
  ok (record { id = id; pk = pk; issued_at_ms = now }, device_bound id source scheme)

unfoldable pub canonical_message :
    Sui → (binding_id : ℕ) (domain action_hash : Bytes) (expiry_ms : ℕ) → Bytes
canonical_message sui binding_id domain action_hash expiry_ms =
    (((message_prefix ++ domain) ++ Sui.bcs_id sui binding_id) ++ action_hash)
    ++ Sui.bcs_u64 sui expiry_ms

module _ {source : Source} {scheme : Scheme} where
  unfoldable pub action_message :
      Sui → DeviceBinding source scheme → (domain action_hash : Bytes) (expiry_ms : ℕ) → Bytes
  unfolding canonical_message
  action_message sui binding domain action_hash expiry_ms =
      canonical_message sui binding.id domain action_hash expiry_ms

  unfoldable pub verify_action :
      Sui
      → DeviceBinding source scheme
      → Verified scheme
      → (domain action_hash : Bytes) (expiry_ms now : ℕ) → Bool
  unfolding canonical_message
  verify_action sui binding receipt domain action_hash expiry_ms now =
      leb now expiry_ms
      && bytes_eq receipt.pk binding.pk
      && bytes_eq receipt.message (canonical_message sui binding.id domain action_hash expiry_ms)

  -- `transfer_to`
  abbrev pub transfer_to : DeviceBinding source scheme → (recipient : ℕ) → Held
  transfer_to binding recipient = record {
    source = source;
    scheme = scheme;
    owner = recipient;
    binding = binding;
  }

  -- `destroy`
  abbrev pub destroy : DeviceBinding source scheme → Event
  destroy binding = device_binding_destroyed binding.id
