-- ===== src/Move/Schemes.antt =====
-- The packages move/device_binding_ed25519, move/device_binding_secp256k1 and
-- move/device_binding_secp256r1: `verify` and `compress`, which the last two have alike.

pub mod Compress
pub mod Checked
pub mod Actions
pub mod Spki
use attestation.Common.{
  ℕ, suc, zero, ◌+◌, ◌%◌, not, List, [], ◌∷◌, ◌++◌, Bytes, Result, ok, reject_if, ◌>>=◌, ◌>>◌,
}
use attestation.Move.Framework.{Abort, code, borrow, Sui}
use attestation.Move.DeviceBinding.{ed25519, secp256k1, secp256r1, Verified, verified}

abbrev pub bad_signature : Abort
bad_signature = code 0

-- The `while` of `compress`, in the round for `i`, with `rounds` of them left.
unfoldable pub copy_loop : (rounds i : ℕ) → (uncompressed out : Bytes) → Result Abort Bytes
unfolding borrow
copy_loop zero i uncompressed out = ok out
copy_loop (suc rounds) i uncompressed out = do
  b ← borrow uncompressed i
  copy_loop rounds (i + 1) uncompressed (out ++ (b ∷ []))

-- The loop runs while `i` is at most 32.
unfoldable pub compress : Bytes → Result Abort Bytes
unfolding borrow copy_loop
compress uncompressed = do
  last ← borrow uncompressed 64
  copy_loop 32 1 uncompressed ((2 + last % 2) ∷ [])

unfoldable pub verify_ed25519 :
    Sui → (pk message signature : Bytes) → Result Abort (Verified ed25519)
verify_ed25519 sui pk message signature = do
  reject_if (not (Sui.ed25519_verify sui signature pk message)) bad_signature
  ok (verified ed25519 pk message)

unfoldable pub verify_secp256k1 :
    Sui → (pk message signature : Bytes) → Result Abort (Verified secp256k1)
unfolding compress
verify_secp256k1 sui pk message signature = do
  key ← compress pk
  reject_if (not (Sui.secp256k1_verify sui signature key message)) bad_signature
  ok (verified secp256k1 pk message)

unfoldable pub verify_secp256r1 :
    Sui → (pk message signature : Bytes) → Result Abort (Verified secp256r1)
unfolding compress
verify_secp256r1 sui pk message signature = do
  key ← compress pk
  reject_if (not (Sui.secp256r1_verify sui signature key message)) bad_signature
  ok (verified secp256r1 pk message)
