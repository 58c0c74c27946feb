-- ===== src/Move/Framework.antt =====
-- What the Move packages use of Sui and of the package `kagi`, and how Move aborts.
use attestation.Common.{
  ℕ, ◌+◌, ◌^◌, Bool, Option, none, some, List, if◌then◌else◌, ltb, get_elem?, Bytes, Result, ok,
  err,
}

-- An abort: with the code of an `assert!`, by an overflow, or by an index that is out of range.
pub data Abort : Type 0 where
  code : ℕ → Abort
  arithmetic out_of_range : Abort

-- `+` of two `u64`s
unfoldable pub add_u64 : ℕ → ℕ → Result Abort ℕ
add_u64 a b = if ltb (a + b) (2 ^ 64) then ok (a + b) else err arithmetic

-- `vector::borrow`
unfoldable pub borrow : Bytes → ℕ → Result Abort ℕ
borrow bytes i = elim (get_elem? bytes i) [ none ↦ err out_of_range | some b ↦ ok b ]

pub record PcrEntry : Type 0 where
  pub index : ℕ
  pub value : Bytes

-- A loaded document of `sui::nitro_attestation`, whose signature the loading has verified.
pub record Document : Type 0 where
  pub user_data : Option Bytes
  pub timestamp : ℕ
  pub public_key : Option Bytes
  pub pcrs : List PcrEntry

-- `kagi::enclave_policy::EnclavePolicy`
pub record Policy : Type 0 where
  pub pcr0 : Bytes
  pub pcr1 : Bytes
  pub pcr2 : Bytes

-- `hash::sha2_256`, `bcs::to_bytes` of a vector of octets as a field, of an `ID` and of a `u64`, and the
-- native signature checks, on signature, key and message.
pub record Sui : Type 0 where
  pub sha2_256 : Bytes → Bytes
  pub bcs_field : Bytes → Bytes
  pub bcs_id : ℕ → Bytes
  pub bcs_u64 : ℕ → Bytes
  pub ed25519_verify : Bytes → Bytes → Bytes → Bool
  pub secp256k1_verify : Bytes → Bytes → Bytes → Bool
  pub secp256r1_verify : Bytes → Bytes → Bytes → Bool
