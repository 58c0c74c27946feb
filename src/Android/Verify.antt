-- ===== src/Android/Verify.antt =====
-- rust/attest-android/src/lib.rs.
pub mod Accepts
pub mod Listed
pub mod Revoked
pub mod Serial
pub mod ChainHash
pub mod Sound
use Prim.Native.Nat.{◌/◌, ◌%◌, ◌^◌}
use attestation.Common.{
  ℕ, ◌+◌, ◌==◌, ltb, length, Bool, true, false, not, ◌&&◌, ◌||◌, Option, none, some, List, [], ◌∷◌,
  ◌++◌, if◌then◌else◌, Bytes, bytes_eq, Result, ok, err, ok_or, reject_if, ◌>>=◌, ◌>>◌,
}
use attestation.Core.{Outcome, android_key_attest}
use attestation.X509.{Oid, X509, Crypto}
use attestation.X509.Checks.{find_extension, check_all}
use attestation.Android.Errors.{
  SecurityLevel, trusted_environment, VerifiedBootState, verified, self_signed, unverified, failed,
  Error, der, missing_attestation_extension, challenge_mismatch, insufficient_security_level,
  revoked, unacceptable_boot_state, device_unlocked,
}
use attestation.Android.Der.{Der}
use attestation.Android.Authorizations.{RootOfTrust}
use attestation.Android.Description.{KeyDescription, from_der, meets}
use attestation.Android.Revocation.{StatusEntry, StatusList, lookup_serial}
use attestation.Android.Chain.{validate_chain}

abbrev pub oid_android_key_attestation : Oid
oid_android_key_attestation = "1.3.6.1.4.1.11129.2.1.17"

pub record Policy : Type 0 where
  pub min_security_level : SecurityLevel
  pub require_verified_boot : Bool
  pub allowed_self_signed_keys : List Bytes
  pub require_device_locked : Bool
  pub status_list : Option StatusList

-- `Policy::default`
abbrev pub default_policy : Policy
default_policy = record {
  min_security_level = trusted_environment;
  require_verified_boot = true;
  allowed_self_signed_keys = [];
  require_device_locked = true;
  status_list = none;
}

-- `format!("{b:02x}")`
abbrev pub hex_digit : ℕ → ℕ
hex_digit d = if ltb d 10 then 48 + d else 87 + d

abbrev pub hex2 : ℕ → Bytes
hex2 b = hex_digit (b / 16) ∷ hex_digit (b % 16) ∷ []

-- The loop of `check_status` over the octets of the serial.
unfoldable pub push_serial : (leading : Bool) → Bytes → Bytes
push_serial leading [] = []
push_serial true (b ∷ bs) =
    let skipped = push_serial true bs in if b == 0 then skipped else hex2 b ++ push_serial false bs
push_serial false (b ∷ bs) = hex2 b ++ push_serial false bs

abbrev or_zero : Bytes → Bytes
or_zero [] = b'0' ∷ []
or_zero (c ∷ hex) = c ∷ hex

unfoldable pub serial_hex : Bytes → Bytes
serial_hex serial = or_zero (push_serial true serial)

-- `len as u32` and `to_be_bytes`
abbrev pub be_bytes4 : ℕ → Bytes
be_bytes4 n = n / 2 ^ 24 % 256 ∷ n / 2 ^ 16 % 256 ∷ n / 2 ^ 8 % 256 ∷ n % 256 ∷ []

unfoldable pub canonical_chain_hash_input : List Bytes → Bytes
canonical_chain_hash_input [] = []
canonical_chain_hash_input (c ∷ chain) =
    be_bytes4 (length c) ++ (c ++ canonical_chain_hash_input chain)

-- `keys.is_empty()`
abbrev pub no_keys : List Bytes → Bool
no_keys [] = true
no_keys (k ∷ keys) = false

-- `keys.iter().any(|k| k == key)`
unfoldable pub contains : Bytes → List Bytes → Bool
contains key [] = false
contains key (k ∷ keys) = bytes_eq k key || contains key keys

-- The `match` on the boot state.
unfoldable pub check_boot_state : Policy → Bytes → VerifiedBootState → Result Error (Unit {0})
check_boot_state policy key verified = ok tt
check_boot_state policy key self_signed =
    if not policy.require_verified_boot && no_keys policy.allowed_self_signed_keys
    then ok tt
    else if not policy.require_verified_boot && contains key policy.allowed_self_signed_keys
    then ok tt
    else err (unacceptable_boot_state self_signed)
check_boot_state policy key state =
    if not policy.require_verified_boot && no_keys policy.allowed_self_signed_keys
    then ok tt
    else err (unacceptable_boot_state state)

-- `if let Some(rot) = &kd.hardware_enforced.root_of_trust`
unfoldable pub check_verified_boot : Policy → Option RootOfTrust → Result Error (Unit {0})
unfolding check_boot_state
check_verified_boot policy none =
    reject_if policy.require_verified_boot (unacceptable_boot_state failed)
check_verified_boot policy (some rot) = do
  reject_if (policy.require_device_locked && not rot.device_locked) device_unlocked
  check_boot_state policy rot.verified_boot_key rot.verified_boot_state

abbrev pub revoked_by : Bytes → Option StatusEntry → Result Error (Unit {0})
revoked_by hex none = ok tt
revoked_by hex (some entry) = err (revoked hex entry.status entry.reason)

module _ (x : X509) where
  open x use {Certificate, extensions, serial_number, spki_der}

  unfoldable pub check_status : StatusList → Bytes → Result Error (Unit {0})
  unfolding serial_hex lookup_serial
  check_status list bytes = do
    cert ← ok_or (X509.from_der x bytes) (der "cert parse for status")
    let hex = serial_hex (serial_number cert)
    revoked_by hex (lookup_serial list hex)

  abbrev pub check_statuses : Option StatusList → List Bytes → Result Error (Unit {0})
  check_statuses none chain = ok tt
  check_statuses (some list) chain = check_all (check_status list) chain

  unfoldable pub extract_attestation_extension : Certificate → Result Error Bytes
  extract_attestation_extension leaf = do
    exts ← ok_or (extensions leaf) missing_attestation_extension
    ext ← ok_or (find_extension oid_android_key_attestation exts) missing_attestation_extension
    ok ext.extn_value

  -- `SubjectPublicKeyInfoOwned::to_der_vec`
  abbrev pub to_der_vec : Certificate → Result Error Bytes
  to_der_vec leaf = ok_or (spki_der leaf) (der "SPKI encode")

  -- `pinned` is the list of pinned root certificates.
  module _ (c : Crypto) (d : Der) (pinned : List Bytes) where
    unfoldable pub verify_attestation :
        (chain : List Bytes) (challenge : Bytes) (policy : Policy) (clock_ms : ℕ)
        → Result Error Outcome
    unfolding validate_chain extract_attestation_extension check_verified_boot
    verify_attestation chain challenge policy clock_ms = do
      leaf ← validate_chain c x pinned chain clock_ms
      check_statuses policy.status_list chain
      ext_value ← extract_attestation_extension leaf
      kd ← from_der d ext_value
      reject_if (not (bytes_eq kd.attestation_challenge challenge)) challenge_mismatch
      reject_if (not (meets kd.attestation_security_level policy.min_security_level))
          (insufficient_security_level kd.attestation_security_level policy.min_security_level)
      reject_if (not (meets kd.keymint_security_level policy.min_security_level))
          (insufficient_security_level kd.keymint_security_level policy.min_security_level)
      check_verified_boot policy kd.hardware_enforced.root_of_trust
      spki ← to_der_vec leaf
      ok (record {
        source = android_key_attest;
        attested_value = spki;
        challenge = challenge;
        timestamp_ms = clock_ms;
        detail_hash = Crypto.sha256 c (canonical_chain_hash_input chain);
      })
