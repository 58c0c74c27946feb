-- ===== src/Move/Witness.antt =====
-- move/attestation/sources/witness.move, with the markers of both source.move and the `ATTESTATION` policy.
use attestation.Common.{ℕ, Bytes}

-- The markers: each is made only by the package that proves what it stands for. `Witness` is open to every
-- package, so that there are others, told apart by a number.
pub data Source : Type 0 where
  app_attest assertion android_key_attestation : Source
  other_source : ℕ → Source

-- `Witness<Source>`
pub record Witness (source : Source) : Type 0 where
  pub attested_value : Bytes
  pub challenge : Bytes
  pub timestamp_ms : ℕ
  pub detail_hash : Bytes

-- `new`
abbrev pub witness : (source : Source) → Bytes → Bytes → ℕ → Bytes → Witness source
witness source attested_value challenge timestamp_ms detail_hash = record {
  attested_value = attested_value;
  challenge = challenge;
  timestamp_ms = timestamp_ms;
  detail_hash = detail_hash;
}
