-- ===== src/Move/AttestAndroid.antt =====
-- move/attest_android/sources/attestation.move: `verify`.
use attestation.Common.{ℕ, ◌++◌, Bytes, Result, ok, ◌>>=◌}
use attestation.Move.Framework.{Abort, Document, Policy, Sui}
use attestation.Move.Witness.{Witness, witness, android_key_attestation}
use attestation.Move.Documents.{accept}

pub record AndroidPayload : Type 0 where
  pub attested_value : Bytes
  pub challenge : Bytes
  pub detail_hash : Bytes

-- `bcs::to_bytes`: the fields, in order
abbrev pub to_bytes : Sui → AndroidPayload → Bytes
to_bytes sui p =
    Sui.bcs_field sui p.attested_value
    ++ (Sui.bcs_field sui p.challenge ++ Sui.bcs_field sui p.detail_hash)

unfoldable pub verify :
    Sui
    → Policy
    → Document
    → (attested_value challenge detail_hash : Bytes) → ℕ
    → Result Abort (Witness android_key_attestation)
unfolding accept
verify sui policy doc attested_value challenge detail_hash now = do
  (user_data, nsm_ts) ←
      accept sui policy doc
        (to_bytes sui (record {
          attested_value = attested_value;
          challenge = challenge;
          detail_hash = detail_hash;
        }))
        now
  ok (witness android_key_attestation attested_value challenge nsm_ts detail_hash)
