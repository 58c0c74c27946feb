-- ===== src/Move/Assertion.antt =====
-- move/attest_apple/sources/assertion.move: `verify`.
use attestation.Common.{ℕ, ◌++◌, Bytes, Result, ok, ◌>>=◌}
use attestation.Move.Framework.{Abort, Document, Policy, Sui}
use attestation.Move.Witness.{Witness, witness, assertion}
use attestation.Move.Documents.{accept}

pub record AssertionPayload : Type 0 where
  pub attested_key : Bytes
  pub client_data : Bytes

-- `bcs::to_bytes`: the fields, in order
abbrev pub to_bytes : Sui → AssertionPayload → Bytes
to_bytes sui p = Sui.bcs_field sui p.attested_key ++ Sui.bcs_field sui p.client_data

unfoldable pub verify :
    Sui
    → Policy
    → Document
    → (attested_key client_data : Bytes) → ℕ
    → Result Abort (Witness assertion)
unfolding accept
verify sui policy doc attested_key client_data now = do
  (user_data, nsm_ts) ←
      accept sui policy doc
        (to_bytes sui (record { attested_key = attested_key; client_data = client_data })) now
  ok (witness assertion attested_key client_data nsm_ts user_data)
