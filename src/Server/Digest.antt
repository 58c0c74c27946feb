-- ===== src/Server/Digest.antt =====
-- What the user data of a document determines: the digest of a payload in BCS.
use attestation.Common.{◌≡◌, ◌∙◌, sym, some, [], ◌++◌, All, Bytes}
use attestation.X509.{Crypto}
use attestation.Android.Verify.{canonical_chain_hash_input}
use attestation.Android.Verify.ChainHash.{Fits, canonical_chain_hash_input_injective}
use attestation.Server.Data.{
  Host, AppState, ApplePayload, AssertionPayload, AndroidPayload, AndroidRequest, AndroidResponse,
  AppleAssertionRequest, AssertionResponse,
}
use attestation.Server.Bound.AndroidAttestation.{AndroidAnswered}
use attestation.Server.Bound.AppleAssertion.{AssertionAnswered}

-- What the code relies on of the crate `bcs`: a struct is the concatenation of its fields in order, and a
-- vector of octets tells where it ends.
pub record BcsLaws (h : Host) : Type 0 where
  pub field : Bytes → Bytes
  pub field_ends : (x y r s : Bytes) → field x ++ r ≡ field y ++ s → (x ≡ y) × (r ≡ s)
  pub apple_fields :
      (p : ApplePayload) (payload : Bytes)
      → Host.apple_bcs h p ≡ some payload
      → payload ≡ field p.attested_value ++ (field p.challenge ++ (field p.detail_hash ++ []))
  pub android_fields :
      (p : AndroidPayload) (payload : Bytes)
      → Host.android_bcs h p ≡ some payload
      → payload ≡ field p.attested_value ++ (field p.challenge ++ (field p.detail_hash ++ []))
  pub assertion_fields :
      (p : AssertionPayload) (payload : Bytes)
      → Host.assertion_bcs h p ≡ some payload
      → payload ≡ field p.attested_key ++ (field p.client_data ++ [])

module _ (h : Host) (l : BcsLaws h) where
  open l use {field}

  three_fields :
      (a b c x y z : Bytes)
      → field a ++ (field b ++ (field c ++ [])) ≡ field x ++ (field y ++ (field z ++ []))
      → (a ≡ x) × (b ≡ y) × (c ≡ z)
  three_fields a b c x y z e =
      let (p, e1) = l.field_ends a x _ _ e in
      let (q, e2) = l.field_ends b y _ _ e1 in let (r, e3) = l.field_ends c z _ _ e2 in (p, q, r)

  -- Two answers of the Android handler with the same user data are for the same chain, challenge and key,
  -- where the digest does not collide on their payloads or on their chains.
  pub android_user_data_injective :
      {state state' : AppState} {req req' : AndroidRequest} {resp resp' : AndroidResponse}
      (a : AndroidAnswered h state req resp) (b : AndroidAnswered h state' req' resp')
      → All Fits a.chain
      → All Fits b.chain
      → (Crypto.sha256 h.crypto a.payload ≡ Crypto.sha256 h.crypto b.payload
          → a.payload ≡ b.payload)
      → (Crypto.sha256 h.crypto (canonical_chain_hash_input a.chain)
            ≡ Crypto.sha256 h.crypto (canonical_chain_hash_input b.chain)
          → canonical_chain_hash_input a.chain ≡ canonical_chain_hash_input b.chain)
      → Crypto.sha256 h.crypto a.payload ≡ Crypto.sha256 h.crypto b.payload
      → (a.chain ≡ b.chain)
        × (a.challenge ≡ b.challenge)
        × (a.outcome.attested_value ≡ b.outcome.attested_value)
  android_user_data_injective a b fa fb payloads chains same =
      let e =
        sym (l.android_fields _ a.payload a.serializes)
        ∙ payloads same
        ∙ l.android_fields _ b.payload b.serializes in
      let (key, challenge, detail) = three_fields _ _ _ _ _ _ e in
      let input = chains (sym a.attested.detail ∙ detail ∙ b.attested.detail) in
      (
        canonical_chain_hash_input_injective a.chain b.chain fa fb input,
        sym a.attested.echo ∙ challenge ∙ b.attested.echo,
        key,
      )

  -- Two answers of the assertion handler with the same user data are for the same key and client data.
  pub assertion_user_data_injective :
      {state state' : AppState} {req req' : AppleAssertionRequest} {resp resp' : AssertionResponse}
      (a : AssertionAnswered h state req resp) (b : AssertionAnswered h state' req' resp')
      → (Crypto.sha256 h.crypto a.payload ≡ Crypto.sha256 h.crypto b.payload
          → a.payload ≡ b.payload)
      → Crypto.sha256 h.crypto a.payload ≡ Crypto.sha256 h.crypto b.payload
      → (a.attested_key ≡ b.attested_key) × (a.client_data ≡ b.client_data)
  assertion_user_data_injective a b payloads same =
      let e =
        sym (l.assertion_fields _ a.payload a.serializes)
        ∙ payloads same
        ∙ l.assertion_fields _ b.payload b.serializes in
      let (key, e1) = l.field_ends _ _ _ _ e in
      let (client, e2) = l.field_ends _ _ _ _ e1 in
      (sym a.asserted.key ∙ key ∙ b.asserted.key, sym a.asserted.echo ∙ client ∙ b.asserted.echo)
