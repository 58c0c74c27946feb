-- ===== src/Move/Lifecycle/Genuine.antt =====
-- What a witness of each source says of the attested value that it carries.
use mathlib.Core.Path.{subst}
use attestation.Common.{ℕ, sym, ap, inr, List, ◌∷◌, In, Bytes}
use attestation.Move.Framework.{Document, Policy, Sui}
use attestation.Move.Witness.{
  Source, app_attest, assertion, android_key_attestation, other_source, Witness,
}
use attestation.Move.Documents.Laws.{Accepted}
use attestation.Move.Accepts.{
  android_payload, apple_payload, assertion_payload, verify-android_iff, verify-apple_iff,
  verify-assertion_iff,
}
use attestation.Move.Lifecycle.{Obtained, by_android, by_apple, by_assertion, by_other}

-- The source's package accepted, under a policy that has been in force, a document of the image whose
-- payload begins with this value. For the source of another package nothing is said.
abbrev pub AcceptedFor : Sui → List Policy → Source → Bytes → Type 0
AcceptedFor sui policies android_key_attestation pk =
    (policy : Policy) × In policy policies
    × (doc : Document) × (challenge : Bytes) × (detail_hash : Bytes) × (now : ℕ) × Accepted sui
        policy doc (android_payload sui pk challenge detail_hash) now
AcceptedFor sui policies app_attest pk =
    (policy : Policy) × In policy policies
    × (doc : Document) × (challenge : Bytes) × (detail_hash : Bytes) × (now : ℕ) × Accepted sui
        policy doc (apple_payload sui pk challenge detail_hash) now
AcceptedFor sui policies assertion pk =
    (policy : Policy) × In policy policies
    × (doc : Document) × (client_data : Bytes) × (now : ℕ) × Accepted sui policy doc
        (assertion_payload sui pk client_data) now
AcceptedFor sui policies (other_source n) pk = Unit {0}

pub AcceptedFor-cons :
    (sui : Sui) (policy : Policy) (policies : List Policy) (source : Source) (pk : Bytes)
    → AcceptedFor sui policies source pk
    → AcceptedFor sui (policy ∷ policies) source pk
AcceptedFor-cons sui policy policies android_key_attestation pk (p, m, doc, x, y, now, a) =
    (p, inr m, doc, x, y, now, a)
AcceptedFor-cons sui policy policies app_attest pk (p, m, doc, x, y, now, a) =
    (p, inr m, doc, x, y, now, a)
AcceptedFor-cons sui policy policies assertion pk (p, m, doc, x, now, a) =
    (p, inr m, doc, x, now, a)
AcceptedFor-cons sui policy policies (other_source n) pk h = tt

pub Obtained-AcceptedFor :
    (sui : Sui) (policies : List Policy) (source : Source) (w : Witness source)
    → Obtained sui policies source w
    → AcceptedFor sui policies source w.attested_value
Obtained-AcceptedFor sui policies source w (by_android policy doc x y z now m verifies) =
    let (accepted, shape) = (verify-android_iff sui policy doc x y z now w).0 verifies in
    subst (AcceptedFor sui policies android_key_attestation)
      (sym (ap (λ (v : Witness android_key_attestation). v.attested_value) shape))
      (policy, m, doc, y, z, now, accepted)
Obtained-AcceptedFor sui policies source w (by_apple policy doc x y z now m verifies) =
    let (accepted, shape) = (verify-apple_iff sui policy doc x y z now w).0 verifies in
    subst (AcceptedFor sui policies app_attest)
      (sym (ap (λ (v : Witness app_attest). v.attested_value) shape))
      (policy, m, doc, y, z, now, accepted)
Obtained-AcceptedFor sui policies source w (by_assertion policy doc x y now m verifies) =
    let (accepted, shape) = (verify-assertion_iff sui policy doc x y now w).0 verifies in
    subst (AcceptedFor sui policies assertion)
      (sym (ap (λ (v : Witness assertion). v.attested_value) shape))
      (policy, m, doc, y, now, accepted)
Obtained-AcceptedFor sui policies source w (by_other n v) = tt
