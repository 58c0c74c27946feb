-- ===== src/Move/Lifecycle.antt =====
-- The bindings on the chain: made by `new` from a witness and placed by `transfer_to`, which a holder can
-- call again, and destroyed by their holder. What a package that is not in the repository may do, to make
-- witnesses of its own source, is allowed; so is a change of the policy's measurements.
pub mod Bindings
pub mod Kept
pub mod Genuine
pub mod WellFormed
use attestation.Common.{ℕ, ◌≡◌, ◌≢◌, List, [], ◌∷◌, ◌++◌, All, In, Bytes, Result, ok}
use attestation.Move.Framework.{Abort, Document, Policy, Sui}
use attestation.Move.Witness.{
  Source, app_attest, assertion, android_key_attestation, other_source, Witness,
}
use attestation.Move.AttestAndroid as Android
use attestation.Move.AttestApple as Apple
use attestation.Move.Assertion as Assertion
use attestation.Move.DeviceBinding.{Scheme, DeviceBinding, Held, Event, new, transfer_to, destroy}

-- A witness is had only from the package of its source, under a policy that has been in force: it may be
-- stored. Nothing is known of the witnesses of another package.
pub data Obtained (sui : Sui) (policies : List Policy)
    : (source : Source) → Witness source → Type 0 where
  by_android :
      (policy : Policy) (doc : Document) (attested_value challenge detail_hash : Bytes) (now : ℕ)
      {w : Witness android_key_attestation}
      → In policy policies
      → Android.verify sui policy doc attested_value challenge detail_hash now ≡ ok w
      → Obtained sui policies android_key_attestation w
  by_apple :
      (policy : Policy) (doc : Document) (attested_value challenge detail_hash : Bytes) (now : ℕ)
      {w : Witness app_attest}
      → In policy policies
      → Apple.verify sui policy doc attested_value challenge detail_hash now ≡ ok w
      → Obtained sui policies app_attest w
  by_assertion :
      (policy : Policy) (doc : Document) (attested_key client_data : Bytes) (now : ℕ)
      {w : Witness assertion}
      → In policy policies
      → Assertion.verify sui policy doc attested_key client_data now ≡ ok w
      → Obtained sui policies assertion w
  by_other : (n : ℕ) (w : Witness (other_source n)) → Obtained sui policies (other_source n) w

abbrev pub id_of : Held → ℕ
id_of x = DeviceBinding.id x.binding

-- What is held, the identities given so far, the policies that have been in force, and the events, the
-- last first.
pub record Chain : Type 0 where
  pub held : List Held
  pub ids : List ℕ
  pub policies : List Policy
  pub events : List Event

abbrev pub genesis : Chain
genesis = record { held = []; ids = []; policies = []; events = [] }

-- A call in a transaction of the sender: the policy is set, `new` and `transfer_to` enroll a device under
-- an identity that was not given before, `transfer_to` moves a binding that the sender holds to any
-- account, or `destroy` takes one away.
pub data Step (sui : Sui) (sender : ℕ) : Chain → Chain → Type 0 where
  set_policy :
      {c : Chain} (policy : Policy)
      → Step sui sender c
          (record { held = c.held; ids = c.ids; policies = policy ∷ c.policies; events = c.events })
  enroll :
      {c : Chain} (source : Source) (scheme : Scheme) (w : Witness source) (pk : Bytes)
      (now id recipient : ℕ) (binding : DeviceBinding source scheme) (event : Event)
      → Obtained sui c.policies source w
      → All (λ n. n ≢ id) c.ids
      → new source scheme w pk now id ≡ ok (binding, event)
      → Step sui sender c (record {
        held = transfer_to binding recipient ∷ c.held;
        ids = id ∷ c.ids;
        policies = c.policies;
        events = event ∷ c.events;
      })
  hand_over :
      {c : Chain} (before : List Held) (x : Held) (after : List Held) (recipient : ℕ)
      → c.held ≡ before ++ x ∷ after
      → x.owner ≡ sender
      → Step sui sender c (record {
        held = before ++ transfer_to x.binding recipient ∷ after;
        ids = c.ids;
        policies = c.policies;
        events = c.events;
      })
  revoke :
      {c : Chain} (before : List Held) (x : Held) (after : List Held)
      → c.held ≡ before ++ x ∷ after
      → x.owner ≡ sender
      → Step sui sender c (record {
        held = before ++ after;
        ids = c.ids;
        policies = c.policies;
        events = destroy x.binding ∷ c.events;
      })

-- Calls, with their senders, the last first.
pub data Steps (sui : Sui) : List ℕ → Chain → Chain → Type 0 where
  stays : {c : Chain} → Steps sui [] c c
  goes_on :
      {senders : List ℕ} {c d e : Chain} (sender : ℕ)
      → Steps sui senders c d
      → Step sui sender d e
      → Steps sui (sender ∷ senders) c e
