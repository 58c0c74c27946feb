-- ===== src/Move/Lifecycle/WellFormed.antt =====
-- What holds of the bindings on the chain after every call.
use mathlib.Core.Path.{subst}
use attestation.Common.{
  ℕ, ◌≡◌, ◌≢◌, ◌∙◌, sym, ap, refl, inl, inr, List, ◌∷◌, ◌++◌, All, All-map, In, Bytes, ok,
}
use attestation.Move.Framework.{Policy, Sui}
use attestation.Move.Witness.{Source, Witness}
use attestation.Move.DeviceBinding.{
  Scheme, DeviceBinding, Held, Event, device_bound, device_binding_destroyed, new, transfer_to,
  destroy,
}
use attestation.Move.Lifecycle.{
  Obtained, id_of, Chain, genesis, Step, set_policy, enroll, hand_over, revoke, Steps, stays,
  goes_on,
}
use attestation.Move.Lifecycle.Genuine.{AcceptedFor, AcceptedFor-cons, Obtained-AcceptedFor}
use attestation.Move.Lifecycle.Bindings.{
  All-In, All-removed, All-replaced, All-middle, All-both, Apart, Apart-removed, Apart-replaced,
  Apart-left, new-eq-ok,
}

-- The event names an identity that was given.
abbrev pub Logged : List ℕ → Event → Type 0
Logged ids (device_bound n source scheme) = In n ids
Logged ids (device_binding_destroyed n) = In n ids

Logged-cons : (ids : List ℕ) (id : ℕ) (e : Event) → Logged ids e → Logged (id ∷ ids) e
Logged-cons ids id (device_bound n source scheme) m = inr m
Logged-cons ids id (device_binding_destroyed n) m = inr m

not_destroyed :
    (ids : List ℕ) (id : ℕ)
    → All (λ n. n ≢ id) ids
    → (e : Event) → Logged ids e
    → e ≢ device_binding_destroyed id
not_destroyed ids id fresh (device_bound n source scheme) m same = cc
not_destroyed ids id fresh (device_binding_destroyed n) m same =
    All-In (λ n. n ≢ id) ids fresh m (cc same)

-- The binding's event that it was bound is there, and none that it was destroyed.
abbrev pub Bound : List Event → Held → Type 0
Bound events x = In (device_bound (id_of x) x.source x.scheme) events

abbrev pub Present : List Event → Held → Type 0
Present events x = All (λ e. e ≢ device_binding_destroyed (id_of x)) events

abbrev pub Given : List ℕ → Held → Type 0
Given ids x = In (id_of x) ids

module _ (sui : Sui) where
  -- The package of the binding's source accepted a document for the binding's key.
  abbrev pub Genuine : List Policy → Held → Type 0
  Genuine policies x = AcceptedFor sui policies x.source (DeviceBinding.pk x.binding)

  -- Each binding has an identity of its own, a genuine key, an event that it was bound and none that it was
  -- destroyed; every event is of an identity that was given.
  pub record IsWellFormed (c : Chain) : Type 0 where
    pub apart : Apart c.held
    pub given : All (Given c.ids) c.held
    pub genuine : All (Genuine c.policies) c.held
    pub bound : All (Bound c.events) c.held
    pub present : All (Present c.events) c.held
    pub logged : All (Logged c.ids) c.events

  enroll-IsWellFormed :
      {c : Chain} (source : Source) (scheme : Scheme) (w : Witness source) (pk : Bytes)
      (now id recipient : ℕ) (binding : DeviceBinding source scheme) (event : Event)
      → Obtained sui c.policies source w
      → All (λ n. n ≢ id) c.ids
      → new source scheme w pk now id ≡ ok (binding, event)
      → IsWellFormed c
      → IsWellFormed (record {
        held = transfer_to binding recipient ∷ c.held;
        ids = id ∷ c.ids;
        policies = c.policies;
        events = event ∷ c.events;
      })
  enroll-IsWellFormed {c} source scheme w pk now id recipient binding event obtained fresh makes i =
      let (matches, shape, logs) = new-eq-ok source scheme w pk now id makes in
      let named : DeviceBinding.id binding ≡ id =
        ap (λ (b : DeviceBinding source scheme). b.id) shape in
      let keyed : DeviceBinding.pk binding ≡ pk =
        ap (λ (b : DeviceBinding source scheme). b.pk) shape in
      record {
        apart = (
          All-map (λ y m same. All-In (λ n. n ≢ id) c.ids fresh m (same ∙ named)) c.held i.given,
          i.apart,
        );
        given = (inl (sym named), All-map (λ y m. inr m) c.held i.given);
        genuine = (
          subst (AcceptedFor sui c.policies source) (sym (keyed ∙ matches))
              (Obtained-AcceptedFor sui c.policies source w obtained),
          i.genuine,
        );
        bound = (inl (cc (logs, named)), All-map (λ y m. inr m) c.held i.bound);
        present = (
          (
            λ same. cc,
            All-map (λ e m same. not_destroyed c.ids id fresh e m (cc)) c.events i.logged,
          ),
          All-map (λ y p. ((λ same. cc), p)) c.held i.present,
        );
        logged = (
          subst (Logged (id ∷ c.ids)) (sym logs) (inl refl),
          All-map (Logged-cons c.ids id) c.events i.logged,
        );
      }

  hand_over-IsWellFormed :
      {c : Chain} (before : List Held) (x : Held) (after : List Held) (recipient : ℕ)
      → c.held ≡ before ++ x ∷ after
      → IsWellFormed c
      → IsWellFormed (record {
        held = before ++ transfer_to x.binding recipient ∷ after;
        ids = c.ids;
        policies = c.policies;
        events = c.events;
      })
  hand_over-IsWellFormed {c} before x after recipient held i =
      let y = transfer_to x.binding recipient in
      record {
        apart = Apart-replaced before x y after refl (subst Apart held i.apart);
        given =
            All-replaced (Given c.ids) before x y after (λ m. m)
              (subst (All (Given c.ids)) held i.given);
        genuine =
            All-replaced (Genuine c.policies) before x y after (λ g. g)
              (subst (All (Genuine c.policies)) held i.genuine);
        bound =
            All-replaced (Bound c.events) before x y after (λ m. m)
              (subst (All (Bound c.events)) held i.bound);
        present =
            All-replaced (Present c.events) before x y after (λ p. p)
              (subst (All (Present c.events)) held i.present);
        logged = i.logged;
      }

  revoke-IsWellFormed :
      {c : Chain} (before : List Held) (x : Held) (after : List Held)
      → c.held ≡ before ++ x ∷ after
      → IsWellFormed c
      → IsWellFormed (record {
        held = before ++ after;
        ids = c.ids;
        policies = c.policies;
        events = destroy x.binding ∷ c.events;
      })
  revoke-IsWellFormed {c} before x after held i =
      let apart = subst Apart held i.apart in
      let given = subst (All (Given c.ids)) held i.given in
      record {
        apart = Apart-removed before x after apart;
        given = All-removed (Given c.ids) before x after given;
        genuine =
            All-removed (Genuine c.policies) before x after
              (subst (All (Genuine c.policies)) held i.genuine);
        bound =
            All-map (λ y m. inr m) (before ++ after)
              (All-removed (Bound c.events) before x after
                (subst (All (Bound c.events)) held i.bound));
        present =
            All-both (λ y other old. ((λ same. other (cc same)), old)) (before ++ after)
              (Apart-left before x after apart)
              (All-removed (Present c.events) before x after
                (subst (All (Present c.events)) held i.present));
        logged = (All-middle (Given c.ids) before x after given, i.logged);
      }

  Step-IsWellFormed :
      {sender : ℕ} {c d : Chain} → Step sui sender c d → IsWellFormed c → IsWellFormed d
  Step-IsWellFormed {c = c} (set_policy policy) i = record {
    apart = i.apart;
    given = i.given;
    genuine =
        All-map (λ x. AcceptedFor-cons sui policy c.policies x.source (DeviceBinding.pk x.binding))
          c.held i.genuine;
    bound = i.bound;
    present = i.present;
    logged = i.logged;
  }
  Step-IsWellFormed (enroll source scheme w pk now id recipient binding event obtained fresh makes)
        i =
      enroll-IsWellFormed source scheme w pk now id recipient binding event obtained fresh makes i
  Step-IsWellFormed (hand_over before x after recipient held owned) i =
      hand_over-IsWellFormed before x after recipient held i
  Step-IsWellFormed (revoke before x after held owned) i = revoke-IsWellFormed before x after held i

  -- After any calls that set policies, enroll, hand over and destroy, each binding on the chain has an
  -- identity of its own, an event that it was bound and none that it was destroyed; and where its source is
  -- one of the three packages', that package accepted, under a policy that has been in force, a document
  -- of the image for the binding's key.
  pub Steps-IsWellFormed :
      {senders : List ℕ} {c : Chain} → Steps sui senders genesis c → IsWellFormed c
  Steps-IsWellFormed stays = record {
    apart = tt;
    given = tt;
    genuine = tt;
    bound = tt;
    present = tt;
    logged = tt;
  }
  Steps-IsWellFormed (goes_on sender steps step) = Step-IsWellFormed step (Steps-IsWellFormed steps)
