-- ===== src/Move/Lifecycle/Kept.antt =====
-- What happens to a binding once its identity is given.
use mathlib.Core.Path.{subst}
use attestation.Common.{ℕ, ◌≡◌, ◌≢◌, ◌∙◌, sym, ap, refl, inl, inr, List, ◌∷◌, ◌++◌, All, In}
use attestation.Move.Framework.{Sui}
use attestation.Move.DeviceBinding.{DeviceBinding, Held, transfer_to}
use attestation.Move.Lifecycle.{
  id_of, Chain, Step, set_policy, enroll, hand_over, revoke, Steps, stays, goes_on,
}
use attestation.Move.Lifecycle.Bindings.{
  All-In, In-removed, In-replaced, In-middle, In-others, In-split, new-eq-ok,
}

-- The same binding was held, by some account.
abbrev pub WasHeld : Held → List Held → Type 0
WasHeld y held = (x : Held) × In x held × (y ≡ transfer_to x.binding y.owner)

-- Its key, its identity, its time and its types are what they were.
was_there : (y : Held) (held : List Held) → In y held → WasHeld y held
was_there y held m = (y, m, refl)

module _ (sui : Sui) where
  Step-ids : {sender : ℕ} {c d : Chain} → Step sui sender c d → (n : ℕ) → In n c.ids → In n d.ids
  Step-ids (set_policy policy) n m = m
  Step-ids (enroll source scheme w pk now id recipient binding event obtained fresh makes) n m =
      inr m
  Step-ids (hand_over before x after recipient held owned) n m = m
  Step-ids (revoke before x after held owned) n m = m

  Step-WasHeld :
      {sender : ℕ} {c d : Chain}
      → Step sui sender c d
      → (y : Held) → In y d.held
      → In (id_of y) c.ids
      → WasHeld y c.held
  Step-WasHeld (set_policy policy) y there m = was_there y _ there
  Step-WasHeld {c = c}
        (enroll source scheme w pk now id recipient binding event obtained fresh makes) y (inl same)
        m =
      let (matches, shape, logged) = new-eq-ok source scheme w pk now id makes in
      let given : id_of y ≡ id =
        sym (ap id_of same) ∙ ap (λ (b : DeviceBinding source scheme). b.id) shape in
      absurd (All-In (λ n. n ≢ id) c.ids fresh m given)
  Step-WasHeld (enroll source scheme w pk now id recipient binding event obtained fresh makes) y
        (inr there) m =
      was_there y _ there
  Step-WasHeld (hand_over before x after recipient held owned) y there m =
      elim (In-replaced y before x (transfer_to x.binding recipient) after there) [
        | inl before_too ↦ was_there y _ (subst (In y) (sym held) before_too)
        | inr moved ↦ (
          x,
          subst (In x) (sym held) (In-middle before x after),
          sym moved ∙ ap (λ (z : Held). transfer_to x.binding z.owner) moved,
        )
      ]
  Step-WasHeld (revoke before x after held owned) y there m =
      was_there y _ (subst (In y) (sym held) (In-removed y before x after there))

  -- Only a call of the holder takes a binding away from an account.
  Step-stays :
      {sender : ℕ} {c d : Chain}
      → Step sui sender c d
      → (x : Held) → In x c.held
      → sender ≢ x.owner
      → In x d.held
  Step-stays (set_policy policy) x m others = m
  Step-stays (enroll source scheme w pk now id recipient binding event obtained fresh makes) x m
        others =
      inr m
  Step-stays (hand_over before y after recipient held owned) x m others =
      elim (In-others x before y after (subst (In x) held m)) [
        | inl same ↦ absurd (others (sym owned ∙ ap (λ (z : Held). z.owner) same))
        | inr there ↦ In-removed x before (transfer_to y.binding recipient) after there
      ]
  Step-stays (revoke before y after held owned) x m others =
      elim (In-others x before y after (subst (In x) held m)) [
        | inl same ↦ absurd (others (sym owned ∙ ap (λ (z : Held). z.owner) same))
        | inr there ↦ there
      ]

  Steps-ids :
      {senders : List ℕ} {c d : Chain} → Steps sui senders c d → (n : ℕ) → In n c.ids → In n d.ids
  Steps-ids stays n m = m
  Steps-ids (goes_on sender steps step) n m = Step-ids step n (Steps-ids steps n m)

  Steps-WasHeld :
      {senders : List ℕ} {c d : Chain}
      → Steps sui senders c d
      → (y : Held) → In y d.held
      → In (id_of y) c.ids
      → WasHeld y c.held
  Steps-WasHeld stays y there m = was_there y _ there
  Steps-WasHeld {c = c} (goes_on sender steps step) y there m =
      let (x, held, same) = Step-WasHeld step y there (Steps-ids steps (id_of y) m) in
      let (first, first_held, moved) =
        Steps-WasHeld steps x held (subst (λ n. In n c.ids) (ap id_of same) m) in
      (first, first_held, same ∙ ap (λ (z : Held). transfer_to z.binding y.owner) moved)

  Steps-stays :
      {senders : List ℕ} {c d : Chain}
      → Steps sui senders c d
      → (x : Held) → In x c.held
      → All (λ sender. sender ≢ x.owner) senders
      → In x d.held
  Steps-stays stays x m others = m
  Steps-stays (goes_on sender steps step) x m (other, others) =
      Step-stays step x (Steps-stays steps x m others) other

  -- Whatever calls follow, a binding whose identity had been given before them was held before them, with
  -- the same key, types and time, if by another account: a destroyed one does not come back. And while
  -- its holder sends no call, it stays with the holder.
  pub Steps-kept :
      {senders : List ℕ} {c d : Chain}
      → Steps sui senders c d
      → ((y : Held) → In y d.held → In (id_of y) c.ids → WasHeld y c.held)
        × ((x : Held) → In x c.held → All (λ sender. sender ≢ x.owner) senders → In x d.held)
  Steps-kept steps = (Steps-WasHeld steps, Steps-stays steps)

  -- A holder can hand a binding over to any account, which then holds it.
  pub transfers :
      {c : Chain} (x : Held) (recipient : ℕ)
      → In x c.held
      → (d : Chain) × Step sui x.owner c d × In (transfer_to x.binding recipient) d.held
  transfers {c} x recipient m =
      let (before, after, split) = In-split x c.held m in
      (
        record {
          held = before ++ transfer_to x.binding recipient ∷ after;
          ids = c.ids;
          policies = c.policies;
          events = c.events;
        },
        hand_over before x after recipient split refl,
        In-middle before (transfer_to x.binding recipient) after,
      )
