-- ===== src/Move/Lifecycle/Bindings.antt =====
-- Lists of bindings from which one is removed or replaced, and what `new` makes.
use mathlib.Core.Path.{subst}
use attestation.Common.{
  ℕ, ◌≡◌, ◌≢◌, inl, inr, ◌⊎◌, sym, refl, ap, ◌∙◌, All-map, not, List, [], ◌∷◌, ◌++◌, All, In, Bytes,
  bytes_eq, ok, reject_if, ok-eq-ok,
}
use attestation.X509.Checks.Laws.{then-Passes}
use attestation.X509.Checks.Equal.{equal_octets_iff}
use attestation.Move.Witness.{Source, Witness}
use attestation.Move.DeviceBinding.{
  Scheme, DeviceBinding, Held, Event, device_bound, key_mismatch, new,
}
use attestation.Move.Lifecycle.{id_of}

pub All-In : {A : Type 0} (P : A → Type 0) {x : A} (xs : List A) → All P xs → In x xs → P x
All-In P [] h m = elim m [ ]
All-In P (y ∷ xs) (p, ps) (inl same) = subst P same p
All-In P (y ∷ xs) (p, ps) (inr m) = All-In P xs ps m

pub All-removed :
    {A : Type 0} (P : A → Type 0) (before : List A) (x : A) (after : List A)
    → All P (before ++ x ∷ after)
    → All P (before ++ after)
All-removed P [] x after (p, ps) = ps
All-removed P (y ∷ before) x after (p, ps) = (p, All-removed P before x after ps)

pub All-both :
    {A : Type 0} {P Q R : A → Type 0} (f : (a : A) → P a → Q a → R a) (xs : List A)
    → All P xs
    → All Q xs
    → All R xs
All-both f [] p q = tt
All-both f (x ∷ xs) (p, ps) (q, qs) = (f x p q, All-both f xs ps qs)

pub In-removed :
    {A : Type 0} (y : A) (before : List A) (x : A) (after : List A)
    → In y (before ++ after)
    → In y (before ++ x ∷ after)
In-removed y [] x after m = inr m
In-removed y (z ∷ before) x after (inl same) = inl same
In-removed y (z ∷ before) x after (inr m) = inr (In-removed y before x after m)

-- An element is replaced by one that has the properties in question where it has them.
pub All-replaced :
    {A : Type 0} (P : A → Type 0) (before : List A) (x y : A) (after : List A)
    → (P x → P y)
    → All P (before ++ x ∷ after)
    → All P (before ++ y ∷ after)
All-replaced P [] x y after f (p, ps) = (f p, ps)
All-replaced P (z ∷ before) x y after f (p, ps) = (p, All-replaced P before x y after f ps)

-- Whatever stands in the list after the replacement stood in it before, or is the new element.
pub In-replaced :
    {A : Type 0} (z : A) (before : List A) (x y : A) (after : List A)
    → In z (before ++ y ∷ after)
    → In z (before ++ x ∷ after) ⊎ (y ≡ z)
In-replaced z [] x y after (inl same) = inr same
In-replaced z [] x y after (inr m) = inl (inr m)
In-replaced z (w ∷ before) x y after (inl same) = inl (inl same)
In-replaced z (w ∷ before) x y after (inr m) = elim (In-replaced z before x y after m) [
  | inl there ↦ inl (inr there)
  | inr new_one ↦ inr new_one
]

pub In-middle : {A : Type 0} (before : List A) (x : A) (after : List A) → In x (before ++ x ∷ after)
In-middle [] x after = inl refl
In-middle (y ∷ before) x after = inr (In-middle before x after)

-- Whatever is not the middle element stays when that is taken away or replaced.
pub In-others :
    {A : Type 0} (z : A) (before : List A) (x : A) (after : List A)
    → In z (before ++ x ∷ after)
    → (x ≡ z) ⊎ In z (before ++ after)
In-others z [] x after (inl same) = inl same
In-others z [] x after (inr m) = inr m
In-others z (y ∷ before) x after (inl same) = inr (inl same)
In-others z (y ∷ before) x after (inr m) = elim (In-others z before x after m) [
  | inl same ↦ inl same
  | inr there ↦ inr (inr there)
]

pub In-split :
    {A : Type 0} (x : A) (xs : List A)
    → In x xs
    → (before : List A) × (after : List A) × (xs ≡ before ++ x ∷ after)
In-split x [] m = elim m [ ]
In-split x (y ∷ xs) (inl same) = ([], xs, ap (λ z. z ∷ xs) same)
In-split x (y ∷ xs) (inr m) =
    let (before, after, split) = In-split x xs m in (y ∷ before, after, ap (◌∷◌ y) split)

-- Identities stand once.
abbrev pub Apart : List Held → Type 0
Apart [] = Unit {0}
Apart (x ∷ xs) = All (λ y. id_of y ≢ id_of x) xs × Apart xs

pub Apart-removed :
    (before : List Held) (x : Held) (after : List Held)
    → Apart (before ++ x ∷ after)
    → Apart (before ++ after)
Apart-removed [] x after (d, ds) = ds
Apart-removed (y ∷ before) x after (d, ds) =
    (All-removed (λ z. id_of z ≢ id_of y) before x after d, Apart-removed before x after ds)

pub Apart-replaced :
    (before : List Held) (x y : Held) (after : List Held)
    → id_of y ≡ id_of x
    → Apart (before ++ x ∷ after)
    → Apart (before ++ y ∷ after)
Apart-replaced [] x y after named (d, ds) =
    (All-map (λ z differs same. differs (same ∙ named)) after d, ds)
Apart-replaced (z ∷ before) x y after named (d, ds) = (
  All-replaced (λ w. id_of w ≢ id_of z) before x y after
      (λ differs same. differs (sym named ∙ same)) d,
  Apart-replaced before x y after named ds,
)

pub All-middle :
    (P : Held → Type 0) (before : List Held) (x : Held) (after : List Held)
    → All P (before ++ x ∷ after)
    → P x
All-middle P [] x after (p, ps) = p
All-middle P (y ∷ before) x after (p, ps) = All-middle P before x after ps

-- Whatever is left is not what was removed.
pub Apart-left :
    (before : List Held) (x : Held) (after : List Held)
    → Apart (before ++ x ∷ after)
    → All (λ y. id_of y ≢ id_of x) (before ++ after)
Apart-left [] x after (d, ds) = d
Apart-left (y ∷ before) x after (d, ds) = (
  (λ same. All-middle (λ z. id_of z ≢ id_of y) before x after d (sym same)),
  Apart-left before x after ds,
)

-- `new` makes a binding of the attested key, with the identity and the time that it is given.
pub new-eq-ok :
    (source : Source) (scheme : Scheme) (w : Witness source) (pk : Bytes) (now id : ℕ)
    {binding : DeviceBinding source scheme} {event : Event}
    → new source scheme w pk now id ≡ ok (binding, event)
    → (pk ≡ w.attested_value)
      × (binding ≡ record { id = id; pk = pk; issued_at_ms = now })
      × (event ≡ device_bound id source scheme)
unfolding new
new-eq-ok source scheme w pk now id {binding} {event} h =
    let (matches, made) =
      then-Passes (reject_if (not (bytes_eq pk w.attested_value)) key_mismatch) _ h in
    (
      (equal_octets_iff pk w.attested_value key_mismatch).0 matches,
      sym (ap (λ (r : DeviceBinding source scheme × Event). r.0) (ok-eq-ok made)),
      sym (ap (λ (r : DeviceBinding source scheme × Event). r.1) (ok-eq-ok made)),
    )
