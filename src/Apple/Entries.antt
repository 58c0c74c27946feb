-- ===== src/Apple/Entries.antt =====
-- The loops over the entries of a CBOR map in cbor.rs, cose.rs and assertion.rs: each entry may set a
-- variable, so that a variable ends with what the last entry that sets it gives.
use attestation.Common.{
  ◌≡◌, ◌↔◌, refl, ◌∙◌, Bool, Option, none, some, List, [], ◌∷◌, if◌then◌else◌, Option-cases,
  Bool-cases, inl, inr,
}

module _ {K V : Type 0} where
  -- The loop, with a step that does not fail.
  abbrev pub run : {S : Type 0} → (S → K → V → S) → List (K × V) → S → S
  run step [] s = s
  run step ((k, v) ∷ map) s = run step map (step s k v)

  -- What the last entry gives of which something is read.
  abbrev pub last : {B : Type 0} → (K → V → Option B) → List (K × V) → Option B
  last read [] = none
  last read ((k, v) ∷ map) = elim (last read map) [ some b ↦ some b | none ↦ read k v ]

  -- An entry under such a key is read, and no other.
  abbrev pub under : {B : Type 0} → (K → Bool) → (V → B) → K → V → Option B
  under is f k v = if is k then some (f v) else none

abbrev pub or_old : {B : Type 0} → Option B → B → B
or_old none old = old
or_old (some b) old = b

-- A variable that a step sets to what it reads of the entry ends as the last of what is read.
pub get-run :
    {K V S B : Type 0} (step : S → K → V → S) (get : S → B) (read : K → V → Option B)
    → ((s : S) (k : K) (v : V) → get (step s k v) ≡ or_old (read k v) (get s))
    → (map : List (K × V)) (s : S) → get (run step map s) ≡ or_old (last read map) (get s)
get-run step get read sets [] s = refl
get-run step get read sets ((k, v) ∷ map) s =
    get-run step get read sets map (step s k v) ∙ elim (Option-cases (last read map)) [
      | inl gone ↦ rw gone (sets s k v)
      | inr (b, found) ↦ rw found refl
    ]

-- A variable that starts as `none` has a value only from an entry.
pub or_old-eq-some :
    {B : Type 0} (o : Option (Option B)) (b : B) → (or_old o none ≡ some b) ↔ (o ≡ some (some b))
or_old-eq-some none b = ((λ h. cc), (λ h. cc))
or_old-eq-some (some o) b = ((λ h. cc), (λ h. cc))

pub under-or_old :
    {K V B : Type 0} (is : K → Bool) (f : V → B) (k : K) (v : V) (old : B)
    → (if is k then f v else old) ≡ or_old (under is f k v) old
under-or_old is f k v old = elim (Bool-cases (is k)) [ inl same ↦ rw same | inr other ↦ rw other ]
