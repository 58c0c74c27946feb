-- ===== src/Apple/Cbor/Texts.antt =====
-- The loops over maps whose keys are texts.
use text.Mathlib.Text.{◌==◌ as str_eq}
use text.Mathlib.TextEquality.{eq_iff}
use mathlib.Core.Path.{subst}
use attestation.Common.{
  ◌≡◌, ◌↔◌, refl, sym, ap, ◌∙◌, String, true, false, Option, none, some, List, [], ◌∷◌, All,
  if◌then◌else◌, Result, ok, ok_or, ◌>>=◌, >>=-eq-ok, ok_or-eq-ok, ok-eq-ok, Option-cases, inl, inr,
}
use attestation.Apple.Entries.{run, last, or_old, get-run}
use attestation.Apple.Errors.{Error}
use attestation.Apple.Cbor.{Cbor}

-- A key that is one text is not another.
pub other_name :
    (key a b : String) → str_eq a b ≡ false → str_eq key a ≡ true → str_eq key b ≡ false
other_name key a b differ same =
    subst (λ k. str_eq k b ≡ false) (sym ((eq_iff key a).0 same)) differ

module _ (v : Cbor) where
  open v use {Value, as_text, as_bytes, as_array}

  -- The key is a text, and the value is good under it.
  abbrev pub IsEntry : (String → Value → Type 0) → Value × Value → Type 0
  IsEntry Good e = (key : String) × (as_text e.0 ≡ some key) × Good key e.1

  abbrev pub Anything : String → Value → Type 0
  Anything key value = Unit {0}

  -- What an entry under the text gives.
  abbrev pub named : {B : Type 0} → String → (Value → B) → String → Value → Option B
  named name f key value = if str_eq key name then some (f value) else none

  -- What is read of an entry whose key is a text.
  abbrev pub on_key : {B : Type 0} → (String → Value → Option B) → Value → Value → Option B
  on_key read k value = elim (as_text k) [ none ↦ none | some key ↦ read key value ]

  -- What an entry whose key is that text gives.
  abbrev pub at_text : {B : Type 0} → String → (Value → B) → Value → Value → Option B
  at_text name f = on_key (named name f)

  -- A step on the text of a key, as a step on the key.
  abbrev pub on_text : {S : Type 0} → (S → String → Value → S) → S → Value → Value → S
  on_text set s k value = elim (as_text k) [ none ↦ s | some key ↦ set s key value ]

  -- A loop that stops at a key which is no text and where its step fails ends as the loop of the steps
  -- exactly when every entry has a text for a key and a value at which the step does not fail.
  module _ {S : Type 0} (try : S → String → Value → Result Error S) (set : S → String → Value → S)
      (Good : String → Value → Type 0)
      (try_iff : (s : S) (key : String) (value : Value) (s' : S)
        → (try s key value ≡ ok s') ↔ (Good key value × (set s key value ≡ s')))
      (e : Error) (loop : List (Value × Value) → S → Result Error S)
      (loop_nil : (s : S) → loop [] s ≡ ok s)
      (loop_cons : (k value : Value) (map : List (Value × Value)) (s : S)
        → loop ((k, value) ∷ map) s
          ≡ (ok_or (as_text k) e >>= λ key. try s key value >>= loop map)) where
    loop-ok :
        (map : List (Value × Value)) (s s' : S)
        → loop map s ≡ ok s'
        → All (IsEntry Good) map × (run (on_text set) map s ≡ s')
    loop-ok [] s s' h = (tt, ok-eq-ok (sym (loop_nil s) ∙ h))
    loop-ok ((k, value) ∷ map) s s' h =
        let (key, e1, h1) = >>=-eq-ok (ok_or (as_text k) e) _ (sym (loop_cons k value map s) ∙ h) in
        let (next, e2, h2) = >>=-eq-ok (try s key value) _ h1 in
        let found = ok_or-eq-ok (as_text k) e e1 in
        let (good, same) = (try_iff s key value next).0 e2 in
        let (entries, ends) = loop-ok map next s' h2 in
        (((key, found, good), entries), rw (on_text, found, same) ends)

    ok-loop :
        (map : List (Value × Value)) (s : S)
        → All (IsEntry Good) map
        → loop map s ≡ ok (run (on_text set) map s)
    ok-loop [] s h = loop_nil s
    ok-loop ((k, value) ∷ map) s ((key, found, good), h) =
        let tried = (try_iff s key value (set s key value)).1 (good, refl) in
        loop_cons k value map s ∙ rw (on_text, found, tried) (ok-loop map (set s key value) h)

    pub loop_iff :
        (map : List (Value × Value)) (s s' : S)
        → (loop map s ≡ ok s') ↔ (All (IsEntry Good) map × (run (on_text set) map s ≡ s'))
    loop_iff map s s' = (loop-ok map s s', (λ h. ok-loop map s (h.0) ∙ ap ok (h.1)))

  -- A variable that a step sets to what it reads of the entry ends as the last of what is read.
  pub variable-last :
      {S B : Type 0} (set : S → String → Value → S) (get : S → B) (read : String → Value → Option B)
      → ((s : S) (key : String) (value : Value)
          → get (set s key value) ≡ or_old (read key value) (get s))
      → (map : List (Value × Value)) (s : S)
      → get (run (on_text set) map s) ≡ or_old (last (on_key read) map) (get s)
  variable-last set get read sets = get-run (on_text set) get (on_key read) λ s k value.
      elim (Option-cases (as_text k)) [
        | inl gone ↦ rw (on_text, on_key, gone) refl
        | inr (key, found) ↦ rw (on_text, on_key, found) (sets s key value)
      ]
