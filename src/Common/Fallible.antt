-- ===== src/Common/Fallible.antt =====
-- Rust's `Result`, the `?` operator as bind, and the conversions from `Option` that the code uses.
use mathlib.Core.Path.{◌≡◌, refl}
use mathlib.Core.Logic.{◌⊎◌, inl, inr}
use mathlib.Core.Bool.{Bool, true, false}
use mathlib.Core.Option.{Option, none, some}

pub data Result {ℓ} (E : Type 0) (A : Type ℓ) : Type ℓ where
  ok : A → Result E A
  err : E → Result E A

module _ {ℓ κ} {E : Type 0} {A : Type ℓ} {B : Type κ} where
  -- The `?` operator, and its use on a result whose value is dropped.
  infixl 5 ◌>>=◌ ◌>>◌
  abbrev pub ◌>>=◌ : Result E A → (A → Result E B) → Result E B
  r >>= next = elim r [ ok value ↦ next value | err cause ↦ err cause ]

  abbrev pub ◌>>◌ : Result E A → Result E B → Result E B
  r >> next = elim r [ ok value ↦ next | err cause ↦ err cause ]

  -- A successful bind has successful parts.
  pub >>=-eq-ok :
      (r : Result E A) (next : A → Result E B) {out : B}
      → (r >>= next) ≡ ok out
      → (value : A) × (r ≡ ok value) × (next value ≡ ok out)
  >>=-eq-ok (err cause) next done = cc
  >>=-eq-ok (ok value) next done = (value, refl, done)

module _ {ℓ} {E : Type 0} {A : Type ℓ} where
  -- `o.ok_or(e)?`, and `ok_or_else`
  abbrev pub ok_or : Option A → E → Result E A
  ok_or none e = err e
  ok_or (some a) e = ok a

  -- `r.ok()`
  abbrev pub to_option : Result E A → Option A
  to_option (ok a) = some a
  to_option (err e) = none

  abbrev pub is_ok : Result E A → Bool
  is_ok (ok a) = true
  is_ok (err e) = false

  pub ok_or-eq-ok : (o : Option A) (e : E) {a : A} → ok_or o e ≡ ok a → o ≡ some a
  ok_or-eq-ok none e h = cc
  ok_or-eq-ok (some b) e h = cc

  pub Result-cases : (r : Result E A) → ((a : A) × (r ≡ ok a)) ⊎ ((e : E) × (r ≡ err e))
  Result-cases (ok a) = inl (a, refl)
  Result-cases (err e) = inr (e, refl)

abbrev pub map_err {ℓ} : {E F : Type 0} {A : Type ℓ} → (E → F) → Result E A → Result F A
map_err f (ok a) = ok a
map_err f (err e) = err (f e)

-- `if b { return Err(e) }`
abbrev pub reject_if : {E : Type 0} → Bool → E → Result E (Unit {0})
reject_if true e = err e
reject_if false e = ok tt

pub ok-eq-ok {ℓ} : {E : Type 0} {A : Type ℓ} {a b : A} → ◌≡◌ {A = Result E A} (ok a) (ok b) → a ≡ b
ok-eq-ok h = cc
