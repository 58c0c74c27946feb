-- ===== src/Android/Revocation/Steps.antt =====
-- Each step of the parser of the status list leaves fewer bytes.
use attestation.Common.{
  ℕ, ◌≤◌, ◌<◌, ◌≡◌, inl, inr, Bool, true, false, not, ◌&&◌, none, some, [], ◌∷◌, ◌==◌, arith,
  if◌then◌else◌, length, Bytes, Result, ok, err, ◌>>=◌, Option-cases,
}
use attestation.Common.Text.{is_utf8}
use attestation.Android.Errors.{Error}
use attestation.Android.Revocation.{
  Stop, fault, out_of_fuel, skip_ws, take_char, open_string, expect_char, scan, read_string,
  after_comma,
}

pub length-skip_ws : (bs : Bytes) → length (skip_ws bs) ≤ length bs
unfolding skip_ws
length-skip_ws [] = omega arith
length-skip_ws (c ∷ bs) = ground (arith, length-skip_ws bs)

-- A step fails for a fault of the text, or leaves fewer bytes than it was given.
abbrev pub Shrinks {ℓ} : {A : Type ℓ} → (A → ℕ) → ℕ → Result Stop A → Type 0
Shrinks left n (ok a) = left a < n
Shrinks left n (err (fault e)) = Unit {0}
Shrinks left n (err out_of_fuel) = ⊥

abbrev pub left_of : {A : Type 0} → A × Bytes → ℕ
left_of r = length r.1

take_char-Shrinks : (c : ℕ) (bs : Bytes) → Shrinks length (length bs) (take_char c bs)
take_char-Shrinks c [] = tt
take_char-Shrinks c (b ∷ bs) = ground arith

pub Shrinks-mono {ℓ} :
    {A : Type ℓ} (left : A → ℕ) (m n : ℕ) (r : Result Stop A)
    → m ≤ n
    → Shrinks left m r
    → Shrinks left n r
Shrinks-mono left m n (ok a) h s = omega arith
Shrinks-mono left m n (err (fault e)) h s = tt
Shrinks-mono left m n (err out_of_fuel) h s = s

pub expect_char-Shrinks : (bs : Bytes) (c : ℕ) → Shrinks length (length bs) (expect_char bs c)
unfolding expect_char
expect_char-Shrinks bs c =
    Shrinks-mono length _ _ (take_char c (skip_ws bs)) (length-skip_ws bs)
      (take_char-Shrinks c (skip_ws bs))

-- What follows a step that shrinks: it fails, or shrinks too.
pub Shrinks-bind {ℓ κ} :
    {A : Type ℓ} {B : Type κ} (left : A → ℕ) (left' : B → ℕ) (n : ℕ) (r : Result Stop A)
    (f : A → Result Stop B)
    → Shrinks left n r
    → ((a : A) → left a < n → Shrinks left' n (f a))
    → Shrinks left' n (r >>= f)
Shrinks-bind left left' n (ok a) f s k = k a s
Shrinks-bind left left' n (err (fault e)) f s k = tt
Shrinks-bind left left' n (err out_of_fuel) f s k = s

scan_shorter :
    (esc : Bool) (bs : Bytes) (r : Bytes × Bytes) → scan esc bs ≡ some r → length r.1 < length bs
unfolding scan
scan_shorter esc [] r e = cc
scan_shorter esc (c ∷ bs) r e = elim (Option-cases (scan (not esc && c == b'\\') bs)) [
  | inl stuck ↦ ground (arith, stuck)
  | inr (t, more) ↦ ground (arith, more, scan_shorter (not esc && c == b'\\') bs t more)
]

open_string-Shrinks : (bs : Bytes) → Shrinks length (length bs) (open_string bs)
unfolding open_string
open_string-Shrinks [] = tt
open_string-Shrinks (b ∷ bs) = ground arith

checked-Shrinks :
    (n : ℕ) (r : Bytes × Bytes) (b : Bool) (e : Error)
    → length r.1 < n
    → Shrinks left_of n (if b then ok r else err (fault e))
checked-Shrinks n r true e h = h
checked-Shrinks n r false e h = tt

pub read_string-Shrinks : (bs : Bytes) → Shrinks left_of (length bs) (read_string bs)
unfolding read_string
read_string-Shrinks bs =
    Shrinks-bind length left_of (length bs) (open_string (skip_ws bs)) _
      (Shrinks-mono length _ _ (open_string (skip_ws bs)) (length-skip_ws bs)
        (open_string-Shrinks (skip_ws bs)))
      (λ rest lt. elim (Option-cases (scan false rest)) [
        | inl stuck ↦ rw stuck tt
        | inr (r, found) ↦ rw found (
            checked-Shrinks (length bs) r (is_utf8 r.0) _
              (omega (arith, scan_shorter false rest r found)))
      ])

-- Behind white space, as the parser mostly calls it.
pub expect_behind :
    (n : ℕ) (bs : Bytes) (c : ℕ) → length bs < n → Shrinks length n (expect_char (skip_ws bs) c)
expect_behind n bs c h =
    Shrinks-mono length _ _ (expect_char (skip_ws bs) c) (omega (arith, length-skip_ws bs))
      (expect_char-Shrinks (skip_ws bs) c)

pub expect_after :
    (n : ℕ) (bs : Bytes) (c : ℕ) → length bs < n → Shrinks length n (expect_char bs c)
expect_after n bs c h =
    Shrinks-mono length _ _ (expect_char bs c) (omega arith) (expect_char-Shrinks bs c)

pub read_string_behind : (n : ℕ) (bs : Bytes) → length bs ≤ n → Shrinks left_of n (read_string bs)
read_string_behind n bs h = Shrinks-mono left_of _ _ (read_string bs) h (read_string-Shrinks bs)

after_comma_shorter : (bs next : Bytes) → after_comma bs ≡ some next → length next < length bs
after_comma_shorter [] next e = cc
after_comma_shorter (b ∷ bs) next e = ground (arith, length-skip_ws bs)

-- The end of a loop's round: it goes round again on fewer bytes, or ends.
pub round-Shrinks {ℓ} :
    {A : Type ℓ} (left : A → ℕ) (n : ℕ) (bs : Bytes) (again : Bytes → Result Stop A) (done : A)
    → length bs < n
    → left done ≤ length bs
    → ((next : Bytes) → length next < length bs → Shrinks left n (again next))
    → Shrinks left n (elim (after_comma bs) [ some next ↦ again next | none ↦ ok done ])
round-Shrinks left n bs again done h d k = elim (Option-cases (after_comma bs)) [
  | inl last ↦ rw (last) (omega arith)
  | inr (next, more) ↦ rw more (k next (after_comma_shorter bs next more))
]
