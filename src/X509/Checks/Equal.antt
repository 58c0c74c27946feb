-- ===== src/X509/Checks/Equal.antt =====
-- When a check that two values are equal passes.
use text.Mathlib.Text.{◌==◌ as str_eq}
use text.Mathlib.TextEquality.{eq_iff}
use attestation.Common.{
  ℕ, ◌≡◌, ◌↔◌, arith, not, ◌==◌, String, Bytes, bytes_eq, bytes_eq_iff, Bool-cases, inl, inr,
  reject_if,
}
use attestation.X509.Checks.Laws.{Passes}

pub equal_octets_iff :
    {E : Type 0} (a b : Bytes) (e : E) → Passes (reject_if (not (bytes_eq a b)) e) ↔ (a ≡ b)
equal_octets_iff a b e = (
  (λ h. elim (Bool-cases (bytes_eq a b)) [
    | inl same ↦ (bytes_eq_iff a b).0 same
    | inr other ↦ cc (rw other at h)
  ]),
  (λ h. let same = (bytes_eq_iff a b).1 h in rw same),
)

pub equal_texts_iff :
    {E : Type 0} (a b : String) (e : E) → Passes (reject_if (not (str_eq a b)) e) ↔ (a ≡ b)
equal_texts_iff a b e = (
  (λ h. elim (Bool-cases (str_eq a b)) [
    | inl same ↦ (eq_iff a b).0 same
    | inr other ↦ cc (rw other at h)
  ]),
  (λ h. let same = (eq_iff a b).1 h in rw same),
)

pub equal_numbers_iff :
    {E : Type 0} (a b : ℕ) (e : E) → Passes (reject_if (not (a == b)) e) ↔ (a ≡ b)
equal_numbers_iff a b e = ((λ h. ground arith), (λ h. ground arith))
