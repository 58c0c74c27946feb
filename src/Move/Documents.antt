-- ===== src/Move/Documents.antt =====
-- What the three `verify` functions of the attest packages share, word for word: `assert_pcrs_match`, the
-- constants, and the checks of the document against the encoded payload, the clock and the policy.
pub mod Measured
pub mod Pcrs
pub mod Laws
use attestation.Common.{
  ℕ, ◌*◌, not, ◌&&◌, ◌==◌, ltb, Bool, true, false, if◌then◌else◌, List, [], ◌∷◌, Bytes, bytes_eq,
  Result, ok, ok_or, reject_if, ◌>>=◌, ◌>>◌,
}
use attestation.Move.Framework.{Abort, code, add_u64, PcrEntry, Document, Policy, Sui}

abbrev pub stale_outcome : Abort
stale_outcome = code 1

abbrev pub future_outcome : Abort
future_outcome = code 2

abbrev pub wrong_pcr : Abort
wrong_pcr = code 3

abbrev pub missing_user_data : Abort
missing_user_data = code 4

abbrev pub payload_mismatch : Abort
payload_mismatch = code 5

abbrev pub missing_public_key : Abort
missing_public_key = code 6

abbrev pub max_outcome_age_ms : ℕ
max_outcome_age_ms = 5 * 60 * 1000

abbrev pub max_clock_skew_ms : ℕ
max_clock_skew_ms = 30 * 1000

-- The `while` of `assert_pcrs_match`, and the assertion after it, on what has been found so far.
unfoldable pub pcr_loop :
    Policy → List PcrEntry → (found_0 found_1 found_2 : Bool) → Result Abort (Unit {0})
pcr_loop policy [] found_0 found_1 found_2 =
    reject_if (not (found_0 && found_1 && found_2)) wrong_pcr
pcr_loop policy (entry ∷ pcrs) found_0 found_1 found_2 =
    let expect_0 = reject_if (not (bytes_eq entry.value policy.pcr0)) wrong_pcr in
    let expect_1 = reject_if (not (bytes_eq entry.value policy.pcr1)) wrong_pcr in
    let expect_2 = reject_if (not (bytes_eq entry.value policy.pcr2)) wrong_pcr in
    let rest_0 = pcr_loop policy pcrs true found_1 found_2 in
    let rest_1 = pcr_loop policy pcrs found_0 true found_2 in
    let rest_2 = pcr_loop policy pcrs found_0 found_1 true in
    let rest = pcr_loop policy pcrs found_0 found_1 found_2 in
    if entry.index == 0
    then expect_0 >> rest_0
    else if entry.index == 1
    then expect_1 >> rest_1
    else if entry.index == 2
    then expect_2 >> rest_2
    else rest

abbrev pub assert_pcrs_match : Policy → Document → Result Abort (Unit {0})
assert_pcrs_match policy doc = pcr_loop policy doc.pcrs false false false

-- The checks of `verify`, in its order: the user data and the time of an accepted document.
unfoldable pub accept : Sui → Policy → Document → Bytes → ℕ → Result Abort (Bytes × ℕ)
accept sui policy doc payload_bcs now = do
  assert_pcrs_match policy doc
  user_data ← ok_or doc.user_data missing_user_data
  reject_if (not (bytes_eq user_data (Sui.sha2_256 sui payload_bcs))) payload_mismatch
  stale_at ← add_u64 doc.timestamp max_outcome_age_ms
  reject_if (ltb stale_at now) stale_outcome
  latest ← add_u64 now max_clock_skew_ms
  reject_if (ltb latest doc.timestamp) future_outcome
  pk ← ok_or doc.public_key missing_public_key
  ok (user_data, doc.timestamp)
