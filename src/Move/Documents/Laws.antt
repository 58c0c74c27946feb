-- ===== src/Move/Documents/Laws.antt =====
-- When the checks on a document pass.
use attestation.Common.{
  ℕ, ◌+◌, ◌^◌, ◌≤◌, ◌<◌, ◌≡◌, ◌↔◌, ◌∙◌, sym, ap, refl, arith, not, ltb, some, Bytes, bytes_eq, ok,
  ok_or, reject_if, >>=-eq-ok, ok_or-eq-ok, ok-eq-ok,
}
use attestation.X509.Checks.Laws.{Passes, then-Passes}
use attestation.X509.Checks.Equal.{equal_octets_iff}
use attestation.Move.Framework.{add_u64, Document, Policy, Sui}
use attestation.Move.Documents.{
  accept, assert_pcrs_match, payload_mismatch, stale_outcome, future_outcome,
}
use attestation.Move.Documents.Measured.{FromImage}
use attestation.Move.Documents.Pcrs.{assert_pcrs_match_iff}

-- The clock is at most five minutes after the document and at most thirty seconds before it, and neither
-- bound overflows.
pub record Fresh (stamp now : ℕ) : Type 0 where
  pub recent : now ≤ stamp + 300000
  pub past : stamp ≤ now + 30000
  pub stamp_fits : stamp + 300000 < 2 ^ 64
  pub now_fits : now + 30000 < 2 ^ 64

-- The document is of the image, binds the digest of the payload, is fresh and names a key.
pub record Accepted (sui : Sui) (policy : Policy) (doc : Document) (payload : Bytes) (now : ℕ)
    : Type 0 where
  pub image : FromImage policy doc.pcrs
  pub bound : doc.user_data ≡ some (Sui.sha2_256 sui payload)
  pub fresh : Fresh doc.timestamp now
  pub key : Bytes
  pub names_key : doc.public_key ≡ some key

add_u64-eq-ok : (a b : ℕ) {c : ℕ} → add_u64 a b ≡ ok c → (a + b ≡ c) × (a + b < 2 ^ 64)
unfolding add_u64
add_u64-eq-ok a b h = ground arith

add_u64-fits : (a b : ℕ) → a + b < 2 ^ 64 → add_u64 a b ≡ ok (a + b)
unfolding add_u64
add_u64-fits a b h = ground arith

not_ltb : {E : Type 0} (a b : ℕ) (e : E) → Passes (reject_if (ltb a b) e) ↔ (b ≤ a)
not_ltb a b e = ((λ h. ground arith), (λ h. ground arith))

module _ (sui : Sui) (policy : Policy) (doc : Document) (payload : Bytes) (now : ℕ) where
  pub accept-Accepted :
      {user_data : Bytes} {stamp : ℕ}
      → accept sui policy doc payload now ≡ ok (user_data, stamp)
      → Accepted sui policy doc payload now
        × (user_data ≡ Sui.sha2_256 sui payload)
        × (stamp ≡ doc.timestamp)
  unfolding accept
  accept-Accepted h =
      let (image, h1) = then-Passes (assert_pcrs_match policy doc) _ h in
      let (user_data, e2, h2) = >>=-eq-ok (ok_or doc.user_data _) _ h1 in
      let (bound, h3) =
        then-Passes (reject_if (not (bytes_eq user_data (Sui.sha2_256 sui payload))) _) _ h2 in
      let (stale_at, e4, h4) = >>=-eq-ok (add_u64 doc.timestamp _) _ h3 in
      let (recent, h5) = then-Passes (reject_if (ltb stale_at now) _) _ h4 in
      let (latest, e6, h6) = >>=-eq-ok (add_u64 now _) _ h5 in
      let (past, h7) = then-Passes (reject_if (ltb latest doc.timestamp) _) _ h6 in
      let (key, e8, h8) = >>=-eq-ok (ok_or doc.public_key _) _ h7 in
      let same = (equal_octets_iff user_data (Sui.sha2_256 sui payload) payload_mismatch).0 bound in
      let (stale, stale_fits) = add_u64-eq-ok doc.timestamp _ e4 in
      let (late, late_fits) = add_u64-eq-ok now _ e6 in
      let recent_ = (not_ltb stale_at now _).0 recent in
      let past_ = (not_ltb latest doc.timestamp _).0 past in
      (
        record {
          image = (assert_pcrs_match_iff policy doc).0 image;
          bound = ok_or-eq-ok _ _ e2 ∙ ap some same;
          fresh = record {
            recent = omega arith;
            past = omega arith;
            stamp_fits = stale_fits;
            now_fits = late_fits;
          };
          key = key;
          names_key = ok_or-eq-ok _ _ e8;
        },
        sym (ap (λ (r : Bytes × ℕ). r.0) (ok-eq-ok h8)) ∙ same,
        sym (ap (λ (r : Bytes × ℕ). r.1) (ok-eq-ok h8)),
      )

  pub Accepted-accept :
      Accepted sui policy doc payload now
      → accept sui policy doc payload now ≡ ok (Sui.sha2_256 sui payload, doc.timestamp)
  unfolding accept
  Accepted-accept a =
      let image = (assert_pcrs_match_iff policy doc).1 a.image in
      let same =
        (equal_octets_iff (Sui.sha2_256 sui payload) (Sui.sha2_256 sui payload) payload_mismatch).1
          refl in
      let stale = add_u64-fits doc.timestamp 300000 (Fresh.stamp_fits a.fresh) in
      let recent = (not_ltb (doc.timestamp + 300000) now stale_outcome).1 (Fresh.recent a.fresh) in
      let latest = add_u64-fits now 30000 (Fresh.now_fits a.fresh) in
      let past = (not_ltb (now + 30000) doc.timestamp future_outcome).1 (Fresh.past a.fresh) in
      rw (image, a.bound, same, stale, recent, latest, past, a.names_key) refl
