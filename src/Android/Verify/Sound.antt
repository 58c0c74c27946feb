-- ===== src/Android/Verify/Sound.antt =====
-- When `verify_attestation` produces an outcome.
use mathlib.Core.Path.{subst}
use attestation.Common.{
  ℕ, ◌≤◌, ◌≡◌, refl, sym, arith, not, some, List, All, Bytes, bytes_eq, bytes_eq_iff, ok, ok_or,
  reject_if, >>=-eq-ok, ok_or-eq-ok, ok-eq-ok,
}
use attestation.Core.{Outcome, android_key_attest}
use attestation.X509.{Extension, X509, Crypto}
use attestation.X509.Checks.{find_extension}
use attestation.X509.Checks.Laws.{InWindow, Passes, then-Passes}
use attestation.X509.Checks.Equal.{equal_octets_iff}
use attestation.Android.Errors.{SecurityLevel, insufficient_security_level}
use attestation.Android.Der.{Der}
use attestation.Android.Description.{KeyDescription, from_der, rank, meets}
use attestation.Android.Chain.{validate_chain}
use attestation.Android.Chain.Trust.{IsTrusted, validate_chain-IsTrusted, IsTrusted-validate_chain}
use attestation.Android.Verify.{
  Policy, oid_android_key_attestation, check_statuses, check_verified_boot,
  extract_attestation_extension, to_der_vec, canonical_chain_hash_input, verify_attestation,
}
use attestation.Android.Verify.Revoked.{
  NoneFound, check_statuses-NoneFound, NoneFound-check_statuses,
}
use attestation.Android.Verify.Accepts.{BootAccepted, check_verified_boot_iff}

module _ (x : X509) where
  open x use {Certificate}

  -- The first extension of the certificate with Android's object identifier holds the bytes.
  abbrev pub Extends : Certificate → Bytes → Type 0
  Extends cert bytes =
      (exts : List Extension) × (ext : Extension) × (X509.extensions x cert ≡ some exts)
      × (find_extension oid_android_key_attestation exts ≡ some ext)
      × (ext.extn_value ≡ bytes)

  extract-Extends :
      (cert : Certificate) (bytes : Bytes)
      → extract_attestation_extension x cert ≡ ok bytes
      → Extends cert bytes
  unfolding extract_attestation_extension
  extract-Extends cert bytes h =
      let (exts, e1, h1) = >>=-eq-ok (ok_or (X509.extensions x cert) _) _ h in
      let (ext, e2, h2) =
        >>=-eq-ok (ok_or (find_extension oid_android_key_attestation exts) _) _ h1 in
      (exts, ext, ok_or-eq-ok _ _ e1, ok_or-eq-ok _ _ e2, ok-eq-ok h2)

meets-rank :
    {E : Type 0} (a b : SecurityLevel) (e : E)
    → Passes (reject_if (not (meets a b)) e)
    → rank b ≤ rank a
unfolding meets
meets-rank a b e h = ground arith

meets_self :
    {E : Type 0} (a b : SecurityLevel) (e : E)
    → rank b ≤ rank a
    → Passes (reject_if (not (meets a b)) e)
unfolding meets
meets_self a b e h = ground arith

module _ (x : X509) (c : Crypto) (d : Der) (pinned : List Bytes) where
  -- The outcome reports this chain, verified under the policy at this time: the chain is trusted, the status
  -- list has no entry under the text that `serial_hex` prints for a serial number of it, its leaf's key description has the challenge, the security levels and a boot state that the
  -- policy accepts, and the outcome's fields are those of the leaf and of the chain.
  pub record IsAttested (chain : List Bytes) (challenge : Bytes) (policy : Policy) (now : ℕ)
      (o : Outcome) : Type 0 where
    pub leaf : X509.Certificate x
    pub trusted : IsTrusted c x pinned chain now leaf
    pub unfound : NoneFound x policy.status_list chain
    pub ext_value : Bytes
    pub extension : Extends x leaf ext_value
    pub kd : KeyDescription
    pub description : from_der d ext_value ≡ ok kd
    pub challenged : kd.attestation_challenge ≡ challenge
    pub attestation_level : rank policy.min_security_level ≤ rank kd.attestation_security_level
    pub keymint_level : rank policy.min_security_level ≤ rank kd.keymint_security_level
    pub boot : BootAccepted policy kd.hardware_enforced.root_of_trust
    pub source : o.source ≡ android_key_attest
    pub attested_value : X509.spki_der x leaf ≡ some o.attested_value
    pub echo : o.challenge ≡ challenge
    pub time : o.timestamp_ms ≡ now
    pub detail : o.detail_hash ≡ Crypto.sha256 c (canonical_chain_hash_input chain)

  abbrev outcome_of : Bytes → List Bytes → Bytes → ℕ → Outcome
  outcome_of spki chain challenge now = record {
    source = android_key_attest;
    attested_value = spki;
    challenge = challenge;
    timestamp_ms = now;
    detail_hash = Crypto.sha256 c (canonical_chain_hash_input chain);
  }

  -- Whenever `verify_attestation` returns an outcome, the chain is trusted at the clock, the policy's status
  -- list, if there is one, has no entry under the text that the code prints for any of its serial numbers,
  -- the leaf carries a key description with the challenge, both security levels meet the policy, the boot
  -- state is accepted, and every field of the outcome is that of the leaf and the chain.
  pub verify_attestation-IsAttested :
      (chain : List Bytes) (challenge : Bytes) (policy : Policy) (now : ℕ) (o : Outcome)
      → verify_attestation x c d pinned chain challenge policy now ≡ ok o
      → IsAttested chain challenge policy now o
  unfolding verify_attestation
  verify_attestation-IsAttested chain challenge policy now o h =
      let (leaf, e1, h1) = >>=-eq-ok (validate_chain c x pinned chain now) _ h in
      let (e2, h2) = then-Passes (check_statuses x policy.status_list chain) _ h1 in
      let (ext_value, e3, h3) = >>=-eq-ok (extract_attestation_extension x leaf) _ h2 in
      let (kd, e4, h4) = >>=-eq-ok (from_der d ext_value) _ h3 in
      let (e5, h5) =
        then-Passes (reject_if (not (bytes_eq kd.attestation_challenge challenge)) _) _ h4 in
      let (e6, h6) =
        then-Passes
          (reject_if (not (meets kd.attestation_security_level policy.min_security_level)) _) _
          h5 in
      let (e7, h7) =
        then-Passes (reject_if (not (meets kd.keymint_security_level policy.min_security_level)) _)
          _ h6 in
      let (e8, h8) =
        then-Passes (check_verified_boot policy kd.hardware_enforced.root_of_trust) _ h7 in
      let (spki, e9, h9) = >>=-eq-ok (to_der_vec x leaf) _ h8 in
      subst (IsAttested chain challenge policy now) (ok-eq-ok h9) (record {
        leaf = leaf;
        trusted = validate_chain-IsTrusted c x pinned chain now leaf e1;
        unfound = check_statuses-NoneFound x policy.status_list chain e2;
        ext_value = ext_value;
        extension = extract-Extends x leaf ext_value e3;
        kd = kd;
        description = e4;
        challenged = (equal_octets_iff _ _ _).0 e5;
        attestation_level = meets-rank _ _ _ e6;
        keymint_level = meets-rank _ _ _ e7;
        boot = (check_verified_boot_iff policy _).0 e8;
        source = refl;
        attested_value = ok_or-eq-ok _ _ e9;
        echo = refl;
        time = refl;
        detail = refl;
      })

  -- Where the pinned roots are all within their validity periods, an outcome is produced for every chain
  -- that is attested so.
  pub IsAttested-verify_attestation :
      (chain : List Bytes) (challenge : Bytes) (policy : Policy) (now : ℕ) (o : Outcome)
      (a : IsAttested chain challenge policy now o)
      → All (InWindow x now) a.trusted.roots
      → verify_attestation x c d pinned chain challenge policy now ≡ ok o
  unfolding verify_attestation extract_attestation_extension
  IsAttested-verify_attestation chain challenge policy now o a ws =
      let leaf = IsTrusted-validate_chain c x pinned chain now a.leaf a.trusted ws in
      let fresh = NoneFound-check_statuses x policy.status_list chain a.unfound in
      let (exts, ext, has, finds, holds) = a.extension in
      let same = (bytes_eq_iff a.kd.attestation_challenge challenge).1 a.challenged in
      let level =
        meets_self a.kd.attestation_security_level policy.min_security_level
          (insufficient_security_level a.kd.attestation_security_level policy.min_security_level)
          a.attestation_level in
      let key_level =
        meets_self a.kd.keymint_security_level policy.min_security_level
          (insufficient_security_level a.kd.keymint_security_level policy.min_security_level)
          a.keymint_level in
      let boots = (check_verified_boot_iff policy a.kd.hardware_enforced.root_of_trust).1 a.boot in
      rw
        (
          leaf,
          fresh,
          has,
          finds,
          holds,
          a.description,
          same,
          level,
          key_level,
          boots,
          a.attested_value,
          sym a.source,
          sym a.echo,
          sym a.time,
          sym a.detail,
        )
        refl
