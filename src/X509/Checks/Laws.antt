-- ===== src/X509/Checks/Laws.antt =====
-- When the checks of `Checks` pass.
use attestation.Common.{
  ℕ, ◌*◌, ◌≤◌, ◌≡◌, ◌↔◌, refl, arith, String, true, some, List, [], ◌∷◌, All, Bytes, Result, ok,
  err, ok_or, ◌>>◌, >>=-eq-ok, ok_or-eq-ok, ok-eq-ok, Bool-cases, inl, inr, ap, ◌∙◌,
}
use mathlib.Core.Path.{subst}
use attestation.X509.{Extension, X509}
use attestation.X509.Checks.{
  oid_basic_constraints, find_extension, check_is_ca, check_validity, parse_all, check_all,
  check_links,
}

-- The clock lies within the validity period of the certificate.
abbrev pub InWindow : (x : X509) → ℕ → X509.Certificate x → Type 0
InWindow x now cert = (X509.not_before x cert * 1000 ≤ now) × (now ≤ X509.not_after x cert * 1000)

-- Each certificate passes the check against the next.
abbrev pub Linked : {C : Type 0} → (C → C → Type 0) → C → List C → Type 0
Linked R c [] = Unit {0}
Linked R c (d ∷ ds) = R c d × Linked R d ds

-- The encodings parse, in order, as the certificates.
abbrev pub Parse : (x : X509) → List Bytes → List (X509.Certificate x) → Type 0
Parse x [] [] = Unit {0}
Parse x (b ∷ bs) (c ∷ cs) = (X509.from_der x b ≡ some c) × Parse x bs cs
Parse x [] (c ∷ cs) = ⊥
Parse x (b ∷ bs) [] = ⊥

abbrev pub Passes : {E : Type 0} → Result E (Unit {0}) → Type 0
Passes r = r ≡ ok tt

pub seq-Passes : {E : Type 0} (m n : Result E (Unit {0})) → Passes (m >> n) ↔ (Passes m × Passes n)
seq-Passes (ok tt) n = ((λ h. (refl, h)), (λ h. h.1))
seq-Passes (err e) n = ((λ h. cc), (λ h. cc (h.0)))

pub then-Passes {ℓ} :
    {E : Type 0} {B : Type ℓ} (m : Result E (Unit {0})) (n : Result E B) {b : B}
    → (m >> n) ≡ ok b
    → Passes m × (n ≡ ok b)
then-Passes (ok tt) n h = (refl, h)
then-Passes (err e) n h = cc

pub check_all_iff :
    {E C : Type 0} (check : C → Result E (Unit {0})) (cs : List C)
    → Passes (check_all check cs) ↔ All (λ c. Passes (check c)) cs
unfolding check_all
check_all_iff check [] = ((λ _. tt), (λ _. refl))
check_all_iff check (c ∷ cs) = (
  (λ h.
      let (p, q) = (seq-Passes (check c) (check_all check cs)).0 h in
      (p, (check_all_iff check cs).0 q)),
  (λ h. (seq-Passes (check c) (check_all check cs)).1 (h.0, (check_all_iff check cs).1 h.1)),
)

pub check_links_iff :
    {E C : Type 0} (check : C → C → Result E (Unit {0})) (c : C) (cs : List C)
    → Passes (check_links check c cs) ↔ Linked (λ a b. Passes (check a b)) c cs
unfolding check_links
check_links_iff check c [] = ((λ _. tt), (λ _. refl))
check_links_iff check c (d ∷ ds) = (
  (λ h.
      let (p, q) = (seq-Passes (check c d) (check_links check d ds)).0 h in
      (p, (check_links_iff check d ds).0 q)),
  (λ h.
      (seq-Passes (check c d) (check_links check d ds)).1
        (h.0, (check_links_iff check d ds).1 h.1)),
)

-- The first extension that holds basic constraints has the CA flag.
abbrev pub IsCa : (x : X509) → X509.Certificate x → Type 0
IsCa x cert =
    (exts : List Extension) × (ext : Extension) × (X509.extensions x cert ≡ some exts)
    × (find_extension oid_basic_constraints exts ≡ some ext)
    × (X509.basic_constraints x ext.extn_value ≡ some true)

module _ {E : Type 0} (der : String → E) (untrusted_chain : E) (x : X509) where
  pub check_validity_iff :
      (now : ℕ) (cert : X509.Certificate x)
      → Passes (check_validity der untrusted_chain x cert now) ↔ InWindow x now cert
  unfolding check_validity
  check_validity_iff now cert = ((λ h. ground arith), (λ h. ground arith))

  parse_all-Parse :
      (message : String) (bs : List Bytes) (cs : List (X509.Certificate x))
      → parse_all der untrusted_chain x message bs ≡ ok cs
      → Parse x bs cs
  unfolding parse_all
  parse_all-Parse message [] [] h = tt
  parse_all-Parse message [] (c ∷ cs) h = cc
  parse_all-Parse message (b ∷ bs) cs h =
      let (cert, e1, h') = >>=-eq-ok (ok_or (X509.from_der x b) (der message)) _ h in
      let (certs, e2, h'') = >>=-eq-ok (parse_all der untrusted_chain x message bs) _ h' in
      subst (Parse x (b ∷ bs)) (ok-eq-ok h'')
        (ok_or-eq-ok (X509.from_der x b) (der message) e1, parse_all-Parse message bs certs e2)

  Parse-parse_all :
      (message : String) (bs : List Bytes) (cs : List (X509.Certificate x))
      → Parse x bs cs
      → parse_all der untrusted_chain x message bs ≡ ok cs
  unfolding parse_all
  Parse-parse_all message [] [] h = refl
  Parse-parse_all message [] (c ∷ cs) h = absurd h
  Parse-parse_all message (b ∷ bs) [] h = absurd h
  Parse-parse_all message (b ∷ bs) (c ∷ cs) (e, h) = rw (e, Parse-parse_all message bs cs h)

  pub parse_all_iff :
      (message : String) (bs : List Bytes) (cs : List (X509.Certificate x))
      → (parse_all der untrusted_chain x message bs ≡ ok cs) ↔ Parse x bs cs
  parse_all_iff message bs cs = (parse_all-Parse message bs cs, Parse-parse_all message bs cs)

  check_is_ca-IsCa :
      (cert : X509.Certificate x) → Passes (check_is_ca der untrusted_chain x cert) → IsCa x cert
  unfolding check_is_ca
  check_is_ca-IsCa cert h =
      let (exts, e1, h1) = >>=-eq-ok (ok_or (X509.extensions x cert) _) _ h in
      let (ext, e2, h2) = >>=-eq-ok (ok_or (find_extension oid_basic_constraints exts) _) _ h1 in
      let (ca, e3, h3) = >>=-eq-ok (ok_or (X509.basic_constraints x ext.extn_value) _) _ h2 in
      (
        exts,
        ext,
        ok_or-eq-ok _ _ e1,
        ok_or-eq-ok _ _ e2,
        elim (Bool-cases ca) [
          | inl yes_ca ↦ ok_or-eq-ok _ _ e3 ∙ ap some yes_ca
          | inr no_ca ↦ cc (rw no_ca at h3)
        ],
      )

  pub check_is_ca_iff :
      (cert : X509.Certificate x) → Passes (check_is_ca der untrusted_chain x cert) ↔ IsCa x cert
  unfolding check_is_ca
  check_is_ca_iff cert =
      (check_is_ca-IsCa cert, (λ h. let (exts, ext, has, finds, ca) = h in rw (has, finds, ca)))
