-- ===== src/Android/Chain/Trust.antt =====
-- When `validate_chain` accepts a chain.
use mathlib.Core.Path.{subst}
use attestation.Common.{
  ℕ, ◌≡◌, ◌⊎◌, inl, inr, refl, ap, ◌∙◌, Bool, true, false, not, some, List, [], ◌∷◌, All, Any,
  All-map, Bytes, Result, ok, err, ok_or, is_ok, reject_if, >>=-eq-ok, ok_or-eq-ok, ok-eq-ok,
  Bool-cases,
}
use attestation.X509.{X509, Crypto}
use attestation.X509.Checks.{last_of, parse_all, check_all, check_links}
use attestation.X509.Checks.Laws.{
  InWindow, Linked, Parse, Passes, check_all_iff, check_links_iff, check_validity_iff,
  parse_all_iff, then-Passes,
}
use attestation.Android.Errors.{Error, der, untrusted_chain}
use attestation.Android.Chain.{
  root_matches_top, verify_signature, anchored, validate_chain, check_validity,
}

module _ (c : Crypto) (x : X509) where
  open x use {Certificate}

  abbrev pub Signed : Certificate → Certificate → Type 0
  Signed cert issuer = Passes (verify_signature c x cert issuer)

  -- The top of a chain is the root itself, or signed by it within the root's validity period.
  abbrev pub AnchoredAt : Certificate → ℕ → Certificate → Type 0
  AnchoredAt top now root =
      (root_matches_top x root top ≡ true) ⊎ (Signed top root × InWindow x now root)

  -- A chain with this leaf, all of whose certificates are within their validity periods and signed by
  -- the next, and whose top is anchored at one of the pinned roots.
  pub record IsTrusted (pinned chain : List Bytes) (now : ℕ) (leaf : Certificate) : Type 0 where
    pub uppers : List Certificate
    pub roots : List Certificate
    pub chain_parses : Parse x chain (leaf ∷ uppers)
    pub roots_parse : Parse x pinned roots
    pub in_window : All (InWindow x now) (leaf ∷ uppers)
    pub linked : Linked Signed leaf uppers
    pub anchor : Any (AnchoredAt (last_of leaf uppers) now) roots

  is_ok-Passes : (r : Result Error (Unit {0})) → is_ok r ≡ true → Passes r
  is_ok-Passes (ok tt) h = refl
  is_ok-Passes (err e) h = cc

  anchored-Any :
      (roots : List Certificate) (top : Certificate) (now : ℕ)
      → anchored c x roots top now ≡ ok true
      → Any (AnchoredAt top now) roots
  unfolding anchored
  anchored-Any [] top now h = cc
  anchored-Any (r ∷ rs) top now h = elim (Bool-cases (root_matches_top x r top)) [
    | inl same ↦ inl (inl same)
    | inr other ↦ elim (Bool-cases (is_ok (verify_signature c x top r))) [
      | inl signed ↦ inl (
          inr (
            is_ok-Passes _ signed,
            (check_validity_iff der untrusted_chain x now r).0
                (then-Passes (check_validity x r now) (ok true) (rw (other, signed) at h)).0,
          ))
      | inr unsigned ↦ inr (anchored-Any rs top now (rw (other, unsigned) at h))
    ]
  ]

  Any-anchored :
      (roots : List Certificate) (top : Certificate) (now : ℕ)
      → All (InWindow x now) roots
      → Any (AnchoredAt top now) roots
      → anchored c x roots top now ≡ ok true
  unfolding anchored
  Any-anchored [] top now w h = absurd h
  Any-anchored (r ∷ rs) top now (w, ws) h = elim (Bool-cases (root_matches_top x r top)) [
    | inl same ↦ rw same
    | inr other ↦ elim (Bool-cases (is_ok (verify_signature c x top r))) [
      | inl signed ↦
          let valid : Passes (check_validity x r now) =
            (check_validity_iff der untrusted_chain x now r).1 w in
          rw (other, signed, valid)
      | inr unsigned ↦
          rw (other, unsigned)
            (Any-anchored rs top now ws (elim h [
              | inl (inl same) ↦ cc (same, other)
              | inl (inr (signed, _)) ↦ cc (rw signed at unsigned)
              | inr later ↦ later
            ]))
    ]
  ]

  abbrev TrustedBy : List Bytes → ℕ → Certificate → Bytes → List Bytes → Type 0
  TrustedBy pinned now leaf c₀ cs = IsTrusted pinned (c₀ ∷ cs) now leaf

  window : (now : ℕ) (cert : Certificate) → Passes (check_validity x cert now) → InWindow x now cert
  window now cert = (check_validity_iff der untrusted_chain x now cert).0

  found-true : (b : Bool) → Passes (reject_if (not b) untrusted_chain) → b ≡ true
  found-true true h = refl
  found-true false h = cc

  pub validate_chain-IsTrusted :
      (pinned chain : List Bytes) (now : ℕ) (leaf : Certificate)
      → validate_chain c x pinned chain now ≡ ok leaf
      → IsTrusted pinned chain now leaf
  unfolding validate_chain
  validate_chain-IsTrusted pinned [] now leaf h = cc
  validate_chain-IsTrusted pinned (c₀ ∷ cs) now leaf h =
      let (first, e1, h1) = >>=-eq-ok (ok_or (X509.from_der x c₀) (der "cert parse")) _ h in
      let (uppers, e2, h2) = >>=-eq-ok (parse_all der untrusted_chain x "cert parse" cs) _ h1 in
      let (valid, h3) =
        then-Passes (check_all (λ cert. check_validity x cert now) (first ∷ uppers)) _ h2 in
      let (links, h4) = then-Passes (check_links (verify_signature c x) first uppers) _ h3 in
      let (roots, e5, h5) =
        >>=-eq-ok (parse_all der untrusted_chain x "pinned root parse" pinned) _ h4 in
      let (found, e6, h6) = >>=-eq-ok (anchored c x roots (last_of first uppers) now) _ h5 in
      let (e7, h7) = then-Passes (reject_if (not found) untrusted_chain) (ok first) h6 in
      subst (λ l. TrustedBy pinned now l c₀ cs) (ok-eq-ok h7)
        (record {
          uppers = uppers;
          roots = roots;
          chain_parses = (
            ok_or-eq-ok _ _ e1,
            (parse_all_iff der untrusted_chain x "cert parse" cs uppers).0 e2,
          );
          roots_parse = (parse_all_iff der untrusted_chain x "pinned root parse" pinned roots).0 e5;
          in_window =
              All-map (window now) (first ∷ uppers) ((check_all_iff _ (first ∷ uppers)).0 valid);
          linked = (check_links_iff _ first uppers).0 links;
          anchor = anchored-Any roots (last_of first uppers) now (e6 ∙ ap ok (found-true found e7));
        })

  -- Where the pinned roots are all within their validity periods, every trusted chain is accepted, and
  -- its leaf returned.
  pub IsTrusted-validate_chain :
      (pinned chain : List Bytes) (now : ℕ) (leaf : Certificate)
      (t : IsTrusted pinned chain now leaf)
      → All (InWindow x now) t.roots
      → validate_chain c x pinned chain now ≡ ok leaf
  unfolding validate_chain
  IsTrusted-validate_chain pinned [] now leaf t ws = absurd (t.chain_parses)
  IsTrusted-validate_chain pinned (c₀ ∷ cs) now leaf t ws =
      let first : X509.from_der x c₀ ≡ some leaf = t.chain_parses.0 in
      let rest =
        (parse_all_iff der untrusted_chain x "cert parse" cs t.uppers).1 (t.chain_parses.1) in
      let valid = (check_all_iff (λ cert. check_validity x cert now) (leaf ∷ t.uppers)).1 (
        All-map (λ cert. (check_validity_iff der untrusted_chain x now cert).1) (leaf ∷ t.uppers)
          t.in_window) in
      let links = (check_links_iff (verify_signature c x) leaf t.uppers).1 t.linked in
      let parsed =
        (parse_all_iff der untrusted_chain x "pinned root parse" pinned t.roots).1 t.roots_parse in
      let found = Any-anchored t.roots (last_of leaf t.uppers) now ws t.anchor in
      rw (first, rest, valid, links, parsed, found)
