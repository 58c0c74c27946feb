-- ===== src/Apple/Chain/Trust.antt =====
-- When `validate_x5c_chain` accepts a chain.
use mathlib.Core.Path.{subst}
use attestation.Common.{
  ℕ, ◌≡◌, ◌↔◌, some, List, [], ◌∷◌, All, All-map, Bytes, ok, ok_or, >>=-eq-ok, ok_or-eq-ok,
  ok-eq-ok,
}
use attestation.X509.{X509, Crypto}
use attestation.X509.Checks.{last_of, parse_all, check_all, check_links}
use attestation.X509.Checks.Laws.{
  InWindow, Linked, Parse, Passes, IsCa, check_all_iff, check_links_iff, check_validity_iff,
  check_is_ca_iff, parse_all_iff, then-Passes,
}
use attestation.Apple.Errors.{der, untrusted_chain}
use attestation.Apple.Chain.{check_validity, check_is_ca, verify_signature, validate_x5c_chain}

module _ (c : Crypto) (x : X509) where
  open x use {Certificate}

  abbrev pub Signed : Certificate → Certificate → Type 0
  Signed cert issuer = Passes (verify_signature c x cert issuer)

  -- A chain with this leaf whose certificates are all within their validity periods, all but the leaf CA
  -- certificates, each signed by the next and the top by the pinned root, a CA certificate within its
  -- validity period.
  pub record IsTrusted (root_der : Bytes) (chain : List Bytes) (now : ℕ) (leaf : Certificate)
      : Type 0 where
    pub uppers : List Certificate
    pub root : Certificate
    pub chain_parses : Parse x chain (leaf ∷ uppers)
    pub root_parses : X509.from_der x root_der ≡ some root
    pub in_window : All (InWindow x now) (leaf ∷ uppers)
    pub issuers : All (IsCa x) uppers
    pub linked : Linked Signed leaf uppers
    pub root_in_window : InWindow x now root
    pub root_issuer : IsCa x root
    pub anchor : Signed (last_of leaf uppers) root

  window_iff :
      (now : ℕ) (cert : Certificate) → Passes (check_validity x cert now) ↔ InWindow x now cert
  window_iff now cert = check_validity_iff der untrusted_chain x now cert

  IsCa-iff : (cert : Certificate) → Passes (check_is_ca x cert) ↔ IsCa x cert
  IsCa-iff cert = check_is_ca_iff der untrusted_chain x cert

  -- `validate_x5c_chain` accepts only a trusted chain, and returns its leaf.
  pub validate_x5c_chain-IsTrusted :
      (root_der : Bytes) (chain : List Bytes) (now : ℕ) (leaf : Certificate)
      → validate_x5c_chain c x root_der chain now ≡ ok leaf
      → IsTrusted root_der chain now leaf
  unfolding validate_x5c_chain
  validate_x5c_chain-IsTrusted root_der [] now leaf h = cc
  validate_x5c_chain-IsTrusted root_der (c₀ ∷ cs) now leaf h =
      let (first, e1, h1) = >>=-eq-ok (ok_or (X509.from_der x c₀) (der "cert parse")) _ h in
      let (uppers, e2, h2) = >>=-eq-ok (parse_all der untrusted_chain x "cert parse" cs) _ h1 in
      let (e3, h3) =
        then-Passes (check_all (λ cert. check_validity x cert now) (first ∷ uppers)) _ h2 in
      let (e4, h4) = then-Passes (check_all (check_is_ca x) uppers) _ h3 in
      let (e5, h5) = then-Passes (check_links (verify_signature c x) first uppers) _ h4 in
      let (root, e6, h6) =
        >>=-eq-ok (ok_or (X509.from_der x root_der) (der "pinned root parse")) _ h5 in
      let (e7, h7) = then-Passes (check_validity x root now) _ h6 in
      let (e8, h8) = then-Passes (check_is_ca x root) _ h7 in
      let (e9, h9) = then-Passes (verify_signature c x (last_of first uppers) root) (ok first) h8 in
      subst (IsTrusted root_der (c₀ ∷ cs) now) (ok-eq-ok h9) (record {
        uppers = uppers;
        root = root;
        chain_parses =
            (ok_or-eq-ok _ _ e1, (parse_all_iff der untrusted_chain x "cert parse" cs uppers).0 e2);
        root_parses = ok_or-eq-ok _ _ e6;
        in_window =
            All-map (λ cert. (window_iff now cert).0) (first ∷ uppers)
              ((check_all_iff _ (first ∷ uppers)).0 e3);
        issuers = All-map (λ cert. (IsCa-iff cert).0) uppers ((check_all_iff _ uppers).0 e4);
        linked = (check_links_iff _ first uppers).0 e5;
        root_in_window = (window_iff now root).0 e7;
        root_issuer = (IsCa-iff root).0 e8;
        anchor = e9;
      })

  -- Every trusted chain is accepted, and its leaf returned.
  pub IsTrusted-validate_x5c_chain :
      (root_der : Bytes) (chain : List Bytes) (now : ℕ) (leaf : Certificate)
      → IsTrusted root_der chain now leaf
      → validate_x5c_chain c x root_der chain now ≡ ok leaf
  unfolding validate_x5c_chain
  IsTrusted-validate_x5c_chain root_der [] now leaf t = absurd (t.chain_parses)
  IsTrusted-validate_x5c_chain root_der (c₀ ∷ cs) now leaf t =
      let first : X509.from_der x c₀ ≡ some leaf = t.chain_parses.0 in
      let rest =
        (parse_all_iff der untrusted_chain x "cert parse" cs t.uppers).1 (t.chain_parses.1) in
      let valid =
        (check_all_iff (λ cert. check_validity x cert now) (leaf ∷ t.uppers)).1
          (All-map (λ cert. (window_iff now cert).1) (leaf ∷ t.uppers) t.in_window) in
      let issuers =
        (check_all_iff (check_is_ca x) t.uppers).1
          (All-map (λ cert. (IsCa-iff cert).1) t.uppers t.issuers) in
      let links = (check_links_iff (verify_signature c x) leaf t.uppers).1 t.linked in
      let root_valid = (window_iff now t.root).1 t.root_in_window in
      let root_ca = (IsCa-iff t.root).1 t.root_issuer in
      rw (first, rest, valid, issuers, links, t.root_parses, root_valid, root_ca, t.anchor)

  pub validate_x5c_chain_iff :
      (root_der : Bytes) (chain : List Bytes) (now : ℕ) (leaf : Certificate)
      → (validate_x5c_chain c x root_der chain now ≡ ok leaf) ↔ IsTrusted root_der chain now leaf
  validate_x5c_chain_iff root_der chain now leaf = (
    validate_x5c_chain-IsTrusted root_der chain now leaf,
    IsTrusted-validate_x5c_chain root_der chain now leaf,
  )
