-- ===== src/Apple/Verify/Sound.antt =====
-- When `verify_app_attest` produces an outcome.
use mathlib.Core.Path.{subst}
use text.Mathlib.Text.{◌==◌ as str_eq}
use text.Mathlib.TextEquality.{eq_iff}
use attestation.Common.{
  ℕ, ◌≡◌, ◌↔◌, refl, sym, not, ◌==◌, ==_iff, Bool, List, ◌++◌, length, some, Bytes, bytes_eq,
  bytes_eq_iff, ok, ok_or, reject_if, >>=-eq-ok, ok_or-eq-ok, ok-eq-ok,
}
use attestation.Core.{Outcome, apple_app_attest}
use attestation.X509.{Extension, X509, Crypto}
use attestation.X509.Checks.{find_extension}
use attestation.X509.Checks.Laws.{then-Passes}
use attestation.X509.Checks.Equal.{equal_octets_iff, equal_texts_iff, equal_numbers_iff}
use attestation.Apple.AuthData.{AuthData, parse}
use attestation.Apple.Cbor.{Cbor, AttestationStatement, decode_attestation_object}
use attestation.Apple.Cose.{extract_p256_pk}
use attestation.Apple.Nonce.{NonceDecoder, apple_nonce_extension, extract_nonce_extension}
use attestation.Apple.Chain.{validate_x5c_chain}
use attestation.Apple.Chain.Trust.{IsTrusted, validate_x5c_chain_iff}
use attestation.Apple.Verify.{expected_aaguid, verify_app_attest}

module _ (x : X509) (nonce_from_der : NonceDecoder) where
  -- The certificate's first extension with Apple's object identifier holds the nonce, of 32 octets.
  pub record HasNonce (cert : X509.Certificate x) (nonce : Bytes) : Type 0 where
    pub exts : List Extension
    pub ext : Extension
    pub has : X509.extensions x cert ≡ some exts
    pub finds : find_extension apple_nonce_extension exts ≡ some ext
    pub decodes : nonce_from_der ext.extn_value ≡ some nonce
    pub size : length nonce ≡ 32

  -- The nonce is extracted exactly when the certificate has it.
  pub extract_nonce_extension_iff :
      (cert : X509.Certificate x) (nonce : Bytes)
      → (extract_nonce_extension x nonce_from_der cert ≡ ok nonce) ↔ HasNonce cert nonce
  unfolding extract_nonce_extension
  extract_nonce_extension_iff cert nonce = (
    (λ h.
        let (exts, e1, h1) = >>=-eq-ok (ok_or (X509.extensions x cert) _) _ h in
        let (ext, e2, h2) = >>=-eq-ok (ok_or (find_extension apple_nonce_extension exts) _) _ h1 in
        let (bytes, e3, h3) = >>=-eq-ok (ok_or (nonce_from_der ext.extn_value) _) _ h2 in
        let (e4, h4) = then-Passes (reject_if (not (length bytes == 32)) _) (ok bytes) h3 in
        subst (HasNonce cert) (ok-eq-ok h4) (record {
          exts = exts;
          ext = ext;
          has = ok_or-eq-ok _ _ e1;
          finds = ok_or-eq-ok _ _ e2;
          decodes = ok_or-eq-ok _ _ e3;
          size = (equal_numbers_iff _ _ _).0 e4;
        })),
    (λ n. rw (n.has, n.finds, n.decodes, n.size)),
  )

module _ (v : Cbor) (x : X509) (c : Crypto) (nonce_from_der : NonceDecoder) (root_der : Bytes) where
  -- The outcome reports this attestation, made by the app for the challenge with the key of that
  -- identifier: the certificates are trusted, the leaf's nonce binds the authenticator data and the
  -- challenge, and the authenticator data names the app, the environment, a fresh key and the key itself.
  pub record IsAppAttested (attestation_object key_id challenge app_id : Bytes) (production : Bool)
      (now : ℕ) (o : Outcome) : Type 0 where
    pub stmt : AttestationStatement
    pub decodes : decode_attestation_object v attestation_object ≡ ok stmt
    pub format : stmt.fmt ≡ "apple-appattest"
    pub auth : AuthData
    pub parses : parse stmt.auth_data ≡ ok auth
    pub leaf : X509.Certificate x
    pub trusted : IsTrusted c x root_der stmt.x5c now leaf
    pub nonce :
        HasNonce x nonce_from_der leaf
          (Crypto.sha256 c (stmt.auth_data ++ Crypto.sha256 c challenge))
    pub key : extract_p256_pk v auth.credential_public_key ≡ ok o.attested_value
    pub key_named : Crypto.sha256 c o.attested_value ≡ key_id
    pub environment : auth.aaguid ≡ expected_aaguid production
    pub app : auth.rp_id_hash ≡ Crypto.sha256 c app_id
    pub fresh : auth.sign_count ≡ 0
    pub source : o.source ≡ apple_app_attest
    pub echo : o.challenge ≡ challenge
    pub time : o.timestamp_ms ≡ now
    pub detail : o.detail_hash ≡ Crypto.sha256 c attestation_object

  verify_app_attest-IsAppAttested :
      (attestation_object key_id challenge app_id : Bytes) (production : Bool) (now : ℕ)
      (o : Outcome)
      → verify_app_attest v x c nonce_from_der root_der attestation_object key_id challenge app_id
          production now
        ≡ ok o
      → IsAppAttested attestation_object key_id challenge app_id production now o
  unfolding verify_app_attest
  verify_app_attest-IsAppAttested attestation_object key_id challenge app_id production now o h =
      let (stmt, e1, h1) = >>=-eq-ok (decode_attestation_object v attestation_object) _ h in
      let (e2, h2) = then-Passes (reject_if (not (str_eq stmt.fmt "apple-appattest")) _) _ h1 in
      let (auth, e3, h3) = >>=-eq-ok (parse stmt.auth_data) _ h2 in
      let (leaf, e4, h4) = >>=-eq-ok (validate_x5c_chain c x root_der stmt.x5c now) _ h3 in
      let (nonce, e5, h5) = >>=-eq-ok (extract_nonce_extension x nonce_from_der leaf) _ h4 in
      let (e6, h6) =
        then-Passes
          (reject_if
            (not (bytes_eq nonce (Crypto.sha256 c (stmt.auth_data ++ Crypto.sha256 c challenge))))
            _)
          _ h5 in
      let (pk, e7, h7) = >>=-eq-ok (extract_p256_pk v auth.credential_public_key) _ h6 in
      let (e8, h8) = then-Passes (reject_if (not (bytes_eq (Crypto.sha256 c pk) key_id)) _) _ h7 in
      let (e9, h9) =
        then-Passes (reject_if (not (bytes_eq auth.aaguid (expected_aaguid production))) _) _ h8 in
      let (e10, h10) =
        then-Passes (reject_if (not (bytes_eq auth.rp_id_hash (Crypto.sha256 c app_id))) _) _ h9 in
      let (e11, h11) = then-Passes (reject_if (not (auth.sign_count == 0)) _) _ h10 in
      subst (IsAppAttested attestation_object key_id challenge app_id production now) (ok-eq-ok h11)
        (record {
          stmt = stmt;
          decodes = e1;
          format = (equal_texts_iff _ _ _).0 e2;
          auth = auth;
          parses = e3;
          leaf = leaf;
          trusted = (validate_x5c_chain_iff c x root_der stmt.x5c now leaf).0 e4;
          nonce =
              subst (HasNonce x nonce_from_der leaf) ((equal_octets_iff _ _ _).0 e6)
                ((extract_nonce_extension_iff x nonce_from_der leaf nonce).0 e5);
          key = e7;
          key_named = (equal_octets_iff _ _ _).0 e8;
          environment = (equal_octets_iff _ _ _).0 e9;
          app = (equal_octets_iff _ _ _).0 e10;
          fresh = (equal_numbers_iff _ _ _).0 e11;
          source = refl;
          echo = refl;
          time = refl;
          detail = refl;
        })

  IsAppAttested-verify_app_attest :
      (attestation_object key_id challenge app_id : Bytes) (production : Bool) (now : ℕ)
      (o : Outcome)
      → IsAppAttested attestation_object key_id challenge app_id production now o
      → verify_app_attest v x c nonce_from_der root_der attestation_object key_id challenge app_id
          production now
        ≡ ok o
  unfolding verify_app_attest
  IsAppAttested-verify_app_attest attestation_object key_id challenge app_id production now o a =
      let format = (eq_iff a.stmt.fmt "apple-appattest").1 a.format in
      let leaf = (validate_x5c_chain_iff c x root_der a.stmt.x5c now a.leaf).1 a.trusted in
      let nonce = (extract_nonce_extension_iff x nonce_from_der a.leaf _).1 a.nonce in
      let bound =
        (bytes_eq_iff (Crypto.sha256 c (a.stmt.auth_data ++ Crypto.sha256 c challenge)) _).1 refl in
      let named = (bytes_eq_iff (Crypto.sha256 c o.attested_value) key_id).1 a.key_named in
      let environment = (bytes_eq_iff a.auth.aaguid (expected_aaguid production)).1 a.environment in
      let app = (bytes_eq_iff a.auth.rp_id_hash (Crypto.sha256 c app_id)).1 a.app in
      let fresh = (==_iff a.auth.sign_count 0).1 a.fresh in
      rw
        (
          a.decodes,
          format,
          a.parses,
          leaf,
          nonce,
          bound,
          a.key,
          named,
          environment,
          app,
          fresh,
          sym a.source,
          sym a.echo,
          sym a.time,
          sym a.detail,
        )
        refl

  pub verify_app_attest_iff :
      (attestation_object key_id challenge app_id : Bytes) (production : Bool) (now : ℕ)
      (o : Outcome)
      → (verify_app_attest v x c nonce_from_der root_der attestation_object key_id challenge app_id
            production now
          ≡ ok o)
        ↔ IsAppAttested attestation_object key_id challenge app_id production now o
  verify_app_attest_iff attestation_object key_id challenge app_id production now o = (
    verify_app_attest-IsAppAttested attestation_object key_id challenge app_id production now o,
    IsAppAttested-verify_app_attest attestation_object key_id challenge app_id production now o,
  )
