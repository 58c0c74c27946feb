-- ===== src/Examples/Enclave.antt =====
-- Runs of the theorems on documents of a small enclave, whose documents are the user data behind their
-- length, and then the public key.
use attestation.Common.{
  ℕ, ◌≡◌, ◌∙◌, ap, refl, arith, Option, none, some, List, [], ◌∷◌, ◌++◌, length, take, drop,
  replicate, length-take, length-append, take-append, drop-append, append_injective, Bytes,
  bytes_eq, inl, inr,
}
use attestation.Server.Data.{Host, NsmRequest, NsmResponse, attestation_document}
use attestation.Server.Digest.{BcsLaws}
use attestation.Move.Framework.{Document, PcrEntry, Policy, Sui}
use attestation.Move.Documents.Measured.{FromImage}
use attestation.Move.Documents.Laws.{Fresh}
use attestation.Move.Enclave.{Bridge}
use attestation.Examples.Handlers.{field, host, digest}

abbrev pub framed : (user_data public_key : Bytes) → Bytes
framed user_data public_key = length user_data ∷ (user_data ++ public_key)

abbrev pub enclave : Host
enclave = record host {
  nsm_process_request =
      λ fd (r : NsmRequest). attestation_document (framed r.user_data r.public_key);
}

pub enclave_laws : BcsLaws enclave
enclave_laws = record {
  field = field;
  field_ends =
      λ x y r s e. let same : length x ≡ length y = cc in append_injective x y r s same (cc e);
  apple_fields = λ p payload e. cc;
  android_fields = λ p payload e. cc;
  assertion_fields = λ p payload e. cc;
}

abbrev pub entry : ℕ → Bytes → PcrEntry
entry index value = record { index = index; value = value }

abbrev pub pcrs : List PcrEntry
pcrs = entry 0 (1 ∷ []) ∷ entry 1 (2 ∷ []) ∷ entry 2 (3 ∷ []) ∷ entry 8 [] ∷ []

abbrev pub policy : Policy
policy = record { pcr0 = 1 ∷ []; pcr1 = 2 ∷ []; pcr2 = 3 ∷ [] }

abbrev pub loaded : (user_data public_key : Bytes) → Document
loaded user_data public_key = record {
  user_data = some user_data;
  timestamp = 900000;
  public_key = some public_key;
  pcrs = pcrs;
}

abbrev pub load : Bytes → Option Document
load [] = none
load (n ∷ rest) = some (loaded (take n rest) (drop n rest))

-- A signature is the key itself.
abbrev pub sui : Sui
sui = record {
  sha2_256 = digest;
  bcs_field = field;
  bcs_id = λ n. n ∷ replicate 31 0;
  bcs_u64 = λ n. n ∷ replicate 7 0;
  ed25519_verify = λ signature pk message. bytes_eq signature pk;
  secp256k1_verify = λ signature pk message. bytes_eq signature pk;
  secp256r1_verify = λ signature pk message. bytes_eq signature pk;
}

pub load-framed :
    (user_data public_key document : Bytes) (doc : Document)
    → ◌≡◌ {A = NsmResponse}
        (attestation_document (framed user_data public_key))
        (attestation_document document)
    → load document ≡ some doc
    → doc ≡ loaded user_data public_key
load-framed user_data public_key document doc answers loads =
    let same : framed user_data public_key ≡ document = cc in
    let opened : some (
          loaded (take (length user_data) (user_data ++ public_key))
            (drop (length user_data) (user_data ++ public_key)))
        ≡ some doc =
      ap load same ∙ loads in
    cc (
      opened,
      take-append (length user_data) user_data public_key refl,
      drop-append (length user_data) user_data public_key refl,
    )

unfoldable pub bridge : Bridge enclave enclave_laws sui
unfolding enclave_laws
bridge = record {
  load = load;
  same_digest = λ b. refl;
  same_field = λ b. refl;
  digest_size =
      λ b. omega (arith, length-take 32 (b ++ replicate 32 0), length-append b (replicate 32 0));
  shows = λ fd r document doc answers loads.
      let same = load-framed r.user_data r.public_key document doc answers loads in
      ((λ full. cc), (λ full. cc));
  says = λ fd r document user_data doc answers loads said.
      let same = load-framed r.user_data r.public_key document doc answers loads in cc;
}

pub image : FromImage policy pcrs
image = record {
  agree = (
    record {
      first = λ e. refl;
      second = λ e. absurd (omega arith);
      third = λ e. absurd (omega arith);
    },
    (
      record {
        first = λ e. absurd (omega arith);
        second = λ e. refl;
        third = λ e. absurd (omega arith);
      },
      (
        record {
          first = λ e. absurd (omega arith);
          second = λ e. absurd (omega arith);
          third = λ e. refl;
        },
        (
          record {
            first = λ e. absurd (omega arith);
            second = λ e. absurd (omega arith);
            third = λ e. absurd (omega arith);
          },
          tt,
        ),
      ),
    ),
  );
  first = inl refl;
  second = inr (inl refl);
  third = inr (inr (inl refl));
}

-- At a clock of a minute after the document.
pub fresh : Fresh 900000 960000
fresh = record {
  recent = omega arith;
  past = omega arith;
  stamp_fits = omega arith;
  now_fits = omega arith;
}

pub load-loaded :
    (user_data public_key : Bytes)
    → load (framed user_data public_key) ≡ some (loaded user_data public_key)
load-loaded user_data public_key = cc (
  take-append (length user_data) user_data public_key refl,
  drop-append (length user_data) user_data public_key refl,
)
