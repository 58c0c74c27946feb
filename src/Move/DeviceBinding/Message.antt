-- ===== src/Move/DeviceBinding/Message.antt =====
-- What the canonical message of an action tells of it.
use attestation.Common.{
  ℕ, ◌+◌, ◌^◌, ◌<◌, ◌≡◌, ◌∙◌, sym, ap, refl, arith, ◌++◌, list_laws, append_injective, length,
  length-append, Bytes,
}
use attestation.Move.Framework.{Sui}
use attestation.Move.DeviceBinding.{canonical_message, message_prefix}

-- BCS of an `ID`, an address of 32 octets, and of a `u64`.
pub record MessageLaws (sui : Sui) : Type 0 where
  pub id_size : (n : ℕ) → length (Sui.bcs_id sui n) ≡ 32
  pub id_injective :
      (m n : ℕ) → m < 2 ^ 256 → n < 2 ^ 256 → Sui.bcs_id sui m ≡ Sui.bcs_id sui n → m ≡ n
  pub u64_size : (n : ℕ) → length (Sui.bcs_u64 sui n) ≡ 8
  pub u64_injective :
      (m n : ℕ) → m < 2 ^ 64 → n < 2 ^ 64 → Sui.bcs_u64 sui m ≡ Sui.bcs_u64 sui n → m ≡ n

length-append4 :
    (a b c d e : Bytes)
    → length ((((a ++ b) ++ c) ++ d) ++ e) ≡ length a + length b + length c + length d + length e
length-append4 a b c d e = omega (
  arith,
  length-append a b,
  length-append (a ++ b) c,
  length-append ((a ++ b) ++ c) d,
  length-append (((a ++ b) ++ c) ++ d) e,
)

-- The domain ends where the identity begins, for action hashes of one length: the parts are equal.
parts :
    (a b b' c c' d d' e e' : Bytes)
    → length c ≡ length c'
    → length d ≡ length d'
    → length e ≡ length e'
    → (((a ++ b) ++ c) ++ d) ++ e ≡ (((a ++ b') ++ c') ++ d') ++ e'
    → (b ≡ b') × (c ≡ c') × (d ≡ d') × (e ≡ e')
parts a b b' c c' d d' e e' sc sd se h =
    let total = ap length h in
    let lhs = length-append4 a b c d e in
    let rhs = length-append4 a b' c' d' e' in
    let sb : length b ≡ length b' = omega (arith, total, lhs, rhs, sc, sd, se) in
    let (h1, he) =
      append_injective (((a ++ b) ++ c) ++ d) (((a ++ b') ++ c') ++ d') e e'
        (omega (
          arith,
          total,
          se,
          length-append (((a ++ b) ++ c) ++ d) e,
          length-append (((a ++ b') ++ c') ++ d') e',
        ))
        h in
    let (h2, hd) =
      append_injective ((a ++ b) ++ c) ((a ++ b') ++ c') d d'
        (omega (
          arith,
          ap length h1,
          sd,
          length-append ((a ++ b) ++ c) d,
          length-append ((a ++ b') ++ c') d',
        ))
        h1 in
    let (h3, hc) =
      append_injective (a ++ b) (a ++ b') c c'
        (omega (arith, ap length h2, sc, length-append (a ++ b) c, length-append (a ++ b') c'))
        h2 in
    let (ha, hb) = append_injective a a b b' refl h3 in (hb, hc, hd, he)

module _ (sui : Sui) (l : MessageLaws sui) where
  -- For action hashes of one length, messages are equal only for one binding, domain, hash and expiry.
  pub canonical_message-injective :
      (id id' : ℕ) (domain domain' action_hash action_hash' : Bytes) (expiry expiry' : ℕ)
      → length action_hash ≡ length action_hash'
      → id < 2 ^ 256
      → id' < 2 ^ 256
      → expiry < 2 ^ 64
      → expiry' < 2 ^ 64
      → canonical_message sui id domain action_hash expiry
        ≡ canonical_message sui id' domain' action_hash' expiry'
      → (id ≡ id') × (domain ≡ domain') × (action_hash ≡ action_hash') × (expiry ≡ expiry')
  unfolding canonical_message
  canonical_message-injective id id' domain domain' hash hash' expiry expiry' size i i' x x' same =
      let (d, n, a, e) =
        parts message_prefix domain domain' (Sui.bcs_id sui id) (Sui.bcs_id sui id') hash hash'
          (Sui.bcs_u64 sui expiry) (Sui.bcs_u64 sui expiry') (l.id_size id ∙ sym (l.id_size id'))
          size (l.u64_size expiry ∙ sym (l.u64_size expiry')) same in
      (l.id_injective id id' i i' n, d, a, l.u64_injective expiry expiry' x x' e)

-- A domain may reach into the hash: where the hash holds the identity, another action has the message.
pub canonical_message-overlap :
    (sui : Sui) (id : ℕ) (domain x y : Bytes) (expiry : ℕ)
    → canonical_message sui id domain (x ++ (Sui.bcs_id sui id ++ y)) expiry
      ≡ canonical_message sui id (domain ++ (Sui.bcs_id sui id ++ x)) y expiry
unfolding canonical_message
canonical_message-overlap sui id domain x y expiry = simp list_laws
