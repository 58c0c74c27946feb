-- ===== src/Android/Verify/ChainHash.antt =====
-- The bytes that `detail_hash` is the digest of.
use Prim.Native.Nat.{◌/◌, ◌%◌, ◌^◌}
use attestation.Common.{
  append_injective, ℕ, ◌<◌, ◌≡◌, refl, arith, List, [], ◌∷◌, ◌++◌, length, All, Bytes,
}
use attestation.Android.Verify.{be_bytes4, canonical_chain_hash_input}

-- The length of a certificate, in a `u32`.
abbrev pub Fits : Bytes → Type 0
Fits c = length c < 2 ^ 32

be_bytes4_injective :
    (m n : ℕ) (xs ys : Bytes)
    → m < 2 ^ 32
    → n < 2 ^ 32
    → be_bytes4 m ++ xs ≡ be_bytes4 n ++ ys
    → (m ≡ n) × (xs ≡ ys)
be_bytes4_injective m n xs ys hm hn h =
    let a : m / 2 ^ 24 % 256 ≡ n / 2 ^ 24 % 256 = cc h in
    let b : m / 2 ^ 16 % 256 ≡ n / 2 ^ 16 % 256 = cc h in
    let c : m / 2 ^ 8 % 256 ≡ n / 2 ^ 8 % 256 = cc h in
    let d : m % 256 ≡ n % 256 = cc h in (omega arith, cc h)

-- Two chains of certificates below 4 GiB have the same bytes hashed only when they are the same chain.
pub canonical_chain_hash_input_injective :
    (chain other : List Bytes)
    → All Fits chain
    → All Fits other
    → canonical_chain_hash_input chain ≡ canonical_chain_hash_input other
    → chain ≡ other
unfolding canonical_chain_hash_input
canonical_chain_hash_input_injective [] [] fs gs h = refl
canonical_chain_hash_input_injective [] (d ∷ ds) fs gs h = cc
canonical_chain_hash_input_injective (c ∷ cs) [] fs gs h = cc
canonical_chain_hash_input_injective (c ∷ cs) (d ∷ ds) (f, fs) (g, gs) h =
    let (len, tails) = be_bytes4_injective (length c) (length d) _ _ f g h in
    let (same, rest) = append_injective c d _ _ len tails in
    let later = canonical_chain_hash_input_injective cs ds fs gs rest in cc
