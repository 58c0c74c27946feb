-- ===== src/Common/Octets.antt =====
-- Byte strings. A `u8` is a number below 256, and a `str` is its UTF-8 bytes.
use Prim.Native.Nat.{ℕ, zero, suc, ◌+◌, ◌*◌, ◌/◌, ◌%◌, ◌<◌, bit_and}
use Prim.Native.Char.{code}
use Prim.Native.String.{String}
use mathlib.Core.Path.{◌≡◌, refl}
use mathlib.Core.Logic.{◌↔◌, inl, inr}
use mathlib.Core.Bool.{Bool, true, false, ◌&&◌}
use mathlib.Core.List.{List, [], ◌∷◌}
use native.Mathlib.Omega.{arith}
use attestation.Common.Tests.{◌==◌, ==_iff, Bool-cases}

abbrev pub Bytes : Type 0
Bytes = List ℕ

abbrev pub IsByte : ℕ → Type 0
IsByte b = b < 256

-- The bytes of an ASCII literal.
abbrev pub codes : String → Bytes
codes String.[] = []
codes (String.◌∷◌ c s) = code c ∷ codes s

-- `==` on slices
unfoldable pub bytes_eq : Bytes → Bytes → Bool
bytes_eq [] [] = true
bytes_eq (x ∷ xs) (y ∷ ys) = x == y && bytes_eq xs ys
bytes_eq _ _ = false

pub bytes_eq_iff : (a b : Bytes) → (bytes_eq a b ≡ true) ↔ (a ≡ b)
unfolding bytes_eq
bytes_eq_iff (x ∷ a) (y ∷ b) = ground (arith, bytes_eq_iff a b)
bytes_eq_iff _ _ = ground arith

-- Two functions of one octet that agree at each of the 256 values are equal on octets.
agree : (f g : ℕ → ℕ) (bound : ℕ) → Bool
agree f g zero = true
agree f g (suc b) = agree f g b && f b == g b

agree-eq : (f g : ℕ → ℕ) (bound : ℕ) → agree f g bound ≡ true → (b : ℕ) → b < bound → f b ≡ g b
unfolding agree
agree-eq f g zero same b h = absurd (omega arith)
agree-eq f g (suc n) same b h = elim (Bool-cases (b == n)) [
  | inl last ↦ ground (arith, ==_iff (f n) (g n), ==_iff b n)
  | inr before ↦ agree-eq f g n (ground arith) b (ground arith)
]

pub mask_7f : (b : ℕ) → IsByte b → bit_and b 0x7f ≡ b % 128
unfolding agree
mask_7f = agree-eq _ _ 256 refl

pub mask_80 : (b : ℕ) → IsByte b → bit_and b 0x80 ≡ b / 128 * 128
unfolding agree
mask_80 = agree-eq _ _ 256 refl

pub mask_40 : (b : ℕ) → IsByte b → bit_and b 0x40 ≡ b / 64 % 2 * 64
unfolding agree
mask_40 = agree-eq _ _ 256 refl

pub mask_20 : (b : ℕ) → IsByte b → bit_and b 0x20 ≡ b / 32 % 2 * 32
unfolding agree
mask_20 = agree-eq _ _ 256 refl

pub mask_1f : (b : ℕ) → IsByte b → bit_and b 0x1f ≡ b % 32
unfolding agree
mask_1f = agree-eq _ _ 256 refl

pub mask_03 : (b : ℕ) → IsByte b → bit_and b 3 ≡ b % 4
unfolding agree
mask_03 = agree-eq _ _ 256 refl

-- The number that big-endian bytes write, after `acc` has been read.
abbrev pub be_from : ℕ → Bytes → ℕ
be_from acc [] = acc
be_from acc (b ∷ bs) = be_from (acc * 256 + b) bs

-- `from_be_bytes`
abbrev pub be : Bytes → ℕ
be bs = be_from 0 bs
