-- ===== src/Common/Int.antt =====
-- Signed integers over the native numbers, under the library's names; `negsuc n` is -(n + 1).
use attestation.Common.Tests.{ltb, if◌then◌else◌}
use Prim.Native.Nat.{ℕ, ◌+◌, ◌-◌, ◌%◌, ◌^◌}

pub data ℤ : Type 0 where
  pos : ℕ → ℤ
  negsuc : ℕ → ℤ

-- The number that a word of `w + 1` bits stands for in two's complement.
abbrev pub signed : ℕ → ℕ → ℤ
signed w x = if ltb x (2 ^ w) then pos x else negsuc (2 ^ (w + 1) - x - 1)

-- `n as u32`
abbrev pub as_u32 : ℤ → ℕ
as_u32 (pos n) = n % 2 ^ 32
as_u32 (negsuc n) = 2 ^ 32 - 1 - n % 2 ^ 32
