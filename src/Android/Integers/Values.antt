-- ===== src/Android/Integers/Values.antt =====
-- The sign extension gives the number that the bytes stand for.
use attestation.Common.{
  ℕ, zero, suc, ◌-◌, ◌^◌, ◌≤◌, ◌<◌, ◌≡◌, refl, some, Option, none, [], ◌∷◌, arith, if◌then◌else◌,
  length, All, Bytes, IsByte, be, mask_80, ok, ltb, replicate, ◌++◌,
}
use attestation.Common.Int.{ℤ, pos, negsuc}
use attestation.Android.Integers.{i32_of, u64_of, decode_i64_from_int}

-- The contents of an INTEGER, by X.690: two's complement in as many bytes as there are.
abbrev pub twos_complement : Bytes → ℤ
twos_complement [] = pos 0
twos_complement (b ∷ bs) =
    if ltb b 128 then pos (be (b ∷ bs)) else negsuc (256 ^ length (b ∷ bs) - be (b ∷ bs) - 1)

-- Up to four bytes `decode_i32` and `decode_enumerated` give the integer that the bytes stand for;
-- no bytes at all are read as 0.
pub i32_of-twos_complement :
    (bs : Bytes) → All IsByte bs → length bs ≤ 4 → i32_of bs ≡ some (twos_complement bs)
unfolding i32_of
i32_of-twos_complement [] h l = refl
i32_of-twos_complement (a ∷ []) h l = ground (arith, mask_80 a)
i32_of-twos_complement (a ∷ b ∷ []) h l = ground (arith, mask_80 a)
i32_of-twos_complement (a ∷ b ∷ c ∷ []) h l = ground (arith, mask_80 a)
i32_of-twos_complement (a ∷ b ∷ c ∷ d ∷ []) h l = ground (arith, mask_80 a)
i32_of-twos_complement (a ∷ b ∷ c ∷ d ∷ e ∷ bs) h l = absurd (omega arith)

be-replicate : (k : ℕ) (bs : Bytes) → be (replicate k 0 ++ bs) ≡ be bs
be-replicate zero bs = refl
be-replicate (suc k) bs = be-replicate k bs

be_positive : (b : ℕ) (bs : Bytes) → b < 128 → All IsByte bs → length bs ≤ 7 → be (b ∷ bs) < 2 ^ 63
be_positive b [] p h l = omega arith
be_positive b (c ∷ []) p h l = omega arith
be_positive b (c ∷ d ∷ []) p h l = omega arith
be_positive b (c ∷ d ∷ e ∷ []) p h l = omega arith
be_positive b (c ∷ d ∷ e ∷ f ∷ []) p h l = omega arith
be_positive b (c ∷ d ∷ e ∷ f ∷ g ∷ []) p h l = omega arith
be_positive b (c ∷ d ∷ e ∷ f ∷ g ∷ i ∷ []) p h l = omega arith
be_positive b (c ∷ d ∷ e ∷ f ∷ g ∷ i ∷ j ∷ []) p h l = omega arith
be_positive b (c ∷ d ∷ e ∷ f ∷ g ∷ i ∷ j ∷ k ∷ bs) p h l = absurd (omega arith)

-- An unsigned integer of up to eight bytes.
abbrev pub as_u64 : ℕ → ℤ → Option ℕ
as_u64 bytes (pos n) = if ltb 8 bytes then none else some n
as_u64 bytes (negsuc n) = none

-- `decode_u64` refuses exactly the negative integers and those of more than eight bytes, and gives
-- any other as it is.
pub u64_of-as_u64 :
    (bs : Bytes) → All IsByte bs → u64_of bs ≡ as_u64 (length bs) (twos_complement bs)
unfolding u64_of
u64_of-as_u64 [] h = refl
u64_of-as_u64 (b ∷ bs) (hb, h) =
    ground (arith, mask_80 b, be-replicate (8 - length (b ∷ bs)) (b ∷ bs))

-- What `decode_u64` accepts is below 2 ^ 63.
pub u64_of-lt : (bs : Bytes) {n : ℕ} → All IsByte bs → u64_of bs ≡ some n → n < 2 ^ 63
unfolding u64_of
u64_of-lt [] h e = ground arith
u64_of-lt (b ∷ bs) (hb, h) e = ground (
  arith,
  mask_80 b,
  be-replicate (8 - length (b ∷ bs)) (b ∷ bs),
  be_positive b bs (ground (arith, mask_80 b)) h (ground arith),
)

-- `decode_i64_from_int` gives the integer that up to eight bytes stand for.
pub decode_i64_from_int-twos_complement :
    (bs : Bytes) → All IsByte bs → length bs ≤ 8 → decode_i64_from_int bs ≡ ok (twos_complement bs)
unfolding decode_i64_from_int
decode_i64_from_int-twos_complement [] h l = refl
decode_i64_from_int-twos_complement (a ∷ []) h l = ground (arith, mask_80 a)
decode_i64_from_int-twos_complement (a ∷ b ∷ []) h l = ground (arith, mask_80 a)
decode_i64_from_int-twos_complement (a ∷ b ∷ c ∷ []) h l = ground (arith, mask_80 a)
decode_i64_from_int-twos_complement (a ∷ b ∷ c ∷ d ∷ []) h l = ground (arith, mask_80 a)
decode_i64_from_int-twos_complement (a ∷ b ∷ c ∷ d ∷ e ∷ []) h l = ground (arith, mask_80 a)
decode_i64_from_int-twos_complement (a ∷ b ∷ c ∷ d ∷ e ∷ f ∷ []) h l = ground (arith, mask_80 a)
decode_i64_from_int-twos_complement (a ∷ b ∷ c ∷ d ∷ e ∷ f ∷ g ∷ []) h l = ground (arith, mask_80 a)
decode_i64_from_int-twos_complement (a ∷ b ∷ c ∷ d ∷ e ∷ f ∷ g ∷ i ∷ []) h l =
    ground (arith, mask_80 a)
decode_i64_from_int-twos_complement (a ∷ b ∷ c ∷ d ∷ e ∷ f ∷ g ∷ i ∷ j ∷ bs) h l =
    absurd (omega arith)
