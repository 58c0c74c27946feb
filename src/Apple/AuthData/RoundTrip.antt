-- ===== src/Apple/AuthData/RoundTrip.antt =====
-- The layout of `authData` that `parse` reads.
use mathlib.Core.Path.{subst}
use Prim.Native.Nat.{◌/◌, ◌%◌, ◌^◌}
use attestation.Common.{
  ℕ, zero, suc, ◌+◌, ◌<◌, ◌≤◌, ◌≡◌, ◌↔◌, ◌≢◌, sym, ap, ◌∙◌, arith, ◌==◌, ltb, bit_and, [], ◌∷◌,
  ◌++◌, length, length-take, length-drop, take, drop, take-append-drop, drop-drop, All, IsByte,
  Bytes, be, ok, reject_if, ok-eq-ok,
}
use attestation.X509.Checks.Laws.{then-Passes}
use attestation.Apple.AuthData.{AuthData, at_flag, slice, parse}
use attestation.Apple.AuthData.Layout.{be_bytes4, be_bytes2, layout, IsAuthData, parse-layout}

be_bytes1-be : (bs : Bytes) → length bs ≡ 1 → be bs ∷ [] ≡ bs
be_bytes1-be (p ∷ []) len = ap (λ n. n ∷ []) {x = 0 + p} (omega arith)
be_bytes1-be [] len = absurd (omega arith)
be_bytes1-be (_ ∷ _ ∷ _) len = absurd (omega arith)

be_bytes2-be : (bs : Bytes) → length bs ≡ 2 → All IsByte bs → be_bytes2 (be bs) ≡ bs
be_bytes2-be (p ∷ q ∷ []) len (a, (b, _)) =
    let one : be (p ∷ q ∷ []) / 2 ^ 8 % 256 ≡ p = omega arith in
    let two : be (p ∷ q ∷ []) % 256 ≡ q = omega arith in rw (one, two)
be_bytes2-be [] len w = absurd (omega arith)
be_bytes2-be (_ ∷ []) len w = absurd (omega arith)
be_bytes2-be (_ ∷ _ ∷ _ ∷ _) len w = absurd (omega arith)

be_bytes4-be : (bs : Bytes) → length bs ≡ 4 → All IsByte bs → be_bytes4 (be bs) ≡ bs
be_bytes4-be (p ∷ q ∷ r ∷ s ∷ []) len (a, (b, (c, (d, _)))) =
    let n = be (p ∷ q ∷ r ∷ s ∷ []) in
    let one : n / 2 ^ 24 % 256 ≡ p = omega arith in
    let two : n / 2 ^ 16 % 256 ≡ q = omega arith in
    let three : n / 2 ^ 8 % 256 ≡ r = omega arith in
    let four : n % 256 ≡ s = omega arith in rw (one, two, three, four)
be_bytes4-be [] len w = absurd (omega arith)
be_bytes4-be (_ ∷ []) len w = absurd (omega arith)
be_bytes4-be (_ ∷ _ ∷ []) len w = absurd (omega arith)
be_bytes4-be (_ ∷ _ ∷ _ ∷ []) len w = absurd (omega arith)
be_bytes4-be (_ ∷ _ ∷ _ ∷ _ ∷ _ ∷ _) len w = absurd (omega arith)

split : (k m : ℕ) (bytes : Bytes) → slice k m bytes ++ drop (k + m) bytes ≡ drop k bytes
split k m bytes =
    ap (λ t. slice k m bytes ++ t) (sym (drop-drop k m bytes)) ∙ take-append-drop m (drop k bytes)

length-slice : (k m : ℕ) (bytes : Bytes) → k + m ≤ length bytes → length (slice k m bytes) ≡ m
length-slice k m bytes h = omega (arith, length-take m (drop k bytes), length-drop k bytes)

All-drop : (n : ℕ) (bs : Bytes) → All IsByte bs → All IsByte (drop n bs)
All-drop zero bs h = h
All-drop (suc n) [] h = h
All-drop (suc n) (b ∷ bs) h = All-drop n bs (h.1)

All-take : (n : ℕ) (bs : Bytes) → All IsByte bs → All IsByte (take n bs)
All-take zero bs h = tt
All-take (suc n) [] h = h
All-take (suc n) (b ∷ bs) h = (h.0, All-take n bs (h.1))

be-lt2 : (bs : Bytes) → length bs ≡ 2 → All IsByte bs → be bs < 2 ^ 16
be-lt2 (p ∷ q ∷ []) len (a, (b, _)) = omega arith
be-lt2 [] len w = absurd (omega arith)
be-lt2 (_ ∷ []) len w = absurd (omega arith)
be-lt2 (_ ∷ _ ∷ _ ∷ _) len w = absurd (omega arith)

be-lt4 : (bs : Bytes) → length bs ≡ 4 → All IsByte bs → be bs < 2 ^ 32
be-lt4 (p ∷ q ∷ r ∷ s ∷ []) len (a, (b, (c, (d, _)))) = omega arith
be-lt4 [] len w = absurd (omega arith)
be-lt4 (_ ∷ []) len w = absurd (omega arith)
be-lt4 (_ ∷ _ ∷ []) len w = absurd (omega arith)
be-lt4 (_ ∷ _ ∷ _ ∷ []) len w = absurd (omega arith)
be-lt4 (_ ∷ _ ∷ _ ∷ _ ∷ _ ∷ _) len w = absurd (omega arith)

abbrev fields : Bytes → AuthData
fields bytes = record {
  rp_id_hash = slice 0 32 bytes;
  flags = be (slice 32 1 bytes);
  sign_count = be (slice 33 4 bytes);
  aaguid = slice 37 16 bytes;
  credential_id = slice 55 (be (slice 53 2 bytes)) bytes;
  credential_public_key = drop (55 + be (slice 53 2 bytes)) bytes;
}

layout-fields :
    (bytes : Bytes)
    → All IsByte bytes
    → 55 + be (slice 53 2 bytes) ≤ length bytes
    → layout (fields bytes) ≡ bytes
layout-fields bytes w long =
    let id_len = length-slice 55 (be (slice 53 2 bytes)) bytes long in
    let s55 = split 55 (be (slice 53 2 bytes)) bytes in
    let b53 =
      ap be_bytes2 id_len
      ∙ be_bytes2-be (slice 53 2 bytes) (length-slice 53 2 bytes (omega (arith, long)))
          (All-take 2 _ (All-drop 53 bytes w)) in
    let b33 =
      be_bytes4-be (slice 33 4 bytes) (length-slice 33 4 bytes (omega (arith, long)))
        (All-take 4 _ (All-drop 33 bytes w)) in
    let b32 = be_bytes1-be (slice 32 1 bytes) (length-slice 32 1 bytes (omega (arith, long))) in
    let s53 : be_bytes2 (length (slice 55 (be (slice 53 2 bytes)) bytes)) ++ drop 55 bytes
        ≡ drop 53 bytes =
      ap (λ t. t ++ drop 55 bytes) b53 ∙ split 53 2 bytes in
    let s33 : be_bytes4 (be (slice 33 4 bytes)) ++ drop 37 bytes ≡ drop 33 bytes =
      ap (λ t. t ++ drop 37 bytes) b33 ∙ split 33 4 bytes in
    let s32 : (be (slice 32 1 bytes) ∷ []) ++ drop 33 bytes ≡ drop 32 bytes =
      ap (λ t. t ++ drop 33 bytes) b32 ∙ split 32 1 bytes in
    ap (λ t. slice 0 32 bytes ++ (be (slice 32 1 bytes) ∷ (be_bytes4 (be (slice 33 4 bytes)) ++ t)))
      (ap
          (λ t.
            slice 37 16 bytes ++ (be_bytes2 (length (slice 55 (be (slice 53 2 bytes)) bytes)) ++ t))
          s55
        ∙ ap (λ t. slice 37 16 bytes ++ t) s53
        ∙ split 37 16 bytes)
    ∙ ap (λ t. slice 0 32 bytes ++ (be (slice 32 1 bytes) ∷ t)) s33
    ∙ ap (λ t. slice 0 32 bytes ++ t) s32
    ∙ split 0 32 bytes

long_enough : {E : Type 0} (m n : ℕ) (e : E) → reject_if (ltb m n) e ≡ ok tt → n ≤ m
long_enough m n e h = ground arith

not_zero : {E : Type 0} (n : ℕ) (e : E) → reject_if (n == 0) e ≡ ok tt → n ≢ 0
not_zero n e h = ground arith

-- What `parse` accepts is laid out so: the record that it returns has the sizes of the layout, and its
-- layout is the octets that were read.
parse-IsAuthData :
    (bytes : Bytes) (a : AuthData)
    → All IsByte bytes
    → parse bytes ≡ ok a
    → IsAuthData a × (layout a ≡ bytes)
unfolding parse
parse-IsAuthData bytes a w h =
    let (e1, h1) = then-Passes (reject_if (ltb (length bytes) 37) _) _ h in
    let (e2, h2) = then-Passes (reject_if (bit_and (be (slice 32 1 bytes)) at_flag == 0) _) _ h1 in
    let (e3, h3) = then-Passes (reject_if (ltb (length bytes) (37 + 16 + 2)) _) _ h2 in
    let (e4, h4) =
      then-Passes (reject_if (ltb (length bytes) (55 + be (slice 53 2 bytes))) _) _ h3 in
    let long : 55 + be (slice 53 2 bytes) ≤ length bytes = long_enough (length bytes) _ _ e4 in
    let two = length-slice 53 2 bytes (omega (arith, long)) in
    let four = length-slice 33 4 bytes (omega (arith, long)) in
    let id_len = length-slice 55 (be (slice 53 2 bytes)) bytes long in
    subst (λ a. IsAuthData a × (layout a ≡ bytes)) (ok-eq-ok h4)
      (
        record {
          rp_id_size = length-slice 0 32 bytes (omega (arith, long));
          attested = not_zero _ _ e2;
          count_size = be-lt4 (slice 33 4 bytes) four (All-take 4 _ (All-drop 33 bytes w));
          aaguid_size = length-slice 37 16 bytes (omega (arith, long));
          id_size =
              omega
                (arith, id_len, be-lt2 (slice 53 2 bytes) two (All-take 2 _ (All-drop 53 bytes w)));
        },
        layout-fields bytes w long,
      )

-- On octets, `parse` returns a record exactly where its fields have the sizes of the layout, the flag AT
-- is set, and its layout is the octets.
pub parse_iff :
    (bytes : Bytes) (a : AuthData)
    → All IsByte bytes
    → (parse bytes ≡ ok a) ↔ (IsAuthData a × (layout a ≡ bytes))
parse_iff bytes a w =
    (parse-IsAuthData bytes a w, (λ (sizes, laid). ap parse (sym laid) ∙ parse-layout a sizes))
