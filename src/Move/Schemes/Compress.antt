-- ===== src/Move/Schemes/Compress.antt =====
-- What `compress` returns.
use attestation.Common.{
  ℕ, zero, suc, ◌+◌, ◌%◌, ◌<◌, ◌≤◌, ◌⊎◌, ◌≡◌, ◌↔◌, ◌∙◌, sym, ap, refl, arith, none, some, [], ◌∷◌,
  ◌++◌, append-nil, append_assoc, length, get_elem?, get_elem?-append, get_elem?-split, take, drop,
  length-append, length-take, length-drop, take-append-drop, Bytes, ok, err, Option-cases, inl, inr,
  >>=-eq-ok, ok-eq-ok,
}
use attestation.Move.Framework.{Abort, borrow, out_of_range}
use attestation.Move.Schemes.{copy_loop, compress}

borrow-append : (a : Bytes) (b : ℕ) (r : Bytes) → borrow (a ++ b ∷ r) (length a) ≡ ok b
unfolding borrow
borrow-append a b r = rw (get_elem?-append a b r, borrow) refl

borrow-eq-ok : (bytes : Bytes) (i : ℕ) {b : ℕ} → borrow bytes i ≡ ok b → get_elem? bytes i ≡ some b
unfolding borrow
borrow-eq-ok bytes i h = elim (Option-cases (get_elem? bytes i)) [
  | inl missing ↦ cc (rw (missing, borrow) at h)
  | inr (b, found) ↦ found ∙ ap some (ok-eq-ok (rw (found, borrow) at h))
]

-- The loop appends the octets `x` that follow the first `i`.
copy_loop-copies :
    (n i : ℕ) (a x r out : Bytes)
    → length x ≡ n
    → length a ≡ i
    → copy_loop n i (a ++ (x ++ r)) out ≡ ok (out ++ x)
unfolding copy_loop
copy_loop-copies zero i a [] r out size start = ap ok (sym (append-nil out))
copy_loop-copies zero i a (b ∷ x) r out size start = absurd (omega arith)
copy_loop-copies (suc n) i a [] r out size start = absurd (omega arith)
copy_loop-copies (suc n) i a (b ∷ x) r out size start =
    let here : borrow (a ++ (b ∷ (x ++ r))) i ≡ ok b =
      ap (borrow (a ++ (b ∷ (x ++ r)))) (sym start) ∙ borrow-append a b (x ++ r) in
    let moved = append_assoc a (b ∷ []) (x ++ r) in
    let later =
      copy_loop-copies n (i + 1) (a ++ (b ∷ [])) x r (out ++ (b ∷ [])) (omega arith)
        (omega (arith, length-append a (b ∷ []))) in
    let list = append_assoc out (b ∷ []) x in
    rw here
      (ap (λ bytes. copy_loop n (i + 1) bytes (out ++ (b ∷ []))) (sym moved) ∙ later ∙ ap ok list)

-- The compressed key of a point: the parity of its last octet and its first 32 octets behind the tag.
pub record Compressed (uncompressed out : Bytes) : Type 0 where
  pub tag : ℕ
  pub x : Bytes
  pub y : Bytes
  pub last : ℕ
  pub rest : Bytes
  pub layout : uncompressed ≡ tag ∷ (x ++ (y ++ (last ∷ rest)))
  pub x_size : length x ≡ 32
  pub y_size : length y ≡ 31
  pub shape : out ≡ (2 + last % 2) ∷ x

pub compress-layout :
    (tag : ℕ) (x y : Bytes) (last : ℕ) (rest : Bytes)
    → length x ≡ 32
    → length y ≡ 31
    → compress (tag ∷ (x ++ (y ++ (last ∷ rest)))) ≡ ok ((2 + last % 2) ∷ x)
unfolding compress
compress-layout tag x y last rest x_size y_size =
    let front = tag ∷ (x ++ y) in
    let size : length front ≡ 64 = omega (arith, length-append x y) in
    let split : front ++ (last ∷ rest) ≡ tag ∷ (x ++ (y ++ (last ∷ rest))) =
      ap (◌∷◌ tag) (append_assoc x y (last ∷ rest)) in
    let end : borrow (tag ∷ (x ++ (y ++ (last ∷ rest)))) 64 ≡ ok last =
      sym (ap (λ bytes. borrow bytes 64) split)
      ∙ sym (ap (borrow (front ++ (last ∷ rest))) size)
      ∙ borrow-append front last rest in
    rw end
      (copy_loop-copies 32 1 (tag ∷ []) x (y ++ (last ∷ rest)) ((2 + last % 2) ∷ []) x_size refl)

-- An octet at 64 splits the octets as a tag, 32 octets, 31 octets, itself and the rest.
point :
    (u : Bytes) {last : ℕ}
    → get_elem? u 64 ≡ some last
    → (tag : ℕ) × (x : Bytes) × (y : Bytes) × (rest : Bytes) × (u
        ≡ tag ∷ (x ++ (y ++ (last ∷ rest))))
      × (length x ≡ 32)
      × (length y ≡ 31)
point [] h = cc
point (tag ∷ u) {last = last} h =
    let (same, size) = get_elem?-split u 63 h in
    let front = take 63 u in
    (
      tag,
      take 32 front,
      drop 32 front,
      drop 64 u,
      ap (◌∷◌ tag) (
          same
          ∙ sym (ap (λ f. f ++ (last ∷ drop 64 u)) (take-append-drop 32 front))
          ∙ append_assoc (take 32 front) (drop 32 front) _),
      omega (arith, length-take 32 front),
      omega (arith, length-drop 32 front),
    )

-- `compress` returns a key exactly for what holds a point's octets, and the key is the point's.
pub compress_iff : (u out : Bytes) → (compress u ≡ ok out) ↔ Compressed u out
unfolding compress
compress_iff u out = (
  (λ h.
      let (last, e1, h1) = >>=-eq-ok (borrow u 64) _ h in
      let (tag, x, y, rest, layout, x_size, y_size) = point u (borrow-eq-ok u 64 e1) in
      record {
        tag = tag;
        x = x;
        y = y;
        last = last;
        rest = rest;
        layout = layout;
        x_size = x_size;
        y_size = y_size;
        shape = sym (
            ok-eq-ok (
              sym (compress-layout tag x y last rest x_size y_size)
              ∙ ap compress (sym layout)
              ∙ h));
      }),
  (λ c.
      ap compress c.layout
      ∙ compress-layout c.tag c.x c.y c.last c.rest c.x_size c.y_size
      ∙ ap ok (sym c.shape)),
)

get_elem?_short : (u : Bytes) (i : ℕ) → length u ≤ i → get_elem? u i ≡ none
get_elem?_short [] i h = refl
get_elem?_short (b ∷ u) zero h = absurd (omega arith)
get_elem?_short (b ∷ u) (suc i) h = get_elem?_short u i (omega arith)

get_elem?_long : (u : Bytes) (i : ℕ) → i < length u → (b : ℕ) × (get_elem? u i ≡ some b)
get_elem?_long [] i h = absurd (omega arith)
get_elem?_long (b ∷ u) zero h = (b, refl)
get_elem?_long (b ∷ u) (suc i) h = get_elem?_long u i (omega arith)

length_cases : (u : Bytes) → (length u ≤ 64) ⊎ (64 < length u)
length_cases u = ground arith

borrow_short : (u : Bytes) (i : ℕ) → length u ≤ i → borrow u i ≡ err out_of_range
unfolding borrow
borrow_short u i short = rw (get_elem?_short u i short, borrow) refl

compress_short : (u : Bytes) → length u ≤ 64 → compress u ≡ err out_of_range
unfolding compress
compress_short u short = rw (borrow_short u 64 short) refl

-- It aborts exactly for less than 65 octets, and then because an index is out of range.
pub compress_aborts_iff :
    (u : Bytes) (e : Abort) → (compress u ≡ err e) ↔ ((length u ≤ 64) × (e ≡ out_of_range))
compress_aborts_iff u e = elim (length_cases u) [
  | inl short ↦ let aborts = compress_short u short in ((λ h. (short, cc)), (λ (_, same). cc))
  | inr long ↦
      let (last, found) = get_elem?_long u 64 long in
      let (tag, x, y, rest, layout, x_size, y_size) = point u found in
      let returns = ap compress layout ∙ compress-layout tag x y last rest x_size y_size in
      ((λ h. cc), (λ (short, _). absurd (omega arith)))
]
