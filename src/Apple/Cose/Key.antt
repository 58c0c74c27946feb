-- ===== src/Apple/Cose/Key.antt =====
-- When `extract_p256_pk` returns a key.

use attestation.Common.{
  ℕ, zero, suc, ◌≡◌, ◌↔◌, refl, sym, ap, ◌∙◌, arith, Bool, not, ◌||◌, ◌==◌, Option, none, some,
  List, [], ◌∷◌, ◌++◌, length, if◌then◌else◌, Bytes, ok, ok_or, reject_if, >>=-eq-ok, ok_or-eq-ok,
  ok-eq-ok,
}
use attestation.Common.Int.{ℤ, pos, negsuc}
use attestation.X509.Checks.Laws.{Passes, then-Passes}
use attestation.Apple.Errors.{cose, not_p256}
use attestation.Apple.Entries.{run, last, under, or_old, get-run, or_old-eq-some, under-or_old}
use attestation.Apple.Cbor.{Cbor}
use attestation.Apple.Cose.{
  is_pos, is_negsuc, Members, no_members, set_member, members, extract_p256_pk,
}

is_pos-eq :
    {E : Type 0} (o : Option ℤ) (n : ℕ) (e : E)
    → Passes (reject_if (not (is_pos o n)) e)
    → o ≡ some (pos n)
is_pos-eq none n e h = cc
is_pos-eq (some (pos m)) n e h = ground arith
is_pos-eq (some (negsuc m)) n e h = cc

is_negsuc-eq :
    {E : Type 0} (o : Option ℤ) (n : ℕ) (e : E)
    → Passes (reject_if (not (is_negsuc o n)) e)
    → o ≡ some (negsuc n)
is_negsuc-eq none n e h = cc
is_negsuc-eq (some (pos m)) n e h = cc
is_negsuc-eq (some (negsuc m)) n e h = ground arith

sizes-eq :
    {E : Type 0} (m n : ℕ) (e : E)
    → Passes (reject_if (not (m == 32) || not (n == 32)) e)
    → (m ≡ 32) × (n ≡ 32)
sizes-eq m n e h = ground arith

module _ (v : Cbor) where
  open v use {Value, from_reader, as_map, as_bytes, as_integer}

  abbrev step : Members v → Value → Value → Members v
  step m k value = set_member v m (as_integer k) value

  members-run : (map : List (Value × Value)) (m : Members v) → members v map m ≡ run step map m
  unfolding members
  members-run [] m = refl
  members-run ((k, value) ∷ map) m = members-run map (step m k value)

  -- What is read of an entry whose key is the number, and whose value is read so.
  abbrev pub at_pos : {B : Type 0} → ℕ → (Value → B) → Value → Value → Option B
  at_pos n = under (λ k. is_pos (as_integer k) n)

  abbrev pub at_negsuc : {B : Type 0} → ℕ → (Value → B) → Value → Value → Option B
  at_negsuc n = under (λ k. is_negsuc (as_integer k) n)

  abbrev set_to : {B : Type 0} → Bool → B → B → B
  set_to b new old = if b then new else old

  abbrev sets : Members v → Option ℤ → Value → Members v
  sets m o value = record {
    kty = if is_pos o 1 then as_integer value else m.kty;
    alg = if is_pos o 3 then as_integer value else m.alg;
    crv = if is_negsuc o 0 then as_integer value else m.crv;
    x = if is_negsuc o 1 then as_bytes value else m.x;
    y = if is_negsuc o 2 then as_bytes value else m.y;
  }

  -- The step tests each variable's key.
  set_member-sets :
      (o : Option ℤ) (m : Members v) (value : Value) → set_member v m o value ≡ sets m o value
  set_member-sets none m value = refl
  set_member-sets (some (pos zero)) m value = refl
  set_member-sets (some (pos (suc zero))) m value = refl
  set_member-sets (some (pos (suc (suc zero)))) m value = refl
  set_member-sets (some (pos (suc (suc (suc zero))))) m value = refl
  set_member-sets (some (pos (suc (suc (suc (suc n)))))) m value = ground arith
  set_member-sets (some (negsuc zero)) m value = refl
  set_member-sets (some (negsuc (suc zero))) m value = refl
  set_member-sets (some (negsuc (suc (suc zero)))) m value = refl
  set_member-sets (some (negsuc (suc (suc (suc n))))) m value = ground arith

  -- A variable that is set under one key ends as the last entry under that key.
  variable-last :
      {B : Type 0} (get : Members v → Option B) (is : Option ℤ → Bool) (f : Value → Option B)
      → ((m : Members v) (o : Option ℤ) (value : Value)
          → get (sets m o value) ≡ (if is o then f value else get m))
      → (map : List (Value × Value)) (b : B) → get (no_members v) ≡ none
      → (get (members v map (no_members v)) ≡ some b)
        ↔ (last (under (λ k. is (as_integer k)) f) map ≡ some (some b))
  variable-last get is f reads map b start =
      let read = under (λ k. is (as_integer k)) f in
      let each : (m : Members v) (k value : Value)
          → get (step m k value) ≡ or_old (read k value) (get m) =
        λ m k value.
          ap get (set_member-sets (as_integer k) m value)
          ∙ reads m (as_integer k) value
          ∙ under-or_old (λ k. is (as_integer k)) f k value (get m) in
      let ends =
        ap get (members-run map (no_members v))
        ∙ get-run step get read each map (no_members v)
        ∙ ap (or_old (last read map)) start in
      (
        (λ h. (or_old-eq-some (last read map) b).0 (sym ends ∙ h)),
        (λ h. ends ∙ (or_old-eq-some (last read map) b).1 h),
      )

  -- The octets are a CBOR map in which the last entries under 1, 3, -1, -2 and -3 are the integers 2, -7
  -- and 1 and two octet strings of 32 octets; the key is 4 and then these strings.
  pub record IsP256Key (cose_bytes pk : Bytes) : Type 0 where
    pub value : Value
    pub map : List (Value × Value)
    pub x : Bytes
    pub y : Bytes
    pub reads : from_reader cose_bytes ≡ some value
    pub maps : as_map value ≡ some map
    pub kty : last (at_pos 1 as_integer) map ≡ some (some (pos 2))
    pub alg : last (at_pos 3 as_integer) map ≡ some (some (negsuc 6))
    pub crv : last (at_negsuc 0 as_integer) map ≡ some (some (pos 1))
    pub x_is : last (at_negsuc 1 as_bytes) map ≡ some (some x)
    pub y_is : last (at_negsuc 2 as_bytes) map ≡ some (some y)
    pub x_size : length x ≡ 32
    pub y_size : length y ≡ 32
    pub key : pk ≡ 4 ∷ (x ++ y)

  kty-last :
      (map : List (Value × Value)) (b : ℤ)
      → (Members.kty (members v map (no_members v)) ≡ some b)
        ↔ (last (at_pos 1 as_integer) map ≡ some (some b))
  kty-last map b =
      variable-last (λ m. Members.kty m) (λ o. is_pos o 1) as_integer (λ m o value. refl) map b refl

  alg-last :
      (map : List (Value × Value)) (b : ℤ)
      → (Members.alg (members v map (no_members v)) ≡ some b)
        ↔ (last (at_pos 3 as_integer) map ≡ some (some b))
  alg-last map b =
      variable-last (λ m. Members.alg m) (λ o. is_pos o 3) as_integer (λ m o value. refl) map b refl

  crv-last :
      (map : List (Value × Value)) (b : ℤ)
      → (Members.crv (members v map (no_members v)) ≡ some b)
        ↔ (last (at_negsuc 0 as_integer) map ≡ some (some b))
  crv-last map b =
      variable-last (λ m. Members.crv m) (λ o. is_negsuc o 0) as_integer (λ m o value. refl) map b
        refl

  x-last :
      (map : List (Value × Value)) (b : Bytes)
      → (Members.x (members v map (no_members v)) ≡ some b)
        ↔ (last (at_negsuc 1 as_bytes) map ≡ some (some b))
  x-last map b =
      variable-last (λ m. Members.x m) (λ o. is_negsuc o 1) as_bytes (λ m o value. refl) map b refl

  y-last :
      (map : List (Value × Value)) (b : Bytes)
      → (Members.y (members v map (no_members v)) ≡ some b)
        ↔ (last (at_negsuc 2 as_bytes) map ≡ some (some b))
  y-last map b =
      variable-last (λ m. Members.y m) (λ o. is_negsuc o 2) as_bytes (λ m o value. refl) map b refl

  extract_p256_pk-IsP256Key :
      (cose_bytes pk : Bytes) → extract_p256_pk v cose_bytes ≡ ok pk → IsP256Key cose_bytes pk
  unfolding extract_p256_pk
  extract_p256_pk-IsP256Key cose_bytes pk h =
      let (value, e1, h1) = >>=-eq-ok (ok_or (from_reader cose_bytes) (cose "decode")) _ h in
      let (map, e2, h2) = >>=-eq-ok (ok_or (as_map value) (cose "COSE_Key is not a map")) _ h1 in
      let (e3, h3) =
        then-Passes
          (reject_if (not (is_pos (Members.kty (members v map (no_members v))) 2)) not_p256) _ h2 in
      let (e4, h4) =
        then-Passes (reject_if (not (is_negsuc (Members.alg (members v map (no_members v))) 6)) _) _
          h3 in
      let (e5, h5) =
        then-Passes
          (reject_if (not (is_pos (Members.crv (members v map (no_members v))) 1)) not_p256) _ h4 in
      let (x, e6, h6) = >>=-eq-ok (ok_or (Members.x (members v map (no_members v))) _) _ h5 in
      let (y, e7, h7) = >>=-eq-ok (ok_or (Members.y (members v map (no_members v))) _) _ h6 in
      let (e8, h8) =
        then-Passes (reject_if (not (length x == 32) || not (length y == 32)) _) (ok (4 ∷ (x ++ y)))
          h7 in
      record {
        value = value;
        map = map;
        x = x;
        y = y;
        reads = ok_or-eq-ok _ _ e1;
        maps = ok_or-eq-ok _ _ e2;
        kty = (kty-last map (pos 2)).0 (is_pos-eq _ 2 _ e3);
        alg = (alg-last map (negsuc 6)).0 (is_negsuc-eq _ 6 _ e4);
        crv = (crv-last map (pos 1)).0 (is_pos-eq _ 1 _ e5);
        x_is = (x-last map x).0 (ok_or-eq-ok _ _ e6);
        y_is = (y-last map y).0 (ok_or-eq-ok _ _ e7);
        x_size = (sizes-eq (length x) (length y) _ e8).0;
        y_size = (sizes-eq (length x) (length y) _ e8).1;
        key = sym (ok-eq-ok h8);
      }

  IsP256Key-extract_p256_pk :
      (cose_bytes pk : Bytes) → IsP256Key cose_bytes pk → extract_p256_pk v cose_bytes ≡ ok pk
  unfolding extract_p256_pk
  IsP256Key-extract_p256_pk cose_bytes pk k =
      rw
        (
          k.reads,
          k.maps,
          (kty-last k.map (pos 2)).1 k.kty,
          (alg-last k.map (negsuc 6)).1 k.alg,
          (crv-last k.map (pos 1)).1 k.crv,
          (x-last k.map k.x).1 k.x_is,
          (y-last k.map k.y).1 k.y_is,
          k.x_size,
          k.y_size,
          sym k.key,
        )
        refl

  -- `extract_p256_pk` returns a key exactly when the octets are a COSE key of that P-256 point.
  pub extract_p256_pk_iff :
      (cose_bytes pk : Bytes) → (extract_p256_pk v cose_bytes ≡ ok pk) ↔ IsP256Key cose_bytes pk
  extract_p256_pk_iff cose_bytes pk =
      (extract_p256_pk-IsP256Key cose_bytes pk, IsP256Key-extract_p256_pk cose_bytes pk)
