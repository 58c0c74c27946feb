-- ===== src/Android/Revocation/Printed.antt =====
-- A status list printed as JSON with no white space, and how the parser reads its parts.
use attestation.Common.{
  ℕ, zero, suc, ◌<◌, ◌≡◌, ◌≢◌, refl, ◌∙◌, true, false, some, List, [], ◌∷◌, ◌++◌, arith, length,
  All, Bytes, codes, ok,
}
use attestation.Common.Text.{is_utf8}
use attestation.Android.Revocation.{
  StatusEntry, skip_ws, expect_char, scan, read_string, set_field, fields_loop,
}

-- The bytes of a text between quotes: UTF-8 with no quote and no backslash.
pub record IsPlain (s : Bytes) : Type 0 where
  pub utf8 : is_utf8 s ≡ true
  pub plain : All (λ c. (c ≢ b'"') × (c ≢ b'\\')) s

abbrev pub Member : Type 0
Member = Bytes × Bytes

-- An entry as it is printed: a serial and the members of its object.
abbrev pub Record : Type 0
Record = Bytes × List Member

-- Each printer puts what it prints in front of `rest`.
abbrev pub quoted : Bytes → Bytes → Bytes
quoted s rest = b'"' ∷ (s ++ (b'"' ∷ rest))

abbrev pub member : Member → Bytes → Bytes
member m rest = quoted m.0 (b':' ∷ quoted m.1 rest)

abbrev pub more_members : List Member → Bytes → Bytes
more_members [] rest = rest
more_members (m ∷ ms) rest = b',' ∷ member m (more_members ms rest)

abbrev pub object : List Member → Bytes → Bytes
object [] rest = b'{' ∷ b'}' ∷ rest
object (m ∷ ms) rest = b'{' ∷ member m (more_members ms (b'}' ∷ rest))

abbrev pub record_octets : Record → Bytes → Bytes
record_octets r rest = quoted r.0 (b':' ∷ object r.1 rest)

abbrev pub more_records : List Record → Bytes → Bytes
more_records [] rest = rest
more_records (r ∷ rs) rest = b',' ∷ record_octets r (more_records rs rest)

abbrev pub records_octets : List Record → Bytes → Bytes
records_octets [] rest = b'}' ∷ rest
records_octets (r ∷ rs) rest = record_octets r (more_records rs (b'}' ∷ rest))

-- `{"entries":{ ... }}`
abbrev pub document : List Record → Bytes
document rs = b'{' ∷ quoted (codes "entries") (b':' ∷ b'{' ∷ records_octets rs (b'}' ∷ []))

-- What the members of an object say, the last of each name.
abbrev pub entry_of : StatusEntry → List Member → StatusEntry
entry_of e [] = e
entry_of e (m ∷ ms) = entry_of (set_field e m.0 m.1) ms

abbrev pub IsMember : Member → Type 0
IsMember m = IsPlain m.0 × IsPlain m.1

abbrev pub IsRecord : Record → Type 0
IsRecord r = IsPlain r.0 × All IsMember r.1

scan-plain :
    (s rest : Bytes)
    → All (λ c. (c ≢ b'"') × (c ≢ b'\\')) s
    → scan false (s ++ (b'"' ∷ rest)) ≡ some (s, rest)
unfolding scan
scan-plain [] rest h = refl
scan-plain (c ∷ s) rest ((hq, hb), h) = ground (arith, scan-plain s rest h)

pub read_string-quoted : (s rest : Bytes) → IsPlain s → read_string (quoted s rest) ≡ ok (s, rest)
unfolding read_string skip_ws
read_string-quoted s rest h = rw (scan-plain s rest h.plain) (rw h.utf8 refl)

pub expect_colon : (rest : Bytes) → expect_char (skip_ws (b':' ∷ rest)) b':' ≡ ok rest
unfolding expect_char skip_ws
expect_colon rest = refl

-- One round of the loop, with another member behind the comma and with none.
fields_loop_comma :
    (fuel : ℕ) (m : Member) (rest : Bytes) (e : StatusEntry)
    → IsMember m
    → fields_loop (suc fuel) (member m (b',' ∷ b'"' ∷ rest)) e
      ≡ fields_loop fuel (b'"' ∷ rest) (set_field e m.0 m.1)
unfolding fields_loop
fields_loop_comma fuel m rest e (hk, hv) =
    let tail = b',' ∷ b'"' ∷ rest in
    rw
      (
        read_string-quoted m.0 (b':' ∷ quoted m.1 tail) hk,
        expect_colon (quoted m.1 tail),
        read_string-quoted m.1 tail hv,
      )
      (unfold skip_ws in refl)

fields_loop_brace :
    (fuel : ℕ) (m : Member) (rest : Bytes) (e : StatusEntry)
    → IsMember m
    → fields_loop (suc fuel) (member m (b'}' ∷ rest)) e ≡ ok (set_field e m.0 m.1, b'}' ∷ rest)
unfolding fields_loop
fields_loop_brace fuel m rest e (hk, hv) =
    let tail = b'}' ∷ rest in
    rw
      (
        read_string-quoted m.0 (b':' ∷ quoted m.1 tail) hk,
        expect_colon (quoted m.1 tail),
        read_string-quoted m.1 tail hv,
      )
      (unfold skip_ws in refl)

pub fields_loop-members :
    (fuel : ℕ) (m : Member) (ms : List Member) (rest : Bytes) (e : StatusEntry)
    → length ms < fuel
    → IsMember m
    → All IsMember ms
    → fields_loop fuel (member m (more_members ms (b'}' ∷ rest))) e
      ≡ ok (entry_of e (m ∷ ms), b'}' ∷ rest)
fields_loop-members zero m ms rest e f hm h = absurd (omega arith)
fields_loop-members (suc fuel) m [] rest e f hm h = fields_loop_brace fuel m rest e hm
fields_loop-members (suc fuel) m (n ∷ ms) rest e f hm (hn, h) =
    fields_loop_comma fuel m _ e hm
    ∙ fields_loop-members fuel n ms rest (set_field e m.0 m.1) (omega arith) hn h
