-- ===== src/Android/Tlv/Sound.antt =====
-- Whatever `parse_tlv_header` accepts has the form of a header, and no byte behind it was looked at.
use attestation.Common.{
  ℕ, zero, suc, ◌+◌, ◌*◌, ◌/◌, ◌%◌, ◌^◌, ◌≤◌, ◌<◌, bit_and, ◌≡◌, ap, not, some, [], ◌∷◌, ◌++◌,
  append_assoc, arith, ◌==◌, length, length-append, length-drop, All, Bytes, IsByte, mask_20,
  mask_03, if◌then◌else◌, drop,
}
use mathlib.Core.Path.{subst}
use attestation.Common.Maybe.{>>=-eq-some, some-eq-some}
use attestation.Android.Tlv.{TlvHeader, parse_tag, parse_len, parse_header, parse_tlv_header}
use attestation.Android.Tlv.Forms.{
  TagForm, LenForm, short, long, HeaderForm, len_value, low5_of, tag_octets, len_octets, octets,
  IsLen, IsHeader, header_of,
}
use attestation.Android.Tlv.Parts.{TagRead, LenRead, parse_tag-TagRead, parse_len-LenRead}

-- `bytes` begin with the header `form`, and `r` is what the code makes of it.
pub record HeaderRead (bytes : Bytes) (r : TlvHeader) : Type 0 where
  pub form : HeaderForm
  pub behind : Bytes
  pub is_header : IsHeader form
  pub splits : bytes ≡ octets form ++ behind
  pub fields : r ≡ header_of form

first_octet-eq :
    (b : ℕ) (t : TagForm)
    → IsByte b
    → b % 32 ≡ low5_of t
    → b ≡ bit_and (b / 64) 3 * 64 + (if not (bit_and b 0x20 == 0) then 32 else 0) + low5_of t
first_octet-eq b t h e = ground (arith, mask_03 (b / 64), mask_20 b)

HeaderRead-parts :
    {first tag cur len end : ℕ} {bs mid rest : Bytes}
    → IsByte first
    → TagRead first bs tag cur mid
    → LenRead mid cur len end rest
    → HeaderRead (first ∷ bs) (record {
      class = bit_and (first / 64) 3;
      constructed = not (bit_and first 0x20 == 0);
      tag_number = tag;
      header_len = end;
      body_len = len;
    })
HeaderRead-parts {first} {rest = rest} hf t l = record {
  form = record {
    class = bit_and (first / 64) 3;
    constructed = not (bit_and first 0x20 == 0);
    tag = t.form;
    len = l.form;
  };
  behind = rest;
  is_header = record {
    class_lt = ground (arith, mask_03 (first / 64));
    tag_form = t.is_tag;
    len_form = l.is_len;
  };
  splits = rw append_assoc (cc (first_octet-eq first t.form hf t.low5, t.splits, l.splits));
  fields = ground (
    arith,
    t.value,
    l.value,
    t.moved,
    l.moved,
    length-append (tag_octets t.form) (len_octets l.form),
  );
}

parse_header-HeaderRead :
    (bytes : Bytes) (r : TlvHeader)
    → All IsByte bytes
    → parse_header bytes ≡ some r
    → HeaderRead bytes r
unfolding parse_header
parse_header-HeaderRead [] r h e = cc
parse_header-HeaderRead (first ∷ bs) r (hf, h) e =
    let ((tag, cur, mid), e1, e') = >>=-eq-some (parse_tag first bs) _ e in
    let ((len, end, rest), e2, e3) = >>=-eq-some (parse_len mid cur) _ e' in
    let t = parse_tag-TagRead first bs tag cur mid hf h e1 in
    let l = parse_len-LenRead mid cur len end rest t.rest_bytes e2 in
    subst (HeaderRead (first ∷ bs)) (some-eq-some e3) (HeaderRead-parts hf t l)

All-drop : (n : ℕ) (bs : Bytes) → All IsByte bs → All IsByte (drop n bs)
All-drop zero bs h = h
All-drop (suc n) [] h = tt
All-drop (suc n) (b ∷ bs) (_, h) = All-drop n bs h

-- On bytes, whatever `parse_tlv_header` accepts at `pos` is the octets of a class, the constructed bit, a tag
-- number and a length, in the short forms of X.690 or in its long ones, a long length of one to four
-- octets; a long tag number may, beyond X.690, be below 31 or begin with groups of zero. What is
-- returned is read off these, with the tag number modulo 2 ^ 32.
pub parse_tlv_header-HeaderRead :
    (bytes : Bytes) (pos : ℕ) (r : TlvHeader)
    → All IsByte bytes
    → parse_tlv_header bytes pos ≡ some r
    → HeaderRead (drop pos bytes) r
unfolding parse_tlv_header
parse_tlv_header-HeaderRead bytes pos r h e =
    parse_header-HeaderRead (drop pos bytes) r (All-drop pos bytes h) e

len_value-lt : (l : LenForm) → IsLen l → len_value l < 2 ^ 32
len_value-lt (short l) h = omega arith
len_value-lt (long []) h = omega arith
len_value-lt (long (a ∷ [])) h = omega arith
len_value-lt (long (a ∷ b ∷ [])) h = omega arith
len_value-lt (long (a ∷ b ∷ c ∷ [])) h = omega arith
len_value-lt (long (a ∷ b ∷ c ∷ d ∷ [])) h = omega arith
len_value-lt (long (a ∷ b ∷ c ∷ d ∷ e ∷ os)) h = absurd (omega arith)

len_octets-pos : (l : LenForm) → 1 ≤ length (len_octets l)
len_octets-pos (short l) = omega arith
len_octets-pos (long os) = omega arith

HeaderRead-bounds :
    (bytes : Bytes) (r : TlvHeader)
    → HeaderRead bytes r
    → (2 ≤ r.header_len)
      × (r.header_len ≤ length bytes)
      × (r.class < 4)
      × (r.tag_number < 2 ^ 32)
      × (r.body_len < 2 ^ 32)
HeaderRead-bounds bytes r p = ground (
  arith,
  p.fields,
  p.is_header.class_lt,
  len_value-lt p.form.len p.is_header.len_form,
  len_octets-pos p.form.len,
  length-append (tag_octets p.form.tag) (len_octets p.form.len),
  ap length p.splits,
  length-append (octets p.form) p.behind,
)

-- An accepted header lies within the bytes and takes two of them at least; its class has two bits,
-- its tag number and the length that it states have 32.
pub parse_tlv_header_bounds :
    (bytes : Bytes) (pos : ℕ) (r : TlvHeader)
    → All IsByte bytes
    → parse_tlv_header bytes pos ≡ some r
    → (2 ≤ r.header_len)
      × (pos + r.header_len ≤ length bytes)
      × (r.class < 4)
      × (r.tag_number < 2 ^ 32)
      × (r.body_len < 2 ^ 32)
parse_tlv_header_bounds bytes pos r h e = omega (
  arith,
  HeaderRead-bounds (drop pos bytes) r (parse_tlv_header-HeaderRead bytes pos r h e),
  length-drop pos bytes,
)
