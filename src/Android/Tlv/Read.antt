-- ===== src/Android/Tlv/Read.antt =====
-- `parse_tlv_header` reads every header of the form, X.690's with a length of at most four octets among them.
use attestation.Common.{
  ℕ, zero, suc, ◌+◌, ◌*◌, ◌/◌, ◌%◌, ◌^◌, ◌≤◌, ◌<◌, bit_and, ◌≡◌, refl, ◌∙◌, not, some, [], ◌∷◌,
  ◌++◌, append_assoc, arith, ◌==◌, length, length-append, drop-append, All, Bytes, IsByte, be_from,
  mask_7f, mask_80, mask_20, mask_1f, mask_03,
}
use attestation.Android.Tlv.{
  push_group, push_octet, tag_loop, len_loop, parse_tag, parse_len, parse_header, parse_tlv_header,
}
use attestation.Android.Tlv.Forms.{
  TagForm, low, high, LenForm, short, long, HeaderForm, base128, tag_value, len_value, low5_of,
  marked, tag_octets, len_octets, first_octet, octets, IsGroup, IsTag, IsLen, IsHeader, header_of,
}

-- The shift drops the high bits, and the sum then always fits: no tag number is refused.
pub push_group_wraps : (n b : ℕ) → IsByte b → push_group n b ≡ some ((n * 128 + b % 128) % 2 ^ 32)
push_group_wraps n b h = ground (arith, mask_7f b h)

pub base128-mod :
    (gs : Bytes) (a b : ℕ) → a % 2 ^ 32 ≡ b % 2 ^ 32 → base128 a gs % 2 ^ 32 ≡ base128 b gs % 2 ^ 32
base128-mod [] a b h = h
base128-mod (g ∷ gs) a b h = base128-mod gs (a * 128 + g) (b * 128 + g) (omega arith)

tag_loop_last :
    (n b cur : ℕ) (rest : Bytes)
    → b < 128
    → tag_loop (b ∷ rest) n cur ≡ some ((n * 128 + b) % 2 ^ 32, cur + 1, rest)
unfolding tag_loop
tag_loop_last n b cur rest h = ground (arith, push_group_wraps n b, mask_80 b)

tag_loop_more :
    (n g cur : ℕ) (rest : Bytes)
    → g < 128
    → tag_loop ((g + 128) ∷ rest) n cur ≡ tag_loop rest ((n * 128 + g) % 2 ^ 32) (cur + 1)
unfolding tag_loop
tag_loop_more n g cur rest h = ground (arith, push_group_wraps n (g + 128), mask_80 (g + 128))

tag_loop-marked :
    (gs : Bytes) (last n cur : ℕ) (rest : Bytes)
    → All IsGroup gs
    → last < 128
    → tag_loop (marked gs last ++ rest) n cur
      ≡ some ((base128 n gs * 128 + last) % 2 ^ 32, cur + length (marked gs last), rest)
tag_loop-marked [] last n cur rest h hl = tag_loop_last n last cur rest hl
tag_loop-marked (g ∷ gs) last n cur rest (hg, h) hl =
    tag_loop_more n g cur (marked gs last ++ rest) hg
    ∙ tag_loop-marked gs last ((n * 128 + g) % 2 ^ 32) (cur + 1) rest h hl
    ∙ ground (arith, base128-mod gs ((n * 128 + g) % 2 ^ 32) (n * 128 + g))

-- What `v` must stay below for as many more octets to fit a word of 64 bits.
abbrev pub room : ℕ → ℕ
room zero = 2 ^ 64
room (suc n) = room n / 256

pub room-le : (n : ℕ) → room n ≤ 2 ^ 64
room-le zero = omega arith
room-le (suc n) = omega (arith, room-le n)

pub room_pos : (n : ℕ) → n ≤ 4 → 0 < room n
room_pos zero h = omega arith
room_pos (suc zero) h = omega arith
room_pos (suc (suc zero)) h = omega arith
room_pos (suc (suc (suc zero))) h = omega arith
room_pos (suc (suc (suc (suc zero)))) h = omega arith
room_pos (suc (suc (suc (suc (suc n))))) h = absurd (omega arith)

pub push_octet_fits : (v b : ℕ) → IsByte b → v < 2 ^ 56 → push_octet v b ≡ some (v * 256 + b)
push_octet_fits v b h fits = ground arith

len_loop-octets :
    (os : Bytes) (v cur : ℕ) (rest : Bytes)
    → All IsByte os
    → v < room (length os)
    → len_loop (length os) (os ++ rest) v cur ≡ some (be_from v os, cur + length os, rest)
unfolding len_loop
len_loop-octets [] v cur rest h fits = ground arith
len_loop-octets (o ∷ os) v cur rest (ho, h) fits = ground (
  arith,
  room-le (length os),
  push_octet_fits v o ho,
  len_loop-octets os (v * 256 + o) (cur + 1) rest h,
)

parse_tag-octets :
    (t : TagForm) (first : ℕ) (rest : Bytes)
    → IsTag t
    → first % 32 ≡ low5_of t
    → IsByte first
    → parse_tag first (tag_octets t ++ rest)
      ≡ some (tag_value t % 2 ^ 32, 1 + length (tag_octets t), rest)
unfolding parse_tag
parse_tag-octets (low t) first rest h e hb = ground (arith, mask_1f first)
parse_tag-octets (high gs last) first rest (hg, hl) e hb =
    ground (arith, mask_1f first, tag_loop-marked gs last 0 1 rest hg)

parse_len-octets :
    (l : LenForm) (cur : ℕ) (rest : Bytes)
    → IsLen l
    → parse_len (len_octets l ++ rest) cur ≡ some (len_value l, cur + length (len_octets l), rest)
unfolding parse_len
parse_len-octets (short l) cur rest h = ground (arith, mask_80 l)
parse_len-octets (long os) cur rest (h, lo, hi) = ground (
  arith,
  mask_80 (length os + 128),
  mask_7f (length os + 128),
  room_pos (length os),
  len_loop-octets os 0 (cur + 1) rest h,
)

low5_of-lt : (t : TagForm) → IsTag t → low5_of t < 32
low5_of-lt (low t) h = omega arith
low5_of-lt (high gs last) h = omega arith

first_octet_fields :
    (h : HeaderForm)
    → IsHeader h
    → IsByte (first_octet h)
      × (first_octet h % 32 ≡ low5_of h.tag)
      × (bit_and (first_octet h / 64) 3 ≡ h.class)
      × (not (bit_and (first_octet h) 0x20 == 0) ≡ h.constructed)
first_octet_fields h w = ground (
  arith,
  low5_of-lt h.tag w.tag_form,
  w.class_lt,
  mask_03 (first_octet h / 64),
  mask_20 (first_octet h),
)

-- Decoding the octets of a header gives the header, with the tag number kept to 32 bits.
pub parse_header-octets :
    (h : HeaderForm) (rest : Bytes)
    → IsHeader h
    → parse_header (octets h ++ rest) ≡ some (header_of h)
unfolding parse_header
parse_header-octets h rest w = rw append_assoc (
    ground (
      arith,
      first_octet_fields h w,
      parse_tag-octets h.tag (first_octet h) (len_octets h.len ++ rest) w.tag_form,
      parse_len-octets h.len (1 + length (tag_octets h.tag)) rest w.len_form,
      length-append (tag_octets h.tag) (len_octets h.len),
    ))

-- From any position, `parse_tlv_header` reads a header with a length of at most four octets: it
-- gives the class, the constructed bit, the tag number modulo 2 ^ 32, the header's own length and
-- the length of the body. No tag number is refused for its size.
pub parse_tlv_header-octets :
    (before : Bytes) (h : HeaderForm) (rest : Bytes)
    → IsHeader h
    → parse_tlv_header (before ++ (octets h ++ rest)) (length before) ≡ some (header_of h)
unfolding parse_tlv_header
parse_tlv_header-octets before h rest w =
    rw (drop-append (length before) before (octets h ++ rest) refl) (parse_header-octets h rest w)
