-- ===== src/Android/Tlv/Forms.antt =====
-- The form of a header, as in X.690: the independent description that `parse_tlv_header` is held to. It is
-- wider than X.690 in the long form of a tag number, which may write a number below 31 and begin with
-- groups of zero; and it has a long length of one to four octets only, which need not be the shortest.
use attestation.Common.{
  ℕ, ◌+◌, ◌*◌, ◌%◌, ◌^◌, ◌≤◌, ◌<◌, Bool, [], ◌∷◌, ◌++◌, if◌then◌else◌, length, All, Bytes, IsByte,
  be,
}
use attestation.Android.Tlv.{TlvHeader}

-- A tag number below 31 can stand in the first octet; any can be written in base 128 behind it.
pub data TagForm : Type 0 where
  low : ℕ → TagForm
  high : (groups : Bytes) (last : ℕ) → TagForm

-- A length below 128 can be one octet; any can be written in base 256 behind a count of octets.
pub data LenForm : Type 0 where
  short : ℕ → LenForm
  long : Bytes → LenForm

pub record HeaderForm : Type 0 where
  pub class : ℕ
  pub constructed : Bool
  pub tag : TagForm
  pub len : LenForm

abbrev pub base128 : ℕ → Bytes → ℕ
base128 acc [] = acc
base128 acc (g ∷ gs) = base128 (acc * 128 + g) gs

abbrev pub tag_value : TagForm → ℕ
tag_value (low t) = t
tag_value (high gs last) = base128 0 gs * 128 + last

abbrev pub len_value : LenForm → ℕ
len_value (short l) = l
len_value (long os) = be os

abbrev pub low5_of : TagForm → ℕ
low5_of (low t) = t
low5_of (high gs last) = 31

abbrev pub marked : Bytes → ℕ → Bytes
marked [] last = last ∷ []
marked (g ∷ gs) last = (g + 128) ∷ marked gs last

abbrev pub tag_octets : TagForm → Bytes
tag_octets (low t) = []
tag_octets (high gs last) = marked gs last

abbrev pub len_octets : LenForm → Bytes
len_octets (short l) = l ∷ []
len_octets (long os) = (length os + 128) ∷ os

abbrev pub first_octet : HeaderForm → ℕ
first_octet h = h.class * 64 + (if h.constructed then 32 else 0) + low5_of h.tag

abbrev pub octets : HeaderForm → Bytes
octets h = first_octet h ∷ (tag_octets h.tag ++ len_octets h.len)

abbrev pub IsGroup : ℕ → Type 0
IsGroup g = g < 128

abbrev pub IsTag : TagForm → Type 0
IsTag (low t) = t < 31
IsTag (high gs last) = All IsGroup gs × (last < 128)

-- The code takes one to four octets of a long length.
abbrev pub IsLen : LenForm → Type 0
IsLen (short l) = l < 128
IsLen (long os) = All IsByte os × (1 ≤ length os) × (length os ≤ 4)

pub record IsHeader (h : HeaderForm) : Type 0 where
  pub class_lt : h.class < 4
  pub tag_form : IsTag h.tag
  pub len_form : IsLen h.len

-- What the code makes of a header: the tag number is kept to 32 bits.
abbrev pub header_of : HeaderForm → TlvHeader
header_of h = record {
  class = h.class;
  constructed = h.constructed;
  tag_number = tag_value h.tag % 2 ^ 32;
  header_len = length (octets h);
  body_len = len_value h.len;
}
