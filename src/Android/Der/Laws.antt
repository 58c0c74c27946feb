-- ===== src/Android/Der/Laws.antt =====
-- What the code relies on of the `der` crate: hypotheses on the record `Der`.
use attestation.Common.{
  ℕ, ◌≤◌, ◌<◌, ◌≡◌, ◌↔◌, ◌⊎◌, Bool, true, some, [], ◌∷◌, ◌++◌, length, Bytes, if◌then◌else◌,
}
use attestation.Android.Der.{Header, Der, sequence_tag, set_tag, enumerated_tag}

-- The tags of X.690 that the code does not name.
abbrev pub boolean_tag : ℕ
boolean_tag = 0x01

abbrev pub integer_tag : ℕ
integer_tag = 0x02

abbrev pub octet_string_tag : ℕ
octet_string_tag = 0x04

-- `Length::MAX` of the crate.
abbrev pub max_length : ℕ
max_length = 0x0fffffff

-- The contents of an INTEGER in DER: not empty, and the first nine bits not all alike.
abbrev pub IsMinimal : Bytes → Type 0
IsMinimal [] = ⊥
IsMinimal (b ∷ []) = Unit {0}
IsMinimal (b ∷ c ∷ bs) = ((b ≡ 0) → 128 ≤ c) × ((b ≡ 255) → c < 128)

-- The contents of a BOOLEAN in DER.
abbrev pub boolean_octets : Bool → Bytes
boolean_octets b = (if b then 255 else 0) ∷ []

-- The tags whose headers the code reads.
abbrev pub IsNamed : ℕ → Type 0
IsNamed tag = (tag ≡ sequence_tag) ⊎ (tag ≡ set_tag) ⊎ (tag ≡ enumerated_tag)

-- `rest` is what a reader has still to read, and `octets` the encoding of a tag with contents. A reader
-- reads what is encoded in front of it, and every reading moves forward.
pub record DerLaws (d : Der) : Type 0 where
  pub rest : Der.Reader d → Bytes
  pub octets : ℕ → Bytes → Bytes
  pub new_reads :
      (bytes : Bytes)
      → length bytes ≤ max_length
      → (r : Der.Reader d) × (Der.new d bytes ≡ some r) × (rest r ≡ bytes)
  pub peek_reads :
      (r : Der.Reader d) (tag : ℕ) (contents more : Bytes)
      → IsNamed tag
      → rest r ≡ octets tag contents ++ more
      → Der.peek_header d r ≡ some (record { tag = tag; length = length contents })
  pub header_reads :
      (r : Der.Reader d) (tag : ℕ) (contents more : Bytes)
      → IsNamed tag
      → rest r ≡ octets tag contents ++ more
      → (s : Der.Reader d) × (Der.header d r
          ≡ some (record { tag = tag; length = length contents }, s))
        × (rest s ≡ contents ++ more)
  pub slice_reads :
      (r : Der.Reader d) (contents more : Bytes)
      → rest r ≡ contents ++ more
      → (s : Der.Reader d) × (Der.read_slice d r (length contents) ≡ some (contents, s))
        × (rest s ≡ more)
  pub int_reads :
      (r : Der.Reader d) (contents more : Bytes)
      → IsMinimal contents
      → rest r ≡ octets integer_tag contents ++ more
      → (s : Der.Reader d) × (Der.int d r ≡ some (contents, s)) × (rest s ≡ more)
  pub octet_string_reads :
      (r : Der.Reader d) (contents more : Bytes)
      → rest r ≡ octets octet_string_tag contents ++ more
      → (s : Der.Reader d) × (Der.octet_string d r ≡ some (contents, s)) × (rest s ≡ more)
  pub boolean_reads :
      (r : Der.Reader d) (b : Bool) (more : Bytes)
      → rest r ≡ octets boolean_tag (boolean_octets b) ++ more
      → (s : Der.Reader d) × (Der.boolean d r ≡ some (b, s)) × (rest s ≡ more)
  pub finished_iff : (r : Der.Reader d) → (Der.is_finished d r ≡ true) ↔ (rest r ≡ [])
  pub new_rest : (bytes : Bytes) (r : Der.Reader d) → Der.new d bytes ≡ some r → rest r ≡ bytes
  pub header_forward :
      (r s : Der.Reader d) (h : Header)
      → Der.header d r ≡ some (h, s)
      → length (rest s) < length (rest r)
  pub slice_forward :
      (r s : Der.Reader d) (n : ℕ) (contents : Bytes)
      → Der.read_slice d r n ≡ some (contents, s)
      → length (rest s) ≤ length (rest r)
  pub octet_string_forward :
      (r s : Der.Reader d) (contents : Bytes)
      → Der.octet_string d r ≡ some (contents, s)
      → length (rest s) < length (rest r)
