-- ===== src/Android/Der.antt =====
-- What rust/attest-android uses of the `der` crate. A tag is its identifier octet, and an error of
-- the crate is `none`: the code replaces each by an error of its own.
pub mod Laws
use attestation.Common.{ℕ, Bool, Option, Bytes}

pub record Header : Type 0 where
  pub tag : ℕ
  pub length : ℕ

abbrev pub enumerated_tag : ℕ
enumerated_tag = 0x0a

abbrev pub sequence_tag : ℕ
sequence_tag = 0x30

abbrev pub set_tag : ℕ
set_tag = 0x31

pub record Der : Type 1 where
  pub Reader : Type 0
  -- `SliceReader::new`
  pub new : Bytes → Option Reader
  pub peek_header : Reader → Option Header
  -- `reader.decode::<der::Header>()`
  pub header : Reader → Option (Header × Reader)
  pub read_slice : Reader → ℕ → Option (Bytes × Reader)
  -- `Int::decode` and `as_bytes`
  pub int : Reader → Option (Bytes × Reader)
  -- `OctetString::decode` and `into_bytes`
  pub octet_string : Reader → Option (Bytes × Reader)
  -- `bool::decode`
  pub boolean : Reader → Option (Bool × Reader)
  pub is_finished : Reader → Bool
