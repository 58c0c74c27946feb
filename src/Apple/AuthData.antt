-- ===== src/Apple/AuthData.antt =====
-- rust/attest-apple/src/authdata.rs.
pub mod Layout
pub mod RoundTrip
use attestation.Common.{
  ℕ, ◌+◌, bit_and, ◌==◌, ltb, length, take, drop, Bytes, be, Result, ok, reject_if, ◌>>=◌, ◌>>◌,
}
use attestation.Apple.Errors.{Error, auth_data_too_short, no_attested_credential_data}

abbrev pub at_flag : ℕ
at_flag = 0x40

pub record AuthData : Type 0 where
  pub rp_id_hash : Bytes
  pub flags : ℕ
  pub sign_count : ℕ
  pub aaguid : Bytes
  pub credential_id : Bytes
  pub credential_public_key : Bytes

-- `bytes[start..start + len]`
abbrev pub slice : (start len : ℕ) → Bytes → Bytes
slice start len bytes = take len (drop start bytes)

-- An octet is read as the number of a slice of one.
unfoldable pub parse : Bytes → Result Error AuthData
parse bytes = do
  reject_if (ltb (length bytes) 37) (auth_data_too_short (length bytes))
  let rp_id_hash = slice 0 32 bytes
  let flags = be (slice 32 1 bytes)
  let sign_count = be (slice 33 4 bytes)
  reject_if (bit_and flags at_flag == 0) no_attested_credential_data
  reject_if (ltb (length bytes) (37 + 16 + 2)) (auth_data_too_short (length bytes))
  let aaguid = slice 37 16 bytes
  let cred_id_len = be (slice 53 2 bytes)
  reject_if (ltb (length bytes) (55 + cred_id_len)) (auth_data_too_short (length bytes))
  ok (record {
    rp_id_hash = rp_id_hash;
    flags = flags;
    sign_count = sign_count;
    aaguid = aaguid;
    credential_id = slice 55 cred_id_len bytes;
    credential_public_key = drop (55 + cred_id_len) bytes;
  })
