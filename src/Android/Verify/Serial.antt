-- ===== src/Android/Verify/Serial.antt =====
-- How `check_status` writes a serial number.

use Prim.Native.Nat.{◌/◌, ◌%◌}
use attestation.Common.{
  ℕ, ◌<◌, ◌≤◌, ◌≡◌, ◌≢◌, refl, ap, ◌∙◌, arith, true, false, ◌==◌, ltb, [], ◌∷◌, ◌++◌, if◌then◌else◌,
  Bytes, All, replicate, zero, suc, some, none, bytes_eq, ok, err,
}
use attestation.X509.{X509}
use attestation.Android.Errors.{revoked}
use attestation.Android.Revocation.{StatusEntry, StatusList, Entries, get, lookup_serial}
use attestation.Android.Verify.{hex_digit, hex2, push_serial, serial_hex, check_status}

-- Two hexadecimal digits for each octet.
abbrev pub hex : Bytes → Bytes
hex [] = []
hex (b ∷ bs) = hex2 b ++ hex bs

-- The number in lower-case hexadecimal with no digit 0 in front, as the keys of Google's list are
-- written, of a serial number whose first octet that is not 0 is `b`.
abbrev pub canonical : ℕ → Bytes → Bytes
canonical b bs = if ltb b 16 then hex_digit b ∷ hex bs else hex2 b ++ hex bs

push_serial-hex : (bs : Bytes) → push_serial false bs ≡ hex bs
unfolding push_serial
push_serial-hex [] = refl
push_serial-hex (b ∷ bs) = ap (λ t. hex2 b ++ t) (push_serial-hex bs)

push_serial-zeros :
    (z : ℕ) (bs : Bytes) → push_serial true (replicate z 0 ++ bs) ≡ push_serial true bs
unfolding push_serial
push_serial-zeros zero bs = refl
push_serial-zeros (suc z) bs = push_serial-zeros z bs

==_false : (b : ℕ) → b ≢ 0 → (b == 0) ≡ false
==_false b h = ground arith

-- Octets 0 in front are dropped, and each octet from the first other on is written with two digits.
pub serial_hex-hex :
    (z b : ℕ) (bs : Bytes) → b ≢ 0 → serial_hex (replicate z 0 ++ (b ∷ bs)) ≡ hex (b ∷ bs)
unfolding serial_hex push_serial
serial_hex-hex z b bs h = rw (push_serial-zeros z (b ∷ bs), ==_false b h, push_serial-hex bs)

high : (b : ℕ) (bs : Bytes) → 16 ≤ b → hex (b ∷ bs) ≡ canonical b bs
high b bs le = let two : ltb b 16 ≡ false = ground arith in rw two refl

low : (b : ℕ) (bs : Bytes) → b < 16 → hex (b ∷ bs) ≡ b'0' ∷ canonical b bs
low b bs lt =
    let one : ltb b 16 ≡ true = ground arith in
    let upper : b / 16 ≡ 0 = omega arith in
    let lower : b % 16 ≡ b = omega arith in rw (one, upper, lower) refl

-- The serial number is written as the list writes it where its first octet that is not 0 is at least
-- 16; where that octet is less, the code writes a digit 0 too much in front.
pub serial_hex-canonical :
    (z b : ℕ) (bs : Bytes)
    → b ≢ 0
    → ((16 ≤ b → serial_hex (replicate z 0 ++ (b ∷ bs)) ≡ canonical b bs)
        × (b < 16 → serial_hex (replicate z 0 ++ (b ∷ bs)) ≡ b'0' ∷ canonical b bs))
serial_hex-canonical z b bs h =
    ((λ le. serial_hex-hex z b bs h ∙ high b bs le), (λ lt. serial_hex-hex z b bs h ∙ low b bs lt))

-- The key has no digit 0 in front.
abbrev pub Unpadded : Bytes × StatusEntry → Type 0
Unpadded e = elim e.0 [ [] ↦ Unit {0} | c ∷ _ ↦ c ≢ b'0' ]

get-Unpadded : (key : Bytes) (m : Entries) → All Unpadded m → get (b'0' ∷ key) m ≡ none
unfolding get bytes_eq
get-Unpadded key [] h = refl
get-Unpadded key (([], w) ∷ m) (h, hs) = get-Unpadded key m hs
get-Unpadded key ((c ∷ j, w) ∷ m) (h, hs) =
    let other : (c == b'0') ≡ false = ground arith in rw other (get-Unpadded key m hs)

module _ (x : X509) (list : StatusList) (bytes : Bytes) (cert : X509.Certificate x)
    (parses : X509.from_der x bytes ≡ some cert) (z b : ℕ) (bs : Bytes) (nonzero : b ≢ 0)
    (serial : X509.serial_number x cert ≡ replicate z 0 ++ (b ∷ bs)) where
  -- A certificate whose serial number stands in the list, in lower-case hexadecimal with no digit 0 in
  -- front, is rejected with the list's status and reason, where the first octet of the number that is
  -- not 0 is at least 16.
  pub check_status-revoked :
      (entry : StatusEntry)
      → 16 ≤ b
      → lookup_serial list (canonical b bs) ≡ some entry
      → check_status x list bytes ≡ err (revoked (canonical b bs) entry.status entry.reason)
  unfolding check_status
  check_status-revoked entry le found =
      let hex_eq : serial_hex (X509.serial_number x cert) ≡ canonical b bs =
        ap serial_hex serial ∙ (serial_hex-canonical z b bs nonzero).0 le in
      rw (parses, hex_eq, found)

  -- A certificate the first octet of whose serial number, those that are 0 left out, is below 16 passes
  -- the check against every list that has no key with a digit 0 in front, so also where its serial
  -- number stands in the list.
  pub check_status-misses : b < 16 → All Unpadded list.entries → check_status x list bytes ≡ ok tt
  unfolding check_status lookup_serial
  check_status-misses lt keys =
      let hex_eq : serial_hex (X509.serial_number x cert) ≡ b'0' ∷ canonical b bs =
        ap serial_hex serial ∙ (serial_hex-canonical z b bs nonzero).1 lt in
      rw (parses, hex_eq, get-Unpadded (canonical b bs) list.entries keys)
