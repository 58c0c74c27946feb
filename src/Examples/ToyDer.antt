-- ===== src/Examples/ToyDer.antt =====
-- The laws of the small DER reader.
use attestation.Common.{
  ℕ, zero, suc, ◌≤◌, ◌<◌, ◌↔◌, ◌≡◌, refl, ap, arith, Bool, true, false, some, [], ◌∷◌, ◌++◌, length,
  take, drop, take-append, drop-append, Bytes,
}
use attestation.Android.Der.{Header, Der}
use attestation.Android.Der.Laws.{DerLaws, boolean_tag, boolean_octets}
use attestation.Examples.Toy.{toy_der}

abbrev octets : ℕ → Bytes → Bytes
octets tag contents = tag ∷ length contents ∷ contents

take-reads : (contents more : Bytes) → take (length contents) (contents ++ more) ≡ contents
take-reads contents more = take-append (length contents) contents more refl

drop-reads : (contents more : Bytes) → drop (length contents) (contents ++ more) ≡ more
drop-reads contents more = drop-append (length contents) contents more refl

length-drop : (n : ℕ) (bs : Bytes) → length (drop n bs) ≤ length bs
length-drop zero bs = omega arith
length-drop (suc n) [] = omega arith
length-drop (suc n) (b ∷ bs) = omega (arith, length-drop n bs)

boolean_reads :
    (r : Bytes) (b : Bool) (more : Bytes)
    → r ≡ octets boolean_tag (boolean_octets b) ++ more
    → Der.boolean toy_der r ≡ some (b, more)
boolean_reads r true more e = rw e refl
boolean_reads r false more e = rw e refl

finished : (r : Bytes) → (Der.is_finished toy_der r ≡ true) ↔ (r ≡ [])
finished [] = ((λ h. refl), (λ h. refl))
finished (b ∷ r) = ((λ h. cc), (λ h. cc))

pub header_forward :
    (r s : Bytes) (h : Header) → Der.header toy_der r ≡ some (h, s) → length s < length r
header_forward [] s h e = cc
header_forward (a ∷ []) s h e = cc
header_forward (a ∷ b ∷ r) s h e = let same : r ≡ s = cc in omega (arith, ap length same)

pub slice_forward :
    (r s : Bytes) (n : ℕ) (contents : Bytes)
    → Der.read_slice toy_der r n ≡ some (contents, s)
    → length s ≤ length r
slice_forward r s n contents e =
    let same : drop n r ≡ s = cc in omega (arith, length-drop n r, ap length same)

pub string_forward :
    (r s : Bytes) (contents : Bytes)
    → Der.octet_string toy_der r ≡ some (contents, s)
    → length s < length r
string_forward [] s c e = cc
string_forward (a ∷ []) s c e = cc
string_forward (a ∷ b ∷ r) s c e =
    let same : drop b r ≡ s = cc in omega (arith, length-drop b r, ap length same)

unfoldable pub toy_laws : DerLaws toy_der
unfolding take-reads drop-reads boolean_reads finished
toy_laws = record {
  rest = λ r. r;
  octets = octets;
  new_reads = λ bytes short. (bytes, refl, refl);
  peek_reads = λ r tag contents more named e. rw e refl;
  header_reads = λ r tag contents more named e. (contents ++ more, rw e refl, refl);
  slice_reads = λ r contents more e.
      (more, rw e (rw (take-reads contents more, drop-reads contents more) refl), refl);
  int_reads = λ r contents more m e.
      (more, rw e (rw (take-reads contents more, drop-reads contents more) refl), refl);
  octet_string_reads = λ r contents more e.
      (more, rw e (rw (take-reads contents more, drop-reads contents more) refl), refl);
  boolean_reads = λ r b more e. (more, boolean_reads r b more e, refl);
  finished_iff = finished;
  new_rest = λ bytes r e. cc;
  header_forward = header_forward;
  slice_forward = slice_forward;
  octet_string_forward = string_forward;
}
