-- ===== src/Examples/Devices.antt =====
-- Runs of the theorems on bindings, their actions and their lifecycle.
use attestation.Common.{
  ℕ, ◌^◌, ◌<◌, ◌≤◌, ◌≡◌, ◌≢◌, ◌↔◌, refl, arith, true, [], ◌∷◌, ◌++◌, replicate, inl, inr, Bytes, ok,
}
use attestation.Move.Framework.{Sui}
use attestation.Move.Witness.{Witness, witness, android_key_attestation}
use attestation.Move.DeviceBinding.{
  DeviceBinding, Held, transfer_to, Verified, verified, ed25519, secp256r1, device_bound, new,
  canonical_message, verify_action,
}
use attestation.Move.DeviceBinding.Message.{MessageLaws}
use attestation.Move.DeviceBinding.Authorized.{verify_action_once, verify_action_overlap}
use attestation.Move.Schemes.{compress, verify_secp256r1}
use attestation.Move.Schemes.Compress.{Compressed, compress_iff}
use attestation.Move.Schemes.Actions.{by_ed25519, PassesAction, verify_action-verify}
use attestation.Move.Schemes.Spki.{Point, uncompressed, spki, garbled, verify_secp256r1-spki}
use attestation.Move.Lifecycle.{
  Chain, genesis, by_android, Step, set_policy, enroll, hand_over, stays, goes_on,
}
use attestation.Move.Lifecycle.Kept.{WasHeld, Steps-kept}
use attestation.Move.Lifecycle.WellFormed.{IsWellFormed, Steps-IsWellFormed}
use attestation.Examples.Enclave.{policy, sui}
use attestation.Examples.Accepted.{android_document, android_verifies, detail}

abbrev long_key : Bytes
long_key = 4 ∷ (replicate 32 1 ++ (replicate 31 2 ++ (3 ∷ [])))

compresses : compress long_key ≡ ok (3 ∷ replicate 32 1)
unfolding compress attestation.Move.Schemes.copy_loop attestation.Move.Framework.borrow
compresses = refl

compress_iff_example : Compressed long_key (3 ∷ replicate 32 1)
compress_iff_example = (compress_iff long_key (3 ∷ replicate 32 1)).0 compresses

abbrev point : Point
point = record {
  lead = 1;
  next = replicate 5 1;
  tail = replicate 26 1;
  front = replicate 5 2;
  sixth = 8;
  back = replicate 25 2;
  final = 3;
  next_size = refl;
  tail_size = refl;
  front_size = refl;
  back_size = refl;
}

checks :
    verify_secp256r1 sui (spki point) (6 ∷ []) (garbled point)
    ≡ ok (verified secp256r1 (spki point) (6 ∷ []))
unfolding verify_secp256r1 compress attestation.Move.Schemes.copy_loop
    attestation.Move.Framework.borrow attestation.Common.bytes_eq
checks = refl

point_compresses : compress (uncompressed point) ≡ ok (3 ∷ replicate 32 1)
unfolding compress attestation.Move.Schemes.copy_loop attestation.Move.Framework.borrow
point_compresses = refl

verify_secp256r1-spki_example :
    (Sui.secp256r1_verify sui (garbled point) (garbled point) (6 ∷ []) ≡ true)
    × (garbled point ≢ 3 ∷ replicate 32 1)
verify_secp256r1-spki_example =
    verify_secp256r1-spki point sui (6 ∷ []) (garbled point)
      (verified secp256r1 (spki point) (6 ∷ [])) (3 ∷ replicate 32 1) (λ e. absurd (omega arith))
      point_compresses checks

message_laws : MessageLaws sui
message_laws = record {
  id_size = λ n. refl;
  id_injective = λ m n i j e. cc;
  u64_size = λ n. refl;
  u64_injective = λ m n i j e. cc;
}

abbrev binding : DeviceBinding android_key_attestation ed25519
binding = record { id = 5; pk = 20 ∷ []; issued_at_ms = 970000 }

verify_action-verify_example :
    PassesAction by_ed25519 sui binding (1 ∷ []) (2 ∷ []) 980000 975000 (20 ∷ [])
unfolding attestation.Common.bytes_eq
verify_action-verify_example =
    (verify_action-verify by_ed25519 sui binding (1 ∷ []) (2 ∷ []) 980000 975000 (20 ∷ [])).1
      (omega arith, refl)

abbrev receipt : Verified ed25519
receipt = verified ed25519 (20 ∷ []) (canonical_message sui 5 (1 ∷ []) (2 ∷ []) 980000)

acts : verify_action sui binding receipt (1 ∷ []) (2 ∷ []) 980000 975000 ≡ true
unfolding verify_action canonical_message attestation.Common.bytes_eq
acts = refl

verify_action_once_example :
    (◌≡◌ {A = ℕ} 5 5)
    × (◌≡◌ {A = Bytes} (20 ∷ []) (20 ∷ []))
    × (◌≡◌ {A = Bytes} (1 ∷ []) (1 ∷ []))
    × (◌≡◌ {A = Bytes} (2 ∷ []) (2 ∷ []))
    × (◌≡◌ {A = ℕ} 980000 980000)
verify_action_once_example =
    verify_action_once sui message_laws binding binding receipt (1 ∷ []) (1 ∷ []) (2 ∷ []) (2 ∷ [])
      980000 980000 975000 975000 (omega arith) (omega arith) (omega arith) (omega arith) refl acts
      acts

verify_action_overlap_example :
    verify_action sui binding receipt
      (1 ∷ [])
      (3 ∷ ((5 ∷ replicate 31 0) ++ (2 ∷ [])))
      980000
      975000
    ≡ verify_action sui binding receipt
        ((1 ∷ []) ++ ((5 ∷ replicate 31 0) ++ (3 ∷ [])))
        (2 ∷ [])
        980000
        975000
verify_action_overlap_example =
    verify_action_overlap sui binding receipt (1 ∷ []) (3 ∷ []) (2 ∷ []) 980000 975000

abbrev attested : Witness android_key_attestation
attested = witness android_key_attestation (20 ∷ []) (7 ∷ []) 900000 detail

abbrev other_binding : DeviceBinding android_key_attestation ed25519
other_binding = record { id = 6; pk = 20 ∷ []; issued_at_ms = 970000 }

abbrev first_held : Held
first_held = record {
  source = android_key_attestation;
  scheme = ed25519;
  owner = 9;
  binding = binding;
}

abbrev second_held : Held
second_held = record {
  source = android_key_attestation;
  scheme = ed25519;
  owner = 8;
  binding = other_binding;
}

abbrev with_policy : Chain
with_policy = record { held = []; ids = []; policies = policy ∷ []; events = [] }

abbrev enrolled : Chain
enrolled = record {
  held = first_held ∷ [];
  ids = 5 ∷ [];
  policies = policy ∷ [];
  events = device_bound 5 android_key_attestation ed25519 ∷ [];
}

abbrev enrolled_twice : Chain
enrolled_twice = record {
  held = second_held ∷ first_held ∷ [];
  ids = 6 ∷ 5 ∷ [];
  policies = policy ∷ [];
  events =
      device_bound 6 android_key_attestation ed25519
      ∷ device_bound 5 android_key_attestation ed25519
      ∷ [];
}

abbrev moved_held : Held
moved_held = transfer_to binding 8

abbrev handed_over : Chain
handed_over = record {
  held = second_held ∷ moved_held ∷ [];
  ids = 6 ∷ 5 ∷ [];
  policies = policy ∷ [];
  events =
      device_bound 6 android_key_attestation ed25519
      ∷ device_bound 5 android_key_attestation ed25519
      ∷ [];
}

makes_first :
    new android_key_attestation ed25519 attested (20 ∷ []) 970000 5
    ≡ ok (binding, device_bound 5 android_key_attestation ed25519)
unfolding new attestation.Common.bytes_eq
makes_first = refl

makes_second :
    new android_key_attestation ed25519 attested (20 ∷ []) 970000 6
    ≡ ok (other_binding, device_bound 6 android_key_attestation ed25519)
unfolding new attestation.Common.bytes_eq
makes_second = refl

policy-Step : Step sui 1 genesis with_policy
policy-Step = set_policy policy

first-Step : Step sui 9 with_policy enrolled
first-Step =
    enroll android_key_attestation ed25519 attested (20 ∷ []) 970000 5 9 binding
      (device_bound 5 android_key_attestation ed25519)
      (by_android policy android_document (20 ∷ []) (7 ∷ []) detail 960000 (inl refl)
        android_verifies)
      tt makes_first

-- The same document enrolls the same key for another account.
second-Step : Step sui 8 enrolled enrolled_twice
second-Step =
    enroll android_key_attestation ed25519 attested (20 ∷ []) 970000 6 8 other_binding
      (device_bound 6 android_key_attestation ed25519)
      (by_android policy android_document (20 ∷ []) (7 ∷ []) detail 960000 (inl refl)
        android_verifies)
      ((λ e. absurd (omega arith)), tt) makes_second

-- The first holder hands the binding over.
third-Step : Step sui 9 enrolled_twice handed_over
third-Step = hand_over (second_held ∷ []) first_held [] 8 refl refl

Steps-IsWellFormed_example : IsWellFormed sui handed_over
Steps-IsWellFormed_example = Steps-IsWellFormed sui (
    goes_on 9 (goes_on 8 (goes_on 9 (goes_on 1 stays policy-Step) first-Step) second-Step)
      third-Step)

Steps-kept_example : WasHeld moved_held enrolled.held
Steps-kept_example =
    (Steps-kept sui (goes_on 9 (goes_on 8 stays second-Step) third-Step)).0 moved_held
      (inr (inl refl)) (inl refl)
