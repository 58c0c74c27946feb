-- ===== src/Android/Verify/Accepts.antt =====
-- When the boot state of a device is accepted.
use attestation.Common.{
  ◌≡◌, ◌↔◌, ◌⊎◌, inl, inr, refl, Bool, true, false, not, ◌&&◌, Option, none, some, List, [], ◌∷◌,
  Any, Bytes, bytes_eq, bytes_eq_iff, Bool-cases, Result, ok, err, reject_if, if◌then◌else◌,
}
use attestation.X509.Checks.Laws.{Passes, seq-Passes}
use attestation.Android.Errors.{Error, VerifiedBootState, verified, self_signed, unverified, failed}
use attestation.Android.Authorizations.{RootOfTrust}
use attestation.Android.Verify.{Policy, no_keys, contains, check_boot_state, check_verified_boot}

-- The key is one of the list.
abbrev pub Listed : Bytes → List Bytes → Type 0
Listed key = Any (λ k. k ≡ key)

-- GREEN always; any state where the policy neither asks for GREEN nor lists a key; YELLOW where it
-- does not ask for GREEN and lists the boot key.
abbrev pub BootStateAccepted : Policy → Bytes → VerifiedBootState → Type 0
BootStateAccepted policy key state =
    (state ≡ verified)
    ⊎ ((policy.require_verified_boot ≡ false)
        × ((policy.allowed_self_signed_keys ≡ [])
            ⊎ ((state ≡ self_signed) × Listed key policy.allowed_self_signed_keys)))

-- What a device says of its boot is accepted. A device that says nothing is, unless GREEN is asked for.
abbrev pub BootAccepted : Policy → Option RootOfTrust → Type 0
BootAccepted policy none = policy.require_verified_boot ≡ false
BootAccepted policy (some rot) =
    ((policy.require_device_locked ≡ false) ⊎ (rot.device_locked ≡ true))
    × BootStateAccepted policy rot.verified_boot_key rot.verified_boot_state

contains_iff : (key : Bytes) (keys : List Bytes) → (contains key keys ≡ true) ↔ Listed key keys
unfolding contains
contains_iff key [] = ((λ h. cc), (λ h. absurd h))
contains_iff key (k ∷ keys) = elim (Bool-cases (bytes_eq k key)) [
  | inl same ↦ ((λ h. inl ((bytes_eq_iff k key).0 same)), (λ h. rw same))
  | inr other ↦ (
    (λ h. inr ((contains_iff key keys).0 (rw other at h))),
    (λ h. rw other (elim h [
      | inl same ↦ cc ((bytes_eq_iff k key).1 same, other)
      | inr later ↦ (contains_iff key keys).1 later
    ])),
  )
]

no_keys_iff : (keys : List Bytes) → (no_keys keys ≡ true) ↔ (keys ≡ [])
no_keys_iff [] = ((λ h. refl), (λ h. refl))
no_keys_iff (k ∷ keys) = ((λ h. cc), (λ h. cc))

abbrev OptedOut : Policy → Type 0
OptedOut policy = (policy.require_verified_boot ≡ false) × (policy.allowed_self_signed_keys ≡ [])

OptedOut-iff :
    (policy : Policy)
    → ((not policy.require_verified_boot && no_keys policy.allowed_self_signed_keys) ≡ true)
      ↔ OptedOut policy
OptedOut-iff policy = elim (Bool-cases policy.require_verified_boot) [
  | inl on ↦ ((λ h. cc (rw on at h)), (λ h. cc (on, h.0)))
  | inr off ↦ (
    (λ h. (off, (no_keys_iff _).0 (rw off at h))),
    (λ h. rw off ((no_keys_iff policy.allowed_self_signed_keys).1 (h.1))),
  )
]

allowed_iff :
    (policy : Policy) (key : Bytes)
    → ((not policy.require_verified_boot && contains key policy.allowed_self_signed_keys) ≡ true)
      ↔ ((policy.require_verified_boot ≡ false) × Listed key policy.allowed_self_signed_keys)
allowed_iff policy key = elim (Bool-cases policy.require_verified_boot) [
  | inl on ↦ ((λ h. cc (rw on at h)), (λ h. cc (on, h.0)))
  | inr off ↦ (
    (λ h. (off, (contains_iff key _).0 (rw off at h))),
    (λ h. rw off ((contains_iff key policy.allowed_self_signed_keys).1 (h.1))),
  )
]

if-Passes :
    {E : Type 0} (b : Bool) (r : Result E (Unit {0}))
    → Passes (if b then ok tt else r) ↔ ((b ≡ true) ⊎ Passes r)
if-Passes true r = ((λ _. inl refl), (λ _. refl))
if-Passes false r = ((λ h. inr h), (λ h. elim h [ inl bad ↦ cc | inr p ↦ p ]))

opted-Passes :
    (policy : Policy) (e : Error)
    → Passes (
        if not policy.require_verified_boot && no_keys policy.allowed_self_signed_keys
        then ok tt
        else err e)
      ↔ OptedOut policy
opted-Passes policy e = (
  (λ h. elim ((if-Passes _ (err e)).0 h) [ inl out ↦ (OptedOut-iff policy).0 out | inr bad ↦ cc ]),
  (λ h. (if-Passes _ (err e)).1 (inl ((OptedOut-iff policy).1 h))),
)

check_boot_state_iff :
    (policy : Policy) (key : Bytes) (state : VerifiedBootState)
    → Passes (check_boot_state policy key state) ↔ BootStateAccepted policy key state
unfolding check_boot_state
check_boot_state_iff policy key verified = ((λ _. inl refl), (λ _. refl))
check_boot_state_iff policy key self_signed = (
  (λ h. elim ((if-Passes _ _).0 h) [
    | inl out ↦ let (off, keys) = (OptedOut-iff policy).0 out in inr (off, inl keys)
    | inr later ↦ elim ((if-Passes _ _).0 later) [
      | inl allowed ↦
          let (off, listed) = (allowed_iff policy key).0 allowed in inr (off, inr (refl, listed))
      | inr bad ↦ cc
    ]
  ]),
  (λ h. elim h [
    | inl green ↦ cc
    | inr (off, inl keys) ↦ (if-Passes _ _).1 (inl ((OptedOut-iff policy).1 (off, keys)))
    | inr (off, inr (_, listed)) ↦
        (if-Passes _ _).1 (inr ((if-Passes _ _).1 (inl ((allowed_iff policy key).1 (off, listed)))))
  ]),
)
check_boot_state_iff policy key unverified = (
  (λ h. let (off, keys) = (opted-Passes policy _).0 h in inr (off, inl keys)),
  (λ h. elim h [
    | inl green ↦ cc
    | inr (off, inl keys) ↦ (opted-Passes policy _).1 (off, keys)
    | inr (off, inr (yellow, _)) ↦ cc
  ]),
)
check_boot_state_iff policy key failed = (
  (λ h. let (off, keys) = (opted-Passes policy _).0 h in inr (off, inl keys)),
  (λ h. elim h [
    | inl green ↦ cc
    | inr (off, inl keys) ↦ (opted-Passes policy _).1 (off, keys)
    | inr (off, inr (yellow, _)) ↦ cc
  ]),
)

reject-Passes :
    {E : Type 0} (a b : Bool) (e : E)
    → Passes (reject_if (a && not b) e) ↔ ((a ≡ false) ⊎ (b ≡ true))
reject-Passes true true e = ((λ _. inr refl), (λ _. refl))
reject-Passes true false e = ((λ h. cc), (λ h. elim h [ inl bad ↦ cc | inr bad ↦ cc ]))
reject-Passes false b e = ((λ _. inl refl), (λ _. refl))

-- The device's boot is let through exactly when it is accepted.
pub check_verified_boot_iff :
    (policy : Policy) (rot : Option RootOfTrust)
    → Passes (check_verified_boot policy rot) ↔ BootAccepted policy rot
unfolding check_verified_boot
check_verified_boot_iff policy none = elim (Bool-cases policy.require_verified_boot) [
  | inl on ↦ ((λ h. cc (rw on at h)), (λ h. cc (h, on)))
  | inr off ↦ ((λ _. off), (λ _. rw off))
]
check_verified_boot_iff policy (some rot) = (
  (λ h.
      let (locked, state) = (seq-Passes _ _).0 h in
      (
        (reject-Passes policy.require_device_locked rot.device_locked _).0 locked,
        (check_boot_state_iff policy _ _).0 state,
      )),
  (λ h. (seq-Passes _ _).1 (
    (reject-Passes policy.require_device_locked rot.device_locked _).1 (h.0),
    (check_boot_state_iff policy _ _).1 (h.1),
  )),
)
