-- ===== src/Android/Authorizations/Fields.antt =====
-- The fields that an AuthorizationList is told.
use attestation.Common.{ℕ, ◌≡◌, ◌≢◌, ◌⊎◌, inl, inr, refl, some, List, [], ◌∷◌, Bytes}
use attestation.Common.Int.{ℤ, as_u32}
use attestation.Android.Authorizations.{RootOfTrust, AuthorizationList}

-- What an element tells.
pub data Field : Type 0 where
  creation_date_time : ℕ → Field
  root_of_trust : RootOfTrust → Field
  os_version os_patch_level : ℤ → Field
  attestation_application_id : Bytes → Field
  nothing : Field

-- The list with the field.
abbrev pub put : AuthorizationList → Field → AuthorizationList
put out (creation_date_time n) = record out { creation_date_time = some n }
put out (root_of_trust rot) = record out { root_of_trust = some rot }
put out (os_version n) = record out { os_version = some (as_u32 n) }
put out (os_patch_level n) = record out { os_patch_level = some (as_u32 n) }
put out (attestation_application_id id) = record out { attestation_application_id = some id }
put out nothing = out

abbrev pub put_all : AuthorizationList → List Field → AuthorizationList
put_all out [] = out
put_all out (f ∷ fs) = put_all (put out f) fs

-- The tag of the field.
abbrev pub kind : Field → ℕ
kind (creation_date_time n) = 701
kind (root_of_trust rot) = 704
kind (os_version n) = 705
kind (os_patch_level n) = 706
kind (attestation_application_id id) = 709
kind nothing = 0

-- Two fields that are not set by the same tag may be put in either order.
pub put_comm :
    (out : AuthorizationList) (f g : Field)
    → (f ≡ nothing) ⊎ (kind f ≢ kind g)
    → put (put out f) g ≡ put (put out g) f
put_comm out (creation_date_time n₁) (creation_date_time n₂) (inl e) = cc
put_comm out (creation_date_time n₁) (creation_date_time n₂) (inr ne) = absurd (ne refl)
put_comm out (creation_date_time n₁) (root_of_trust r₂) apart = refl
put_comm out (creation_date_time n₁) (os_version n₂) apart = refl
put_comm out (creation_date_time n₁) (os_patch_level n₂) apart = refl
put_comm out (creation_date_time n₁) (attestation_application_id i₂) apart = refl
put_comm out (creation_date_time n₁) nothing apart = refl
put_comm out (root_of_trust r₁) (creation_date_time n₂) apart = refl
put_comm out (root_of_trust r₁) (root_of_trust r₂) (inl e) = cc
put_comm out (root_of_trust r₁) (root_of_trust r₂) (inr ne) = absurd (ne refl)
put_comm out (root_of_trust r₁) (os_version n₂) apart = refl
put_comm out (root_of_trust r₁) (os_patch_level n₂) apart = refl
put_comm out (root_of_trust r₁) (attestation_application_id i₂) apart = refl
put_comm out (root_of_trust r₁) nothing apart = refl
put_comm out (os_version n₁) (creation_date_time n₂) apart = refl
put_comm out (os_version n₁) (root_of_trust r₂) apart = refl
put_comm out (os_version n₁) (os_version n₂) (inl e) = cc
put_comm out (os_version n₁) (os_version n₂) (inr ne) = absurd (ne refl)
put_comm out (os_version n₁) (os_patch_level n₂) apart = refl
put_comm out (os_version n₁) (attestation_application_id i₂) apart = refl
put_comm out (os_version n₁) nothing apart = refl
put_comm out (os_patch_level n₁) (creation_date_time n₂) apart = refl
put_comm out (os_patch_level n₁) (root_of_trust r₂) apart = refl
put_comm out (os_patch_level n₁) (os_version n₂) apart = refl
put_comm out (os_patch_level n₁) (os_patch_level n₂) (inl e) = cc
put_comm out (os_patch_level n₁) (os_patch_level n₂) (inr ne) = absurd (ne refl)
put_comm out (os_patch_level n₁) (attestation_application_id i₂) apart = refl
put_comm out (os_patch_level n₁) nothing apart = refl
put_comm out (attestation_application_id i₁) (creation_date_time n₂) apart = refl
put_comm out (attestation_application_id i₁) (root_of_trust r₂) apart = refl
put_comm out (attestation_application_id i₁) (os_version n₂) apart = refl
put_comm out (attestation_application_id i₁) (os_patch_level n₂) apart = refl
put_comm out (attestation_application_id i₁) (attestation_application_id i₂) (inl e) = cc
put_comm out (attestation_application_id i₁) (attestation_application_id i₂) (inr ne) =
    absurd (ne refl)
put_comm out (attestation_application_id i₁) nothing apart = refl
put_comm out nothing (creation_date_time n₂) apart = refl
put_comm out nothing (root_of_trust r₂) apart = refl
put_comm out nothing (os_version n₂) apart = refl
put_comm out nothing (os_patch_level n₂) apart = refl
put_comm out nothing (attestation_application_id i₂) apart = refl
put_comm out nothing nothing apart = refl
