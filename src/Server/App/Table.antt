-- ===== src/Server/App/Table.antt =====
-- The endpoints of the server as its module documentation lists them, with their aliases.
use text.Mathlib.Text.{◌==◌ as str_eq}
use text.Mathlib.TextEquality.{eq_iff}
use mathlib.Core.Path.{subst}
use attestation.Common.{
  ◌≡◌, ◌↔◌, ◌⊎◌, inl, inr, refl, sym, true, Option, none, some, if◌then◌else◌, String, Bool-cases,
}
use attestation.Common.Maybe.{some-eq-some}
use attestation.Server.App.{
  Method, get, post, other_method, Endpoint, health_page, document, apple_attestation,
  apple_assertion, android_attestation, route, allows,
}

-- The paths of each endpoint.
pub data Named : String → Endpoint → Type 0 where
  health : Named "/health" health_page
  enclave_document : Named "/attestation" document
  apple : Named "/attest/apple/attestation" apple_attestation
  apple_alias : Named "/attest/apple" apple_attestation
  assertion : Named "/attest/apple/assertion" apple_assertion
  android : Named "/attest/android/attestation" android_attestation
  android_alias : Named "/attest/android" android_attestation

-- The method of each endpoint.
pub data Takes : Endpoint → Method → Type 0 where
  get_health : Takes health_page get
  get_document : Takes document get
  post_apple : Takes apple_attestation post
  post_assertion : Takes apple_assertion post
  post_android : Takes android_attestation post

-- One line of the table: the path is its path, or the rest of the table decides.
line :
    (path entry : String) (hit e : Endpoint) (rest : Option Endpoint)
    → (if str_eq path entry then some hit else rest) ≡ some e
    → ((entry ≡ path) × (hit ≡ e)) ⊎ (rest ≡ some e)
line path entry hit e rest h = elim (Bool-cases (str_eq path entry)) [
  | inl same ↦ inl (sym ((eq_iff path entry).0 same), some-eq-some (rw same at h))
  | inr other ↦ inr (rw other at h)
]

named :
    {entry path : String} {hit e : Endpoint}
    → Named entry hit
    → (entry ≡ path) × (hit ≡ e)
    → Named path e
named {path = path} {hit = hit} n (same, is) =
    subst (Named path) is (subst (λ p. Named p hit) same n)

route-Named : (path : String) (e : Endpoint) → route path ≡ some e → Named path e
unfolding route
route-Named path e h = elim (line path "/health" health_page e _ h) [
  | inl m ↦ named health m
  | inr h1 ↦ elim (line path "/attestation" document e _ h1) [
    | inl m ↦ named enclave_document m
    | inr h2 ↦ elim (line path "/attest/apple/attestation" apple_attestation e _ h2) [
      | inl m ↦ named apple m
      | inr h3 ↦ elim (line path "/attest/apple" apple_attestation e _ h3) [
        | inl m ↦ named apple_alias m
        | inr h4 ↦ elim (line path "/attest/apple/assertion" apple_assertion e _ h4) [
          | inl m ↦ named assertion m
          | inr h5 ↦ elim (line path "/attest/android/attestation" android_attestation e _ h5) [
            | inl m ↦ named android m
            | inr h6 ↦ elim (line path "/attest/android" android_attestation e none h6) [
              | inl m ↦ named android_alias m
              | inr h7 ↦ cc
            ]
          ]
        ]
      ]
    ]
  ]
]

Named-route : {path : String} {e : Endpoint} → Named path e → route path ≡ some e
unfolding route
Named-route health = refl
Named-route enclave_document = refl
Named-route apple = refl
Named-route apple_alias = refl
Named-route assertion = refl
Named-route android = refl
Named-route android_alias = refl

pub route_iff : (path : String) (e : Endpoint) → (route path ≡ some e) ↔ Named path e
route_iff path e = (route-Named path e, Named-route)

pub allows_iff : (e : Endpoint) (m : Method) → (allows e m ≡ true) ↔ Takes e m
unfolding allows
allows_iff health_page get = ((λ _. get_health), (λ _. refl))
allows_iff health_page post = ((λ h. cc), (λ t. elim t [ ]))
allows_iff health_page other_method = ((λ h. cc), (λ t. elim t [ ]))
allows_iff document get = ((λ _. get_document), (λ _. refl))
allows_iff document post = ((λ h. cc), (λ t. elim t [ ]))
allows_iff document other_method = ((λ h. cc), (λ t. elim t [ ]))
allows_iff apple_attestation get = ((λ h. cc), (λ t. elim t [ ]))
allows_iff apple_attestation post = ((λ _. post_apple), (λ _. refl))
allows_iff apple_attestation other_method = ((λ h. cc), (λ t. elim t [ ]))
allows_iff apple_assertion get = ((λ h. cc), (λ t. elim t [ ]))
allows_iff apple_assertion post = ((λ _. post_assertion), (λ _. refl))
allows_iff apple_assertion other_method = ((λ h. cc), (λ t. elim t [ ]))
allows_iff android_attestation get = ((λ h. cc), (λ t. elim t [ ]))
allows_iff android_attestation post = ((λ _. post_android), (λ _. refl))
allows_iff android_attestation other_method = ((λ h. cc), (λ t. elim t [ ]))
