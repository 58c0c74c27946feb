-- ===== src/Move/Documents/Measured.antt =====
-- What a document has to measure of the image that a policy pins.
use attestation.Common.{
  ℕ, ◌≤◌, ◌≡◌, ◌↔◌, ◌≢◌, refl, arith, Bool, true, false, List, [], ◌∷◌, All, Any, inl, inr, ◌⊎◌,
}
use attestation.Move.Framework.{PcrEntry, Policy}

-- The entry holds what the policy has for its index, if it has one.
pub record Agrees (policy : Policy) (entry : PcrEntry) : Type 0 where
  pub first : entry.index ≡ 0 → entry.value ≡ policy.pcr0
  pub second : entry.index ≡ 1 → entry.value ≡ policy.pcr1
  pub third : entry.index ≡ 2 → entry.value ≡ policy.pcr2

abbrev pub Measured : ℕ → List PcrEntry → Type 0
Measured n pcrs = Any (λ (e : PcrEntry). e.index ≡ n) pcrs

-- Every entry agrees with the policy, and none of the three is missing.
pub record FromImage (policy : Policy) (pcrs : List PcrEntry) : Type 0 where
  pub agree : All (Agrees policy) pcrs
  pub first : Measured 0 pcrs
  pub second : Measured 1 pcrs
  pub third : Measured 2 pcrs

-- Found before these entries, or among them.
abbrev pub Found : Bool → ℕ → List PcrEntry → Type 0
Found found n pcrs = (found ≡ true) ⊎ Measured n pcrs

pub Found-nil : (found : Bool) (n : ℕ) → Found found n [] → found ≡ true
Found-nil found n (inl f) = f
Found-nil found n (inr m) = elim m [ ]

pub missed : (n : ℕ) (es : List PcrEntry) → Found false n es → Measured n es
missed n es (inl f) = cc
missed n es (inr m) = m

later :
    (found : Bool) (n : ℕ) (e : PcrEntry) (es : List PcrEntry)
    → Found found n es
    → Found found n (e ∷ es)
later found n e es (inl f) = inl f
later found n e es (inr m) = inr (inr m)

earlier :
    (found : Bool) (n : ℕ) (e : PcrEntry) (es : List PcrEntry)
    → e.index ≢ n
    → Found found n (e ∷ es)
    → Found found n es
earlier found n e es differs (inl f) = inl f
earlier found n e es differs (inr (inl same)) = absurd (differs same)
earlier found n e es differs (inr (inr m)) = inr m

pub index_cases : (i : ℕ) → (i ≡ 0) ⊎ ((i ≡ 1) ⊎ ((i ≡ 2) ⊎ (3 ≤ i)))
index_cases i = ground arith

module _ (policy : Policy) where
  -- What the loop has still to see of the entries.
  pub record Sees (pcrs : List PcrEntry) (f0 f1 f2 : Bool) : Type 0 where
    pub agree : All (Agrees policy) pcrs
    pub first : Found f0 0 pcrs
    pub second : Found f1 1 pcrs
    pub third : Found f2 2 pcrs

  pub Sees-first :
      (e : PcrEntry) (es : List PcrEntry) (f0 f1 f2 : Bool)
      → e.index ≡ 0
      → ((e.value ≡ policy.pcr0) × Sees es true f1 f2) ↔ Sees (e ∷ es) f0 f1 f2
  Sees-first e es f0 f1 f2 same = (
    (λ (value, s). record {
      agree = (
        record {
          first = λ _. value;
          second = λ x. absurd (omega arith);
          third = λ x. absurd (omega arith);
        },
        s.agree,
      );
      first = inr (inl same);
      second = later f1 1 e es s.second;
      third = later f2 2 e es s.third;
    }),
    (λ s. (
      Agrees.first (s.agree.0) same,
      record {
        agree = s.agree.1;
        first = inl refl;
        second = earlier f1 1 e es (λ x. omega arith) s.second;
        third = earlier f2 2 e es (λ x. omega arith) s.third;
      },
    )),
  )

  pub Sees-second :
      (e : PcrEntry) (es : List PcrEntry) (f0 f1 f2 : Bool)
      → e.index ≡ 1
      → ((e.value ≡ policy.pcr1) × Sees es f0 true f2) ↔ Sees (e ∷ es) f0 f1 f2
  Sees-second e es f0 f1 f2 same = (
    (λ (value, s). record {
      agree = (
        record {
          first = λ x. absurd (omega arith);
          second = λ _. value;
          third = λ x. absurd (omega arith);
        },
        s.agree,
      );
      first = later f0 0 e es s.first;
      second = inr (inl same);
      third = later f2 2 e es s.third;
    }),
    (λ s. (
      Agrees.second (s.agree.0) same,
      record {
        agree = s.agree.1;
        first = earlier f0 0 e es (λ x. omega arith) s.first;
        second = inl refl;
        third = earlier f2 2 e es (λ x. omega arith) s.third;
      },
    )),
  )

  pub Sees-third :
      (e : PcrEntry) (es : List PcrEntry) (f0 f1 f2 : Bool)
      → e.index ≡ 2
      → ((e.value ≡ policy.pcr2) × Sees es f0 f1 true) ↔ Sees (e ∷ es) f0 f1 f2
  Sees-third e es f0 f1 f2 same = (
    (λ (value, s). record {
      agree = (
        record {
          first = λ x. absurd (omega arith);
          second = λ x. absurd (omega arith);
          third = λ _. value;
        },
        s.agree,
      );
      first = later f0 0 e es s.first;
      second = later f1 1 e es s.second;
      third = inr (inl same);
    }),
    (λ s. (
      Agrees.third (s.agree.0) same,
      record {
        agree = s.agree.1;
        first = earlier f0 0 e es (λ x. omega arith) s.first;
        second = earlier f1 1 e es (λ x. omega arith) s.second;
        third = inl refl;
      },
    )),
  )

  pub Sees-other :
      (e : PcrEntry) (es : List PcrEntry) (f0 f1 f2 : Bool)
      → 3 ≤ e.index
      → Sees es f0 f1 f2 ↔ Sees (e ∷ es) f0 f1 f2
  Sees-other e es f0 f1 f2 beyond = (
    (λ s. record {
      agree = (
        record {
          first = λ x. absurd (omega arith);
          second = λ x. absurd (omega arith);
          third = λ x. absurd (omega arith);
        },
        s.agree,
      );
      first = later f0 0 e es s.first;
      second = later f1 1 e es s.second;
      third = later f2 2 e es s.third;
    }),
    (λ s. record {
      agree = s.agree.1;
      first = earlier f0 0 e es (λ x. omega arith) s.first;
      second = earlier f1 1 e es (λ x. omega arith) s.second;
      third = earlier f2 2 e es (λ x. omega arith) s.third;
    }),
  )
