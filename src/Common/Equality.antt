-- ===== src/Common/Equality.antt =====
-- The keys of the program's maps: the usernames and the order ids, each with its test.
use Prim.Native.String.{String}
use mathlib.Core.Path.{◌≡◌, refl}
use mathlib.Core.Logic.{◌↔◌, ◌≢◌, ◌⊎◌, inl, inr}
use mathlib.Core.Bool.{Bool, true, false}
use text.Mathlib.Text
use text.Mathlib.TextEquality
use native.Mathlib.Omega.{arith}
use stock_app.Common.Tests.{Bool-cases}
use stock_app.Common.Int.{ℤ, eqb_ℤ, eqb_ℤ_iff}

-- A type that an unordered_map can have as its key.
pub record Key {ℓ} (K : Type ℓ) : Type ℓ where
  pub same : K → K → Bool
  pub same_iff : (j k : K) → (same j k ≡ true) ↔ (j ≡ k)

instance abbrev pub id_key : Key ℤ
id_key = record { same = eqb_ℤ; same_iff = eqb_ℤ_iff }

instance abbrev pub username_key : Key String
username_key = record { same = Text.◌==◌; same_iff = TextEquality.eq_iff }

module _ {ℓ} {K : Type ℓ} ⦃key : Key K⦄ where
  infix 50 ◌==◌
  abbrev pub ◌==◌ : K → K → Bool
  j == k = key.same j k

  pub ==_self : (k : K) → (k == k) ≡ true
  ==_self k = (key.same_iff k k).1 refl

  pub ==_ne : (j k : K) → j ≢ k → (j == k) ≡ false
  ==_ne j k h = ground (arith, key.same_iff j k)

  -- Two keys are the same, or they are not.
  pub same_or_other : (j k : K) → (j ≡ k) ⊎ (j ≢ k)
  same_or_other j k = elim (Bool-cases (j == k)) [
    | inl e ↦ inl ((key.same_iff j k).0 e)
    | inr e ↦ inr (λ q. ground (arith, e, (key.same_iff j k).1 q))
  ]
