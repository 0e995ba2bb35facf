-- ===== src/Prelude/Equality.antt =====
-- The `==` of Go's comparable types, as an interface with its law.
use Prim.Native.Nat.{ℕ}
use Prim.Native.String.{String}
use mathlib.Core.Path.{◌≡◌, refl}
use mathlib.Core.Logic.{◌≢◌, ◌↔◌, inl, inr}
use mathlib.Core.Bool.{Bool, true, false}
use text.Mathlib.Text.{◌==◌ as str_eq}
use text.Mathlib.TextEquality.{eq_iff as str_eq_iff}
use climate_control.Prelude.Tests.{nat_beq, nat_beq_iff, Bool-cases}

pub record Eq {ℓ} (A : Type ℓ) : Type ℓ where
  pub test : A → A → Bool
  pub test_iff : (a b : A) → (test a b ≡ true) ↔ (a ≡ b)

-- strings
instance abbrev pub string_eq : Eq String
string_eq = record { test = str_eq; test_iff = str_eq_iff }

-- numbers, UUIDs and bytes among them
instance abbrev pub nat_eq : Eq ℕ
nat_eq = record { test = nat_beq; test_iff = nat_beq_iff }

module _ {ℓ} {A : Type ℓ} ⦃e : Eq A⦄ where
  infix 50 ◌==◌
  abbrev pub ◌==◌ : A → A → Bool
  a == b = e.test a b

  -- The law of a test, at a pair of values.
  pub eq_iff : (a b : A) → ((a == b) ≡ true) ↔ (a ≡ b)
  eq_iff a b = e.test_iff a b

  pub eq_refl : (a : A) → (a == a) ≡ true
  eq_refl a = (eq_iff a a).1 refl

  pub eq_false : (a b : A) → a ≢ b → (a == b) ≡ false
  eq_false a b h = elim (Bool-cases (a == b)) [ inl t ↦ absurd (h ((eq_iff a b).0 t)) | inr f ↦ f ]
