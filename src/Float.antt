-- ===== src/Float.antt =====
-- Go's float64, which the program computes with and does not implement: an interface of operations
-- and laws. The order laws are those of IEEE 754 comparison and hold with NaN among the values.
-- `hundredths` is an instance over the integers, a number of hundredths, for concrete runs.
use climate_control.Prelude.{ℕ, ◌≡◌, Bool, true, false, ◌*◌, ◌/◌, ◌+◌, arith, if◌then◌else◌, ltb}
use climate_control.Prelude.Int.{ℤ, pos, negsuc, ◌+ℤ◌, ◌-ℤ◌, ◌*ℤ◌, ltb_ℤ, sub_ℕ}

pub record Float64 (R : Type 0) : Type 0 where
  pub add : R → R → R
  pub sub : R → R → R
  pub mul : R → R → R
  pub div : R → R → R
  pub lt : R → R → Bool
  -- x == 0
  pub is_zero : R → Bool
  -- the constants and `float64(n)` of an integer n
  pub of_ℕ : ℕ → R
  pub lt_irrefl : (x : R) → lt x x ≡ false
  pub lt_trans : (x y z : R) → lt x y ≡ true → lt y z ≡ true → lt x z ≡ true

module _ {R : Type 0} ⦃f : Float64 R⦄ where
  infixl 65 ◌⊕◌ ◌⊖◌
  infixl 70 ◌⊗◌ ◌⊘◌
  infix 50 ◌≺◌
  abbrev pub ◌⊕◌ : R → R → R
  x ⊕ y = f.add x y

  abbrev pub ◌⊖◌ : R → R → R
  x ⊖ y = f.sub x y

  abbrev pub ◌⊗◌ : R → R → R
  x ⊗ y = f.mul x y

  abbrev pub ◌⊘◌ : R → R → R
  x ⊘ y = f.div x y

  abbrev pub ◌≺◌ : R → R → Bool
  x ≺ y = f.lt x y

  abbrev pub float : ℕ → R
  float n = f.of_ℕ n

  -- No two values are each less than the other.
  pub lt_asym : (x y : R) → x ≺ y ≡ true → y ≺ x ≡ false
  lt_asym x y h = ground (arith, f.lt_irrefl x, f.lt_trans x y x)

-- The quotient of the integers, rounded towards zero.
abbrev pub quotient : ℤ → ℤ → ℤ
quotient (pos a) (pos b) = pos (a / b)
quotient (pos a) (negsuc b) = sub_ℕ 0 (a / (b + 1))
quotient (negsuc a) (pos b) = sub_ℕ 0 ((a + 1) / b)
quotient (negsuc a) (negsuc b) = pos ((a + 1) / (b + 1))

abbrev pub is_zero_ℤ : ℤ → Bool
is_zero_ℤ (pos a) = if ltb 0 a then false else true
is_zero_ℤ (negsuc a) = false

pub ltb_ℤ_irrefl : (x : ℤ) → ltb_ℤ x x ≡ false
ltb_ℤ_irrefl x = ground arith

pub ltb_ℤ_trans : (x y z : ℤ) → ltb_ℤ x y ≡ true → ltb_ℤ y z ≡ true → ltb_ℤ x z ≡ true
ltb_ℤ_trans x y z h k = ground arith

-- Products and quotients are rescaled, so that `float 1` is their unit.
instance abbrev pub hundredths : Float64 ℤ
hundredths = record {
  add = ◌+ℤ◌;
  sub = ◌-ℤ◌;
  mul = λ x y. quotient (x *ℤ y) (pos 100);
  div = λ x y. quotient (x *ℤ pos 100) y;
  lt = ltb_ℤ;
  is_zero = is_zero_ℤ;
  of_ℕ = λ n. pos (100 * n);
  lt_irrefl = ltb_ℤ_irrefl;
  lt_trans = ltb_ℤ_trans;
}
