-- ===== src/Double.antt =====
-- Python's `float`, an IEEE double, as the program uses it: the operations on the finite values
-- that it computes, and what the proofs rely on. `literal n` is the decimal literal of n
-- ten-thousandths (every literal of the program has at most four decimals), `of_nat` converts an
-- int, and `round4` is `round(x, 4)`. No law is asked of the arithmetic. The one
-- division by a setting is by twice the policy's candidate margin, which is not zero.
pub mod Scaled
use ai_finance_controller.Common.{
  ℕ, ◌≤◌, ◌<◌, ◌≡◌, Bool, true, false, not, List, [], ◌∷◌, if◌then◌else◌,
}

pub record Double (W : Type 0) : Type 0 where
  pub literal : ℕ → W
  pub of_nat : ℕ → W
  pub add : W → W → W
  pub sub : W → W → W
  pub mul : W → W → W
  pub div : W → W → W
  pub le : W → W → Bool
  pub round4 : W → W

-- The order of the finite doubles, and rounding to four decimals, which keeps that order and
-- leaves a literal of four decimals alone. Literals compare like what they write.
pub record IsOrdered {W : Type 0} (d : Double W) : Type 0 where
  pub le_trans : (x y z : W) → d.le x y ≡ true → d.le y z ≡ true → d.le x z ≡ true
  pub le_total : (x y : W) → d.le x y ≡ false → d.le y x ≡ true
  pub round4_mono : (x y : W) → d.le x y ≡ true → d.le (d.round4 x) (d.round4 y) ≡ true
  pub round4_literal : (n : ℕ) → d.round4 (d.literal n) ≡ d.literal n
  pub literal_le : (m n : ℕ) → m ≤ n → d.le (d.literal m) (d.literal n) ≡ true
  pub literal_lt : (m n : ℕ) → m < n → d.le (d.literal n) (d.literal m) ≡ false

module _ {W : Type 0} ⦃d : Double W⦄ where
  -- `x > y`, away from NaN.
  abbrev pub gt : W → W → Bool
  gt x y = not (d.le x y)

  -- `max(x, y)` and `min(x, y)`: Python keeps the first of two equal values.
  abbrev pub max : W → W → W
  max x y = if gt y x then y else x

  abbrev pub min : W → W → W
  min x y = if gt x y then y else x

  -- `sum` of floats, from the left.
  abbrev pub sum_from : W → List W → W
  sum_from acc [] = acc
  sum_from acc (x ∷ xs) = sum_from (d.add acc x) xs
