-- ===== src/Double.antt =====
-- All that the bridge does with a `double`: literals, arithmetic, comparisons and conversions.
-- The language leaves rounding to the platform, so the type and its operations are a parameter.
pub mod Micros
use swarm_ros_bridge.Common.{ℕ, ℤ, Bytes, Bool, true, false, Option, ◌≡◌, ◌⊎◌, if◌then◌else◌}

pub record Double (W : Type 0) : Type 0 where
  -- `lit m k` is the literal m * 10^-k: `lit 2 1` is 0.2
  pub lit : ℕ → ℕ → W
  pub add : W → W → W
  pub sub : W → W → W
  pub mul : W → W → W
  pub div : W → W → W
  pub lt : W → W → Bool
  pub le : W → W → Bool
  -- `static_cast<double>` of a `size_t` and of an `int`, `static_cast<size_t>` of a double
  pub of_size : ℕ → W
  pub of_int : ℤ → W
  pub to_size : W → ℕ
  -- `duration<double>` of a difference of two clock readings in nanoseconds, and `duration_cast` back
  pub of_nanos : ℕ → W
  pub to_nanos : W → ℕ
  -- `std::stod`: the value and the number of characters read, or a throw; `operator<<`
  pub stod : Bytes → Option (W × ℕ)
  pub show : W → Bytes

module _ {W : Type 0} ⦃d : Double W⦄ where
  abbrev pub lit : ℕ → ℕ → W
  lit = d.lit

  abbrev pub add : W → W → W
  add = d.add

  abbrev pub sub : W → W → W
  sub = d.sub

  abbrev pub mul : W → W → W
  mul = d.mul

  abbrev pub div : W → W → W
  div = d.div

  abbrev pub lt : W → W → Bool
  lt = d.lt

  abbrev pub le : W → W → Bool
  le = d.le

  abbrev pub of_size : ℕ → W
  of_size = d.of_size

  abbrev pub nought : W
  nought = d.lit 0 0

  -- `std::max(a, b)` and `std::min(a, b)`
  abbrev pub max_of : W → W → W
  max_of a b = if d.lt a b then b else a

  abbrev pub min_of : W → W → W
  min_of a b = if d.lt b a then b else a

-- What the comparisons are to each other, for operands that are numbers (not NaN).
pub record IsOrdered (W : Type 0) ⦃d : Double W⦄ : Type 0 where
  pub le_refl : (a : W) → d.le a a ≡ true
  pub le_trans : (a b c : W) → d.le a b ≡ true → d.le b c ≡ true → d.le a c ≡ true
  pub le_of_lt : (a b : W) → d.lt a b ≡ true → d.le a b ≡ true
  pub le_of_not_lt : (a b : W) → d.lt a b ≡ false → d.le b a ≡ true
  pub not_lt_of_le : (a b : W) → d.le a b ≡ true → d.lt b a ≡ false

-- Sums without rounding, for the bounds on rates.
pub record IsExact (W : Type 0) ⦃d : Double W⦄ : Type 0 where
  pub order : IsOrdered W
  pub open order use *
  pub add_assoc : (a b c : W) → d.add (d.add a b) c ≡ d.add a (d.add b c)
  pub add_comm : (a b : W) → d.add a b ≡ d.add b a
  pub add_mono : (a b c : W) → d.le a b ≡ true → d.le (d.add a c) (d.add b c) ≡ true
  pub sub_add : (a b : W) → d.le b a ≡ true → d.add (d.sub a b) b ≡ a
  pub add_nought : (a : W) → d.add a (d.lit 0 0) ≡ a
  pub sub_nonneg : (a b : W) → d.le b a ≡ true → d.le (d.lit 0 0) (d.sub a b) ≡ true
  pub mul_nonneg :
      (a b : W)
      → d.le (d.lit 0 0) a ≡ true
      → d.le (d.lit 0 0) b ≡ true
      → d.le (d.lit 0 0) (d.mul a b) ≡ true
  pub lit_nonneg : (m k : ℕ) → d.le (d.lit 0 0) (d.lit m k) ≡ true
  pub of_nanos_nonneg : (n : ℕ) → d.le (d.lit 0 0) (d.of_nanos n) ≡ true
