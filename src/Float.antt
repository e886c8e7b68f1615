-- ===== src/Float.antt =====
-- C++ `float` and `double` arithmetic, which the program gets from the processor and the
-- standard library: an interface that the components take as a parameter.
pub mod Fixed
use lsfg_vk_android.Common.{ℕ, Bool, if◌then◌else◌}
use lsfg_vk_android.Common.Int.{ℤ}

-- One floating-point format. A comparison with a NaN is `false`.
pub record Float (F : Type 0) : Type 0 where
  pub add : F → F → F
  pub sub : F → F → F
  pub mul : F → F → F
  pub div : F → F → F
  pub lt : F → F → Bool
  pub le : F → F → Bool
  pub eq : F → F → Bool
  -- std::fabs and std::isfinite.
  pub abs : F → F
  pub is_finite : F → Bool
  -- The decimal literal n / 10 ^ k, as `decimal 95 2` for 0.95.
  pub decimal : ℕ → ℕ → F

-- The two formats of the program, with the conversions between numbers that it uses.
pub record Floats (S D : Type 0) : Type 0 where
  pub single : Float S
  pub double : Float D
  -- static_cast<double> of a float.
  pub widen : S → D
  -- std::chrono::duration<double>(ns).count() for a count of nanoseconds.
  pub seconds : ℤ → D
  -- std::chrono::duration<double, std::milli>(ns).count().
  pub milliseconds : ℤ → D
  -- static_cast<double> of an unsigned integer, and static_cast<std::size_t> of a double.
  pub of_nat : ℕ → D
  pub to_nat : D → ℕ
  -- std::round, std::floor and std::ceil.
  pub round : D → D
  pub floor : D → D
  pub ceil : D → D
  -- std::numeric_limits<double>::max().
  pub largest : D

-- `long double`, with the conversions that the source timeline uses.
pub record Extended (D L : Type 0) : Type 0 where
  pub extended : Float L
  pub of_nat : ℕ → L
  pub of_double : D → L
  -- static_cast<uint64_t> of a long double, and std::llround.
  pub truncate : L → ℕ
  pub llround : L → ℤ

-- std::min and std::max: the first argument unless the second is strictly beyond it.
module _ {F : Type 0} (f : Float F) where
  abbrev pub min : F → F → F
  min a b = if f.lt b a then b else a

  abbrev pub max : F → F → F
  max a b = if f.lt a b then b else a

  -- std::clamp.
  abbrev pub clamp : F → F → F → F
  clamp x lo hi = if f.lt x lo then lo else if f.lt hi x then hi else x
