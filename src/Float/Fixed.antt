-- ===== src/Float/Fixed.antt =====
-- Fixed-point numbers with nine decimals and a NaN: a concrete arithmetic on which the
-- definitions run.
use lsfg_vk_android.Common.{ℕ, ◌+◌, ◌*◌, ◌/◌, ◌^◌, Bool, true, false, if◌then◌else◌, ◌==◌, ◌&&◌}
use lsfg_vk_android.Common.Int.{
  ℤ, pos, negsuc, pos_part, neg_part, ◌+ℤ◌, ◌-ℤ◌, ◌*ℤ◌, quot_ℕ, ltb_ℤ, leb_ℤ,
}
use lsfg_vk_android.Float.{Float, Floats, Extended}

pub data Fixed : Type 0 where
  nano : ℤ → Fixed
  nan : Fixed

abbrev pub lift₂ : (ℤ → ℤ → ℤ) → Fixed → Fixed → Fixed
lift₂ op (nano a) (nano b) = nano (op a b)
lift₂ op (nano a) nan = nan
lift₂ op nan b = nan

abbrev pub test₂ : (ℤ → ℤ → Bool) → Fixed → Fixed → Bool
test₂ op (nano a) (nano b) = op a b
test₂ op (nano a) nan = false
test₂ op nan b = false

abbrev pub magnitude : ℤ → ℕ
magnitude a = pos_part a + neg_part a

-- Division by 0 has no finite value.
abbrev pub ratio : ℤ → ℤ → Fixed
ratio a (pos n) = if n == 0 then nan else nano (quot_ℕ (a *ℤ pos 1_000_000_000) n)
ratio a (negsuc n) = nano (quot_ℕ (a *ℤ negsuc 999_999_999) (n + 1))

abbrev pub quotient : Fixed → Fixed → Fixed
quotient (nano a) (nano b) = ratio a b
quotient (nano a) nan = nan
quotient nan b = nan

abbrev pub fixed_abs : Fixed → Fixed
fixed_abs (nano a) = nano (pos (magnitude a))
fixed_abs nan = nan

abbrev pub fixed_is_finite : Fixed → Bool
fixed_is_finite (nano a) = true
fixed_is_finite nan = false

abbrev pub fixed_float : Float Fixed
fixed_float = record {
  add = lift₂ ◌+ℤ◌;
  sub = lift₂ ◌-ℤ◌;
  mul = lift₂ (λ a b. quot_ℕ (a *ℤ b) 1_000_000_000);
  div = quotient;
  lt = test₂ ltb_ℤ;
  le = test₂ leb_ℤ;
  eq = test₂ (λ a b. leb_ℤ a b && leb_ℤ b a);
  abs = fixed_abs;
  is_finite = fixed_is_finite;
  decimal = λ n k. nano (pos (n * 1_000_000_000 / 10 ^ k));
}

-- The part above 0 of a value in whole units, rounded down.
abbrev pub whole : Fixed → ℕ
whole (nano a) = pos_part a / 1_000_000_000
whole nan = 0

abbrev pub of_whole : ℕ → Fixed
of_whole n = nano (pos (n * 1_000_000_000))

-- Rounding of values that are not below 0.
abbrev pub round_by : ℕ → Fixed → Fixed
round_by extra (nano a) = of_whole ((pos_part a + extra) / 1_000_000_000)
round_by extra nan = nan

abbrev pub fixed_floats : Floats Fixed Fixed
fixed_floats = record {
  single = fixed_float;
  double = fixed_float;
  widen = λ a. a;
  seconds = nano;
  milliseconds = λ n. nano (n *ℤ pos 1_000);
  of_nat = of_whole;
  to_nat = whole;
  round = round_by 500_000_000;
  floor = round_by 0;
  ceil = round_by 999_999_999;
  largest = of_whole 1_000_000_000_000;
}

abbrev pub fixed_extended : Extended Fixed Fixed
fixed_extended = record {
  extended = fixed_float;
  of_nat = of_whole;
  of_double = λ a. a;
  truncate = whole;
  llround = λ a. pos (whole (round_by 500_000_000 a));
}
