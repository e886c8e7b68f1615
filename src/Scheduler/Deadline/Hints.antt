-- ===== src/Scheduler/Deadline/Hints.antt =====
-- The two capacity hints of DeadlineAdmissionPredictor, and the budget of a batch.
use lsfg_vk_android.Common.{ℕ, zero, suc, ◌+◌, Bool, true, not, ◌&&◌, ◌||◌, if◌then◌else◌, ◌==◌}
use lsfg_vk_android.Float.{Floats}
use lsfg_vk_android.Scheduler.Deadline.{Predictor, Decision, predict}

module _ {S D : Type 0} (fp : Floats S D) where
  open fp.double use {mul, div, lt, is_finite, decimal}

  unfoldable pub framegen_batch_budget_ms : D → D → Bool → D
  framegen_batch_budget_ms source_interval_ms nominal_ms full_source_interval_budget =
      if full_source_interval_budget
        && (lt (decimal 0 0) source_interval_ms && is_finite source_interval_ms)
      then source_interval_ms
      else if lt (decimal 0 0) nominal_ms && is_finite nominal_ms
      then nominal_ms
      else decimal 0 0

  abbrev pub admits : Decision D → Bool
  admits d = d.valid && d.would_admit

  abbrev pub slot_budget : D → ℕ → ℕ → D
  slot_budget source_interval_ms slot candidate =
      div (mul source_interval_ms (fp.of_nat (slot + 1))) (fp.of_nat (candidate + 1))

  abbrev pub slot_fits : Predictor D → D → ℕ → ℕ → Bool
  slot_fits s source_interval_ms candidate slot =
      admits (predict fp s (slot + 1) (slot_budget source_interval_ms slot candidate))

  -- The inner loop: `left` slots from `slot` on.
  unfoldable pub slots_fit : Predictor D → D → ℕ → ℕ → ℕ → Bool
  slots_fit s source_interval_ms candidate zero slot = true
  slots_fit s source_interval_ms candidate (suc left) slot =
      slot_fits s source_interval_ms candidate slot
      && slots_fit s source_interval_ms candidate left (slot + 1)

  -- The outer loop, from the candidate down.
  unfoldable pub largest_safe : Predictor D → D → ℕ → ℕ
  largest_safe s source_interval_ms zero = 0
  largest_safe s source_interval_ms (suc c) =
      if slots_fit s source_interval_ms (suc c) (suc c) 0
      then suc c
      else largest_safe s source_interval_ms c

  unfoldable pub safe_generation_hint : Predictor D → ℕ → D → ℕ
  safe_generation_hint s max_count source_interval_ms =
      if not s.has_estimate
        || max_count == 0
        || not (lt (decimal 0 0) source_interval_ms)
        || not (is_finite source_interval_ms)
      then 0
      else largest_safe s source_interval_ms max_count

  unfoldable pub largest_batch : Predictor D → D → ℕ → ℕ
  largest_batch s budget zero = 0
  largest_batch s budget (suc c) =
      if admits (predict fp s (suc c) budget) then suc c else largest_batch s budget c

  unfoldable pub safe_batch_generation_hint : Predictor D → ℕ → D → ℕ
  safe_batch_generation_hint s max_count budget =
      if not s.has_estimate
        || max_count == 0
        || not (lt (decimal 0 0) budget)
        || not (is_finite budget)
      then 0
      else largest_batch s budget max_count
