-- ===== src/Scheduler/Deadline.antt =====
-- DeadlineAdmissionPredictor: what a batch of generated frames is expected to cost, and whether
-- it fits into the budget of its source frame.
pub mod Hints
pub mod Laws
pub mod Learning
use lsfg_vk_android.Common.{
  ℕ, zero, suc, ◌+◌, ◌-◌, Bool, true, false, not, ◌&&◌, ◌||◌, if◌then◌else◌, ltb, leb, ◌==◌, List,
  [], ◌∷◌, map, get_or, set, Option, none, some,
}
use lsfg_vk_android.Float
use lsfg_vk_android.Float.{Floats}

pub record Observation (D : Type 0) : Type 0 where
  pub mipmaps_ms : D
  pub optical_flow_ms : D
  pub total_lsfg_ms : D
  pub generation_count : ℕ
  pub valid : Bool

pub record Decision (D : Type 0) : Type 0 where
  pub predicted_mipmaps_ms : D
  pub predicted_optical_flow_ms : D
  pub predicted_total_lsfg_ms : D
  pub safety_margin_ms : D
  pub usable_budget_ms : D
  pub delivery_reserve_ms : D
  pub effective_usable_budget_ms : D
  pub would_admit : Bool
  pub valid : Bool

-- BatchCostEstimate.
pub record Estimate (D : Type 0) : Type 0 where
  pub valid : Bool
  pub blocking_completion_observed : Bool
  pub mipmaps_ms : D
  pub optical_flow_ms : D
  pub gpu_total_lsfg_ms : D
  pub total_lsfg_ms : D

-- `batch_estimates` stands for an array of four.
pub record Predictor (D : Type 0) : Type 0 where
  pub has_estimate : Bool
  pub batch_estimates : List (Estimate D)
  pub delivery_reserve_ms : D

abbrev pub tracked_batch_counts : ℕ
tracked_batch_counts = 4

module _ {S D : Type 0} (fp : Floats S D) where
  open fp.double use {add, sub, mul, div, lt, le, is_finite, decimal}

  abbrev pub no_estimate : Estimate D
  no_estimate = record {
    valid = false;
    blocking_completion_observed = false;
    mipmaps_ms = decimal 0 0;
    optical_flow_ms = decimal 0 0;
    gpu_total_lsfg_ms = decimal 0 0;
    total_lsfg_ms = decimal 0 0;
  }

  abbrev pub new : Predictor D
  new = record {
    has_estimate = false;
    batch_estimates = no_estimate ∷ no_estimate ∷ no_estimate ∷ no_estimate ∷ [];
    delivery_reserve_ms = decimal 0 0;
  }

  unfoldable pub reset : Predictor D → Predictor D
  reset s = new

  -- batchEstimates_.at(i), for i below the size of the array.
  unfoldable pub estimate_at : Predictor D → ℕ → Estimate D
  estimate_at s i = get_or s.batch_estimates i no_estimate

  -- kRecoveryEwmaAlpha.
  abbrev pub relax : D → D → D
  relax current sample = add current (mul (decimal 12 2) (sub sample current))

  -- conservativeBlend: a higher sample is taken at once, a lower one slowly.
  unfoldable pub conservative_blend : Bool → D → D → D
  conservative_blend valid current sample =
      if not valid || le current sample then sample else relax current sample

  unfoldable pub blend_gpu : D → D → D
  blend_gpu current sample =
      if not (is_finite current && lt (decimal 0 0) current) || le current sample
      then sample
      else relax current sample

  unfoldable pub blend_total : Estimate D → D → D
  unfolding conservative_blend
  blend_total e sample =
      if not e.blocking_completion_observed
      then conservative_blend e.valid e.total_lsfg_ms sample
      else if not e.valid || lt e.total_lsfg_ms sample
      then sample
      else e.total_lsfg_ms

  abbrev pub is_tracked : ℕ → Bool
  is_tracked count = not (count == 0) && ltb count tracked_batch_counts

  abbrev pub is_usable : Observation D → Bool
  is_usable o =
      o.valid
      && is_tracked o.generation_count
      && is_finite o.mipmaps_ms
      && is_finite o.optical_flow_ms
      && is_finite o.total_lsfg_ms
      && not (lt o.mipmaps_ms (decimal 0 0))
      && not (lt o.optical_flow_ms (decimal 0 0))
      && not (le o.total_lsfg_ms (decimal 0 0))

  unfoldable pub update_estimate : Estimate D → Observation D → Estimate D
  unfolding conservative_blend
  update_estimate e o = record e {
    valid = true;
    mipmaps_ms = conservative_blend e.valid e.mipmaps_ms o.mipmaps_ms;
    optical_flow_ms = conservative_blend e.valid e.optical_flow_ms o.optical_flow_ms;
    gpu_total_lsfg_ms = blend_gpu e.gpu_total_lsfg_ms o.total_lsfg_ms;
    total_lsfg_ms = blend_total e o.total_lsfg_ms;
  }

  -- The predictor with a new estimate for a batch count.
  abbrev pub store : Predictor D → ℕ → Estimate D → Predictor D
  store s i e = record s { has_estimate = true; batch_estimates = set s.batch_estimates i e }

  unfoldable pub observe : Predictor D → Observation D → Predictor D
  observe s o =
      if is_usable o
      then store s o.generation_count (update_estimate (estimate_at s o.generation_count) o)
      else s

  unfoldable pub complete_estimate : Estimate D → D → Estimate D
  complete_estimate e completion_ms = record e {
    valid = true;
    blocking_completion_observed = true;
    total_lsfg_ms =
        if not e.valid || le e.total_lsfg_ms completion_ms
        then completion_ms
        else relax e.total_lsfg_ms completion_ms;
  }

  unfoldable pub observe_blocking_completion : Predictor D → ℕ → D → Predictor D
  observe_blocking_completion s count completion_ms =
      if not (is_tracked count) || not (is_finite completion_ms) || le completion_ms (decimal 0 0)
      then s
      else store s count (complete_estimate (estimate_at s count) completion_ms)

  abbrev pub may_recover : Estimate D → Bool
  may_recover e =
      e.valid
      && e.blocking_completion_observed
      && is_finite e.gpu_total_lsfg_ms
      && lt (decimal 0 0) e.gpu_total_lsfg_ms
      && is_finite e.total_lsfg_ms
      && not (le e.total_lsfg_ms e.gpu_total_lsfg_ms)

  unfoldable pub recover_estimate : Estimate D → Estimate D
  recover_estimate e = record e {
    total_lsfg_ms =
        if may_recover e
        then Float.max fp.double (relax e.total_lsfg_ms e.gpu_total_lsfg_ms) e.gpu_total_lsfg_ms
        else e.total_lsfg_ms;
  }

  unfoldable pub observe_source_only_recovery : Predictor D → Predictor D
  observe_source_only_recovery s = record s {
    batch_estimates = map recover_estimate s.batch_estimates;
  }

  unfoldable pub observe_delivery_miss : Predictor D → D → Predictor D
  observe_delivery_miss s lateness_ms =
      let sample =
        Float.clamp fp.double (Float.max fp.double lateness_ms (decimal 50 2)) (decimal 50 2)
          (decimal 80 1) in
      if not (is_finite lateness_ms) || lt lateness_ms (decimal 0 0) then s else record s {
        delivery_reserve_ms =
            if lt (decimal 0 0) s.delivery_reserve_ms
            then add s.delivery_reserve_ms (mul (decimal 25 2) (sub sample s.delivery_reserve_ms))
            else sample;
      }

  unfoldable pub observe_delivery_success : Predictor D → Predictor D
  observe_delivery_success s =
      let decayed = mul s.delivery_reserve_ms (decimal 95 2) in
      record s { delivery_reserve_ms = if lt decayed (decimal 1 2) then decimal 0 0 else decayed }

  -- The loop over the distances: `left` rounds from `distance` on, the lower count first.
  unfoldable pub nearest : Predictor D → ℕ → ℕ → ℕ → Option ℕ
  nearest s zero distance count = none
  nearest s (suc left) distance count =
      let rest = nearest s left (distance + 1) count in
      if ltb distance count && (estimate_at s (count - distance)).valid
      then some (count - distance)
      else if ltb (count + distance) tracked_batch_counts
          && (estimate_at s (count + distance)).valid
      then some (count + distance)
      else rest

  -- The count whose estimate is used.
  unfoldable pub choose_estimate : Predictor D → ℕ → Option ℕ
  choose_estimate s count =
      if (estimate_at s count).valid
      then some count
      else nearest s (tracked_batch_counts - 1) 1 count

  unfoldable pub batch_scale : ℕ → ℕ → D
  batch_scale count estimate_count =
      let relative = div (fp.of_nat count) (fp.of_nat estimate_count) in
      if estimate_count == count
      then decimal 1 0
      else if ltb count estimate_count
      then Float.max fp.double (decimal 70 2) (mul relative (decimal 110 2))
      else mul relative (decimal 110 2)

  unfoldable pub no_decision : Predictor D → D → Decision D
  no_decision s budget = record {
    predicted_mipmaps_ms = decimal 0 0;
    predicted_optical_flow_ms = decimal 0 0;
    predicted_total_lsfg_ms = decimal 0 0;
    safety_margin_ms = decimal 0 0;
    usable_budget_ms = budget;
    delivery_reserve_ms = s.delivery_reserve_ms;
    effective_usable_budget_ms =
        Float.max fp.double (decimal 0 0) (sub budget s.delivery_reserve_ms);
    would_admit = false;
    valid = false;
  }

  unfoldable pub decide : Predictor D → ℕ → D → Option ℕ → Decision D
  decide s count budget none = no_decision s budget
  decide s count budget (some estimate_count) =
      let e = estimate_at s estimate_count in
      let none_yet = no_decision s budget in
      let total = mul e.total_lsfg_ms (batch_scale count estimate_count) in
      let margin = Float.max fp.double (decimal 35 2) (mul total (decimal 12 2)) in
      let valid = is_finite total && lt (decimal 0 0) total in
      if estimate_count == 0 then none_yet else record none_yet {
        predicted_mipmaps_ms = e.mipmaps_ms;
        predicted_optical_flow_ms = e.optical_flow_ms;
        predicted_total_lsfg_ms = total;
        safety_margin_ms = margin;
        valid = valid;
        would_admit = valid && le (add total margin) none_yet.effective_usable_budget_ms;
      }

  unfoldable pub predict : Predictor D → ℕ → D → Decision D
  predict s count budget =
      if not s.has_estimate
        || not (is_tracked count)
        || not (lt (decimal 0 0) budget)
        || not (is_finite budget)
      then no_decision s budget
      else decide s count budget (choose_estimate s count)
