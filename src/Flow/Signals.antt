-- ===== src/Flow/Signals.antt =====
-- The first half of AdaptiveFlowController::observe: the pressure signals of a sample, and the
-- exploratory source reference.
use lsfg_vk_android.Common.{Bool, true, not, ◌&&◌, ◌||◌, if◌then◌else◌, ltb}
use lsfg_vk_android.Common.Int.{pos, leb_ℤ}
use lsfg_vk_android.Float.{Floats}
use lsfg_vk_android.Flow.Types.{Observation, Exploration, Controller}
use lsfg_vk_android.Flow.Lifecycle.{no_exploration, origin}
use lsfg_vk_android.Flow.Constants.{
  pressure_ratio, global_gpu_pressure_percent, source_target_satisfied_ratio,
  exploratory_source_drop_ratio, thermal_status_severe,
}

-- The local `const bool`s of observe.
pub record Signals : Type 0 where
  pub compute_pressure : Bool
  pub wsi_pressure : Bool
  pub fixed_multiplier_mode : Bool
  pub source_sample_valid : Bool
  pub source_target_valid : Bool
  pub actionable_output_deficit : Bool
  pub output_pressure : Bool
  pub source_pressure : Bool
  pub exploratory_source_pressure : Bool
  pub global_gpu_pressure : Bool
  pub global_pressure : Bool
  pub thermal_severe : Bool
  pub wsi_flow_pressure : Bool
  pub recovery_wsi_pressure : Bool

module _ {S D : Type 0} (fp : Floats S D) where
  open fp.double use {mul, div, lt, le, is_finite, decimal}

  -- x > 0.0 && std::isfinite(x).
  abbrev pub is_positive : D → Bool
  is_positive x = lt (origin fp) x && is_finite x

  abbrev pub is_fixed_mode : Observation D → Bool
  is_fixed_mode o = o.fixed_multiplier_mode || o.fixed_multiplier_base_target

  abbrev pub has_source_target : Observation D → Bool
  has_source_target o = is_fixed_mode o && is_positive o.source_target_fps

  -- A generated cycle with a usable source rate.
  abbrev pub has_generated_source : Observation D → Bool
  has_generated_source o =
      is_positive o.source_fps && o.generated_work_sample && ltb 0 o.generation_count

  -- The reference is taken from the first sample, and raised by better ones while no lower
  -- state is on trial.
  unfoldable pub learn_reference : Exploration D → Bool → D → Exploration D
  learn_reference e evaluating fps =
      if not e.reference_valid
      then record { reference_valid = true; probe_pending = true; best_source_fps = fps }
      else if not evaluating && lt e.best_source_fps fps
      then record e { best_source_fps = fps }
      else e

  unfoldable pub arm_probe : Exploration D → D → Exploration D
  arm_probe e fps =
      if not e.probe_pending && lt fps (mul e.best_source_fps (exploratory_source_drop_ratio fp))
      then record e { probe_pending = true }
      else e

  unfoldable pub explore : Controller S D → Observation D → Controller S D
  unfolding learn_reference arm_probe
  explore s o = record s {
    exploration =
        if not (is_fixed_mode o) || has_source_target o
        then no_exploration fp
        else if has_generated_source o
        then arm_probe (learn_reference s.exploration s.downstep.evaluation_active o.source_fps)
            o.source_fps
        else s.exploration;
  }

  -- The telemetry that is written before the signals.
  unfoldable pub measure : Controller S D → Observation D → Controller S D
  measure s o = record s {
    telemetry = record (s.telemetry) {
      pressure_ratio = div o.total_lsfg_ms o.frame_budget_ms;
      flow_budget_ratio = div o.flow_ms o.frame_budget_ms;
      global_gpu_usage_percent =
          if o.global_pressure_valid then o.global_gpu_usage_percent else origin fp;
      output_deficit = o.output_deficit;
    };
  }

  -- `ratio` is the measured pressure ratio.
  unfoldable pub has_compute_pressure : D → Observation D → Bool
  has_compute_pressure ratio o =
      o.generated_work_sample
        && (o.compute_deadline_pressure || o.deadline_missed || le (pressure_ratio fp) ratio)
      || o.retained_generated_timing_sample && le (decimal 1 0) ratio

  unfoldable pub has_source_pressure : Observation D → Bool
  has_source_pressure o =
      has_source_target o
      && is_positive o.source_fps
      && lt o.source_fps (mul o.source_target_fps (source_target_satisfied_ratio fp))

  unfoldable pub has_exploratory_pressure : Exploration D → Observation D → Bool
  has_exploratory_pressure e o =
      is_fixed_mode o
      && not (has_source_target o)
      && e.reference_valid
      && e.probe_pending
      && has_generated_source o

  unfoldable pub has_gpu_pressure : Observation D → Bool
  has_gpu_pressure o =
      o.global_pressure_valid && le (global_gpu_pressure_percent fp) o.global_gpu_usage_percent

  -- The signals of a measured and explored controller.
  unfoldable pub signals : Controller S D → Observation D → Signals
  unfolding has_compute_pressure has_source_pressure has_exploratory_pressure has_gpu_pressure
  signals s o =
      let actionable = o.output_deficit && not (is_fixed_mode o) in
      record {
        compute_pressure = has_compute_pressure s.telemetry.pressure_ratio o;
        wsi_pressure = o.wsi_presentation_pressure;
        fixed_multiplier_mode = is_fixed_mode o;
        source_sample_valid = is_positive o.source_fps;
        source_target_valid = has_source_target o;
        actionable_output_deficit = actionable;
        output_pressure =
            o.output_cadence_valid
            && o.output_targeted
            && actionable
            && not o.output_target_satisfied;
        source_pressure = has_source_pressure o;
        exploratory_source_pressure = has_exploratory_pressure s.exploration o;
        global_gpu_pressure = has_gpu_pressure o;
        global_pressure = has_gpu_pressure o && (actionable || o.synthetic_drop_pressure);
        thermal_severe = o.thermal_pressure_valid && leb_ℤ thermal_status_severe o.thermal_status;
        wsi_flow_pressure = o.wsi_presentation_pressure && has_gpu_pressure o && actionable;
        recovery_wsi_pressure = o.wsi_presentation_pressure && not (is_fixed_mode o);
      }

  -- The telemetry that is written from the signals.
  unfoldable pub publish : Controller S D → Observation D → Signals → Controller S D
  publish s o g = record s {
    telemetry = record (s.telemetry) {
      compute_pressure = g.compute_pressure;
      wsi_pressure = g.wsi_pressure;
      global_pressure = g.global_pressure;
      thermal_status = if o.thermal_pressure_valid then o.thermal_status else pos 0;
      thermal_pressure = g.thermal_severe;
      output_pressure = g.output_pressure;
      source_pressure = g.source_pressure;
      exploratory_source_pressure = g.exploratory_source_pressure;
      source_reference_fps =
          if g.source_target_valid
          then o.source_target_fps
          else if s.exploration.reference_valid
          then s.exploration.best_source_fps
          else origin fp;
    };
  }
