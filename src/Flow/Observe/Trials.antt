-- ===== src/Flow/Observe/Trials.antt =====
-- The two trials of AdaptiveFlowController::observe: a higher state under adaptive frame
-- generation, and a lower state after pressure.
use lsfg_vk_android.Common.{
  ℕ, ◌-◌, ◌+◌, Bool, true, false, not, ◌&&◌, ◌||◌, if◌then◌else◌, ltb, min, get_or,
}
use lsfg_vk_android.Float
use lsfg_vk_android.Float.{Floats}
use lsfg_vk_android.Flow.Types.{
  Preset, Observation, Downstep, Recovery, Controller, recovery_pacing_reverted,
  evaluating_recovery_pacing, recovery_pacing_confirmed, evaluating_downstep,
  downstep_benefit_confirmed, downstep_reverted,
}
use lsfg_vk_android.Flow.Presets.{states, size}
use lsfg_vk_android.Flow.Lifecycle.{origin, reset_evidence, with_reason}
use lsfg_vk_android.Flow.Signals.{Signals}
use lsfg_vk_android.Flow.Constants

module _ {S D : Type 0} (fp : Floats S D) where
  open fp.double use {add, sub, mul, lt, le, is_finite, decimal}

  -- presetStates[i]; an index out of range, which the source leaves undefined, is 1.0.
  unfoldable pub scale_at : Preset → ℕ → S
  scale_at preset i = get_or (states fp preset) i (fp.single.decimal 100 2)

  -- The selected state moves to i.
  abbrev pub move_to : Controller S D → ℕ → Controller S D
  move_to s i = record s {
    telemetry = record (s.telemetry) {
      state_index = i;
      current_scale = scale_at s.preset i;
      changed = true;
    };
  }

  -- The sample shows a lower source rate and a higher generation density than before.
  unfoldable pub is_regression : Recovery D → Observation D → Signals → Bool
  is_regression r o g =
      (g.source_sample_valid
        && lt (origin fp) r.baseline_source_fps
        && lt o.source_fps
            (mul r.baseline_source_fps (Constants.recovery_pacing_source_retention_ratio fp)))
      && (o.adaptive_framegen_mode
          && le (origin fp) o.scheduled_generation_density
          && is_finite o.scheduled_generation_density
          && lt (add r.baseline_density (Constants.recovery_pacing_density_increase_tolerance fp))
              o.scheduled_generation_density)

  unfoldable pub count_regression : Controller S D → Observation D → D → Signals → Controller S D
  count_regression s o evidence g = record s {
    recovery = record (s.recovery) {
      regression_seconds =
          if is_regression s.recovery o g
          then add s.recovery.regression_seconds evidence
          else origin fp;
    };
  }

  unfoldable pub revert_recovery : Controller S D → Controller S D
  revert_recovery s =
      let t = move_to s (min s.recovery.previous_index (size s.preset - 1)) in
      reset_evidence fp (
        with_reason fp
          (record t {
            recovery = record (t.recovery) {
              evaluation_active = false;
              regression_seconds = origin fp;
              retry_blocked_until_seconds =
                  add t.observed_seconds (Constants.recovery_pacing_revert_hold_seconds fp);
            };
            cooldown_until_seconds =
                add t.observed_seconds (Constants.transition_cooldown_seconds fp);
          })
          recovery_pacing_reverted)

  -- The block under `if (recoveryPacingEvaluationActive_)`.
  unfoldable pub judge_recovery : Controller S D → Observation D → D → Signals → Controller S D
  unfolding count_regression revert_recovery
  judge_recovery s o evidence g =
      let t = count_regression s o evidence g in
      if le (Constants.recovery_pacing_regression_confirm_seconds fp) t.recovery.regression_seconds
      then revert_recovery t
      else if lt (sub t.observed_seconds t.recovery.evaluation_started_seconds)
          (Constants.recovery_pacing_evaluation_seconds fp)
      then with_reason fp (reset_evidence fp t) evaluating_recovery_pacing
      else reset_evidence fp (
          with_reason fp
            (record t {
              recovery = record (t.recovery) {
                evaluation_active = false;
                regression_seconds = origin fp;
              };
            })
            recovery_pacing_confirmed)

  unfoldable pub has_source_benefit : Downstep D → Observation D → Bool
  has_source_benefit d o =
      lt (origin fp) d.baseline_source_fps
      && le (mul d.baseline_source_fps (Constants.material_source_gain_ratio fp)) o.source_fps

  -- `ratio` is the measured pressure ratio.
  unfoldable pub has_compute_benefit : Downstep D → D → Observation D → Signals → Bool
  has_compute_benefit d ratio o g =
      d.baseline_compute_pressure
      && o.generated_work_sample
      && (not g.compute_pressure
          || le ratio (sub d.baseline_pressure_ratio (Constants.material_pressure_ratio_relief fp))
          || le o.flow_ms (mul d.baseline_flow_ms (Constants.material_flow_relief_ratio fp))
            && le o.total_lsfg_ms
                (mul d.baseline_total_ms (Constants.material_total_relief_ratio fp)))

  unfoldable pub has_output_benefit : Downstep D → Observation D → Bool
  has_output_benefit d o =
      d.baseline_output_valid
      && o.output_cadence_valid
      && le (mul d.baseline_output_fps (Constants.material_output_gain_ratio fp)) o.output_fps

  unfoldable pub has_wsi_benefit : Downstep D → Observation D → Bool
  has_wsi_benefit d o =
      d.baseline_wsi_pressure
      && lt (origin fp) d.baseline_wsi_loss_rate
      && le o.wsi_loss_rate (mul d.baseline_wsi_loss_rate (Constants.material_wsi_relief_ratio fp))

  unfoldable pub has_global_benefit : Downstep D → Observation D → Bool
  has_global_benefit d o =
      d.baseline_global_pressure
      && o.global_pressure_valid
      && le o.global_gpu_usage_percent
          (sub d.baseline_global_gpu_percent (Constants.material_global_gpu_relief_percent fp))

  unfoldable pub target_pressure_remains : Downstep D → Observation D → Signals → Bool
  target_pressure_remains d o g =
      d.output_driven
        && (not g.fixed_multiplier_mode
            && o.output_cadence_valid
            && o.output_targeted
            && not o.output_target_satisfied)
        && not d.baseline_wsi_pressure
      || d.source_driven && g.source_pressure

  -- A probe without a reference is kept for a better source rate only.
  unfoldable pub has_benefit : Downstep D → D → Observation D → Signals → Bool
  has_benefit d ratio o g =
      if d.exploratory_source_driven
      then d.benefit_seen || has_source_benefit d o
      else d.benefit_seen
        || has_output_benefit d o
        || has_source_benefit d o
        || has_compute_benefit d ratio o g
        || has_wsi_benefit d o
        || has_global_benefit d o
        || target_pressure_remains d o g

  unfoldable pub evaluation_seconds : Downstep D → D
  evaluation_seconds d =
      if d.output_driven || d.source_driven || d.exploratory_source_driven
      then Constants.output_downstep_evaluation_seconds fp
      else Constants.downstep_evaluation_seconds fp

  abbrev pub finish_downstep : Downstep D → Downstep D
  finish_downstep d = record d {
    evaluation_active = false;
    benefit_seen = false;
    output_driven = false;
    source_driven = false;
    exploratory_source_driven = false;
  }

  unfoldable pub confirm_downstep : Controller S D → Observation D → Controller S D
  confirm_downstep s o = reset_evidence fp (record s {
    downstep = finish_downstep s.downstep;
    exploration =
        if s.downstep.exploratory_source_driven
        then record {
          reference_valid = true;
          probe_pending = ltb (s.telemetry.state_index + 1) (size s.preset);
          best_source_fps = Float.max fp.double s.exploration.best_source_fps o.source_fps;
        }
        else s.exploration;
    telemetry = record (s.telemetry) {
      downstep_evaluation_active = false;
      reason = downstep_benefit_confirmed;
    };
  })

  unfoldable pub revert_downstep : Controller S D → Controller S D
  revert_downstep s =
      let t = move_to s (min s.downstep.previous_index (size s.preset - 1)) in
      reset_evidence fp (record t {
        downstep = finish_downstep t.downstep;
        exploration =
            if t.downstep.exploratory_source_driven
            then record (t.exploration) { probe_pending = false }
            else t.exploration;
        telemetry = record (t.telemetry) {
          downstep_evaluation_active = false;
          reason = downstep_reverted;
        };
        cooldown_until_seconds =
            add t.observed_seconds (Constants.downstep_no_benefit_hold_seconds fp);
      })

  -- The block under `if (downstepEvaluationActive_)`.
  unfoldable pub judge_downstep : Controller S D → Observation D → Signals → Controller S D
  unfolding confirm_downstep revert_downstep
  judge_downstep s o g =
      let seen = has_benefit s.downstep s.telemetry.pressure_ratio o g in
      let t : Controller S D = record s {
        downstep = record (s.downstep) { benefit_seen = seen };
      } in
      if lt (sub t.observed_seconds t.downstep.evaluation_started_seconds)
        (evaluation_seconds t.downstep)
      then reset_evidence fp (record t {
        telemetry = record (t.telemetry) {
          downstep_evaluation_active = true;
          reason = evaluating_downstep;
        };
      })
      else if seen
      then confirm_downstep t o
      else revert_downstep t
