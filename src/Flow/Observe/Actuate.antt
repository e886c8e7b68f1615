-- ===== src/Flow/Observe/Actuate.antt =====
-- The decisions of AdaptiveFlowController::observe that move the state: one step down under
-- confirmed pressure, one step up under confirmed headroom.
use lsfg_vk_android.Common.{◌-◌, ◌+◌, Bool, true, false, not, ◌&&◌, ◌||◌, if◌then◌else◌, ltb, min}
use lsfg_vk_android.Common.Int.{leb_ℤ}
use lsfg_vk_android.Float.{Floats}
use lsfg_vk_android.Flow.Types.{
  Observation, Controller, Reason, unchanged, insufficient_flow_contribution, sustained_pressure,
  sustained_global_pressure, sustained_output_pressure, sustained_source_pressure,
  exploratory_source_pressure, insufficient_recovery_headroom, sustained_headroom,
}
use lsfg_vk_android.Flow.Presets.{size}
use lsfg_vk_android.Flow.Lifecycle.{origin, reset_evidence, with_reason}
use lsfg_vk_android.Flow.Signals.{Signals}
use lsfg_vk_android.Flow.Constants
use lsfg_vk_android.Flow.Observe.Trials.{scale_at, move_to}

abbrev pub has_target_pressure : Signals → Bool
has_target_pressure g = g.output_pressure || g.source_pressure

abbrev pub has_fast_pressure : Signals → Bool
has_fast_pressure g = has_target_pressure g || g.exploratory_source_pressure

-- `pressure` of the source: what may lower the state.
abbrev pub has_pressure : Signals → Bool
has_pressure g =
    g.compute_pressure || g.global_pressure || g.wsi_flow_pressure || g.output_pressure
    || g.source_pressure || g.exploratory_source_pressure

-- Why the state is lowered.
unfoldable pub down_reason : Signals → Reason
down_reason g =
    if g.output_pressure
    then sustained_output_pressure
    else if g.source_pressure
    then sustained_source_pressure
    else if g.exploratory_source_pressure && not (has_target_pressure g)
    then exploratory_source_pressure
    else if g.global_pressure
    then sustained_global_pressure
    else sustained_pressure

module _ {S D : Type 0} (fp : Floats S D) where
  open fp.double use {add, sub, mul, div, lt, le, is_finite, decimal}

  -- lowerScale² / currentScale², and the like for the higher scale.
  abbrev pub work_ratio : S → S → D
  work_ratio other current =
      div (mul (fp.widen other) (fp.widen other)) (mul (fp.widen current) (fp.widen current))

  unfoldable pub relief_ms : Controller S D → Observation D → D
  relief_ms s o = mul o.flow_ms (
      sub (decimal 1 0) (
        work_ratio (scale_at fp s.preset (s.telemetry.state_index + 1))
          (scale_at fp s.preset s.telemetry.state_index)))

  -- The step down is not worth its quality.
  unfoldable pub is_unprofitable : Controller S D → Observation D → Signals → Bool
  unfolding relief_ms
  is_unprofitable s o g =
      let relief = relief_ms s o in
      let target_driven = has_target_pressure g && not g.compute_pressure in
      let exploratory_driven =
        g.exploratory_source_pressure && not (has_target_pressure g) && not g.compute_pressure in
      let useful = le (decimal 1 0) o.flow_ms && le (decimal 25 2) relief in
      let global_only = g.global_pressure && not g.compute_pressure && not (has_fast_pressure g) in
      let profitable =
        not global_only
        || le (Constants.minimum_global_pressure_lsfg_budget_ratio fp) s.telemetry.pressure_ratio in
      not target_driven
        && (exploratory_driven && not useful
            || not (has_fast_pressure g)
              && (lt s.telemetry.flow_budget_ratio (Constants.minimum_flow_budget_ratio fp)
                  || lt (div relief o.frame_budget_ms)
                      (Constants.minimum_predicted_relief_ratio fp)))
      || not profitable

  unfoldable pub down_confirm : Signals → D
  down_confirm g =
      if has_fast_pressure g
      then Constants.output_down_confirm_seconds fp
      else if g.global_pressure
      then Constants.global_down_confirm_seconds fp
      else if g.thermal_severe
          && has_pressure g
          && not (has_fast_pressure g)
          && not g.global_pressure
      then Constants.thermal_accelerated_confirm_seconds fp
      else Constants.down_confirm_seconds fp

  -- `pressure && canLower`.
  unfoldable pub may_lower : Controller S D → Signals → Bool
  may_lower s g = has_pressure g && ltb (s.telemetry.state_index + 1) (size s.preset)

  -- The assignments under `if (pressureSeconds_ >= downConfirmSeconds)`.
  unfoldable pub step_down : Controller S D → Observation D → Signals → Controller S D
  step_down s o g =
      let index = s.telemetry.state_index in
      let exploring = g.exploratory_source_pressure && not (has_target_pressure g) in
      let t = move_to fp s (min (index + 1) (size s.preset - 1)) in
      reset_evidence fp (record t {
        downstep = record {
          evaluation_active = true;
          benefit_seen = false;
          output_driven = g.output_pressure;
          source_driven = g.source_pressure;
          exploratory_source_driven = exploring;
          previous_index = index;
          evaluation_started_seconds = s.observed_seconds;
          baseline_pressure_ratio = s.telemetry.pressure_ratio;
          baseline_flow_ms = o.flow_ms;
          baseline_total_ms = o.total_lsfg_ms;
          baseline_source_fps = o.source_fps;
          baseline_output_fps = o.output_fps;
          baseline_wsi_loss_rate = o.wsi_loss_rate;
          baseline_global_gpu_percent = o.global_gpu_usage_percent;
          baseline_output_valid = o.output_cadence_valid;
          baseline_compute_pressure = g.compute_pressure;
          baseline_wsi_pressure = g.wsi_pressure;
          baseline_global_pressure = g.global_pressure;
        };
        exploration =
            if exploring then record (s.exploration) { probe_pending = false } else s.exploration;
        telemetry = record (t.telemetry) {
          downstep_evaluation_active = true;
          reason = down_reason g;
        };
        cooldown_until_seconds = add s.observed_seconds (
            if has_fast_pressure g
            then Constants.output_transition_cooldown_seconds fp
            else Constants.transition_cooldown_seconds fp);
      })

  -- The block under `if (pressure && canLower)`.
  unfoldable pub lower : Controller S D → Observation D → D → Signals → Controller S D
  unfolding step_down
  lower s o evidence g =
      let t : Controller S D = record s {
        pressure_seconds = add s.pressure_seconds evidence;
        headroom_seconds = origin fp;
      } in
      if is_unprofitable s o g
      then with_reason fp (reset_evidence fp s) insufficient_flow_contribution
      else if le (down_confirm g) t.pressure_seconds
      then step_down t o g
      else with_reason fp t unchanged

  abbrev pub has_global_headroom : Observation D → Bool
  has_global_headroom o =
      not o.global_pressure_valid
      || le o.global_gpu_usage_percent (Constants.global_gpu_recovery_percent fp)

  unfoldable pub source_recovery_satisfied : Controller S D → Observation D → Signals → Bool
  source_recovery_satisfied s o g =
      not g.fixed_multiplier_mode
      || g.source_target_valid
        && le (mul o.source_target_fps (Constants.source_target_satisfied_ratio fp)) o.source_fps
      || g.fixed_multiplier_mode
        && not g.source_target_valid
        && s.exploration.reference_valid
        && not s.exploration.probe_pending
        && g.source_sample_valid
        && le (mul s.exploration.best_source_fps (Constants.exploratory_source_drop_ratio fp))
            o.source_fps

  -- The condition of the step up.
  unfoldable pub may_raise : Controller S D → Observation D → Signals → Bool
  unfolding source_recovery_satisfied
  may_raise s o g =
      ltb 0 s.telemetry.state_index
      && not o.deadline_missed
      && (o.generated_work_sample
          || not o.generated_work_sample
            && o.global_pressure_valid
            && has_global_headroom o
            && not g.actionable_output_deficit
            && not o.synthetic_drop_pressure)
      && not g.actionable_output_deficit
      && not o.synthetic_drop_pressure
      && not g.recovery_wsi_pressure
      && (g.fixed_multiplier_mode || not o.output_targeted || o.output_target_satisfied)
      && source_recovery_satisfied s o g
      && has_global_headroom o
      && (not o.thermal_pressure_valid || leb_ℤ o.thermal_status Constants.thermal_status_moderate)

  unfoldable pub predicted_total_ms : Controller S D → Observation D → D
  predicted_total_ms s o = add o.total_lsfg_ms (
      mul o.flow_ms (
        sub
          (work_ratio (scale_at fp s.preset (s.telemetry.state_index - 1))
            (scale_at fp s.preset s.telemetry.state_index))
          (decimal 1 0)))

  -- The assignments under `if (headroomSeconds_ >= kUpConfirmSeconds)`.
  unfoldable pub step_up : Controller S D → Observation D → Signals → Controller S D
  step_up s o g =
      let index = s.telemetry.state_index in
      let t = move_to fp s (index - 1) in
      reset_evidence fp (
        with_reason fp
          (record t {
            recovery =
                if o.adaptive_framegen_mode
                  && g.source_sample_valid
                  && le (origin fp) o.scheduled_generation_density
                  && is_finite o.scheduled_generation_density
                then record (s.recovery) {
                  evaluation_active = true;
                  previous_index = index;
                  evaluation_started_seconds = s.observed_seconds;
                  regression_seconds = origin fp;
                  baseline_source_fps = o.source_fps;
                  baseline_density = o.scheduled_generation_density;
                }
                else s.recovery;
            exploration =
                if g.fixed_multiplier_mode && not g.source_target_valid
                then record (s.exploration) { probe_pending = false }
                else s.exploration;
            cooldown_until_seconds =
                add s.observed_seconds (Constants.transition_cooldown_seconds fp);
          })
          sustained_headroom)

  -- The block under the long condition.
  unfoldable pub raise : Controller S D → Observation D → D → Signals → Controller S D
  unfolding step_up
  raise s o evidence g =
      let predicted = predicted_total_ms s o in
      let t : Controller S D = record s {
        telemetry = record (s.telemetry) { estimated_next_total_ms = predicted };
      } in
      let u : Controller S D = record t { headroom_seconds = add t.headroom_seconds evidence } in
      if lt (Constants.recovery_predicted_ratio fp) (div predicted o.frame_budget_ms)
      then with_reason fp (record t { headroom_seconds = origin fp }) insufficient_recovery_headroom
      else if le (Constants.up_confirm_seconds fp) u.headroom_seconds
      then step_up u o g
      else with_reason fp u unchanged

  -- A rejected higher state is not tried again for a while.
  unfoldable pub is_retry_blocked : Controller S D → Observation D → Bool
  is_retry_blocked s o =
      ltb 0 s.telemetry.state_index
      && o.adaptive_framegen_mode
      && lt s.observed_seconds s.recovery.retry_blocked_until_seconds

  -- From `const auto presetStates` after the cooldown to the end.
  unfoldable pub decide : Controller S D → Observation D → D → Signals → Controller S D
  unfolding lower raise
  decide s o evidence g =
      let t : Controller S D = record s { pressure_seconds = origin fp } in
      if may_lower s g
      then lower s o evidence g
      else if is_retry_blocked t o
      then with_reason fp (record t { headroom_seconds = origin fp }) insufficient_recovery_headroom
      else if may_raise t o g
      then raise t o evidence g
      else with_reason fp (record t { headroom_seconds = origin fp })
          (if ltb 0 s.telemetry.state_index then insufficient_recovery_headroom else unchanged)
