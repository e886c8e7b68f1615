-- ===== src/Flow/Tests.antt =====
-- Runs of the controller in fixed-point arithmetic, and the theorems at concrete inputs.
use mathlib.Core.List.{Memᴰ}
use lsfg_vk_android.Common.{ℕ, ◌*◌, ◌≡◌, refl, true, false, List, [], ◌∷◌, arith, min}
use lsfg_vk_android.Common.Int.{pos}
use lsfg_vk_android.Float.Fixed.{Fixed, nano, fixed_floats}
use lsfg_vk_android.Flow.Types.{auto, Observation, Controller, sustained_pressure}
use lsfg_vk_android.Flow.Presets.{states, hundredths, size}
use lsfg_vk_android.Flow.Lifecycle.{
  construct, configure, restart, reset, select_target_state, reset_fixed_exploration, find_scale,
  seed_current_scale,
}
use lsfg_vk_android.Flow.Signals.{
  Signals, explore, learn_reference, arm_probe, measure, signals, publish,
}
use lsfg_vk_android.Flow.Observe.{
  observe, clear_telemetry, evidence_seconds, observe_enabled, note_transition, hold_transition,
  settle_transition, restart_trials, reject_sample, observe_valid, observe_scheduled,
  hold_scheduler, wait_for_scheduler, observe_settled,
}
use lsfg_vk_android.Flow.Observe.Trials.{
  judge_recovery, judge_downstep, is_regression, has_benefit, has_source_benefit,
  has_output_benefit, has_compute_benefit, has_wsi_benefit, has_global_benefit,
  target_pressure_remains, evaluation_seconds, scale_at,
}
use lsfg_vk_android.Flow.Observe.Actuate.{
  decide, may_lower, lower, is_unprofitable, down_confirm, step_down, down_reason, is_retry_blocked,
  may_raise, raise, predicted_total_ms, step_up,
}
use lsfg_vk_android.Flow.Invariant.{IsCoherent, Advances, observe-Advances}
use lsfg_vk_android.Flow.Entry.{construct-IsCoherent, Seeds, seed_current_scale-Seeds}
use lsfg_vk_android.Flow.Moves.{Explains, observe-Explains}
use lsfg_vk_android.Flow.Barriers.{Keeps, DoesNotRise, observe-cooldown, observe-retry_blocked}
use lsfg_vk_android.Flow.Runs.{Call, observes, call, run, construct-run-mem, run-IsCoherent}
use lsfg_vk_android.Flow.Trials.{Judges, judge_downstep-Judges}

-- n / 1000.
abbrev milli : ℕ → Fixed
milli n = nano (pos (n * 1_000_000))

-- 100 ms of a game whose generation takes 15 of the 10 ms that it may take.
abbrev slow_sample : Observation Fixed
slow_sample = record {
  elapsed = pos 100_000_000;
  frame_budget_ms = milli 10_000;
  total_lsfg_ms = milli 15_000;
  flow_ms = milli 8_000;
  mipmaps_ms = milli 1_000;
  generation_count = 1;
  deadline_missed = false;
  compute_deadline_pressure = false;
  wsi_presentation_pressure = false;
  wsi_loss_rate = milli 0;
  source_fps = milli 30_000;
  source_target_fps = milli 0;
  adaptive_framegen_mode = true;
  scheduled_generation_density = milli 1_000;
  fixed_multiplier_mode = false;
  output_fps = milli 60_000;
  output_target_fps = milli 60_000;
  output_cadence_valid = false;
  output_targeted = false;
  output_target_satisfied = false;
  fixed_multiplier_base_target = false;
  global_gpu_usage_percent = milli 50_000;
  global_pressure_valid = false;
  thermal_status = pos 0;
  thermal_pressure_valid = false;
  output_deficit = false;
  synthetic_drop_pressure = false;
  generated_work_sample = true;
  retained_generated_timing_sample = false;
  scheduler_transition = false;
  flow_transition = false;
  valid = true;
}

abbrev transition_sample : Observation Fixed
transition_sample = record slow_sample { flow_transition = true }

abbrev fresh : Controller Fixed Fixed
fresh = construct fixed_floats auto

-- Four slow samples, 0.4 seconds of pressure, select the next lower state.
abbrev slow_calls : List (Call Fixed Fixed)
slow_calls =
    observes slow_sample ∷ observes slow_sample ∷ observes slow_sample ∷ observes slow_sample ∷ []

-- `run`, with all that it calls unfolded.
execute : Controller Fixed Fixed → List (Call Fixed Fixed) → Controller Fixed Fixed
unfolding run call construct configure restart reset select_target_state reset_fixed_exploration
    hundredths size states find_scale seed_current_scale observe clear_telemetry evidence_seconds
    observe_enabled note_transition hold_transition settle_transition restart_trials reject_sample
    observe_valid explore learn_reference arm_probe measure signals publish observe_scheduled
    hold_scheduler wait_for_scheduler observe_settled judge_recovery judge_downstep is_regression
    has_benefit has_source_benefit has_output_benefit has_compute_benefit has_wsi_benefit
    has_global_benefit target_pressure_remains evaluation_seconds scale_at decide may_lower lower
    is_unprofitable down_confirm step_down down_reason is_retry_blocked may_raise raise
    predicted_total_ms step_up min
execute = run fixed_floats

slow_run_steps_down :
    ((execute fresh slow_calls).telemetry.state_index ≡ 1)
    × ((execute fresh slow_calls).telemetry.reason ≡ sustained_pressure)
    × ((execute fresh slow_calls).telemetry.current_scale ≡ milli 950)
unfolding execute
slow_run_steps_down = (refl, refl, refl)

-- Three slow samples: the next one moves the state.
abbrev pressed : Controller Fixed Fixed
pressed =
    run fixed_floats fresh (observes slow_sample ∷ observes slow_sample ∷ observes slow_sample ∷ [])

pressed-IsCoherent : IsCoherent fixed_floats pressed
pressed-IsCoherent = run-IsCoherent fixed_floats fresh _ (construct-IsCoherent fixed_floats auto)

construct-run-mem_example :
    Memᴰ
      (run fixed_floats fresh slow_calls).telemetry.current_scale
      (states fixed_floats (run fixed_floats fresh slow_calls).preset)
construct-run-mem_example = construct-run-mem fixed_floats auto slow_calls

observe-Advances_example : Advances fixed_floats pressed (observe fixed_floats pressed slow_sample)
observe-Advances_example = observe-Advances fixed_floats pressed slow_sample pressed-IsCoherent

observe-Explains_example :
    Explains fixed_floats pressed slow_sample (observe fixed_floats pressed slow_sample)
observe-Explains_example = observe-Explains fixed_floats pressed slow_sample pressed-IsCoherent

-- A controller that settles until 5 s, cools down until 5 s and may not retry before 15 s.
abbrev settling : Controller Fixed Fixed
settling = record fresh { flow_transition_settle_until_seconds = milli 5_000 }

abbrev cooling : Controller Fixed Fixed
cooling = record fresh { cooldown_until_seconds = milli 5_000 }

abbrev blocked : Controller Fixed Fixed
blocked = record fresh {
  recovery = record (fresh.recovery) { retry_blocked_until_seconds = milli 15_000 };
  telemetry = record (fresh.telemetry) { state_index = 3 };
}

abbrev invalid_sample : Observation Fixed
invalid_sample = record slow_sample { valid = false }

observe-cooldown_example : Keeps fixed_floats cooling (observe fixed_floats cooling slow_sample)
unfolding construct evidence_seconds
observe-cooldown_example = observe-cooldown fixed_floats cooling slow_sample refl refl refl

observe-retry_blocked_example :
    DoesNotRise fixed_floats blocked (observe fixed_floats blocked slow_sample)
unfolding construct evidence_seconds
observe-retry_blocked_example =
    observe-retry_blocked fixed_floats blocked slow_sample refl refl refl refl

seed_current_scale-Seeds_example :
    Seeds fixed_floats fresh (milli 700) (seed_current_scale fixed_floats fresh (milli 700))
seed_current_scale-Seeds_example = seed_current_scale-Seeds fixed_floats fresh (milli 700)

-- A lower state on trial since the start, with no pressure in its baseline.
abbrev trying : Controller Fixed Fixed
trying = record fresh {
  observed_seconds = milli 400;
  downstep = record (fresh.downstep) { evaluation_active = true };
  telemetry = record (fresh.telemetry) { state_index = 1; current_scale = milli 950 };
}

trying-IsCoherent : IsCoherent fixed_floats trying
unfolding construct size scale_at states
trying-IsCoherent = ground arith

abbrev quiet : Signals
quiet = record {
  compute_pressure = false;
  wsi_pressure = false;
  fixed_multiplier_mode = false;
  source_sample_valid = true;
  source_target_valid = false;
  actionable_output_deficit = false;
  output_pressure = false;
  source_pressure = false;
  exploratory_source_pressure = false;
  global_gpu_pressure = false;
  global_pressure = false;
  thermal_severe = false;
  wsi_flow_pressure = false;
  recovery_wsi_pressure = false;
}

judge_downstep-Judges_example :
    Judges fixed_floats trying slow_sample quiet
      (judge_downstep fixed_floats trying slow_sample quiet)
unfolding construct
judge_downstep-Judges_example =
    judge_downstep-Judges fixed_floats trying slow_sample quiet refl trying-IsCoherent
