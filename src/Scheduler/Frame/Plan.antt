-- ===== src/Scheduler/Frame/Plan.antt =====
-- AdaptiveFrameScheduler::plan.
use lsfg_vk_android.Common.{ℕ, Bool, true, false, not, ◌&&◌, ◌||◌, if◌then◌else◌, ◌==◌, min, max}
use lsfg_vk_android.Common.Int.{ℤ}
use lsfg_vk_android.Float
use lsfg_vk_android.Float.{Floats}
use lsfg_vk_android.Scheduler.Frame.{Scheduler, origin, reset_unmet_demand, reset_runtime_state}
use lsfg_vk_android.Scheduler.Frame.Rate.{update_source_rate}
use lsfg_vk_android.Scheduler.Frame.Cost.{update_cost_limit}
use lsfg_vk_android.Scheduler.Frame.Density.{stabilize_generation_density}

module _ {S D : Type 0} (fp : Floats S D) where
  open fp.double use {add, sub, mul, div, lt, le, is_finite, decimal}

  abbrev pub density_evidence : Scheduler D → ℕ
  density_evidence s =
      if s.integer_density_locked
      then s.integer_density_release_samples
      else s.integer_density_candidate_samples

  unfoldable pub clear_telemetry : Scheduler D → Scheduler D
  clear_telemetry s = record s {
    telemetry = record (s.telemetry) {
      source_rate_snapped = false;
      cost_raised = false;
      cost_backed_off = false;
      cost_probe = false;
      discontinuity_reset = false;
      cadence_held = false;
      config_warm_start = false;
      capacity_promoted = false;
      safe_generation_hint_valid = s.safe_generation_hint_valid;
      safe_generation_hint = s.safe_generation_hint;
      generated_frames = 0;
      wanted_generated_frames = origin fp;
      scheduled_generation_density = origin fp;
      fractional_phase = s.fractional_opportunity_phase;
      integer_density_locked = s.integer_density_locked;
      locked_generated_frames = s.locked_integer_density;
      density_transition_evidence = density_evidence s;
      synthetic_opportunities_created = 0;
    };
  }

  -- The opportunities of this cycle: a locked density has no phase, any other diffuses its
  -- fraction.
  unfoldable pub take_opportunities : Scheduler D → D → Scheduler D × ℕ
  take_opportunities s density =
      let phase = Float.max fp.double (origin fp) (add s.fractional_opportunity_phase density) in
      let whole = fp.to_nat (fp.floor (add phase (decimal 1 6))) in
      let rest =
        Float.clamp fp.double (sub phase (fp.of_nat whole)) (origin fp) (decimal 999999 6) in
      if s.integer_density_locked
      then (record s { fractional_opportunity_phase = origin fp }, s.locked_integer_density)
      else (record s { fractional_opportunity_phase = rest }, whole)

  -- What the cost limit and the maximum leave of them.
  unfoldable pub grant : Scheduler D → ℕ → Scheduler D × ℕ
  grant s whole =
      let opportunities = min (min whole s.cost_limit) s.max_generated_frames in
      (
        record s {
          telemetry = record (s.telemetry) {
            fractional_phase = s.fractional_opportunity_phase;
            synthetic_opportunities_created = opportunities;
            generated_frames = opportunities;
          };
        },
        opportunities,
      )

  abbrev pub note_density : Scheduler D → D → Scheduler D
  note_density s density = record s {
    telemetry = record (s.telemetry) {
      scheduled_generation_density = density;
      opportunity_interval_seconds = s.smoothed_source_interval_seconds;
      integer_density_locked = s.integer_density_locked;
      locked_generated_frames = s.locked_integer_density;
      density_transition_evidence = density_evidence s;
    };
  }

  unfoldable pub schedule : Scheduler D → D → Scheduler D × ℕ
  schedule s wanted =
      let (t, density) = stabilize_generation_density fp s wanted in
      let (v, whole) = take_opportunities (note_density t density) density in grant v whole

  -- The first sample after a new target seeds the cost limit.
  unfoldable pub warm_start : Scheduler D → D → Scheduler D
  warm_start s wanted =
      let required = fp.to_nat (
        Float.clamp fp.double (fp.ceil (sub wanted (decimal 1 6))) (decimal 1 0)
          (fp.of_nat s.max_generated_frames)) in
      if s.reconfigure_warm_start_pending
      then reset_unmet_demand fp (record s {
        cost_limit = max s.cost_limit required;
        reconfigure_warm_start_pending = false;
        telemetry = record (s.telemetry) { config_warm_start = true };
      })
      else s

  unfoldable pub wanted_frames : Scheduler D → D
  wanted_frames s =
      Float.clamp fp.double
        (sub (mul (fp.of_nat s.target_fps) s.smoothed_source_interval_seconds) (decimal 1 0))
        (origin fp) (fp.of_nat s.max_generated_frames)

  abbrev pub note_wanted : Scheduler D → D → Scheduler D
  note_wanted s wanted = record s {
    telemetry = record (s.telemetry) { wanted_generated_frames = wanted };
  }

  abbrev pub note_cost : Scheduler D → Scheduler D
  note_cost s = record s { telemetry = record (s.telemetry) { cost_limit = s.cost_limit } }

  -- From the demand on.
  unfoldable pub plan_demand : Scheduler D → Scheduler D × ℕ
  plan_demand s =
      let wanted = wanted_frames s in
      let t = warm_start (note_wanted s wanted) wanted in
      schedule (note_cost (update_cost_limit fp t wanted)) wanted

  -- The clock and the source rate; a held cadence keeps the rate.
  unfoldable pub advance : Scheduler D → D → Bool → Scheduler D
  advance s interval held =
      let t : Scheduler D = record s {
        runtime_cadence_established = true;
        observed_time_seconds =
            add s.observed_time_seconds
              (if held then s.last_trusted_source_interval_seconds else interval);
      } in
      let u : Scheduler D =
        if held
        then record t {
          telemetry = record (t.telemetry) { source_fps = div (decimal 1 0) interval };
        }
        else update_source_rate fp t interval in
      record u { last_trusted_source_interval_seconds = u.smoothed_source_interval_seconds }

  -- One extreme interval is consumed as a discontinuity.
  unfoldable pub reset_discontinuity : Scheduler D → Scheduler D
  unfolding reset_runtime_state
  reset_discontinuity s =
      let t = reset_runtime_state fp s in
      record t {
        last_trusted_source_interval_seconds = origin fp;
        reconfigure_warm_start_pending = s.reconfigure_warm_start_pending;
        telemetry = record (t.telemetry) { discontinuity_reset = true };
      }

  abbrev pub is_trusted : Scheduler D → Bool
  is_trusted s = lt (origin fp) s.last_trusted_source_interval_seconds

  -- A flow handoff keeps the cadence over an interval below 250 ms.
  unfoldable pub is_held : Scheduler D → D → Bool → Bool
  is_held s interval preserve_cadence =
      preserve_cadence && is_trusted s && lt interval (decimal 250 3)

  abbrev pub note_held : Scheduler D → Bool → Scheduler D
  note_held s held = record s { telemetry = record (s.telemetry) { cadence_held = held } }

  unfoldable pub plan_interval : Scheduler D → D → Bool → Scheduler D × ℕ
  plan_interval s interval preserve_cadence =
      let held = is_held s interval preserve_cadence in
      let t = note_held s held in
      if not held
        && is_trusted s
        && lt (mul s.last_trusted_source_interval_seconds (decimal 80 1)) interval
      then (reset_discontinuity t, 0)
      else plan_demand (advance t interval held)

  unfoldable pub plan : Scheduler D → ℤ → Bool → Scheduler D × ℕ
  plan s source_interval preserve_cadence =
      let t = clear_telemetry s in
      let interval = fp.seconds source_interval in
      if s.target_fps == 0 || s.max_generated_frames == 0
      then (record t { telemetry = record (t.telemetry) { cost_limit = 0 } }, 0)
      else if not (lt (origin fp) interval) || not (is_finite interval)
      then (t, 0)
      else plan_interval t interval preserve_cadence
