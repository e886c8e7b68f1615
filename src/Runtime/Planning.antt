-- ===== src/Runtime/Planning.antt =====
-- src/context.cpp, LsContext::present up to the planned count: the configuration of the scheduling
-- classes, the interval of the source, the hint and the plan. A stage returns the members it leaves.
use lsfg_vk_android.Common.{ℕ, ◌-◌, Bool, true, not, ◌&&◌, ◌||◌, if◌then◌else◌, ltb}
use lsfg_vk_android.Common.Int.{ℤ, pos, ◌-ℤ◌, ltb_ℤ}
use lsfg_vk_android.Float.{Floats, Extended}
use lsfg_vk_android.Config.{Configuration}
use lsfg_vk_android.Policy.Handoff.{startup_seed_history_only}
use lsfg_vk_android.Scheduler.Frame
use lsfg_vk_android.Scheduler.Frame.Plan
use lsfg_vk_android.Scheduler.Deadline.Hints.{safe_generation_hint, safe_batch_generation_hint}
use lsfg_vk_android.Scheduler.Capacity
use lsfg_vk_android.Scheduler.Capacity.{Context}
use lsfg_vk_android.Scheduler.Cadence
use lsfg_vk_android.Scheduler.Baseline
use lsfg_vk_android.Scheduler.Baseline.{SourceCadence, source_only, generated}
use lsfg_vk_android.Runtime.{Runtime, add_u64}
use lsfg_vk_android.Runtime.Admission.{as_ms}

-- The counts of a cycle: planned and left to generate.
pub record Counts : Type 0 where
  pub planned : ℕ
  pub generating : ℕ

module _ {S : Type 0} where
  -- conf.multiplier - 1.
  abbrev pub max_generated : Configuration S → ℕ
  max_generated conf = if ltb 1 conf.multiplier then conf.multiplier - 1 else 0

  abbrev pub target_of : Configuration S → ℕ
  target_of conf = if conf.adaptive_framegen then conf.fps_limit else 0

  abbrev pub has_target : Configuration S → Bool
  has_target conf = conf.adaptive_framegen && ltb 0 conf.fps_limit

module _ {S D : Type 0} where
  abbrev pub source_interval : Runtime S D → ℤ → ℤ
  source_interval s cycle_start =
      if s.metrics.has_last_source_present
      then cycle_start -ℤ s.metrics.last_source_present
      else pos 0

  abbrev pub previous_observation : Runtime S D → SourceCadence
  previous_observation s =
      if s.conservative_cross_device_sync
      then s.last_source_cadence_observation
      else if ltb 0 s.last_dispatched_generated_frame_count
      then generated
      else source_only

  abbrev pub is_flow_transition : Configuration S → Runtime S D → Bool
  is_flow_transition conf s =
      conf.adaptive_flow_scale
      && (s.flow_transition_pending
          || ltb 0 s.flow_warmup_remaining
          || s.flow_cadence_handoff_pending)

module _ {S D L : Type 0} (fp : Floats S D) (ext : Extended D L) where
  open fp.double use {add, lt, le, decimal}

  unfoldable pub configure_classes : Configuration S → Runtime S D → Runtime S D
  configure_classes conf s = record s {
    scheduler =
        Frame.set_generation_first fp
          (Frame.configure fp s.scheduler (target_of conf) (max_generated conf))
          s.conservative_cross_device_sync;
    capacity =
        Capacity.configure fp s.capacity (if conf.adaptive_framegen then max_generated conf else 0);
    cadence = Cadence.configure fp s.cadence (has_target conf) (target_of conf);
  }

  -- kRuntimeTimingDiscontinuityMs.
  abbrev pub timing_discontinuity_ms : D
  timing_discontinuity_ms = decimal 250 0

  unfoldable pub measure_source : ℤ → Runtime S D → Runtime S D
  measure_source cycle_start s =
      let m = s.metrics in
      let ms = fp.milliseconds (source_interval s cycle_start) in
      let counts = m.has_last_source_present && lt ms timing_discontinuity_ms in
      record s {
        metrics = record m {
          window_source_interval_ms =
              if counts then add m.window_source_interval_ms ms else m.window_source_interval_ms;
          window_source_interval_max_ms =
              if counts && lt m.window_source_interval_max_ms ms
              then ms
              else m.window_source_interval_max_ms;
          window_source_intervals =
              if counts then add_u64 m.window_source_intervals 1 else m.window_source_intervals;
          last_source_present = cycle_start;
          has_last_source_present = true;
        };
      }

  unfoldable pub capacity_interval_ms : Configuration S → ℤ → Runtime S D → D
  capacity_interval_ms conf interval s =
      let observed = fp.milliseconds interval in
      if conf.adaptive_framegen && s.current_sample.valid && ltb 0 s.current_sample.interval_ns
      then as_ms fp ext s.current_sample.interval_ns
      else if conf.adaptive_framegen
          && ltb_ℤ (pos 0) interval
          && lt observed timing_discontinuity_ms
      then observed
      else decimal 0 0

  abbrev pub is_hint_valid : Configuration S → ℤ → Runtime S D → Bool
  is_hint_valid conf interval s =
      conf.adaptive_framegen
      && ltb 0 (max_generated conf)
      && lt (decimal 0 0) (capacity_interval_ms conf interval s)
      && s.predictor.has_estimate

  unfoldable pub generation_hint : Configuration S → ℤ → Runtime S D → ℕ
  generation_hint conf interval s =
      let ms = capacity_interval_ms conf interval s in
      if not (is_hint_valid conf interval s)
      then 0
      else if s.conservative_cross_device_sync
      then safe_batch_generation_hint fp s.predictor (max_generated conf) ms
      else safe_generation_hint fp s.predictor (max_generated conf) ms

  unfoldable pub hint_scheduler : Configuration S → ℤ → Runtime S D → Runtime S D
  hint_scheduler conf interval s = record s {
    scheduler =
        Frame.set_safe_generation_hint fp s.scheduler (generation_hint conf interval s)
          (is_hint_valid conf interval s);
  }

  unfoldable pub observe_baseline : Configuration S → ℤ → Runtime S D → Runtime S D
  observe_baseline conf interval s = record s {
    baseline =
        if conf.adaptive_framegen
        then Baseline.reset fp s.baseline
        else Baseline.observe fp s.baseline (record {
          source_interval = interval;
          dispatched_generated_frames = s.last_dispatched_generated_frame_count;
          generation_allowed = not s.requires_source_history_warmup;
          previous = previous_observation s;
        });
  }

  -- The planned count, and the one left: none in the cycle that commits the startup seed.
  unfoldable pub plan_frames : Configuration S → ℤ → Runtime S D → Runtime S D × Counts
  plan_frames conf interval s =
      let (scheduler, count) = Plan.plan fp s.scheduler interval (is_flow_transition conf s) in
      let t : Runtime S D =
        if conf.adaptive_framegen then record s { scheduler = scheduler } else s in
      let planned = if conf.adaptive_framegen then count else max_generated conf in
      let seeding =
        startup_seed_history_only conf.adaptive_framegen s.flow_startup_seed_pending
          s.flow_transition_pending s.flow_warmup_remaining in
      (t, record { planned = planned; generating = if seeding then 0 else planned })
