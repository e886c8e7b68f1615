-- ===== src/Runtime/Reset.antt =====
-- src/context.cpp: the end of a temporal epoch.
use lsfg_vk_android.Common.{
  ℕ, Bool, true, false, ◌&&◌, if◌then◌else◌, ltb, ◌==◌, Option, none, some, map,
}
use lsfg_vk_android.Common.Int.{pos, negsuc}
use lsfg_vk_android.Float.{Floats}
use lsfg_vk_android.Flow.Lifecycle
use lsfg_vk_android.Scheduler.Frame
use lsfg_vk_android.Scheduler.Guard
use lsfg_vk_android.Scheduler.Timeline
use lsfg_vk_android.Scheduler.Timeline.{no_sample}
use lsfg_vk_android.Scheduler.Deadline
use lsfg_vk_android.Scheduler.Deadline.{Decision}
use lsfg_vk_android.Scheduler.Capacity
use lsfg_vk_android.Scheduler.Cadence
use lsfg_vk_android.Scheduler.Baseline
use lsfg_vk_android.Scheduler.Baseline.{source_only}
use lsfg_vk_android.Runtime.{
  Runtime, Timing, Pressure, Targets, Invalidation, timeline_discontinuity, suspend_resume,
  context_recreate, add_u64, source_history_warmup_frames,
}

-- The reasons that keep the active flow scale.
abbrev pub keeps_scale : Invalidation → Bool
keeps_scale reason = elim reason [
  | timeline_discontinuity ↦ true
  | suspend_resume ↦ true
  | _ ↦ false
]

module _ {S D : Type 0} (fp : Floats S D) where
  open fp.double use {decimal}

  abbrev pub zero_ms : D
  zero_ms = decimal 0 0

  abbrev pub no_timing : Timing D
  no_timing = record {
    valid = false;
    mipmaps_ms = zero_ms;
    work_ms = zero_ms;
    total_lsfg_ms = zero_ms;
    budget_ms = zero_ms;
    generation_count = 0;
  }

  abbrev pub no_pressure : Pressure D
  no_pressure = record {
    next_read = pos 0;
    global_valid = false;
    global_gpu_usage_percent = zero_ms;
    thermal_valid = false;
    thermal_status = pos 0;
    global_source_fps = zero_ms;
    global_frame_time_p95_ms = zero_ms;
    global_slow_frame_ratio = zero_ms;
  }

  abbrev pub no_targets : Targets D
  no_targets = record {
    output_valid = false;
    output_targeted = false;
    output_fps = zero_ms;
    output_satisfied = false;
    fixed_targeted = false;
    fixed_satisfied = false;
  }

  -- A value-initialised DeadlineBatchDecision.
  abbrev pub empty_decision : Decision D
  empty_decision = record {
    predicted_mipmaps_ms = zero_ms;
    predicted_optical_flow_ms = zero_ms;
    predicted_total_lsfg_ms = zero_ms;
    safety_margin_ms = zero_ms;
    usable_budget_ms = zero_ms;
    delivery_reserve_ms = zero_ms;
    effective_usable_budget_ms = zero_ms;
    would_admit = false;
    valid = false;
  }

  abbrev pub next_epoch : ℕ → ℕ
  next_epoch epoch = if add_u64 epoch 1 == 0 then 1 else add_u64 epoch 1

  unfoldable pub advance_adaptive_flow_timing_epoch : Runtime S D → Runtime S D
  advance_adaptive_flow_timing_epoch s = record s {
    flow_timing_epoch = next_epoch s.flow_timing_epoch;
    flow_next_batch_id = 0;
    flow_last_observed_batch_id = 0;
    flow_retained = no_timing;
    flow_shown = no_timing;
  }

  -- Deferred output of the old epoch is not shown, and its descriptors are closed.
  unfoldable pub drop_deferred_output : Runtime S D → Runtime S D
  drop_deferred_output s =
      let drops = s.conservative_cross_device_sync && s.deferred_batch_valid in
      record s {
        deferred_output_eligible = if drops then false else s.deferred_output_eligible;
        deferred_output_ready_fds =
            if drops
            then map (λ fd. negsuc 0) s.deferred_output_ready_fds
            else s.deferred_output_ready_fds;
      }

  abbrev pub warmup_frames : Runtime S D → ℕ
  warmup_frames s = if s.conservative_cross_device_sync then 1 else source_history_warmup_frames

  abbrev pub keeps_active_scale : Runtime S D → Invalidation → Bool
  keeps_active_scale s reason =
      s.conservative_cross_device_sync
      && s.flow_runtime_available
      && fp.single.is_finite s.flow_active_scale
      && keeps_scale reason

  -- The scale that the frame generation is asked for, where a transition is called off.
  unfoldable pub cancelled_transition : Runtime S D → Invalidation → Option S
  cancelled_transition s reason =
      if keeps_active_scale s reason && s.flow_transition_pending && s.has_framegen_context
      then some s.flow_active_scale
      else none

  abbrev pub compute_drops : Runtime S D → ℕ
  compute_drops s =
      add_u64 s.metrics.total_admission_rejects s.metrics.total_generated_deadline_drops

  unfoldable pub reset_adaptive_source_epoch : Runtime S D → Bool → Invalidation → Runtime S D
  unfolding advance_adaptive_flow_timing_epoch drop_deferred_output
  reset_adaptive_source_epoch s reset_scheduler reason =
      let t = advance_adaptive_flow_timing_epoch (drop_deferred_output s) in
      let controller = Lifecycle.reset fp s.controller in
      let seeded =
        if keeps_active_scale s reason
        then (Lifecycle.seed_current_scale fp controller s.flow_active_scale).0
        else controller in
      record t {
        scheduler = if reset_scheduler then Frame.reset fp s.scheduler else s.scheduler;
        baseline = Baseline.reset fp s.baseline;
        guard = Guard.reset s.guard;
        predictor = Deadline.reset fp s.predictor;
        capacity = Capacity.reset fp s.capacity;
        cadence = Cadence.reset fp s.cadence;
        batch_decision = empty_decision;
        timeline = Timeline.reset s.timeline;
        current_sample = no_sample;
        present_period_ns = 0;
        source_history_warmup_remaining = warmup_frames s;
        requires_source_history_warmup = ltb 0 (warmup_frames s);
        last_history_invalidation_reason = reason;
        last_history_reprime_reason = reason;
        last_generated_frame_count = 0;
        last_dispatched_generated_frame_count = 0;
        last_source_cadence_observation = source_only;
        previous_source_copy_signal_valid = false;
        metrics = record (s.metrics) {
          has_last_source_present = false;
          last_source_present = pos 0;
        };
        controller = seeded;
        flow_pressure = no_pressure;
        flow_last_observed_compute_drops = compute_drops s;
        flow_last_observed_wsi_drops = s.metrics.total_generated_wsi_drops;
        flow_compute_pressure = false;
        flow_wsi_pressure = false;
        flow_requested_scale = seeded.telemetry.current_scale;
        flow_active_scale = seeded.telemetry.current_scale;
        flow_warmup_remaining = 0;
        flow_transition_pending = false;
        flow_cadence_handoff_pending = false;
        flow_targets = no_targets;
        flow_reason = seeded.telemetry.reason;
      }

  unfoldable pub enter_source_only_bypass : Runtime S D → Runtime S D
  unfolding advance_adaptive_flow_timing_epoch drop_deferred_output
  enter_source_only_bypass s =
      let t = advance_adaptive_flow_timing_epoch (drop_deferred_output s) in
      let controller = Lifecycle.reset fp s.controller in
      record t {
        scheduler = Frame.reset fp s.scheduler;
        baseline = Baseline.reset fp s.baseline;
        predictor = Deadline.reset fp s.predictor;
        controller = controller;
        guard = Guard.reset s.guard;
        timeline = Timeline.reset s.timeline;
        current_sample = no_sample;
        batch_decision = empty_decision;
        flow_pressure = no_pressure;
        last_generated_frame_count = 0;
        source_history_warmup_remaining = warmup_frames s;
        requires_source_history_warmup = ltb 0 (warmup_frames s);
        last_history_invalidation_reason = context_recreate;
        last_history_reprime_reason = context_recreate;
        last_dispatched_generated_frame_count = 0;
        last_source_cadence_observation = source_only;
        previous_source_copy_signal_valid = false;
        capacity = Capacity.reset fp s.capacity;
        cadence = Cadence.reset fp s.cadence;
        flow_last_observed_compute_drops = compute_drops s;
        flow_last_observed_wsi_drops = s.metrics.total_generated_wsi_drops;
        flow_compute_pressure = false;
        flow_wsi_pressure = false;
        flow_requested_scale = controller.telemetry.current_scale;
        flow_active_scale = controller.telemetry.current_scale;
        flow_warmup_remaining = 0;
        flow_transition_pending = false;
        flow_cadence_handoff_pending = false;
        flow_targets = no_targets;
        flow_reason = controller.telemetry.reason;
        metrics = record (s.metrics) {
          has_last_source_present = false;
          last_source_present = pos 0;
        };
        present_period_ns = 0;
      }
