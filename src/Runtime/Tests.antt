-- ===== src/Runtime/Tests.antt =====
-- The planning on a concrete runtime.
use lsfg_vk_android.Common.{◌+◌, ◌%◌, ◌^◌, ◌≤◌, ◌≡◌, ◌⊎◌, refl, true, false, List, [], ◌∷◌, arith}
use lsfg_vk_android.Common.Int.{pos, negsuc}
use lsfg_vk_android.Float.Fixed.{Fixed, nano, fixed_floats, fixed_extended}
use lsfg_vk_android.Config.{Configuration, default_configuration}
use lsfg_vk_android.Flow.Lifecycle.{default_controller}
use lsfg_vk_android.Flow.Types
use lsfg_vk_android.Scheduler.Frame
use lsfg_vk_android.Scheduler.Deadline
use lsfg_vk_android.Scheduler.Capacity
use lsfg_vk_android.Scheduler.Cadence
use lsfg_vk_android.Scheduler.Baseline
use lsfg_vk_android.Scheduler.Baseline.{source_only}
use lsfg_vk_android.Scheduler.Frame.Bounds.{IsLimited, IsWindow}
use lsfg_vk_android.Scheduler.Capacity.Bounds.{fresh-IsBounded}
use lsfg_vk_android.Scheduler.Timeline.{no_sample}
use lsfg_vk_android.Runtime.{
  Runtime, Metrics, startup, suspend_resume, no_invalidation, context_recreate,
}
use lsfg_vk_android.Runtime.Reset.{
  no_timing, no_pressure, no_targets, empty_decision, reset_adaptive_source_epoch,
  enter_source_only_bypass,
}
use lsfg_vk_android.Policy.Handoff.{startup_seed_history_only}
use lsfg_vk_android.Scheduler.Timeline
use lsfg_vk_android.Runtime.Admission.{
  signalled, admit_deadline, admit_presentation, admit_retirement, retire_xclipse_output_copies,
  count_rejected,
}
use lsfg_vk_android.Runtime.Planning.{
  plan_frames, observe_baseline, hint_scheduler, measure_source, configure_classes,
}
use lsfg_vk_android.Scheduler.Guard.{source_only_required}
use lsfg_vk_android.Runtime.Arrival.{
  break_epoch, follow_timeline, observe_arrival, note_deadline_error,
}
use lsfg_vk_android.Runtime.Cycle.{
  is_warming, Answers, plan_cycle, finish_cycle, admit_frames, admit_reacquire, prepare_cycle,
  settle_batch,
}
use lsfg_vk_android.Runtime.Epochs.{enter_source_only_bypass-resets}
use lsfg_vk_android.Runtime.Bounds.{IsSound}
use lsfg_vk_android.Runtime.Runs.{Event, cycles, breaks, bypasses, stalls, run, run-plan_cycle}
use lsfg_vk_android.Runtime.Conservation.{lost, plan_cycle-lost}
use lsfg_vk_android.Runtime.Passes.{
  Pass, try_recycle_pass, retire_completion, retire_copies, retire_copy, wait_and_reset,
}
use lsfg_vk_android.Runtime.Passes.Retired.{Recycles, try_recycle_pass-cases}
use lsfg_vk_android.Runtime.Warmup.{reset-plan_cycle, IsHistoryOnly}

abbrev nothing : Fixed
nothing = nano (pos 0)

abbrev new_metrics : Metrics Fixed
new_metrics = record {
  last_source_present = pos 0;
  has_last_source_present = false;
  window_source_interval_ms = nothing;
  window_source_interval_max_ms = nothing;
  window_source_intervals = 0;
  window_source_deadline_error_abs_ms = nothing;
  window_source_deadline_error_max_ms = nothing;
  window_source_deadline_samples = 0;
  window_source_timeline_rebases = 0;
  window_generated_late_drops = 0;
  total_generated_late_drops = 0;
  window_admission_rejects = 0;
  total_admission_rejects = 0;
  total_generated_deadline_drops = 0;
  total_generated_wsi_drops = 0;
  window_generated_presentation_cap_drops = 0;
  total_generated_presentation_cap_drops = 0;
  window_deadline_shadow_opportunities = 0;
  total_deadline_shadow_opportunities = 0;
  window_deadline_shadow_would_admit = 0;
  window_deadline_shadow_would_reject = 0;
  total_deadline_shadow_would_reject = 0;
}

-- A fresh runtime after its warm-up.
abbrev warm : Runtime Fixed Fixed
warm = record {
  conservative_cross_device_sync = false;
  is_fifo = true;
  has_framegen_context = true;
  scheduler = Frame.default_scheduler fixed_floats;
  baseline = Baseline.new fixed_floats;
  guard = record { source_only_remaining = 0; generated_reacquire_remaining = 0 };
  predictor = Deadline.new fixed_floats;
  capacity = Capacity.fresh fixed_floats 0;
  cadence = Cadence.new fixed_floats;
  batch_decision = empty_decision fixed_floats;
  timeline = record {
    initialized = false;
    source_index = 0;
    source_desired_time_ns = 0;
    last_interval_ns = 0;
    predicted_interval_ns = 0;
  };
  current_sample = no_sample;
  present_period_ns = 0;
  source_history_warmup_remaining = 0;
  requires_source_history_warmup = false;
  last_history_invalidation_reason = no_invalidation;
  last_history_reprime_reason = startup;
  last_generated_frame_count = 0;
  last_dispatched_generated_frame_count = 0;
  last_source_cadence_observation = source_only;
  previous_source_copy_signal_valid = false;
  deferred_batch_valid = false;
  deferred_output_eligible = false;
  deferred_output_ready_fds = negsuc 0 ∷ [];
  output_fences = true ∷ [];
  output_fence_submitted = true ∷ [];
  controller = default_controller fixed_floats;
  flow_runtime_available = true;
  flow_requested_scale = nothing;
  flow_active_scale = nothing;
  flow_warmup_remaining = 0;
  flow_transition_pending = false;
  flow_startup_seed_pending = false;
  flow_cadence_handoff_pending = false;
  flow_timing_epoch = 1;
  flow_next_batch_id = 0;
  flow_last_observed_batch_id = 0;
  flow_retained = no_timing fixed_floats;
  flow_shown = no_timing fixed_floats;
  flow_pressure = no_pressure fixed_floats;
  flow_last_observed_compute_drops = 0;
  flow_last_observed_wsi_drops = 0;
  flow_compute_pressure = false;
  flow_wsi_pressure = false;
  flow_targets = no_targets fixed_floats;
  flow_reason = Types.unchanged;
  metrics = new_metrics;
}

warm-IsSound : IsSound fixed_floats fixed_extended warm
warm-IsSound =
    let limited : IsLimited fixed_floats warm.scheduler = ground arith in
    let window : IsWindow fixed_floats warm.scheduler = ground arith in
    (limited, window, fresh-IsBounded fixed_floats 0)

-- Three generated frames for one source frame.
abbrev fixed_mode : Configuration Fixed
fixed_mode = record (default_configuration fixed_floats.single) { multiplier = 4 }

abbrev adaptive_mode : Configuration Fixed
adaptive_mode = record fixed_mode { adaptive_framegen = true; fps_limit = 120 }

abbrev answers : Answers
answers = record {
  cycle_start = pos 40_000_000;
  source_arrival_time_ns = 40_000_000;
  admission_now_ns = 41_000_000;
  fence = λ i. signalled;
}

abbrev events : List (Event fixed_floats fixed_extended)
events = cycles adaptive_mode answers ∷ breaks true suspend_resume ∷ bypasses ∷ stalls ∷ []

enter_source_only_bypass-resets_example :
    enter_source_only_bypass fixed_floats warm
    ≡ reset_adaptive_source_epoch fixed_floats warm true context_recreate
enter_source_only_bypass-resets_example = enter_source_only_bypass-resets fixed_floats warm

run-plan_cycle_example :
    (let r =
        plan_cycle fixed_floats fixed_extended fixed_mode answers
          (run fixed_floats fixed_extended warm events) in
      (r.1.counts.generating ≤ r.1.counts.planned)
      × (r.1.counts.planned ≤ 3)
      × IsSound fixed_floats fixed_extended r.0)
run-plan_cycle_example =
    run-plan_cycle fixed_floats fixed_extended warm events fixed_mode answers warm-IsSound

plan_cycle-lost_example :
    (let r = plan_cycle fixed_floats fixed_extended fixed_mode answers warm in
      (lost r.0.metrics + r.1.counts.generating) % 2 ^ 64
      ≡ (lost warm.metrics + r.1.counts.planned) % 2 ^ 64)
plan_cycle-lost_example =
    plan_cycle-lost fixed_floats fixed_extended fixed_mode answers warm refl refl

reset-plan_cycle_example :
    IsHistoryOnly fixed_floats fixed_extended (
      plan_cycle fixed_floats fixed_extended adaptive_mode answers
        (reset_adaptive_source_epoch fixed_floats warm true suspend_resume))
    × (((false ≡ false)
          × IsHistoryOnly fixed_floats fixed_extended (
              plan_cycle fixed_floats fixed_extended adaptive_mode answers
                (break_epoch fixed_floats fixed_extended adaptive_mode true warm)))
        ⊎ ((false ≡ true)
            × (is_warming (break_epoch fixed_floats fixed_extended adaptive_mode true warm) ≡ false)
            × (source_only_required
                  (break_epoch fixed_floats fixed_extended adaptive_mode true warm).guard
                ≡ true)))
reset-plan_cycle_example =
    reset-plan_cycle fixed_floats fixed_extended warm true suspend_resume adaptive_mode answers refl

-- The fence of the one output copy that the swapchain has is asked for, and three copies do not fit.
dropped :
    (plan_cycle fixed_floats fixed_extended fixed_mode answers
      warm).0.metrics.total_generated_late_drops
    ≡ 3
unfolding plan_cycle finish_cycle follow_timeline observe_arrival note_deadline_error admit_frames
    admit_deadline admit_presentation admit_retirement retire_xclipse_output_copies count_rejected
    admit_reacquire plan_frames startup_seed_history_only prepare_cycle observe_baseline
    hint_scheduler measure_source configure_classes Timeline.observe settle_batch
dropped = refl

-- A pass with one copy whose fence is signalled.
abbrev used_pass : Pass
used_pass = record {
  batch_complete_valid = true;
  deferred_owned = false;
  cross_frame_retentions = 7 ∷ [];
  acquired_retentions = [];
  retirements_armed = false;
  completion_fence = true;
  completion_submitted = true;
  post_copy_fences = true ∷ [];
  post_copy_submitted = true ∷ [];
  completion_failed = false;
}

try_recycle_pass-cases_example :
    Recycles signalled
      (λ i. signalled)
      used_pass
      (try_recycle_pass true signalled (λ i. signalled) used_pass)
try_recycle_pass-cases_example = try_recycle_pass-cases true signalled (λ i. signalled) used_pass

recycled : (try_recycle_pass true signalled (λ i. signalled) used_pass).1 ≡ true
unfolding try_recycle_pass retire_completion retire_copies retire_copy wait_and_reset
recycled = refl
