-- ===== src/Runtime.antt =====
-- include/context.hpp, src/context.cpp: the part of LsContext that plans a source frame, on top of the
-- scheduling classes. This file has its state.
pub mod Reset
pub mod Admission
pub mod Planning
pub mod Arrival
pub mod Cycle
pub mod Epochs
pub mod Bounds
pub mod Admitted
pub mod Runs
pub mod Conservation
pub mod Warmup
pub mod Passes
pub mod Batch
pub mod History
mod Tests
use lsfg_vk_android.Common.{ℕ, ◌+◌, ◌%◌, ◌^◌, Bool, List, Option}
use lsfg_vk_android.Common.Int.{ℤ}
use lsfg_vk_android.Flow.Types
use lsfg_vk_android.Flow.Types.{Controller}
use lsfg_vk_android.Scheduler.Frame.{Scheduler}
use lsfg_vk_android.Scheduler.Guard.{Guard}
use lsfg_vk_android.Scheduler.Timeline.{Timeline, Sample}
use lsfg_vk_android.Scheduler.Deadline.{Predictor, Decision}
use lsfg_vk_android.Scheduler.Capacity
use lsfg_vk_android.Scheduler.Cadence
use lsfg_vk_android.Scheduler.Baseline
use lsfg_vk_android.Scheduler.Baseline.{SourceCadence}

-- SourceHistoryInvalidationReason.
pub data Invalidation : Type 0 where
  no_invalidation startup timeline_discontinuity runtime_config_change suspend_resume : Invalidation
  sync_export_failure sync_import_failure context_recreate source_pair_mismatch : Invalidation
  admission_bypass overload_bypass retirement_backpressure fractional_gap : Invalidation
  abandoned_batch true_ownership_failure : Invalidation

-- The counters of RuntimeMetrics that the planning changes, and the time of the last source frame.
pub record Metrics (D : Type 0) : Type 0 where
  pub last_source_present : ℤ
  pub has_last_source_present : Bool
  pub window_source_interval_ms : D
  pub window_source_interval_max_ms : D
  pub window_source_intervals : ℕ
  pub window_source_deadline_error_abs_ms : D
  pub window_source_deadline_error_max_ms : D
  pub window_source_deadline_samples : ℕ
  pub window_source_timeline_rebases : ℕ
  pub window_generated_late_drops : ℕ
  pub total_generated_late_drops : ℕ
  pub window_admission_rejects : ℕ
  pub total_admission_rejects : ℕ
  pub total_generated_deadline_drops : ℕ
  pub total_generated_wsi_drops : ℕ
  pub window_generated_presentation_cap_drops : ℕ
  pub total_generated_presentation_cap_drops : ℕ
  pub window_deadline_shadow_opportunities : ℕ
  pub total_deadline_shadow_opportunities : ℕ
  pub window_deadline_shadow_would_admit : ℕ
  pub window_deadline_shadow_would_reject : ℕ
  pub total_deadline_shadow_would_reject : ℕ

-- The adaptiveFlow members that hold one batch's timing: `retained` of the last generated batch,
-- `shown` of the last one, each with whether it is valid.
pub record Timing (D : Type 0) : Type 0 where
  pub valid : Bool
  pub mipmaps_ms : D
  pub work_ms : D
  pub total_lsfg_ms : D
  pub budget_ms : D
  pub generation_count : ℕ

-- The adaptiveFlow members that hold the pressure of the system.
pub record Pressure (D : Type 0) : Type 0 where
  pub next_read : ℤ
  pub global_valid : Bool
  pub global_gpu_usage_percent : D
  pub thermal_valid : Bool
  pub thermal_status : ℤ
  pub global_source_fps : D
  pub global_frame_time_p95_ms : D
  pub global_slow_frame_ratio : D

-- The adaptiveFlow members that show which targets are met.
pub record Targets (D : Type 0) : Type 0 where
  pub output_valid : Bool
  pub output_targeted : Bool
  pub output_fps : D
  pub output_satisfied : Bool
  pub fixed_targeted : Bool
  pub fixed_satisfied : Bool

-- The members of LsContext that the planning reads or changes. A fence of an output copy is there or
-- not, and a descriptor is -1 where there is none.
pub record Runtime (S D : Type 0) : Type 0 where
  pub conservative_cross_device_sync : Bool
  pub is_fifo : Bool
  pub has_framegen_context : Bool
  pub scheduler : Scheduler D
  pub baseline : Baseline.Tracker D
  pub guard : Guard
  pub predictor : Predictor D
  pub capacity : Capacity.Tracker D
  pub cadence : Cadence.Tracker D
  pub batch_decision : Decision D
  pub timeline : Timeline
  pub current_sample : Sample
  pub present_period_ns : ℕ
  pub source_history_warmup_remaining : ℕ
  pub requires_source_history_warmup : Bool
  pub last_history_invalidation_reason : Invalidation
  pub last_history_reprime_reason : Invalidation
  pub last_generated_frame_count : ℕ
  pub last_dispatched_generated_frame_count : ℕ
  pub last_source_cadence_observation : SourceCadence
  pub previous_source_copy_signal_valid : Bool
  pub deferred_batch_valid : Bool
  pub deferred_output_eligible : Bool
  pub deferred_output_ready_fds : List ℤ
  pub output_fences : List Bool
  pub output_fence_submitted : List Bool
  pub controller : Controller S D
  pub flow_runtime_available : Bool
  pub flow_requested_scale : S
  pub flow_active_scale : S
  pub flow_warmup_remaining : ℕ
  pub flow_transition_pending : Bool
  pub flow_startup_seed_pending : Bool
  pub flow_cadence_handoff_pending : Bool
  pub flow_timing_epoch : ℕ
  pub flow_next_batch_id : ℕ
  pub flow_last_observed_batch_id : ℕ
  pub flow_retained : Timing D
  pub flow_shown : Timing D
  pub flow_pressure : Pressure D
  pub flow_last_observed_compute_drops : ℕ
  pub flow_last_observed_wsi_drops : ℕ
  pub flow_compute_pressure : Bool
  pub flow_wsi_pressure : Bool
  pub flow_targets : Targets D
  pub flow_reason : Types.Reason
  pub metrics : Metrics D

-- += on a uint64_t.
abbrev pub add_u64 : ℕ → ℕ → ℕ
add_u64 a b = (a + b) % 2 ^ 64

-- kSourceHistoryWarmupFrames.
abbrev pub source_history_warmup_frames : ℕ
source_history_warmup_frames = 4
