-- ===== src/Flow/Types.antt =====
-- The data of include/adaptive_flow_controller.hpp. The private fields of the class that
-- share a prefix are the fields of one record here: `downstepX_` is `downstep.x`,
-- `recoveryPacingX_` is `recovery.x`, `fixedExplorationX_` is `exploration.x`.
use lsfg_vk_android.Common.{ℕ, Bool}
use lsfg_vk_android.Common.Int.{ℤ}

pub data Preset : Type 0 where
  quality balanced low auto : Preset

pub Preset-discrete : Discrete Preset
Preset-discrete = hlevel

pub data Reason : Type 0 where
  unchanged disabled invalid_telemetry flow_transition flow_transition_settle : Reason
  scheduler_transition cooldown insufficient_flow_contribution sustained_pressure : Reason
  sustained_global_pressure sustained_output_pressure sustained_source_pressure : Reason
  exploratory_source_pressure evaluating_downstep downstep_benefit_confirmed : Reason
  downstep_reverted insufficient_recovery_headroom sustained_headroom : Reason
  evaluating_recovery_pacing recovery_pacing_confirmed recovery_pacing_reverted : Reason

-- AdaptiveFlowObservation, for a type D of `double`s. `elapsed` counts nanoseconds.
pub record Observation (D : Type 0) : Type 0 where
  pub elapsed : ℤ
  pub frame_budget_ms : D
  pub total_lsfg_ms : D
  pub flow_ms : D
  pub mipmaps_ms : D
  pub generation_count : ℕ
  pub deadline_missed : Bool
  pub compute_deadline_pressure : Bool
  pub wsi_presentation_pressure : Bool
  pub wsi_loss_rate : D
  pub source_fps : D
  pub source_target_fps : D
  pub adaptive_framegen_mode : Bool
  pub scheduled_generation_density : D
  pub fixed_multiplier_mode : Bool
  pub output_fps : D
  pub output_target_fps : D
  pub output_cadence_valid : Bool
  pub output_targeted : Bool
  pub output_target_satisfied : Bool
  pub fixed_multiplier_base_target : Bool
  pub global_gpu_usage_percent : D
  pub global_pressure_valid : Bool
  pub thermal_status : ℤ
  pub thermal_pressure_valid : Bool
  pub output_deficit : Bool
  pub synthetic_drop_pressure : Bool
  pub generated_work_sample : Bool
  pub retained_generated_timing_sample : Bool
  pub scheduler_transition : Bool
  pub flow_transition : Bool
  pub valid : Bool

-- AdaptiveFlowTelemetry, for a type S of `float`s.
pub record Telemetry (S D : Type 0) : Type 0 where
  pub target_scale : S
  pub minimum_scale : S
  pub current_scale : S
  pub state_index : ℕ
  pub state_count : ℕ
  pub changed : Bool
  pub reason : Reason
  pub pressure_ratio : D
  pub flow_budget_ratio : D
  pub estimated_next_total_ms : D
  pub global_gpu_usage_percent : D
  pub global_pressure : Bool
  pub thermal_status : ℤ
  pub thermal_pressure : Bool
  pub compute_pressure : Bool
  pub wsi_pressure : Bool
  pub downstep_evaluation_active : Bool
  pub output_deficit : Bool
  pub output_pressure : Bool
  pub source_pressure : Bool
  pub exploratory_source_pressure : Bool
  pub source_reference_fps : D

-- A lower state that is on trial, with the measurements that it is compared to.
pub record Downstep (D : Type 0) : Type 0 where
  pub evaluation_active : Bool
  pub benefit_seen : Bool
  pub output_driven : Bool
  pub source_driven : Bool
  pub exploratory_source_driven : Bool
  pub previous_index : ℕ
  pub evaluation_started_seconds : D
  pub baseline_pressure_ratio : D
  pub baseline_flow_ms : D
  pub baseline_total_ms : D
  pub baseline_source_fps : D
  pub baseline_output_fps : D
  pub baseline_wsi_loss_rate : D
  pub baseline_global_gpu_percent : D
  pub baseline_output_valid : Bool
  pub baseline_compute_pressure : Bool
  pub baseline_wsi_pressure : Bool
  pub baseline_global_pressure : Bool

-- A higher state that is on trial under adaptive frame generation.
pub record Recovery (D : Type 0) : Type 0 where
  pub evaluation_active : Bool
  pub previous_index : ℕ
  pub evaluation_started_seconds : D
  pub regression_seconds : D
  pub retry_blocked_until_seconds : D
  pub baseline_source_fps : D
  pub baseline_density : D

pub record Exploration (D : Type 0) : Type 0 where
  pub reference_valid : Bool
  pub probe_pending : Bool
  pub best_source_fps : D

-- The private fields of AdaptiveFlowController.
pub record Controller (S D : Type 0) : Type 0 where
  pub enabled : Bool
  pub preset : Preset
  pub observed_seconds : D
  pub pressure_seconds : D
  pub headroom_seconds : D
  pub cooldown_until_seconds : D
  pub scheduler_hold_until_seconds : D
  pub flow_transition_hold_active : Bool
  pub flow_transition_settle_until_seconds : D
  pub downstep : Downstep D
  pub recovery : Recovery D
  pub exploration : Exploration D
  pub telemetry : Telemetry S D
