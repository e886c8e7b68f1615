-- ===== src/Scheduler/Frame.antt =====
-- AdaptiveFrameScheduler: the number of frames to generate for one source frame. State and
-- configuration here, the estimates and the plan in the child modules.
pub mod Rate
pub mod Cost
pub mod Density
pub mod Plan
pub mod Bounds
pub mod Demand
use lsfg_vk_android.Common.{
  ℕ, zero, suc, ◌+◌, ◌-◌, ◌%◌, ◌^◌, Bool, true, false, not, ◌&&◌, ◌||◌, if◌then◌else◌, ◌==◌, min,
  List, [], ◌∷◌,
}
use lsfg_vk_android.Float.{Floats}

pub record Telemetry (D : Type 0) : Type 0 where
  pub source_fps : D
  pub smoothed_source_fps : D
  pub wanted_generated_frames : D
  pub scheduled_generation_density : D
  pub cost_limit : ℕ
  pub generated_frames : ℕ
  pub source_rate_snapped : Bool
  pub cost_raised : Bool
  pub cost_backed_off : Bool
  pub cost_probe : Bool
  pub discontinuity_reset : Bool
  pub cadence_held : Bool
  pub config_warm_start : Bool
  pub capacity_promoted : Bool
  pub safe_generation_hint_valid : Bool
  pub safe_generation_hint : ℕ
  pub fractional_phase : D
  pub opportunity_interval_seconds : D
  pub synthetic_opportunities_created : ℕ
  pub integer_density_locked : Bool
  pub locked_generated_frames : ℕ
  pub density_transition_evidence : ℕ

-- `recent_source_intervals` stands for an array of nine.
pub record Scheduler (D : Type 0) : Type 0 where
  pub target_fps : ℕ
  pub max_generated_frames : ℕ
  pub fractional_opportunity_phase : D
  pub smoothed_source_interval_seconds : D
  pub last_trusted_source_interval_seconds : D
  pub has_smoothed_interval : Bool
  pub runtime_cadence_established : Bool
  pub reconfigure_warm_start_pending : Bool
  pub recent_source_intervals : List D
  pub recent_source_interval_count : ℕ
  pub recent_source_interval_cursor : ℕ
  pub safe_generation_hint : ℕ
  pub safe_generation_hint_valid : Bool
  pub generation_first : Bool
  pub integer_density_locked : Bool
  pub locked_integer_density : ℕ
  pub integer_density_candidate : ℕ
  pub integer_density_candidate_samples : ℕ
  pub integer_density_release_samples : ℕ
  pub capacity_raise_samples : ℕ
  pub stable_cadence_samples : ℕ
  pub observed_time_seconds : D
  pub cost_limit : ℕ
  pub unmet_demand_since_seconds : D
  pub telemetry : Telemetry D

abbrev pub source_cadence_window : ℕ
source_cadence_window = 9

-- ++ on an `unsigned`.
abbrev pub bump : ℕ → ℕ
bump n = (n + 1) % 2 ^ 32

module _ {S D : Type 0} (fp : Floats S D) where
  open fp.double use {sub, decimal}

  abbrev pub origin : D
  origin = decimal 0 0

  -- -1.0.
  abbrev pub never : D
  never = sub (decimal 0 0) (decimal 1 0)

  abbrev pub new_telemetry : Telemetry D
  new_telemetry = record {
    source_fps = origin;
    smoothed_source_fps = origin;
    wanted_generated_frames = origin;
    scheduled_generation_density = origin;
    cost_limit = 0;
    generated_frames = 0;
    source_rate_snapped = false;
    cost_raised = false;
    cost_backed_off = false;
    cost_probe = false;
    discontinuity_reset = false;
    cadence_held = false;
    config_warm_start = false;
    capacity_promoted = false;
    safe_generation_hint_valid = false;
    safe_generation_hint = 0;
    fractional_phase = origin;
    opportunity_interval_seconds = origin;
    synthetic_opportunities_created = 0;
    integer_density_locked = false;
    locked_generated_frames = 0;
    density_transition_evidence = 0;
  }

  abbrev pub empty_window : List D
  empty_window = origin ∷ origin ∷ origin ∷ origin ∷ origin ∷ origin ∷ origin ∷ origin ∷ origin ∷ []

  abbrev pub default_scheduler : Scheduler D
  default_scheduler = record {
    target_fps = 0;
    max_generated_frames = 0;
    fractional_opportunity_phase = origin;
    smoothed_source_interval_seconds = origin;
    last_trusted_source_interval_seconds = origin;
    has_smoothed_interval = false;
    runtime_cadence_established = false;
    reconfigure_warm_start_pending = false;
    recent_source_intervals = empty_window;
    recent_source_interval_count = 0;
    recent_source_interval_cursor = 0;
    safe_generation_hint = 0;
    safe_generation_hint_valid = false;
    generation_first = false;
    integer_density_locked = false;
    locked_integer_density = 0;
    integer_density_candidate = 0;
    integer_density_candidate_samples = 0;
    integer_density_release_samples = 0;
    capacity_raise_samples = 0;
    stable_cadence_samples = 0;
    observed_time_seconds = origin;
    cost_limit = 0;
    unmet_demand_since_seconds = never;
    telemetry = new_telemetry;
  }

  abbrev pub reset_unmet_demand : Scheduler D → Scheduler D
  reset_unmet_demand s = record s { unmet_demand_since_seconds = never; capacity_raise_samples = 0 }

  abbrev pub first_cost_limit : Scheduler D → ℕ
  first_cost_limit s =
      if s.max_generated_frames == 0
      then 0
      else if s.generation_first
      then s.max_generated_frames
      else 1

  unfoldable pub reset_runtime_state : Scheduler D → Scheduler D
  reset_runtime_state s = record s {
    fractional_opportunity_phase = origin;
    integer_density_locked = false;
    locked_integer_density = 0;
    integer_density_candidate = 0;
    integer_density_candidate_samples = 0;
    integer_density_release_samples = 0;
    smoothed_source_interval_seconds = origin;
    has_smoothed_interval = false;
    reconfigure_warm_start_pending = false;
    recent_source_intervals = empty_window;
    recent_source_interval_count = 0;
    recent_source_interval_cursor = 0;
    safe_generation_hint = 0;
    safe_generation_hint_valid = false;
    stable_cadence_samples = 0;
    observed_time_seconds = origin;
    cost_limit = first_cost_limit s;
    unmet_demand_since_seconds = never;
    capacity_raise_samples = 0;
    telemetry = record new_telemetry { cost_limit = first_cost_limit s };
  }

  unfoldable pub construct : ℕ → ℕ → Scheduler D
  unfolding reset_runtime_state
  construct target_fps max_frames =
      reset_runtime_state
        (record default_scheduler { target_fps = target_fps; max_generated_frames = max_frames })

  unfoldable pub reset : Scheduler D → Scheduler D
  unfolding reset_runtime_state
  reset s = reset_runtime_state (record s {
    runtime_cadence_established = false;
    last_trusted_source_interval_seconds = origin;
  })

  abbrev pub is_active : Scheduler D → Bool
  is_active s = not (s.target_fps == 0) && not (s.max_generated_frames == 0)

  unfoldable pub configure : Scheduler D → ℕ → ℕ → Scheduler D
  unfolding reset_runtime_state
  configure s target_fps max_frames =
      let t =
        reset_runtime_state
          (record s { target_fps = target_fps; max_generated_frames = max_frames }) in
      if s.target_fps == target_fps && s.max_generated_frames == max_frames then s else record t {
        reconfigure_warm_start_pending =
            s.runtime_cadence_established && is_active s && is_active t;
      }

  unfoldable pub set_safe_generation_hint : Scheduler D → ℕ → Bool → Scheduler D
  set_safe_generation_hint s hint valid = record s {
    safe_generation_hint_valid = valid;
    safe_generation_hint = if valid then min hint s.max_generated_frames else 0;
  }

  unfoldable pub set_generation_first : Scheduler D → Bool → Scheduler D
  set_generation_first s enabled =
      let t : Scheduler D = record s { generation_first = enabled } in
      if enabled then reset_unmet_demand (record t { cost_limit = s.max_generated_frames }) else t
