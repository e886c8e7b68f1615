-- ===== src/Flow/Lifecycle.antt =====
-- Construction, configuration, seeding and reset of AdaptiveFlowController.
use lsfg_vk_android.Common.{
  ℕ, suc, Bool, true, false, not, ◌&&◌, ◌||◌, List, [], ◌∷◌, Option, none, some, if◌then◌else◌,
}
use lsfg_vk_android.Common.Int.{pos}
use lsfg_vk_android.Float.{Floats}
use lsfg_vk_android.Flow.Types.{
  Preset, quality, balanced, low, auto, Reason, unchanged, disabled, Telemetry, Downstep, Recovery,
  Exploration, Controller,
}
use lsfg_vk_android.Flow.Presets.{states, size, first_or, last_or, scale_epsilon}

abbrev pub same_preset : Preset → Preset → Bool
same_preset quality quality = true
same_preset balanced balanced = true
same_preset low low = true
same_preset auto auto = true
same_preset _ _ = false

abbrev pub same_bool : Bool → Bool → Bool
same_bool true b = b
same_bool false b = not b

module _ {S D : Type 0} (fp : Floats S D) where
  open fp.single use {sub as sub_single, le as le_single, abs, is_finite, decimal as single}
  open fp.double use {decimal}

  abbrev pub origin : D
  origin = decimal 0 0

  -- A value-initialised AdaptiveFlowTelemetry.
  abbrev pub new_telemetry : Telemetry S D
  new_telemetry = record {
    target_scale = single 100 2;
    minimum_scale = single 100 2;
    current_scale = single 100 2;
    state_index = 0;
    state_count = 0;
    changed = false;
    reason = unchanged;
    pressure_ratio = origin;
    flow_budget_ratio = origin;
    estimated_next_total_ms = origin;
    global_gpu_usage_percent = origin;
    global_pressure = false;
    thermal_status = pos 0;
    thermal_pressure = false;
    compute_pressure = false;
    wsi_pressure = false;
    downstep_evaluation_active = false;
    output_deficit = false;
    output_pressure = false;
    source_pressure = false;
    exploratory_source_pressure = false;
    source_reference_fps = origin;
  }

  abbrev pub new_downstep : Downstep D
  new_downstep = record {
    evaluation_active = false;
    benefit_seen = false;
    output_driven = false;
    source_driven = false;
    exploratory_source_driven = false;
    previous_index = 0;
    evaluation_started_seconds = origin;
    baseline_pressure_ratio = origin;
    baseline_flow_ms = origin;
    baseline_total_ms = origin;
    baseline_source_fps = origin;
    baseline_output_fps = origin;
    baseline_wsi_loss_rate = origin;
    baseline_global_gpu_percent = origin;
    baseline_output_valid = false;
    baseline_compute_pressure = false;
    baseline_wsi_pressure = false;
    baseline_global_pressure = false;
  }

  abbrev pub new_recovery : Recovery D
  new_recovery = record {
    evaluation_active = false;
    previous_index = 0;
    evaluation_started_seconds = origin;
    regression_seconds = origin;
    retry_blocked_until_seconds = origin;
    baseline_source_fps = origin;
    baseline_density = origin;
  }

  abbrev pub no_exploration : Exploration D
  no_exploration = record {
    reference_valid = false;
    probe_pending = false;
    best_source_fps = origin;
  }

  -- The default member initialisers.
  abbrev pub default_controller : Controller S D
  default_controller = record {
    enabled = false;
    preset = quality;
    observed_seconds = origin;
    pressure_seconds = origin;
    headroom_seconds = origin;
    cooldown_until_seconds = origin;
    scheduler_hold_until_seconds = origin;
    flow_transition_hold_active = false;
    flow_transition_settle_until_seconds = origin;
    downstep = new_downstep;
    recovery = new_recovery;
    exploration = no_exploration;
    telemetry = new_telemetry;
  }

  -- The telemetry that selectTargetState writes: the first state of the preset.
  abbrev pub target_telemetry : Preset → Telemetry S D
  target_telemetry preset =
      let preset_states = states fp preset in
      record new_telemetry {
        target_scale = first_or preset_states (single 100 2);
        minimum_scale = last_or preset_states (single 100 2);
        state_count = size preset;
        current_scale = first_or preset_states (single 100 2);
        state_index = 0;
      }

  unfoldable pub select_target_state : Controller S D → Controller S D
  select_target_state s = record s { telemetry = target_telemetry s.preset }

  abbrev pub reset_evidence : Controller S D → Controller S D
  reset_evidence s = record s { pressure_seconds = origin; headroom_seconds = origin }

  unfoldable pub reset_fixed_exploration : Controller S D → Controller S D
  reset_fixed_exploration s = record s { exploration = no_exploration }

  -- The constructor that takes a preset.
  unfoldable pub construct : Preset → Controller S D
  unfolding select_target_state
  construct preset =
      select_target_state (record default_controller { enabled = true; preset = preset })

  -- The assignments that configure and reset share.
  unfoldable pub restart : Controller S D → Controller S D
  unfolding select_target_state reset_fixed_exploration
  restart s = select_target_state (
      reset_evidence (
        reset_fixed_exploration (record s {
          observed_seconds = origin;
          cooldown_until_seconds = origin;
          scheduler_hold_until_seconds = origin;
          flow_transition_hold_active = false;
          flow_transition_settle_until_seconds = origin;
          downstep = record (s.downstep) {
            evaluation_active = false;
            benefit_seen = false;
            output_driven = false;
            source_driven = false;
            exploratory_source_driven = false;
          };
          recovery = new_recovery;
        })))

  abbrev pub with_reason : Controller S D → Reason → Controller S D
  with_reason s r = record s { telemetry = record (s.telemetry) { reason = r } }

  unfoldable pub reset : Controller S D → Controller S D
  unfolding restart
  reset s = let t = restart s in if not t.enabled then with_reason t disabled else t

  unfoldable pub configure : Controller S D → Bool → Preset → Controller S D
  unfolding restart
  configure s enabled preset =
      if same_bool s.enabled enabled && same_preset s.preset preset
      then s
      else let t = restart (record s { enabled = enabled; preset = preset }) in
        if not enabled then with_reason t disabled else t

  -- The std::find_if of seedCurrentScale, with the position of the state that it finds.
  unfoldable pub find_scale : S → ℕ → List S → Option (ℕ × S)
  find_scale scale i [] = none
  find_scale scale i (candidate ∷ rest) =
      if le_single (abs (sub_single candidate scale)) (scale_epsilon fp)
      then some (i, candidate)
      else find_scale scale (suc i) rest

  abbrev pub place_seed : Controller S D → Option (ℕ × S) → Controller S D × Bool
  place_seed s none = (s, false)
  place_seed s (some (i, state)) =
      let t = reset s in
      (
        record t { telemetry = record (t.telemetry) { state_index = i; current_scale = state } },
        true,
      )

  unfoldable pub seed_current_scale : Controller S D → S → Controller S D × Bool
  unfolding find_scale
  seed_current_scale s scale =
      if not s.enabled || not (is_finite scale)
      then (s, false)
      else place_seed s (find_scale scale 0 (states fp s.preset))
