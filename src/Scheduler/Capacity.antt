-- ===== src/Scheduler/Capacity.antt =====
-- GeneratedPresentationCapacityTracker: how many generated frames the swapchain takes for one
-- source frame. The cap falls on rejections, rises by probes, and turns into a duty cycle below
-- one frame.
pub mod Observe
pub mod Bounds
use lsfg_vk_android.Common.{
  ℕ, zero, suc, ◌+◌, ◌-◌, ◌%◌, ◌^◌, Bool, true, false, not, ◌&&◌, ◌||◌, if◌then◌else◌, ltb, leb,
  ◌==◌, min, List, [], ◌∷◌,
}
use lsfg_vk_android.Common.Int.{ℤ, pos, leb_ℤ}
use lsfg_vk_android.Float
use lsfg_vk_android.Float.{Floats}

pub data ChangeReason : Type 0 where
  no_change rejection_probe profitability_keep_lower profitability_restore_higher : ChangeReason
  recovery_evidence_raise target_deficit_probe_success sub_one_duty_lower : ChangeReason
  sub_one_duty_recover : ChangeReason

pub record Context : Type 0 where
  pub output_deficit : Bool
  pub deadline_capacity_valid : Bool
  pub safe_generation_hint : ℕ
  pub scheduler_cost_limit : ℕ
  pub source_inside_budget : Bool
  pub source_deadline_error_ns : ℤ
  pub higher_capacity_proven : Bool

abbrev pub no_context : Context
no_context = record {
  output_deficit = false;
  deadline_capacity_valid = false;
  safe_generation_hint = 0;
  scheduler_cost_limit = 0;
  source_inside_budget = false;
  source_deadline_error_ns = pos 0;
  higher_capacity_proven = false;
}

pub record Telemetry (D : Type 0) : Type 0 where
  pub generation_cap : ℕ
  pub single_frame_duty : D
  pub wsi_rejection_ratio : D
  pub rejection_evidence : ℕ
  pub recovery_evidence : D
  pub attempted_generated_frames : ℕ
  pub accepted_generated_frames : ℕ
  pub delivered_efficiency : D
  pub accepted_frames_ewma : D
  pub highest_useful_capacity : ℕ
  pub last_change_reason : ChangeReason
  pub last_change_output_deficit : Bool
  pub upward_probe_pending : Bool
  pub provisional_lower_active : Bool
  pub pressure : Bool
  pub lowered : Bool
  pub raised : Bool

-- `provisionalX_` of the class is `provisional.x`.
pub record Provisional (D : Type 0) : Type 0 where
  pub lower_active : Bool
  pub previous_cap : ℕ
  pub samples : ℕ
  pub accepted_sum : D
  pub efficiency_sum : D
  pub baseline_accepted : D
  pub baseline_efficiency : D

pub record Tracker (D : Type 0) : Type 0 where
  pub max_generated_frames : ℕ
  pub rejection_evidence : ℕ
  pub recovery_evidence : D
  pub single_frame_phase : D
  pub has_observation : Bool
  pub accepted_frames_ewma : D
  pub efficiency_ewma : D
  pub provisional : Provisional D
  pub upward_probe_pending : Bool
  pub upward_probe_in_flight : Bool
  pub upward_probe_attempted : ℕ
  pub telemetry : Telemetry D

module _ {S D : Type 0} (fp : Floats S D) where
  open fp.double use {add, sub, mul, div, lt, le, decimal}

  abbrev pub origin : D
  origin = decimal 0 0

  -- kSingleFrameDuties.
  abbrev pub duties : List D
  duties = decimal 10 1 ∷ decimal 75 2 ∷ decimal 50 2 ∷ decimal 25 2 ∷ []

  -- 1e-6.
  abbrev pub duty_epsilon : D
  duty_epsilon = decimal 1 6

  -- The loops over the table, written out.
  unfoldable pub next_lower_duty : D → D
  next_lower_duty duty =
      if le (sub (decimal 10 1) duty_epsilon) duty
      then decimal 75 2
      else if le (sub (decimal 75 2) duty_epsilon) duty
      then decimal 50 2
      else if le (sub (decimal 50 2) duty_epsilon) duty
      then decimal 25 2
      else decimal 25 2

  unfoldable pub next_higher_duty : D → D
  next_higher_duty duty =
      if le duty (add (decimal 25 2) duty_epsilon)
      then decimal 50 2
      else if le duty (add (decimal 50 2) duty_epsilon)
      then decimal 75 2
      else if le duty (add (decimal 75 2) duty_epsilon)
      then decimal 10 1
      else decimal 10 1

  unfoldable pub higher_capacity_is_proven : Context → ℕ → Bool
  higher_capacity_is_proven c current_cap =
      c.deadline_capacity_valid
      && ltb current_cap c.safe_generation_hint
      && ltb current_cap c.scheduler_cost_limit
      && c.source_inside_budget
      && leb_ℤ c.source_deadline_error_ns (pos 8_000_000)
      && c.higher_capacity_proven

  abbrev pub new_telemetry : Telemetry D
  new_telemetry = record {
    generation_cap = 0;
    single_frame_duty = decimal 10 1;
    wsi_rejection_ratio = origin;
    rejection_evidence = 0;
    recovery_evidence = origin;
    attempted_generated_frames = 0;
    accepted_generated_frames = 0;
    delivered_efficiency = origin;
    accepted_frames_ewma = origin;
    highest_useful_capacity = 0;
    last_change_reason = no_change;
    last_change_output_deficit = false;
    upward_probe_pending = false;
    provisional_lower_active = false;
    pressure = false;
    lowered = false;
    raised = false;
  }

  abbrev pub no_provisional : Provisional D
  no_provisional = record {
    lower_active = false;
    previous_cap = 0;
    samples = 0;
    accepted_sum = origin;
    efficiency_sum = origin;
    baseline_accepted = origin;
    baseline_efficiency = origin;
  }

  abbrev pub fresh : ℕ → Tracker D
  fresh max_frames = record {
    max_generated_frames = max_frames;
    rejection_evidence = 0;
    recovery_evidence = origin;
    single_frame_phase = origin;
    has_observation = false;
    accepted_frames_ewma = origin;
    efficiency_ewma = origin;
    provisional = no_provisional;
    upward_probe_pending = false;
    upward_probe_in_flight = false;
    upward_probe_attempted = 0;
    telemetry = record new_telemetry {
      generation_cap = max_frames;
      single_frame_duty = decimal 10 1;
    };
  }

  unfoldable pub configure : Tracker D → ℕ → Tracker D
  configure s max_frames = if s.max_generated_frames == max_frames then s else fresh max_frames

  -- The maximum is set aside, so that configure starts again.
  unfoldable pub reset : Tracker D → Tracker D
  unfolding configure
  reset s = configure (record s { max_generated_frames = 2 ^ 64 - 1 }) s.max_generated_frames

  -- A probe that did not reach observation in its own cycle is dropped.
  abbrev pub drop_probe : Tracker D → Tracker D
  drop_probe s = record s {
    upward_probe_in_flight = false;
    upward_probe_attempted = if s.upward_probe_in_flight then 0 else s.upward_probe_attempted;
  }

  unfoldable pub may_probe : Tracker D → Context → Bool
  may_probe s c =
      not s.provisional.lower_active
      && ltb s.telemetry.generation_cap s.max_generated_frames
      && (s.upward_probe_pending
          || le (decimal 80 1) s.recovery_evidence
            && le (decimal 80 2) s.efficiency_ewma
            && ltb s.telemetry.generation_cap s.max_generated_frames
          || (c.output_deficit && higher_capacity_is_proven c s.telemetry.generation_cap)
            && le (decimal 25 1) s.recovery_evidence)

  -- The cap, and below one frame the duty cycle.
  unfoldable pub limit_by_duty : Tracker D → ℕ → Tracker D × ℕ
  limit_by_duty s requested =
      let capped = min requested s.telemetry.generation_cap in
      let phase = add s.single_frame_phase s.telemetry.single_frame_duty in
      if not (capped == 1) || le (decimal 999 3) s.telemetry.single_frame_duty
      then (s, capped)
      else if lt (add phase (decimal 1 9)) (decimal 10 1)
      then (record s { single_frame_phase = phase }, 0)
      else (
        record s { single_frame_phase = Float.max fp.double origin (sub phase (decimal 10 1)) },
        1,
      )

  -- The probe asks for one frame above the cap.
  unfoldable pub probe : Tracker D → ℕ → Tracker D × ℕ
  probe s requested =
      let attempted = min requested (s.telemetry.generation_cap + 1) in
      let t : Tracker D = record s {
        upward_probe_pending = false;
        upward_probe_attempted = attempted;
      } in
      if ltb s.telemetry.generation_cap attempted
      then (record t { upward_probe_in_flight = true }, attempted)
      else limit_by_duty (record t { upward_probe_in_flight = false }) requested

  unfoldable pub limit : Tracker D → ℕ → Context → Tracker D × ℕ
  unfolding probe limit_by_duty
  limit s requested c =
      let t = drop_probe s in
      if requested == 0 || s.max_generated_frames == 0
      then (s, 0)
      else if may_probe t c
      then probe t requested
      else limit_by_duty t requested
