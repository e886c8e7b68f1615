-- ===== src/Runtime/Cycle.antt =====
-- src/context.cpp, LsContext::present: what a source frame generates, from the planned count to the
-- flags of the cycle, and the stages together.
use lsfg_vk_android.Common.{ℕ, ◌+◌, ◌/◌, Bool, not, ◌&&◌, ◌||◌, if◌then◌else◌, ltb, ◌==◌, max}
use lsfg_vk_android.Common.Int.{ℤ, pos, ltb_ℤ, leb_ℤ}
use lsfg_vk_android.Float.{Floats, Extended}
use lsfg_vk_android.Config.{Configuration}
use lsfg_vk_android.Scheduler.Guard
use lsfg_vk_android.Scheduler.Deadline.{predict}
use lsfg_vk_android.Scheduler.Capacity.{Context}
use lsfg_vk_android.Runtime.{Runtime}
use lsfg_vk_android.Runtime.Admission.{
  FenceAnswer, admit_deadline, admit_presentation, admit_retirement,
}
use lsfg_vk_android.Runtime.Planning.{
  has_target, configure_classes, source_interval, measure_source, is_flow_transition, is_hint_valid,
  generation_hint, hint_scheduler, observe_baseline, plan_frames, Counts,
}
use lsfg_vk_android.Runtime.Arrival.{is_discontinuity, follow_timeline}

-- What the clocks and the driver answer in one call.
pub record Answers : Type 0 where
  pub cycle_start : ℤ
  pub source_arrival_time_ns : ℕ
  pub admission_now_ns : ℕ
  pub fence : ℕ → FenceAnswer

-- What the planning decides.
pub record Decided : Type 0 where
  pub counts : Counts
  pub history_only : Bool
  pub warming : Bool
  pub discontinuity : Bool
  pub fractional_history_gap : Bool
  pub zero_demand_history_gap : Bool
  pub history_gap : Bool
  pub source_only_warmup : Bool
  pub true_source_only_cycle : Bool

module _ {S D : Type 0} where
  abbrev pub is_warming : Runtime S D → Bool
  is_warming s = s.requires_source_history_warmup && ltb 0 s.source_history_warmup_remaining

  -- std::max<uint64_t>(1'000'000, intervalNs / 8), as an int64_t.
  abbrev pub deadline_slack : Runtime S D → ℤ
  deadline_slack s = pos (max 1_000_000 (s.current_sample.interval_ns / 8))

module _ {S D L : Type 0} (fp : Floats S D) (ext : Extended D L) where
  open fp.double use {add, lt, le, decimal}

  unfoldable pub capacity_context : Configuration S → ℤ → Bool → ℕ → Bool → Runtime S D → Context
  capacity_context conf interval hint_valid hint discontinuity s =
      let snapshot = s.cadence.snapshot in
      let telemetry = s.capacity.telemetry in
      record {
        output_deficit = has_target conf && snapshot.valid && snapshot.deficit_confirmed;
        deadline_capacity_valid = hint_valid;
        safe_generation_hint = hint;
        scheduler_cost_limit = s.scheduler.telemetry.cost_limit;
        source_inside_budget =
            conf.adaptive_framegen
            && s.current_sample.valid
            && ltb_ℤ (pos 0) interval
            && not discontinuity
            && not (is_warming s)
            && leb_ℤ s.current_sample.source_deadline_error_ns (deadline_slack s);
        source_deadline_error_ns = s.current_sample.source_deadline_error_ns;
        higher_capacity_proven = ltb telemetry.generation_cap telemetry.highest_useful_capacity;
      }

  -- The ramp after a scene break.
  unfoldable pub admit_reacquire : Runtime S D → Bool → ℕ → Runtime S D × ℕ
  admit_reacquire s adaptive planned =
      let (guard, limited) = Guard.limit_generated s.guard planned in
      if adaptive && s.conservative_cross_device_sync && not (is_warming s) && ltb 0 planned
      then (record s { guard = guard }, limited)
      else (s, planned)

  -- The decision of the batch that is left, and the period of its frames.
  unfoldable pub settle_batch : Runtime S D → Bool → ℕ → Runtime S D
  settle_batch s adaptive count =
      let last = predict fp s.predictor count s.batch_decision.usable_budget_ms in
      record s {
        batch_decision =
            if adaptive && ltb 0 count && s.batch_decision.valid && last.valid
            then last
            else s.batch_decision;
        present_period_ns =
            if s.current_sample.valid then s.current_sample.interval_ns / (count + 1) else 0;
      }

  -- All that may take frames away from a batch.
  unfoldable pub admit_frames :
      Configuration S → ℤ → Bool → ℕ → Bool → Answers → Runtime S D → ℕ → Runtime S D × ℕ
  admit_frames conf interval hint_valid hint discontinuity answers s planned =
      let adaptive = conf.adaptive_framegen in
      let warming = is_warming s in
      let (t, in_time) =
        admit_deadline fp ext s adaptive warming answers.admission_now_ns planned in
      let context = capacity_context conf interval hint_valid hint discontinuity t in
      let (u, taken) = admit_presentation fp ext t adaptive context in_time in
      let (v, retired) = admit_retirement fp ext u answers.fence warming taken in
      admit_reacquire v adaptive retired

  -- The flags of the cycle. `wanted` is the scheduler's demand.
  unfoldable pub decide_cycle : Configuration S → Bool → Counts → Runtime S D → Decided
  decide_cycle conf discontinuity c s =
      let warming = is_warming s in
      let quiet = s.conservative_cross_device_sync && not warming && not discontinuity in
      let wanted = s.scheduler.telemetry.wanted_generated_frames in
      let history_only = warming || c.planned == 0 || (ltb 0 c.planned && c.generating == 0) in
      let adaptive_gap = quiet && conf.adaptive_framegen && c.planned == 0 in
      let fractional = adaptive_gap && lt (decimal 0 0) wanted in
      let zero_demand = adaptive_gap && le wanted (decimal 0 0) in
      let fixed_gap = quiet && not conf.adaptive_framegen && c.generating == 0 in
      let gap =
        quiet
        && c.generating == 0
        && ((quiet && conf.adaptive_framegen && c.generating == 0 && (fractional || zero_demand))
            || fixed_gap) in
      let source_warmup = s.conservative_cross_device_sync && warming in
      record {
        counts = c;
        history_only = history_only;
        warming = warming;
        discontinuity = discontinuity;
        fractional_history_gap = fractional;
        zero_demand_history_gap = zero_demand;
        history_gap = gap;
        source_only_warmup = source_warmup;
        true_source_only_cycle =
            s.conservative_cross_device_sync && history_only && not source_warmup && not gap;
      }

  -- From the configuration to the plan.
  unfoldable pub prepare_cycle : Configuration S → Answers → Runtime S D → Runtime S D
  prepare_cycle conf answers s =
      let interval = source_interval s answers.cycle_start in
      let t = measure_source fp ext answers.cycle_start (configure_classes fp ext conf s) in
      observe_baseline fp ext conf interval (hint_scheduler fp ext conf interval t)

  -- From the arrival to the flags.
  unfoldable pub finish_cycle :
      Configuration S → ℤ → Bool → ℕ → Bool → Answers → Runtime S D → Counts → Runtime S D × Decided
  finish_cycle conf interval hint_valid hint transition answers s c =
      let discontinuity = is_discontinuity conf s in
      let (t, followed) =
        follow_timeline fp ext conf interval transition answers.source_arrival_time_ns s c in
      let (u, left) =
        admit_frames conf interval hint_valid hint discontinuity answers t followed.generating in
      let v = settle_batch u conf.adaptive_framegen left in
      let d =
        decide_cycle conf discontinuity (record { planned = followed.planned; generating = left })
          v in
      (record v { last_generated_frame_count = if d.history_only then 0 else left }, d)

  unfoldable pub plan_cycle : Configuration S → Answers → Runtime S D → Runtime S D × Decided
  plan_cycle conf answers s =
      let interval = source_interval s answers.cycle_start in
      let configured =
        measure_source fp ext answers.cycle_start (configure_classes fp ext conf s) in
      let hint_valid = is_hint_valid fp ext conf interval configured in
      let hint = generation_hint fp ext conf interval configured in
      let (t, c) = plan_frames fp ext conf interval (prepare_cycle conf answers s) in
      finish_cycle conf interval hint_valid hint (is_flow_transition conf s) answers t c
