-- ===== src/Runtime/Batch.antt =====
-- src/context.cpp, LsContext::present: the budget and the name of a batch, and a frame that finds its
-- render pass busy.
use lsfg_vk_android.Common.{
  ℕ, ◌+◌, ◌≢◌, Bool, true, false, not, ◌&&◌, ◌||◌, if◌then◌else◌, ltb, ◌==◌, max, ◌^◌, ◌<◌, arith,
}
use lsfg_vk_android.Common.Int.{ℤ}
use lsfg_vk_android.Float
use lsfg_vk_android.Float.{Floats}
use lsfg_vk_android.Config.{Configuration}
use lsfg_vk_android.Scheduler.Frame
use lsfg_vk_android.Scheduler.Deadline.Hints.{framegen_batch_budget_ms}
use lsfg_vk_android.Scheduler.Baseline.{source_only}
use lsfg_vk_android.Runtime.{
  Runtime, add_u64, no_invalidation, retirement_backpressure, timeline_discontinuity,
}
use lsfg_vk_android.Runtime.Reset.{empty_decision, reset_adaptive_source_epoch}

-- AdaptiveFlowBatchMetadata.
pub record Batch (D : Type 0) : Type 0 where
  pub session_epoch : ℕ
  pub batch_id : ℕ
  pub frame_budget_ms : D
  pub predicted_total_lsfg_ms : D
  pub preserve_output_during_transition : Bool
  pub reset_temporal_history : Bool

abbrev pub adaptive_lsfg_transition : {D : Type 0} → Frame.Telemetry D → Bool
adaptive_lsfg_transition t =
    t.source_rate_snapped || t.cost_raised || t.cost_backed_off || t.cost_probe
    || t.discontinuity_reset || t.config_warm_start

-- On Android a targeted game keeps room for a multiplier of four.
abbrev pub resident_capacity_multiplier : {S : Type 0} → Configuration S → ℕ
resident_capacity_multiplier conf = if conf.targeted then max conf.multiplier 4 else conf.multiplier

-- The id after a batch; 0 names no batch.
unfoldable pub next_id : ℕ → ℕ
next_id id = if add_u64 id 1 == 0 then 1 else add_u64 id 1

module _ {S D : Type 0} (fp : Floats S D) where
  open fp.double use {mul, div, lt, is_finite, decimal}

  unfoldable pub adaptive_flow_frame_budget_ms : Configuration S → ℤ → ℕ → D
  adaptive_flow_frame_budget_ms conf interval count =
      let ms = fp.milliseconds interval in
      if not (lt (decimal 0 0) ms) || not (is_finite ms)
      then decimal 0 0
      else if conf.adaptive_framegen
      then ms
      else if ltb 0 conf.fps_limit
      then div (decimal 1000 0) (fp.of_nat conf.fps_limit)
      else div ms (fp.of_nat (count + 1))

  -- The budget that the decision, or without one the interval, gives.
  abbrev pub decided_budget_ms : Configuration S → ℤ → ℕ → Runtime S D → D
  decided_budget_ms conf interval count s =
      if conf.adaptive_framegen
        && ltb 0 count
        && s.batch_decision.valid
        && lt (decimal 0 0) s.batch_decision.effective_usable_budget_ms
      then s.batch_decision.effective_usable_budget_ms
      else framegen_batch_budget_ms fp (fp.milliseconds interval)
          (adaptive_flow_frame_budget_ms conf interval count) s.conservative_cross_device_sync

  -- The time of the batch at the target rate, on a generation-first device.
  abbrev pub target_budget_ms : Configuration S → ℕ → Runtime S D → D
  target_budget_ms conf count s =
      if s.conservative_cross_device_sync
        && conf.adaptive_framegen
        && ltb 0 conf.fps_limit
        && ltb 0 count
      then div (mul (decimal 1000 0) (fp.of_nat (count + 1))) (fp.of_nat conf.fps_limit)
      else decimal 0 0

  unfoldable pub adaptive_flow_batch_budget_ms : Configuration S → ℤ → ℕ → Runtime S D → D
  adaptive_flow_batch_budget_ms conf interval count s =
      let budget = decided_budget_ms conf interval count s in
      let target = target_budget_ms conf count s in
      if not (lt (decimal 0 0) target)
      then budget
      else if lt (decimal 0 0) budget
      then Float.min fp.double budget target
      else target

  unfoldable pub next_adaptive_flow_batch :
      Configuration S → ℤ → ℕ → Runtime S D → Runtime S D × Batch D
  next_adaptive_flow_batch conf interval count s =
      let id = next_id s.flow_next_batch_id in
      (
        record s { flow_next_batch_id = id },
        record {
          session_epoch = s.flow_timing_epoch;
          batch_id = id;
          frame_budget_ms = adaptive_flow_batch_budget_ms conf interval count s;
          predicted_total_lsfg_ms =
              if s.batch_decision.valid
              then s.batch_decision.predicted_total_lsfg_ms
              else decimal 0 0;
          preserve_output_during_transition =
              conf.adaptive_flow_scale
              && s.flow_transition_pending
              && ltb 0 s.flow_warmup_remaining
              && ltb 0 count;
          reset_temporal_history =
              conf.adaptive_framegen
              && s.conservative_cross_device_sync
              && s.guard.source_only_remaining == 2;
        },
      )

  -- A frame that is presented as it is because its pass is busy, once the present worked.
  -- kConservativeSourceReprimeFrames is 2.
  unfoldable pub skip_busy_pass : Runtime S D → Runtime S D
  skip_busy_pass s =
      let warmup = max s.source_history_warmup_remaining 1 in
      let t : Runtime S D = record s { last_generated_frame_count = 0 } in
      if not s.conservative_cross_device_sync
      then reset_adaptive_source_epoch fp t true timeline_discontinuity
      else record t {
        last_dispatched_generated_frame_count = 0;
        last_source_cadence_observation = source_only;
        previous_source_copy_signal_valid = false;
        source_history_warmup_remaining = warmup;
        requires_source_history_warmup = ltb 0 warmup;
        last_history_invalidation_reason = no_invalidation;
        last_history_reprime_reason = retirement_backpressure;
        batch_decision = empty_decision fp;
      }

-- The id of a batch is never 0 and never the one before it.
pub next_id-new : (id : ℕ) → id < 2 ^ 64 → (next_id id ≢ 0) × (next_id id ≢ id)
unfolding next_id
next_id-new id h = ground arith
