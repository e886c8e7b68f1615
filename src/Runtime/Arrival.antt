-- ===== src/Runtime/Arrival.antt =====
-- src/context.cpp, LsContext::present: the arrival of a source frame on its timeline, and the end of
-- an epoch where a break is seen.
use lsfg_vk_android.Common.{ℕ, ◌+◌, Bool, true, false, not, ◌&&◌, if◌then◌else◌, ◌==◌}
use lsfg_vk_android.Common.Int.{ℤ, pos, pos_part, neg_part, ltb_ℤ}
use lsfg_vk_android.Float
use lsfg_vk_android.Float.{Floats, Extended}
use lsfg_vk_android.Config.{Configuration}
use lsfg_vk_android.Scheduler.Guard
use lsfg_vk_android.Scheduler.Timeline
use lsfg_vk_android.Scheduler.Cadence
use lsfg_vk_android.Runtime.{Runtime, timeline_discontinuity, add_u64}
use lsfg_vk_android.Runtime.Reset.{reset_adaptive_source_epoch}
use lsfg_vk_android.Runtime.Admission.{as_ms}
use lsfg_vk_android.Runtime.Planning.{target_of, has_target, Counts}

module _ {S D : Type 0} where
  abbrev pub is_discontinuity : Configuration S → Runtime S D → Bool
  is_discontinuity conf s = conf.adaptive_framegen && s.scheduler.telemetry.discontinuity_reset

  -- A scene break on a generation-first device: two history cycles in place of a warm-up.
  unfoldable pub arm_reprime : Runtime S D → Runtime S D
  arm_reprime s =
      if s.conservative_cross_device_sync
      then record s {
        guard = Guard.arm s.guard true;
        source_history_warmup_remaining = 0;
        requires_source_history_warmup = false;
      }
      else s

module _ {S D L : Type 0} (fp : Floats S D) (ext : Extended D L) where
  open fp.double use {add, lt, le, decimal}

  unfoldable pub break_epoch : Configuration S → Bool → Runtime S D → Runtime S D
  unfolding arm_reprime
  break_epoch conf reset_scheduler s =
      let t =
        arm_reprime (reset_adaptive_source_epoch fp s reset_scheduler timeline_discontinuity) in
      record t { cadence = Cadence.configure fp t.cadence (has_target conf) (target_of conf) }

  unfoldable pub note_deadline_error : Runtime S D → Runtime S D
  note_deadline_error s =
      let m = s.metrics in
      let error = s.current_sample.source_deadline_error_ns in
      let ms = as_ms fp ext (pos_part error + neg_part error) in
      if not s.current_sample.valid
      then record s { present_period_ns = 0 }
      else if s.current_sample.source_index == 0
      then s
      else record s {
        metrics = record m {
          window_source_deadline_error_abs_ms = add m.window_source_deadline_error_abs_ms ms;
          window_source_deadline_error_max_ms =
              Float.max fp.double m.window_source_deadline_error_max_ms ms;
          window_source_deadline_samples = add_u64 m.window_source_deadline_samples 1;
          window_source_timeline_rebases =
              if s.current_sample.rebased
              then add_u64 m.window_source_timeline_rebases 1
              else m.window_source_timeline_rebases;
        };
      }

  -- The timeline takes the arrival; a break that it sees by itself ends the epoch.
  unfoldable pub observe_arrival :
      Configuration S → ℤ → Bool → ℕ → Runtime S D → Counts → Runtime S D × Counts
  observe_arrival conf interval transition arrival s c =
      let (timeline, sample) = Timeline.observe ext s.timeline arrival interval false transition in
      let t : Runtime S D = record s { timeline = timeline; current_sample = sample } in
      if s.current_sample.valid && not sample.valid && ltb_ℤ (pos 0) interval
      then (note_deadline_error (break_epoch conf true t), record { planned = 0; generating = 0 })
      else (note_deadline_error t, c)

  unfoldable pub follow_timeline :
      Configuration S → ℤ → Bool → ℕ → Runtime S D → Counts → Runtime S D × Counts
  follow_timeline conf interval transition arrival s c =
      if is_discontinuity conf s
      then (break_epoch conf false s, c)
      else observe_arrival conf interval transition arrival s c
