-- ===== src/Runtime/Warmup.antt =====
-- The warm-up of src/context.cpp: what the first cycle of an epoch does, after a reset of the epoch and
-- after a break of the timeline.
use lsfg_vk_android.Common.{ℕ, zero, ◌≡◌, ◌∙◌, ◌⊎◌, inl, inr, refl, Bool, true, false, arith}
use lsfg_vk_android.Common.Int.{ℤ, pos}
use lsfg_vk_android.Float.{Floats, Extended}
use lsfg_vk_android.Config.{Configuration}
use lsfg_vk_android.Scheduler.Frame.{Scheduler}
use lsfg_vk_android.Scheduler.Frame.Plan.{plan, clear_telemetry}
use lsfg_vk_android.Scheduler.Timeline
use lsfg_vk_android.Scheduler.Guard
use lsfg_vk_android.Scheduler.Guard.{source_only_required}
use lsfg_vk_android.Runtime.{Runtime, Invalidation}
use lsfg_vk_android.Runtime.Reset.{reset_adaptive_source_epoch}
use lsfg_vk_android.Runtime.Admission.{admit_deadline, admit_presentation, admit_retirement}
use lsfg_vk_android.Runtime.Planning.{
  configure_classes, measure_source, hint_scheduler, observe_baseline, plan_frames, Counts,
  is_hint_valid, generation_hint, is_flow_transition, source_interval,
}
use lsfg_vk_android.Runtime.Arrival.{
  arm_reprime, break_epoch, note_deadline_error, observe_arrival, follow_timeline, is_discontinuity,
}
use lsfg_vk_android.Runtime.Cycle.{
  Answers, Decided, admit_reacquire, admit_frames, settle_batch, decide_cycle, prepare_cycle,
  finish_cycle, plan_cycle, is_warming, capacity_context,
}
use lsfg_vk_android.Runtime.Conservation.{
  deadline-Accounts, presentation-Accounts, retirement-Accounts,
}

module _ {S D L : Type 0} (fp : Floats S D) (ext : Extended D L) where
  reacquire-warming :
      (s : Runtime S D) (adaptive : Bool) (planned : ℕ)
      → is_warming (admit_reacquire fp ext s adaptive planned).0 ≡ is_warming s
  unfolding admit_reacquire
  reacquire-warming s adaptive planned = ground arith

  admit_frames-warming :
      (conf : Configuration S) (interval : ℤ) (hint_valid : Bool) (hint : ℕ) (discontinuity : Bool)
      (answers : Answers) (s : Runtime S D) (planned : ℕ)
      → is_warming
          (admit_frames fp ext conf interval hint_valid hint discontinuity answers s planned).0
        ≡ is_warming s
  unfolding admit_frames
  admit_frames-warming conf interval hint_valid hint discontinuity answers s planned =
      let adaptive = conf.adaptive_framegen in
      let warming = is_warming s in
      let (t, n) = admit_deadline fp ext s adaptive warming answers.admission_now_ns planned in
      let wt = (deadline-Accounts fp ext s adaptive warming answers.admission_now_ns planned).2 in
      let context = capacity_context fp ext conf interval hint_valid hint discontinuity t in
      let (u, m) = admit_presentation fp ext t adaptive context n in
      let wu = (presentation-Accounts fp ext t adaptive context n).2 in
      let (v, k) = admit_retirement fp ext u answers.fence warming m in
      let wv = (retirement-Accounts fp ext u answers.fence warming m).2 in
      reacquire-warming v adaptive k ∙ wv ∙ wu ∙ wt

  -- Without an interval the scheduler sees no break.
  plan-no_interval :
      (s : Scheduler D) (preserve : Bool)
      → fp.double.lt (fp.double.decimal 0 0) (fp.seconds (pos 0)) ≡ false
      → (plan fp s (pos 0) preserve).0.telemetry.discontinuity_reset ≡ false
  unfolding plan clear_telemetry
  plan-no_interval s preserve h = ground arith

  -- A runtime at the start of an epoch: warming, with no sample and no time of a source frame.
  abbrev IsFresh : Runtime S D → Type 0
  IsFresh s = (is_warming s ≡ true) × (s.current_sample.valid ≡ false)

  reset-IsFresh :
      (s : Runtime S D) (reset_scheduler : Bool) (reason : Invalidation)
      → IsFresh (reset_adaptive_source_epoch fp s reset_scheduler reason)
        × ((reset_adaptive_source_epoch fp s reset_scheduler reason).metrics.has_last_source_present
            ≡ false)
  unfolding reset_adaptive_source_epoch
  reset-IsFresh s reset_scheduler reason = ground arith

  note_deadline_error-warming :
      (s : Runtime S D) → is_warming (note_deadline_error fp ext s) ≡ is_warming s
  unfolding note_deadline_error
  note_deadline_error-warming s = ground arith

  follow_timeline-warming :
      (conf : Configuration S) (transition : Bool) (arrival : ℕ) (s : Runtime S D) (c : Counts)
      → is_discontinuity conf s ≡ false
      → IsFresh s
      → is_warming (follow_timeline fp ext conf (pos 0) transition arrival s c).0 ≡ true
  unfolding follow_timeline observe_arrival
  follow_timeline-warming conf transition arrival s c smooth (warm, unseen) =
      let sample = Timeline.observe ext s.timeline arrival (pos 0) false transition in
      let t : Runtime S D = record s { timeline = sample.0; current_sample = sample.1 } in
      rw (smooth, unseen) (note_deadline_error-warming t ∙ warm)

  finish_cycle-fresh :
      (conf : Configuration S) (hint_valid : Bool) (hint : ℕ) (transition : Bool)
      (answers : Answers) (s : Runtime S D) (c : Counts)
      → is_discontinuity conf s ≡ false
      → IsFresh s
      → let r = finish_cycle fp ext conf (pos 0) hint_valid hint transition answers s c in
        (r.1.history_only ≡ true) × (r.0.last_generated_frame_count ≡ zero)
  unfolding finish_cycle decide_cycle settle_batch
  finish_cycle-fresh conf hint_valid hint transition answers s c smooth fresh =
      let arrival = answers.source_arrival_time_ns in
      let warm = follow_timeline-warming conf transition arrival s c smooth fresh in
      let t = (follow_timeline fp ext conf (pos 0) transition arrival s c).0 in
      let d = (follow_timeline fp ext conf (pos 0) transition arrival s c).1 in
      let kept =
        admit_frames-warming conf (pos 0) hint_valid hint (is_discontinuity conf s) answers t
          d.generating in
      rw (kept ∙ warm) (refl, refl)

  plan_frames-IsFresh :
      (conf : Configuration S) (s : Runtime S D)
      → fp.double.lt (fp.double.decimal 0 0) (fp.seconds (pos 0)) ≡ false
      → IsFresh s
      → IsFresh (plan_frames fp ext conf (pos 0) s).0
        × (is_discontinuity conf (plan_frames fp ext conf (pos 0) s).0 ≡ false)
  unfolding plan_frames
  plan_frames-IsFresh conf s law fresh =
      ground (arith, plan-no_interval s.scheduler (is_flow_transition conf s) law)

  prepare_cycle-IsFresh :
      (conf : Configuration S) (answers : Answers) (s : Runtime S D)
      → IsFresh s
      → IsFresh (prepare_cycle fp ext conf answers s)
  unfolding prepare_cycle observe_baseline hint_scheduler measure_source configure_classes
  prepare_cycle-IsFresh conf answers s fresh = fresh

  -- The cycle only writes history and generates nothing.
  abbrev pub IsHistoryOnly : Runtime S D × Decided → Type 0
  IsHistoryOnly r = (r.1.history_only ≡ true) × (r.0.last_generated_frame_count ≡ zero)

  fresh-plan_cycle :
      (t : Runtime S D) (conf : Configuration S) (answers : Answers)
      → fp.double.lt (fp.double.decimal 0 0) (fp.seconds (pos 0)) ≡ false
      → IsFresh t
      → t.metrics.has_last_source_present ≡ false
      → IsHistoryOnly (plan_cycle fp ext conf answers t)
  unfolding plan_cycle
  fresh-plan_cycle t conf answers law fresh untimed =
      let none_yet : source_interval t answers.cycle_start ≡ pos 0 = rw untimed in
      let p = prepare_cycle fp ext conf answers t in
      let (planned, smooth) =
        plan_frames-IsFresh conf p law (prepare_cycle-IsFresh conf answers t fresh) in
      let u = plan_frames fp ext conf (pos 0) p in
      let configured =
        measure_source fp ext answers.cycle_start (configure_classes fp ext conf t) in
      rw none_yet (
        finish_cycle-fresh conf (is_hint_valid fp ext conf (pos 0) configured)
          (generation_hint fp ext conf (pos 0) configured) (is_flow_transition conf t) answers u.0
          u.1 smooth planned)

  -- What break_epoch leaves: the start of an epoch on a device that is not generation-first, and no
  -- warm-up on one that is, whose guard asks for history cycles instead.
  break_epoch-cases :
      (s : Runtime S D) (reset_scheduler : Bool) (conf : Configuration S)
      → let t = break_epoch fp ext conf reset_scheduler s in
        ((s.conservative_cross_device_sync ≡ false)
          × IsFresh t
          × (t.metrics.has_last_source_present ≡ false))
        ⊎ ((s.conservative_cross_device_sync ≡ true)
            × (is_warming t ≡ false)
            × (source_only_required t.guard ≡ true))
  unfolding break_epoch arm_reprime reset_adaptive_source_epoch Guard.arm source_only_required
  break_epoch-cases s reset_scheduler conf = ground arith

  -- Where an interval of zero nanoseconds is not above zero seconds in the arithmetic: the first
  -- cycle after resetAdaptiveSourceEpoch only writes history and generates nothing, whatever the
  -- reason, the configuration, the clocks and the fences. After a break of the timeline the same
  -- holds on a device that is not generation-first; on one that is there is no warm-up, and the
  -- guard, armed again, requires source-only cycles.
  pub reset-plan_cycle :
      (s : Runtime S D) (reset_scheduler : Bool) (reason : Invalidation) (conf : Configuration S)
      (answers : Answers)
      → fp.double.lt (fp.double.decimal 0 0) (fp.seconds (pos 0)) ≡ false
      → IsHistoryOnly
          (plan_cycle fp ext conf answers (reset_adaptive_source_epoch fp s reset_scheduler reason))
        × (((s.conservative_cross_device_sync ≡ false)
              × IsHistoryOnly
                  (plan_cycle fp ext conf answers (break_epoch fp ext conf reset_scheduler s)))
            ⊎ ((s.conservative_cross_device_sync ≡ true)
                × (is_warming (break_epoch fp ext conf reset_scheduler s) ≡ false)
                × (source_only_required (break_epoch fp ext conf reset_scheduler s).guard ≡ true)))
  reset-plan_cycle s reset_scheduler reason conf answers law =
      let t = reset_adaptive_source_epoch fp s reset_scheduler reason in
      let u = break_epoch fp ext conf reset_scheduler s in
      let (fresh, untimed) = reset-IsFresh s reset_scheduler reason in
      (
        fresh-plan_cycle t conf answers law fresh untimed,
        elim (break_epoch-cases s reset_scheduler conf) [
          | inl (plain, broken, gone) ↦ inl (plain, fresh-plan_cycle u conf answers law broken gone)
          | inr (first, cold, armed) ↦ inr (first, cold, armed)
        ],
      )
