-- ===== src/Runtime/Bounds.antt =====
-- The bounds that the planning of src/context.cpp keeps.
use lsfg_vk_android.Common.{
  ℕ, ◌≤◌, ◌≡◌, ◌∙◌, refl, Bool, true, false, not, ◌&&◌, arith, if_cases, ◌==◌, if◌then◌else◌,
}
use lsfg_vk_android.Common.Int.{ℤ, pos, ltb_ℤ}
use lsfg_vk_android.Float.{Floats, Extended}
use lsfg_vk_android.Config.{Configuration}
use lsfg_vk_android.Scheduler.Frame
use lsfg_vk_android.Scheduler.Frame.{Scheduler}
use lsfg_vk_android.Scheduler.Frame.Bounds.{
  IsLimited, IsWindow, call, call-bounds, configures, hints, puts_first, resets, plan-Plans,
}
use lsfg_vk_android.Scheduler.Timeline
use lsfg_vk_android.Scheduler.Capacity
use lsfg_vk_android.Scheduler.Capacity.{Context}
use lsfg_vk_android.Scheduler.Capacity.Bounds.{IsBounded, configure-IsBounded, fresh-IsBounded}
use lsfg_vk_android.Runtime.{Runtime, Invalidation, timeline_discontinuity}
use lsfg_vk_android.Runtime.Reset.{reset_adaptive_source_epoch}
use lsfg_vk_android.Runtime.Planning.{
  max_generated, target_of, configure_classes, measure_source, hint_scheduler, observe_baseline,
  plan_frames, Counts, is_hint_valid, generation_hint, is_flow_transition, source_interval,
}
use lsfg_vk_android.Runtime.Arrival.{
  arm_reprime, break_epoch, note_deadline_error, observe_arrival, follow_timeline, is_discontinuity,
}
use lsfg_vk_android.Runtime.Cycle.{Answers, prepare_cycle}

module _ {S D L : Type 0} (fp : Floats S D) (ext : Extended D L) where
  -- The scheduler and the capacity tracker are within their bounds.
  abbrev pub IsSound : Runtime S D → Type 0
  IsSound s = IsLimited fp s.scheduler × IsWindow fp s.scheduler × IsBounded fp s.capacity

  capacity_reset-IsBounded :
      (t : Capacity.Tracker D) → IsBounded fp t → IsBounded fp (Capacity.reset fp t)
  unfolding Capacity.reset Capacity.configure
  capacity_reset-IsBounded t h = ground (arith, fresh-IsBounded fp t.max_generated_frames)

  pub reset_epoch-IsSound :
      (s : Runtime S D) (reset_scheduler : Bool) (reason : Invalidation)
      → IsSound s
      → IsSound (reset_adaptive_source_epoch fp s reset_scheduler reason)
  unfolding reset_adaptive_source_epoch call
  reset_epoch-IsSound s reset_scheduler reason (limited, window, bounded) =
      let capacity = capacity_reset-IsBounded s.capacity bounded in
      let kept = call-bounds fp s.scheduler resets limited window in
      elim reset_scheduler as (λ b. IsSound (reset_adaptive_source_epoch fp s b reason)) [
        | true ↦ (kept.0, kept.1, capacity)
        | false ↦ (limited, window, capacity)
      ]

  configured_max :
      (t : Scheduler D) (target limit : ℕ) (first : Bool)
      → (Frame.set_generation_first fp
          (Frame.configure fp t target limit)
          first).max_generated_frames
        ≡ limit
  unfolding Frame.set_generation_first Frame.configure Frame.reset_runtime_state
  configured_max t target limit first = ground arith

  configure_classes-IsSound :
      (conf : Configuration S) (s : Runtime S D)
      → IsSound s
      → IsSound (configure_classes fp ext conf s)
        × ((configure_classes fp ext conf s).scheduler.max_generated_frames ≡ max_generated conf)
  unfolding configure_classes call
  configure_classes-IsSound conf s (limited, window, bounded) =
      let target = target_of conf in
      let limit = max_generated conf in
      let (l, w) = call-bounds fp s.scheduler (configures target limit) limited window in
      let first = s.conservative_cross_device_sync in
      let (m, v) =
        call-bounds fp (Frame.configure fp s.scheduler target limit) (puts_first first) l w in
      let cap = if conf.adaptive_framegen then max_generated conf else 0 in
      (
        (m, v, configure-IsBounded fp s.capacity cap bounded),
        configured_max s.scheduler target limit first,
      )

  -- Neither a configuration nor a new epoch counts frames.
  hint_scheduler-IsSound :
      (conf : Configuration S) (interval : ℤ) (s : Runtime S D)
      → IsSound s
      → IsSound (hint_scheduler fp ext conf interval s)
        × ((hint_scheduler fp ext conf interval s).scheduler.max_generated_frames
            ≡ s.scheduler.max_generated_frames)
  unfolding hint_scheduler call Frame.set_safe_generation_hint
  hint_scheduler-IsSound conf interval s (limited, window, bounded) =
      let (l, w) =
        call-bounds fp s.scheduler
          (hints (generation_hint fp ext conf interval s) (is_hint_valid fp ext conf interval s))
          limited window in
      ((l, w, bounded), refl)

  pub prepare_cycle-IsSound :
      (conf : Configuration S) (answers : Answers) (s : Runtime S D)
      → IsSound s
      → IsSound (prepare_cycle fp ext conf answers s)
        × ((prepare_cycle fp ext conf answers s).scheduler.max_generated_frames
            ≡ max_generated conf)
  unfolding prepare_cycle measure_source observe_baseline
  prepare_cycle-IsSound conf answers s h =
      let interval = source_interval s answers.cycle_start in
      let (configured, same) = configure_classes-IsSound conf s h in
      let t = measure_source fp ext answers.cycle_start (configure_classes fp ext conf s) in
      let (hinted, kept) = hint_scheduler-IsSound conf interval t configured in
      (hinted, kept ∙ same)

  pub plan_frames-IsSound :
      (conf : Configuration S) (interval : ℤ) (s : Runtime S D)
      → IsSound s
      → s.scheduler.max_generated_frames ≡ max_generated conf
      → IsSound (plan_frames fp ext conf interval s).0
        × ((plan_frames fp ext conf interval s).1.planned ≤ max_generated conf)
        × ((plan_frames fp ext conf interval s).1.generating
            ≤ (plan_frames fp ext conf interval s).1.planned)
  unfolding plan_frames
  plan_frames-IsSound conf interval s (limited, window, bounded) same =
      let (hands, l, w) =
        plan-Plans fp s.scheduler interval (is_flow_transition conf s) limited window in
      ground arith

  break_epoch-IsSound :
      (conf : Configuration S) (reset_scheduler : Bool) (s : Runtime S D)
      → IsSound s
      → IsSound (break_epoch fp ext conf reset_scheduler s)
  unfolding break_epoch arm_reprime
  break_epoch-IsSound conf reset_scheduler s h =
      let r = reset_epoch-IsSound s reset_scheduler timeline_discontinuity h in ground (arith, r)

  note_deadline_error-IsSound :
      (s : Runtime S D) → IsSound s → IsSound (note_deadline_error fp ext s)
  unfolding note_deadline_error
  note_deadline_error-IsSound s h =
      if_cases IsSound (not s.current_sample.valid) (λ _. h)
        (λ _. if_cases IsSound (s.current_sample.source_index == 0) (λ _. h) (λ _. h))

  -- What the arrival leaves: sound, no more planned, and no more to generate than planned.
  abbrev pub Follows : Counts → Runtime S D × Counts → Type 0
  Follows c (t, d) = IsSound t × (d.generating ≤ d.planned) × (d.planned ≤ c.planned)

  pub follow_timeline-IsSound :
      (conf : Configuration S) (interval : ℤ) (transition : Bool) (arrival : ℕ) (s : Runtime S D)
      (c : Counts)
      → IsSound s
      → c.generating ≤ c.planned
      → Follows c (follow_timeline fp ext conf interval transition arrival s c)
  unfolding follow_timeline observe_arrival
  follow_timeline-IsSound conf interval transition arrival s c h le =
      let sample = Timeline.observe ext s.timeline arrival interval false transition in
      let t : Runtime S D = record s { timeline = sample.0; current_sample = sample.1 } in
      let same : c.planned ≤ c.planned = omega arith in
      if_cases (Follows c) (is_discontinuity conf s)
        (λ _. (break_epoch-IsSound conf false s h, le, same))
        λ _.
          if_cases (Follows c)
            (s.current_sample.valid && not sample.1.valid && ltb_ℤ (pos 0) interval)
            (λ _. (
              note_deadline_error-IsSound (break_epoch fp ext conf true t)
                  (break_epoch-IsSound conf true t h),
              omega arith,
              omega arith,
            ))
            λ _. (note_deadline_error-IsSound t h, le, same)
