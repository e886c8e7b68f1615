-- ===== src/Runtime/Conservation.antt =====
-- The counters of lost frames in src/context.cpp, and what the admission takes from a plan. A
-- cycle that only writes history leaves out what the admission left, and counts nothing for it.
use lsfg_vk_android.Common.{
  ℕ, zero, suc, ◌+◌, ◌%◌, ◌^◌, ◌≡◌, ◌∙◌, ap, refl, Bool, true, false, not, ◌&&◌, arith, if_cases,
}
use lsfg_vk_android.Common.Int.{ℤ, pos, ltb_ℤ}
use lsfg_vk_android.Float.{Floats, Extended}
use lsfg_vk_android.Config.{Configuration}
use lsfg_vk_android.Policy.Handoff.{startup_seed_history_only}
use lsfg_vk_android.Scheduler.Timeline
use lsfg_vk_android.Scheduler.Capacity.{Context}
use lsfg_vk_android.Runtime.{Runtime, Metrics}
use lsfg_vk_android.Runtime.Reset.{empty_decision, reset_adaptive_source_epoch}
use lsfg_vk_android.Runtime.Admission.{
  FenceAnswer, retire_xclipse_output_copies, admit_deadline, admit_batch, admit_slots,
  admit_presentation, admit_retirement, count_rejected, count_capped, count_shadow, shadow_slots,
}
use lsfg_vk_android.Runtime.Planning.{
  configure_classes, measure_source, hint_scheduler, observe_baseline, plan_frames, Counts,
  is_hint_valid, generation_hint, is_flow_transition, source_interval,
}
use lsfg_vk_android.Runtime.Arrival.{
  arm_reprime, break_epoch, note_deadline_error, observe_arrival, follow_timeline, is_discontinuity,
}
use lsfg_vk_android.Runtime.Cycle.{
  Answers, admit_reacquire, admit_frames, settle_batch, decide_cycle, prepare_cycle, finish_cycle,
  plan_cycle, is_warming, capacity_context,
}
use lsfg_vk_android.Runtime.Admitted.{admitted_count_le, retire_from-same}

-- The frames that were counted as late or as beyond the capacity.
abbrev pub lost : {D : Type 0} → Metrics D → ℕ
lost m = m.total_generated_late_drops + m.total_generated_presentation_cap_drops

module _ {S D L : Type 0} (fp : Floats S D) (ext : Extended D L) where
  -- A stage that gives up only frames that it counts, as the 64 bits of the counters allow, and
  -- leaves the kind of device and the warm-up alone.
  abbrev pub Accounts : Runtime S D → ℕ → Runtime S D × ℕ → Type 0
  Accounts s planned (t, n) =
      ((lost t.metrics + n) % 2 ^ 64 ≡ (lost s.metrics + planned) % 2 ^ 64)
      × (t.conservative_cross_device_sync ≡ s.conservative_cross_device_sync)
      × (is_warming t ≡ is_warming s)

  shadow_slots-lost :
      (s : Runtime S D) (now count left slot : ℕ) (m : Metrics D)
      → ((shadow_slots fp ext s now count left slot m).total_generated_late_drops
          ≡ m.total_generated_late_drops)
        × ((shadow_slots fp ext s now count left slot m).total_generated_presentation_cap_drops
            ≡ m.total_generated_presentation_cap_drops)
  unfolding shadow_slots count_shadow
  shadow_slots-lost s now count zero slot m = (refl, refl)
  shadow_slots-lost s now count (suc left) slot m = ground (
    arith,
    shadow_slots-lost s now count left (slot + 1) m,
    shadow_slots-lost s now count left (slot + 1) (count_shadow true m),
    shadow_slots-lost s now count left (slot + 1) (count_shadow false m),
  )

  pub deadline-Accounts :
      (s : Runtime S D) (adaptive warming : Bool) (now planned : ℕ)
      → Accounts s planned (admit_deadline fp ext s adaptive warming now planned)
  unfolding admit_deadline admit_batch admit_slots count_rejected
  deadline-Accounts s adaptive warming now planned =
      let t : Runtime S D = record s { batch_decision = empty_decision fp } in
      ground (
        arith,
        admitted_count_le fp ext t now planned,
        shadow_slots-lost t now planned planned 0 s.metrics,
      )

  pub presentation-Accounts :
      (s : Runtime S D) (adaptive : Bool) (context : Context) (planned : ℕ)
      → Accounts s planned (admit_presentation fp ext s adaptive context planned)
  unfolding admit_presentation count_capped
  presentation-Accounts s adaptive context planned = ground arith

  pub retirement-Accounts :
      (s : Runtime S D) (answer : ℕ → FenceAnswer) (warming : Bool) (planned : ℕ)
      → Accounts s planned (admit_retirement fp ext s answer warming planned)
  unfolding admit_retirement retire_xclipse_output_copies count_rejected
  retirement-Accounts s answer warming planned =
      ground (arith, retire_from-same fp ext answer planned 0 s)

  reacquire-Accounts :
      (s : Runtime S D) (adaptive : Bool) (planned : ℕ)
      → s.conservative_cross_device_sync ≡ false
      → Accounts s planned (admit_reacquire fp ext s adaptive planned)
  unfolding admit_reacquire
  reacquire-Accounts s adaptive planned h = ground arith

  admit_frames-Accounts :
      (conf : Configuration S) (interval : ℤ) (hint_valid : Bool) (hint : ℕ) (discontinuity : Bool)
      (answers : Answers) (s : Runtime S D) (planned : ℕ)
      → s.conservative_cross_device_sync ≡ false
      → Accounts s planned
          (admit_frames fp ext conf interval hint_valid hint discontinuity answers s planned)
  unfolding admit_frames
  admit_frames-Accounts conf interval hint_valid hint discontinuity answers s planned h =
      let adaptive = conf.adaptive_framegen in
      let warming = is_warming s in
      let (t, n) = admit_deadline fp ext s adaptive warming answers.admission_now_ns planned in
      let (et, ct, wt) = deadline-Accounts s adaptive warming answers.admission_now_ns planned in
      let context = capacity_context fp ext conf interval hint_valid hint discontinuity t in
      let (u, m) = admit_presentation fp ext t adaptive context n in
      let (eu, cu, wu) = presentation-Accounts t adaptive context n in
      let (v, k) = admit_retirement fp ext u answers.fence warming m in
      let (ev, cv, wv) = retirement-Accounts u answers.fence warming m in
      let plain : v.conservative_cross_device_sync ≡ false = cv ∙ cu ∙ ct ∙ h in
      let (ew, cw, ww) = reacquire-Accounts v adaptive k plain in
      (ew ∙ ev ∙ eu ∙ et, cw ∙ cv ∙ cu ∙ ct, ww ∙ wv ∙ wu ∙ wt)

  -- A stage before the admission: it counts nothing as lost.
  abbrev Keeps : Runtime S D → Runtime S D → Type 0
  Keeps s t =
      (lost t.metrics ≡ lost s.metrics)
      × (t.conservative_cross_device_sync ≡ s.conservative_cross_device_sync)

  break_epoch-Keeps :
      (conf : Configuration S) (reset_scheduler : Bool) (s : Runtime S D)
      → Keeps s (break_epoch fp ext conf reset_scheduler s)
  unfolding break_epoch arm_reprime reset_adaptive_source_epoch
  break_epoch-Keeps conf reset_scheduler s = ground arith

  note_deadline_error-Keeps : (s : Runtime S D) → Keeps s (note_deadline_error fp ext s)
  unfolding note_deadline_error
  note_deadline_error-Keeps s = ground arith

  -- The arrival keeps the counts or, at a break, drops the plan with them.
  abbrev Arrives : Runtime S D → Counts → Runtime S D × Counts → Type 0
  Arrives s c (t, d) = Keeps s t × (c.generating ≡ c.planned → d.generating ≡ d.planned)

  follow_timeline-Arrives :
      (conf : Configuration S) (interval : ℤ) (transition : Bool) (arrival : ℕ) (s : Runtime S D)
      (c : Counts)
      → Arrives s c (follow_timeline fp ext conf interval transition arrival s c)
  unfolding follow_timeline observe_arrival
  follow_timeline-Arrives conf interval transition arrival s c =
      let sample = Timeline.observe ext s.timeline arrival interval false transition in
      let t : Runtime S D = record s { timeline = sample.0; current_sample = sample.1 } in
      let (bl, bc) = break_epoch-Keeps conf true t in
      let (nl, nc) = note_deadline_error-Keeps (break_epoch fp ext conf true t) in
      if_cases (Arrives s c) (is_discontinuity conf s)
        (λ _. (break_epoch-Keeps conf false s, λ e. e))
        λ _.
          if_cases (Arrives s c)
            (s.current_sample.valid && not sample.1.valid && ltb_ℤ (pos 0) interval)
            (λ _. ((nl ∙ bl, nc ∙ bc), λ _. refl)) λ _. (note_deadline_error-Keeps t, λ e. e)

  prepare_cycle-Keeps :
      (conf : Configuration S) (answers : Answers) (s : Runtime S D)
      → Keeps s (prepare_cycle fp ext conf answers s)
        × ((prepare_cycle fp ext conf answers s).flow_startup_seed_pending
            ≡ s.flow_startup_seed_pending)
  unfolding prepare_cycle observe_baseline hint_scheduler measure_source configure_classes
  prepare_cycle-Keeps conf answers s = ((refl, refl), refl)

  plan_frames-Keeps :
      (conf : Configuration S) (interval : ℤ) (s : Runtime S D)
      → s.flow_startup_seed_pending ≡ false
      → Keeps s (plan_frames fp ext conf interval s).0
        × ((plan_frames fp ext conf interval s).1.generating
            ≡ (plan_frames fp ext conf interval s).1.planned)
  unfolding plan_frames startup_seed_history_only
  plan_frames-Keeps conf interval s unseeded = ground arith

  -- On a device that is not generation-first, and without a startup seed, the frames that the
  -- admission of a cycle takes from its plan are exactly the ones that it counts as late or as
  -- beyond the capacity of the swapchain, modulo the 64 bits of the counters.
  pub plan_cycle-lost :
      (conf : Configuration S) (answers : Answers) (s : Runtime S D)
      → s.conservative_cross_device_sync ≡ false
      → s.flow_startup_seed_pending ≡ false
      → let r = plan_cycle fp ext conf answers s in
        (lost r.0.metrics + r.1.counts.generating) % 2 ^ 64
        ≡ (lost s.metrics + r.1.counts.planned) % 2 ^ 64
  unfolding plan_cycle finish_cycle decide_cycle settle_batch
  plan_cycle-lost conf answers s plain unseeded =
      let interval = source_interval s answers.cycle_start in
      let configured =
        measure_source fp ext answers.cycle_start (configure_classes fp ext conf s) in
      let hint_valid = is_hint_valid fp ext conf interval configured in
      let hint = generation_hint fp ext conf interval configured in
      let transition = is_flow_transition conf s in
      let p = prepare_cycle fp ext conf answers s in
      let ((pl, pc), ps) = prepare_cycle-Keeps conf answers s in
      let ((tl, tc), all) = plan_frames-Keeps conf interval p (ps ∙ unseeded) in
      let t = (plan_frames fp ext conf interval p).0 in
      let c = (plan_frames fp ext conf interval p).1 in
      let arrival = answers.source_arrival_time_ns in
      let ((ul, uc), same) = follow_timeline-Arrives conf interval transition arrival t c in
      let u = (follow_timeline fp ext conf interval transition arrival t c).0 in
      let d = (follow_timeline fp ext conf interval transition arrival t c).1 in
      let (counted, kept, warm) =
        admit_frames-Accounts conf interval hint_valid hint (is_discontinuity conf t) answers u
          d.generating (uc ∙ tc ∙ pc ∙ plain) in
      let entering : lost u.metrics + d.generating ≡ lost s.metrics + d.planned =
        omega (arith, ul, tl, pl, same all) in
      counted ∙ ap (λ n. n % 2 ^ 64) entering
