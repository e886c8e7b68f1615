-- ===== src/Runtime/Runs.antt =====
-- The cycles of src/context.cpp one after the other, with the ends of epochs between them.
use lsfg_vk_android.Common.{◌-◌, ◌≤◌, Bool, true, arith, List, [], ◌∷◌, not, if_cases}
use lsfg_vk_android.Float.{Floats, Extended}
use lsfg_vk_android.Config.{Configuration}
use lsfg_vk_android.Runtime.{Runtime, Invalidation, context_recreate, timeline_discontinuity}
use lsfg_vk_android.Runtime.Reset.{reset_adaptive_source_epoch, enter_source_only_bypass}
use lsfg_vk_android.Runtime.Batch.{skip_busy_pass}
use lsfg_vk_android.Runtime.Epochs.{enter_source_only_bypass-resets}
use lsfg_vk_android.Runtime.Planning.{
  max_generated, configure_classes, measure_source, plan_frames, is_hint_valid, generation_hint,
  is_flow_transition, source_interval,
}
use lsfg_vk_android.Runtime.Arrival.{follow_timeline, is_discontinuity}
use lsfg_vk_android.Runtime.Cycle.{
  Answers, settle_batch, decide_cycle, prepare_cycle, finish_cycle, plan_cycle,
}
use lsfg_vk_android.Runtime.Bounds.{
  IsSound, prepare_cycle-IsSound, plan_frames-IsSound, follow_timeline-IsSound, reset_epoch-IsSound,
}
use lsfg_vk_android.Runtime.Admitted.{admit_frames-Leaves}

module _ {S D L : Type 0} (fp : Floats S D) (ext : Extended D L) where
  -- A cycle keeps the bounds of the scheduler and of the capacity tracker, plans at most the
  -- multiplier less one, and generates at most what it planned.
  pub plan_cycle-IsSound :
      (conf : Configuration S) (answers : Answers) (s : Runtime S D)
      → IsSound fp ext s
      → IsSound fp ext (plan_cycle fp ext conf answers s).0
        × ((plan_cycle fp ext conf answers s).1.counts.generating
            ≤ (plan_cycle fp ext conf answers s).1.counts.planned)
        × ((plan_cycle fp ext conf answers s).1.counts.planned ≤ conf.multiplier - 1)
  unfolding plan_cycle finish_cycle decide_cycle settle_batch
  plan_cycle-IsSound conf answers s h =
      let interval = source_interval s answers.cycle_start in
      let configured =
        measure_source fp ext answers.cycle_start (configure_classes fp ext conf s) in
      let hint_valid = is_hint_valid fp ext conf interval configured in
      let hint = generation_hint fp ext conf interval configured in
      let transition = is_flow_transition conf s in
      let (prepared, same) = prepare_cycle-IsSound fp ext conf answers s h in
      let p = prepare_cycle fp ext conf answers s in
      let (planning, limit, enough) = plan_frames-IsSound fp ext conf interval p prepared same in
      let t = (plan_frames fp ext conf interval p).0 in
      let c = (plan_frames fp ext conf interval p).1 in
      let arrival = answers.source_arrival_time_ns in
      let (followed, some_left, no_more) =
        follow_timeline-IsSound fp ext conf interval transition arrival t c planning enough in
      let u = (follow_timeline fp ext conf interval transition arrival t c).0 in
      let d = (follow_timeline fp ext conf interval transition arrival t c).1 in
      let discontinuity = is_discontinuity conf t in
      let (admitted, left) =
        admit_frames-Leaves fp ext conf interval hint_valid hint discontinuity answers u
          d.generating followed in
      let bound : max_generated conf ≤ conf.multiplier - 1 = ground arith in
      (admitted, omega arith, omega arith)

  -- What happens to the runtime: a cycle, the end of an epoch, the generation is switched off, or a
  -- frame finds its pass busy.
  pub data Event : Type 0 where
    cycles : Configuration S → Answers → Event
    breaks : Bool → Invalidation → Event
    bypasses : Event
    stalls : Event

  abbrev pub handle : Runtime S D → Event → Runtime S D
  handle s (cycles conf answers) = (plan_cycle fp ext conf answers s).0
  handle s (breaks reset_scheduler reason) = reset_adaptive_source_epoch fp s reset_scheduler reason
  handle s bypasses = enter_source_only_bypass fp s
  handle s stalls = skip_busy_pass fp s

  unfoldable pub run : Runtime S D → List Event → Runtime S D
  run s [] = s
  run s (e ∷ rest) = run (handle s e) rest

  handle-IsSound : (s : Runtime S D) (e : Event) → IsSound fp ext s → IsSound fp ext (handle s e)
  unfolding skip_busy_pass
  handle-IsSound s (cycles conf answers) h = (plan_cycle-IsSound conf answers s h).0
  handle-IsSound s (breaks reset_scheduler reason) h =
      reset_epoch-IsSound fp ext s reset_scheduler reason h
  handle-IsSound s bypasses h =
      rw (enter_source_only_bypass-resets fp s)
        (reset_epoch-IsSound fp ext s true context_recreate h)
  handle-IsSound s stalls h =
      let t : Runtime S D = record s { last_generated_frame_count = 0 } in
      if_cases (IsSound fp ext) (not s.conservative_cross_device_sync)
        (λ _. reset_epoch-IsSound fp ext t true timeline_discontinuity h) (λ _. h)

  run-IsSound :
      (s : Runtime S D) (events : List Event) → IsSound fp ext s → IsSound fp ext (run s events)
  unfolding run
  run-IsSound s [] h = h
  run-IsSound s (e ∷ rest) h = run-IsSound (handle s e) rest (handle-IsSound s e h)

  -- After any sequence of cycles, ends of epochs, switches to no generation and busy passes from a sound runtime,
  -- a cycle plans at most the multiplier less one, generates at most what it planned, and leaves the
  -- scheduler and the capacity tracker within their bounds, whatever the clocks, the fences and the
  -- configurations were.
  pub run-plan_cycle :
      (s : Runtime S D) (events : List Event) (conf : Configuration S) (answers : Answers)
      → IsSound fp ext s
      → let r = plan_cycle fp ext conf answers (run s events) in
        (r.1.counts.generating ≤ r.1.counts.planned)
        × (r.1.counts.planned ≤ conf.multiplier - 1)
        × IsSound fp ext r.0
  run-plan_cycle s events conf answers h =
      let (sound, left, planned) =
        plan_cycle-IsSound conf answers (run s events) (run-IsSound s events h) in
      (left, planned, sound)
