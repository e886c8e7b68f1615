-- ===== src/Flow/Moves.antt =====
-- Why an observation moves the selected state of an AdaptiveFlowController.
use lsfg_vk_android.Common.{◌+◌, ◌≡◌, Bool, true, false, ◌||◌, arith, min-pred, &&-left, ◌⊎◌}
use lsfg_vk_android.Float.{Floats}
use lsfg_vk_android.Flow.Types.{
  Observation, Controller, downstep_reverted, recovery_pacing_reverted, sustained_headroom,
}
use lsfg_vk_android.Flow.Presets.{size}
use lsfg_vk_android.Flow.Lifecycle.{origin}
use lsfg_vk_android.Flow.Signals.{Signals, measure, explore, signals, publish}
use lsfg_vk_android.Flow.Observe.Trials.{judge_recovery, judge_downstep}
use lsfg_vk_android.Flow.Observe.Actuate.{has_pressure, may_lower, may_raise, decide}
use lsfg_vk_android.Flow.Observe.{
  clear_telemetry, evidence_seconds, note_transition, hold_transition, settle_transition,
  reject_sample, wait_for_scheduler, hold_scheduler, observe_settled, observe_scheduled,
  observe_valid, observe_enabled, observe,
}
use lsfg_vk_android.Flow.Invariant.{IsCoherent, may_lower-lt, may_raise-pos}

module _ {S D : Type 0} (fp : Floats S D) where
  -- The telemetry shows a pressure that the flow work can relieve. Thermal status and WSI
  -- pressure are not among them.
  abbrev pub has_shown_pressure : Controller S D → Bool
  has_shown_pressure t =
      t.telemetry.compute_pressure || t.telemetry.global_pressure || t.telemetry.output_pressure
      || t.telemetry.source_pressure || t.telemetry.exploratory_source_pressure

  abbrev pub Stays : Controller S D → Controller S D → Type 0
  Stays s t = (t.telemetry.state_index ≡ s.telemetry.state_index) × (t.telemetry.changed ≡ false)

  -- One step down, with no trial running before and a trial after.
  abbrev pub Lowers : Controller S D → Observation D → Controller S D → Type 0
  Lowers s o t =
      (t.telemetry.state_index ≡ s.telemetry.state_index + 1)
      × (t.telemetry.changed ≡ true)
      × (has_shown_pressure t ≡ true)
      × (o.valid ≡ true)
      × (s.downstep.evaluation_active ≡ false)
      × (s.recovery.evaluation_active ≡ false)
      × (t.downstep.evaluation_active ≡ true)
      × (t.downstep.previous_index ≡ s.telemetry.state_index)

  -- One step up under headroom, with no trial running before.
  abbrev pub Raises : Controller S D → Observation D → Controller S D → Type 0
  Raises s o t =
      (s.telemetry.state_index ≡ t.telemetry.state_index + 1)
      × (t.telemetry.changed ≡ true)
      × (t.telemetry.reason ≡ sustained_headroom)
      × (o.deadline_missed ≡ false)
      × (o.synthetic_drop_pressure ≡ false)
      × (s.downstep.evaluation_active ≡ false)
      × (s.recovery.evaluation_active ≡ false)

  -- A lower state on trial is given up for the state above it.
  abbrev pub Returns : Controller S D → Controller S D → Type 0
  Returns s t =
      (s.downstep.evaluation_active ≡ true)
      × (t.downstep.evaluation_active ≡ false)
      × (t.telemetry.state_index ≡ s.downstep.previous_index)
      × (s.telemetry.state_index ≡ t.telemetry.state_index + 1)
      × (t.telemetry.changed ≡ true)
      × (t.telemetry.reason ≡ downstep_reverted)

  -- A higher state on trial is given up for the state below it.
  abbrev pub Rejects : Controller S D → Controller S D → Type 0
  Rejects s t =
      (s.recovery.evaluation_active ≡ true)
      × (t.recovery.evaluation_active ≡ false)
      × (t.telemetry.state_index ≡ s.recovery.previous_index)
      × (t.telemetry.state_index ≡ s.telemetry.state_index + 1)
      × (t.telemetry.changed ≡ true)
      × (t.telemetry.reason ≡ recovery_pacing_reverted)

  abbrev pub Explains : Controller S D → Observation D → Controller S D → Type 0
  Explains s o t = Stays s t ⊎ (Lowers s o t ⊎ (Raises s o t ⊎ (Returns s t ⊎ Rejects s t)))

  -- The telemetry of s shows the signals g.
  abbrev IsPublished : Controller S D → Signals → Type 0
  IsPublished s g =
      (s.telemetry.compute_pressure ≡ g.compute_pressure)
      × (s.telemetry.global_pressure ≡ g.global_pressure)
      × (s.telemetry.output_pressure ≡ g.output_pressure)
      × (s.telemetry.source_pressure ≡ g.source_pressure)
      × (s.telemetry.exploratory_source_pressure ≡ g.exploratory_source_pressure)

  signals-wsi_flow :
      (s : Controller S D) (o : Observation D)
      → (signals fp s o).wsi_flow_pressure ≡ true
      → (signals fp s o).global_pressure ≡ true
  unfolding signals
  signals-wsi_flow s o h = ground arith

  may_lower-pressure :
      (s : Controller S D) (g : Signals)
      → IsPublished s g
      → (g.wsi_flow_pressure ≡ true → g.global_pressure ≡ true)
      → may_lower fp s g ≡ true
      → has_shown_pressure s ≡ true
  may_lower-pressure s g p w h =
      let pressed : has_pressure g ≡ true = unfold may_lower in &&-left (has_pressure g) _ h in
      ground (arith, pressed)

  may_raise-clean :
      (s : Controller S D) (o : Observation D) (g : Signals)
      → may_raise fp s o g ≡ true
      → (o.deadline_missed ≡ false) × (o.synthetic_drop_pressure ≡ false)
  unfolding may_raise
  may_raise-clean s o g h = ground arith

  decide-Explains :
      (s : Controller S D) (o : Observation D) (evidence : D) (g : Signals)
      → s.downstep.evaluation_active ≡ false
      → s.recovery.evaluation_active ≡ false
      → s.telemetry.changed ≡ false
      → o.valid ≡ true
      → IsPublished s g
      → (g.wsi_flow_pressure ≡ true → g.global_pressure ≡ true)
      → Explains s o (decide fp s o evidence g)
  unfolding decide
  decide-Explains s o evidence g a b c v p w = ground (
    arith,
    min-pred (s.telemetry.state_index + 1) (size s.preset),
    may_lower-lt fp s g,
    may_lower-pressure s g,
    may_raise-pos fp (record s { pressure_seconds = origin fp }) o g,
    may_raise-clean (record s { pressure_seconds = origin fp }) o g,
  )

  judge_recovery-Explains :
      (s : Controller S D) (o : Observation D) (evidence : D) (g : Signals)
      → s.recovery.evaluation_active ≡ true
      → s.telemetry.changed ≡ false
      → IsCoherent fp s
      → Explains s o (judge_recovery fp s o evidence g)
  unfolding judge_recovery
  judge_recovery-Explains s o evidence g a c h =
      ground (arith, min-pred s.recovery.previous_index (size s.preset))

  judge_downstep-Explains :
      (s : Controller S D) (o : Observation D) (g : Signals)
      → s.downstep.evaluation_active ≡ true
      → s.telemetry.changed ≡ false
      → IsCoherent fp s
      → Explains s o (judge_downstep fp s o g)
  unfolding judge_downstep
  judge_downstep-Explains s o g a c h =
      ground (arith, min-pred s.downstep.previous_index (size s.preset))

  observe_settled-Explains :
      (s : Controller S D) (o : Observation D) (evidence : D) (g : Signals)
      → s.recovery.evaluation_active ≡ false
      → s.telemetry.changed ≡ false
      → o.valid ≡ true
      → IsPublished s g
      → (g.wsi_flow_pressure ≡ true → g.global_pressure ≡ true)
      → IsCoherent fp s
      → Explains s o (observe_settled fp s o evidence g)
  unfolding observe_settled
  observe_settled-Explains s o evidence g a c v p w h =
      ground (arith, judge_downstep-Explains s o g, decide-Explains s o evidence g)

  observe_scheduled-Explains :
      (s : Controller S D) (o : Observation D) (evidence : D) (g : Signals)
      → s.recovery.evaluation_active ≡ false
      → s.telemetry.changed ≡ false
      → o.valid ≡ true
      → IsPublished s g
      → (g.wsi_flow_pressure ≡ true → g.global_pressure ≡ true)
      → IsCoherent fp s
      → Explains s o (observe_scheduled fp s o evidence g)
  unfolding observe_scheduled hold_scheduler wait_for_scheduler
  observe_scheduled-Explains s o evidence g a c v p w h = ground (
    arith,
    observe_settled-Explains s o evidence g,
    observe_settled-Explains (hold_scheduler fp s evidence) o evidence g,
  )

  observe_valid-Explains :
      (s : Controller S D) (o : Observation D) (evidence : D)
      → s.telemetry.changed ≡ false
      → o.valid ≡ true
      → IsCoherent fp s
      → Explains s o (observe_valid fp s o evidence)
  unfolding observe_valid explore measure publish
  observe_valid-Explains s o evidence c v h =
      let t = explore fp (measure fp s o) o in
      let g = signals fp t o in
      let u = publish fp t o g in
      ground (
        arith,
        signals-wsi_flow t o,
        judge_recovery-Explains u o evidence g,
        observe_scheduled-Explains u o evidence g,
      )

  observe_enabled-Explains :
      (s : Controller S D) (o : Observation D) (evidence : D)
      → s.telemetry.changed ≡ false
      → IsCoherent fp s
      → Explains s o (observe_enabled fp s o evidence)
  unfolding observe_enabled note_transition hold_transition settle_transition reject_sample
  observe_enabled-Explains s o evidence c h =
      ground (arith, observe_valid-Explains (note_transition fp s o) o evidence)

  -- Every observation of a coherent controller keeps the state, or moves it one position for
  -- one of four reasons: down under a shown pressure, up under headroom, or back from a trial.
  pub observe-Explains :
      (s : Controller S D) (o : Observation D) → IsCoherent fp s → Explains s o (observe fp s o)
  unfolding observe clear_telemetry
  observe-Explains s o h =
      let t = clear_telemetry fp s in
      let evidence = evidence_seconds fp o.elapsed in
      ground (
        arith,
        observe_enabled-Explains
            (record t { observed_seconds = fp.double.add s.observed_seconds evidence }) o evidence,
      )
