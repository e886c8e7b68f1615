-- ===== src/Flow/Invariant.antt =====
-- What holds of an AdaptiveFlowController between two calls.
use lsfg_vk_android.Common.{
  ℕ, ◌+◌, ◌<◌, ◌≡◌, Bool, true, false, arith, min-pred, ltb→lt, &&-right, ◌⊎◌,
}
use lsfg_vk_android.Float.{Floats}
use lsfg_vk_android.Flow.Types.{Observation, Controller}
use lsfg_vk_android.Flow.Presets.{size}
use lsfg_vk_android.Flow.Lifecycle.{origin}
use lsfg_vk_android.Flow.Signals.{Signals, measure, explore, signals, publish}
use lsfg_vk_android.Flow.Observe.{
  clear_telemetry, evidence_seconds, note_transition, hold_transition, settle_transition,
  reject_sample, wait_for_scheduler, hold_scheduler, observe_settled, observe_scheduled,
  observe_valid, observe_enabled, observe,
}
use lsfg_vk_android.Flow.Observe.Trials.{scale_at, judge_recovery, judge_downstep}
use lsfg_vk_android.Flow.Observe.Actuate.{decide, may_lower, may_raise, has_pressure}

-- The indices of a controller over a preset of n states. At most one trial runs, and it runs
-- next to the state that it may return to.
pub record Indices (n index : ℕ) (trying_lower : Bool) (above : ℕ) (trying_higher : Bool)
    (below : ℕ) : Type 0 where
  pub in_range : index < n
  pub one_trial : trying_higher ≡ true → trying_lower ≡ false
  pub lower_adjacent : trying_lower ≡ true → index ≡ above + 1
  pub higher_adjacent : trying_higher ≡ true → (below ≡ index + 1) × (below < n)

-- A move of the index in one observation.
abbrev pub Move : ℕ → ℕ → Bool → Type 0
Move i j changed =
    ((changed ≡ false) × (j ≡ i))
    ⊎ (((changed ≡ true) × (j ≡ i + 1)) ⊎ ((changed ≡ true) × (i ≡ j + 1)))

module _ {S D : Type 0} (fp : Floats S D) where
  abbrev pub HasIndices : Controller S D → Type 0
  HasIndices s =
      Indices (size s.preset) s.telemetry.state_index s.downstep.evaluation_active
        s.downstep.previous_index s.recovery.evaluation_active s.recovery.previous_index

  abbrev pub HasScale : Controller S D → Type 0
  HasScale s = s.telemetry.current_scale ≡ scale_at fp s.preset s.telemetry.state_index

  -- The selected scale is the state of the preset at the index.
  pub record IsCoherent (s : Controller S D) : Type 0 where
    pub indices : HasIndices s
    pub scale : HasScale s

  -- What a step from s to t shows.
  pub record Advances (s t : Controller S D) : Type 0 where
    pub coherent : IsCoherent t
    pub move : Move s.telemetry.state_index t.telemetry.state_index t.telemetry.changed

  judge_recovery-Advances :
      (s : Controller S D) (o : Observation D) (evidence : D) (g : Signals)
      → s.recovery.evaluation_active ≡ true
      → s.telemetry.changed ≡ false
      → IsCoherent s
      → Advances s (judge_recovery fp s o evidence g)
  unfolding judge_recovery
  judge_recovery-Advances s o evidence g a c h =
      ground (arith, min-pred s.recovery.previous_index (size s.preset))

  judge_downstep-Advances :
      (s : Controller S D) (o : Observation D) (g : Signals)
      → s.downstep.evaluation_active ≡ true
      → s.telemetry.changed ≡ false
      → IsCoherent s
      → Advances s (judge_downstep fp s o g)
  unfolding judge_downstep
  judge_downstep-Advances s o g a c h =
      ground (arith, min-pred s.downstep.previous_index (size s.preset))

  pub may_lower-lt :
      (s : Controller S D) (g : Signals)
      → may_lower fp s g ≡ true
      → s.telemetry.state_index + 1 < size s.preset
  unfolding may_lower
  may_lower-lt s g h = ltb→lt _ _ (&&-right (has_pressure g) _ h)

  pub may_raise-pos :
      (s : Controller S D) (o : Observation D) (g : Signals)
      → may_raise fp s o g ≡ true
      → 0 < s.telemetry.state_index
  unfolding may_raise
  may_raise-pos s o g h = ground arith

  decide-Advances :
      (s : Controller S D) (o : Observation D) (evidence : D) (g : Signals)
      → s.downstep.evaluation_active ≡ false
      → s.recovery.evaluation_active ≡ false
      → s.telemetry.changed ≡ false
      → IsCoherent s
      → Advances s (decide fp s o evidence g)
  unfolding decide
  decide-Advances s o evidence g a b c h = ground (
    arith,
    min-pred (s.telemetry.state_index + 1) (size s.preset),
    may_lower-lt s g,
    may_raise-pos (record s { pressure_seconds = origin fp }) o g,
  )

  observe_settled-Advances :
      (s : Controller S D) (o : Observation D) (evidence : D) (g : Signals)
      → s.recovery.evaluation_active ≡ false
      → s.telemetry.changed ≡ false
      → IsCoherent s
      → Advances s (observe_settled fp s o evidence g)
  unfolding observe_settled
  observe_settled-Advances s o evidence g a c h =
      ground (arith, judge_downstep-Advances s o g, decide-Advances s o evidence g)

  observe_scheduled-Advances :
      (s : Controller S D) (o : Observation D) (evidence : D) (g : Signals)
      → s.recovery.evaluation_active ≡ false
      → s.telemetry.changed ≡ false
      → IsCoherent s
      → Advances s (observe_scheduled fp s o evidence g)
  unfolding observe_scheduled hold_scheduler wait_for_scheduler
  observe_scheduled-Advances s o evidence g a c h = ground (
    arith,
    observe_settled-Advances s o evidence g,
    observe_settled-Advances (hold_scheduler fp s evidence) o evidence g,
  )

  observe_valid-Advances :
      (s : Controller S D) (o : Observation D) (evidence : D)
      → s.telemetry.changed ≡ false
      → IsCoherent s
      → Advances s (observe_valid fp s o evidence)
  unfolding observe_valid explore measure publish
  observe_valid-Advances s o evidence c h =
      let t = explore fp (measure fp s o) o in
      let g = signals fp t o in
      let u = publish fp t o g in
      ground
        (arith, judge_recovery-Advances u o evidence g, observe_scheduled-Advances u o evidence g)

  observe_enabled-Advances :
      (s : Controller S D) (o : Observation D) (evidence : D)
      → s.telemetry.changed ≡ false
      → IsCoherent s
      → Advances s (observe_enabled fp s o evidence)
  unfolding observe_enabled note_transition hold_transition settle_transition reject_sample
  observe_enabled-Advances s o evidence c h =
      ground (arith, observe_valid-Advances (note_transition fp s o) o evidence)

  -- An observation keeps a controller coherent. It moves the selected state by at most one
  -- position, and reports a change exactly when it moves it.
  pub observe-Advances :
      (s : Controller S D) (o : Observation D) → IsCoherent s → Advances s (observe fp s o)
  unfolding observe clear_telemetry
  observe-Advances s o h =
      let t = clear_telemetry fp s in
      let evidence = evidence_seconds fp o.elapsed in
      ground (
        arith,
        observe_enabled-Advances
            (record t { observed_seconds = fp.double.add s.observed_seconds evidence }) o evidence,
      )
