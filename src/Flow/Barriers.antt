-- ===== src/Flow/Barriers.antt =====
-- What an AdaptiveFlowController does not do: while it is disabled, during a transition of the
-- flow graph, on invalid samples, and, with no trial running, in its cooldown and in the hold of a
-- rejected quality step.
use lsfg_vk_android.Common.{◌+◌, ◌≡◌, true, false, arith, ◌⊎◌, min-pred}
use lsfg_vk_android.Float.{Floats}
use lsfg_vk_android.Flow.Types.{
  Observation, Controller, disabled, flow_transition, flow_transition_settle,
}
use lsfg_vk_android.Flow.Constants.{flow_transition_settle_seconds}
use lsfg_vk_android.Flow.Lifecycle.{origin}
use lsfg_vk_android.Flow.Signals.{Signals, measure, explore, signals, publish}
use lsfg_vk_android.Flow.Observe.Actuate.{decide, is_retry_blocked}
use lsfg_vk_android.Flow.Presets.{size}
use lsfg_vk_android.Flow.Invariant.{may_lower-lt, may_raise-pos}
use lsfg_vk_android.Flow.Observe.{
  clear_telemetry, evidence_seconds, note_transition, hold_transition, settle_transition,
  reject_sample, wait_for_scheduler, hold_scheduler, observe_settled, observe_scheduled,
  observe_valid, observe_enabled, observe,
}

module _ {S D : Type 0} (fp : Floats S D) where
  -- The selected state and scale stay, and the trials that run are the same.
  abbrev pub Keeps : Controller S D → Controller S D → Type 0
  Keeps s t =
      (t.telemetry.state_index ≡ s.telemetry.state_index)
      × (t.telemetry.current_scale ≡ s.telemetry.current_scale)
      × (t.telemetry.changed ≡ false)
      × (t.downstep.evaluation_active ≡ s.downstep.evaluation_active)
      × (t.recovery.evaluation_active ≡ s.recovery.evaluation_active)

  -- No evidence for a move is left.
  abbrev pub HasNoEvidence : Controller S D → Type 0
  HasNoEvidence t = (t.pressure_seconds ≡ origin fp) × (t.headroom_seconds ≡ origin fp)

  -- A disabled controller keeps all but its telemetry.
  pub observe-disabled :
      (s : Controller S D) (o : Observation D)
      → s.enabled ≡ false
      → Keeps s (observe fp s o)
        × ((observe fp s o).telemetry.reason ≡ disabled)
        × (record (observe fp s o) { telemetry = s.telemetry } ≡ s)
  unfolding observe clear_telemetry
  observe-disabled s o h = ground arith

  -- While the flow graph changes, nothing moves, the evidence is dropped, a running trial
  -- starts again, and the barrier is extended from this sample.
  pub observe-flow_transition :
      (s : Controller S D) (o : Observation D)
      → s.enabled ≡ true
      → o.flow_transition ≡ true
      → let t = observe fp s o in
        Keeps s t
        × HasNoEvidence t
        × (t.telemetry.reason ≡ flow_transition)
        × (t.flow_transition_settle_until_seconds
            ≡ fp.double.add t.observed_seconds (flow_transition_settle_seconds fp))
        × ((s.downstep.evaluation_active ≡ false)
            ⊎ (t.downstep.evaluation_started_seconds ≡ t.observed_seconds))
        × ((s.recovery.evaluation_active ≡ false)
            ⊎ (t.recovery.evaluation_started_seconds ≡ t.observed_seconds))
  unfolding observe clear_telemetry observe_enabled note_transition hold_transition
  observe-flow_transition s o on h = ground arith

  -- The clock of the observation.
  abbrev pub now : Controller S D → Observation D → D
  now s o = fp.double.add s.observed_seconds (evidence_seconds fp o.elapsed)

  -- After the transition the barrier holds until its deadline.
  pub observe-flow_settle :
      (s : Controller S D) (o : Observation D)
      → s.enabled ≡ true
      → o.flow_transition ≡ false
      → s.flow_transition_hold_active ≡ false
      → fp.double.lt (now s o) s.flow_transition_settle_until_seconds ≡ true
      → let t = observe fp s o in
        Keeps s t
        × HasNoEvidence t
        × (t.telemetry.reason ≡ flow_transition_settle)
        × (t.flow_transition_settle_until_seconds ≡ s.flow_transition_settle_until_seconds)
  unfolding observe clear_telemetry observe_enabled note_transition settle_transition
  observe-flow_settle s o on f hold h = ground arith

  -- A sample that is not valid moves nothing, whatever pressure it claims.
  pub observe-invalid :
      (s : Controller S D) (o : Observation D)
      → o.valid ≡ false
      → s.enabled ≡ true
      → Keeps s (observe fp s o) × HasNoEvidence (observe fp s o)
  unfolding observe clear_telemetry observe_enabled note_transition settle_transition
      hold_transition reject_sample
  observe-invalid s o v on = ground arith

  observe_settled-cooldown :
      (s : Controller S D) (o : Observation D) (evidence : D) (g : Signals)
      → s.downstep.evaluation_active ≡ false
      → s.telemetry.changed ≡ false
      → fp.double.lt s.observed_seconds s.cooldown_until_seconds ≡ true
      → Keeps s (observe_settled fp s o evidence g)
  unfolding observe_settled
  observe_settled-cooldown s o evidence g d c h = ground arith

  observe_valid-cooldown :
      (s : Controller S D) (o : Observation D) (evidence : D)
      → s.downstep.evaluation_active ≡ false
      → s.recovery.evaluation_active ≡ false
      → s.telemetry.changed ≡ false
      → fp.double.lt s.observed_seconds s.cooldown_until_seconds ≡ true
      → Keeps s (observe_valid fp s o evidence)
  unfolding observe_valid explore measure publish observe_scheduled hold_scheduler
      wait_for_scheduler
  observe_valid-cooldown s o evidence d r c h =
      let t = explore fp (measure fp s o) o in
      let g = signals fp t o in
      let u = publish fp t o g in
      ground (
        arith,
        observe_settled-cooldown u o evidence g,
        observe_settled-cooldown (hold_scheduler fp u evidence) o evidence g,
      )

  -- While no trial of a state runs, an observation before the end of the cooldown keeps the selected
  -- state and scale and starts no trial.
  pub observe-cooldown :
      (s : Controller S D) (o : Observation D)
      → s.downstep.evaluation_active ≡ false
      → s.recovery.evaluation_active ≡ false
      → fp.double.lt (now s o) s.cooldown_until_seconds ≡ true
      → Keeps s (observe fp s o)
  unfolding observe clear_telemetry observe_enabled note_transition settle_transition
      hold_transition reject_sample
  observe-cooldown s o d r h =
      let t = clear_telemetry fp s in
      let u : Controller S D = record t { observed_seconds = now s o } in
      ground
        (arith, observe_valid-cooldown (note_transition fp u o) o (evidence_seconds fp o.elapsed))

  -- The state does not rise: its index stays or grows by one.
  abbrev pub DoesNotRise : Controller S D → Controller S D → Type 0
  DoesNotRise s t =
      (t.telemetry.state_index ≡ s.telemetry.state_index)
      ⊎ (t.telemetry.state_index ≡ s.telemetry.state_index + 1)

  decide-retry_blocked :
      (s : Controller S D) (o : Observation D) (evidence : D) (g : Signals)
      → o.adaptive_framegen_mode ≡ true
      → fp.double.lt s.observed_seconds s.recovery.retry_blocked_until_seconds ≡ true
      → DoesNotRise s (decide fp s o evidence g)
  unfolding decide is_retry_blocked
  decide-retry_blocked s o evidence g a h = ground (
    arith,
    may_lower-lt fp s g,
    min-pred (s.telemetry.state_index + 1) (size s.preset),
    may_raise-pos fp (record s { pressure_seconds = origin fp }) o g,
  )

  observe_settled-retry_blocked :
      (s : Controller S D) (o : Observation D) (evidence : D) (g : Signals)
      → s.downstep.evaluation_active ≡ false
      → o.adaptive_framegen_mode ≡ true
      → fp.double.lt s.observed_seconds s.recovery.retry_blocked_until_seconds ≡ true
      → DoesNotRise s (observe_settled fp s o evidence g)
  unfolding observe_settled
  observe_settled-retry_blocked s o evidence g d a h =
      ground (arith, decide-retry_blocked s o evidence g)

  observe_valid-retry_blocked :
      (s : Controller S D) (o : Observation D) (evidence : D)
      → s.downstep.evaluation_active ≡ false
      → s.recovery.evaluation_active ≡ false
      → o.adaptive_framegen_mode ≡ true
      → fp.double.lt s.observed_seconds s.recovery.retry_blocked_until_seconds ≡ true
      → DoesNotRise s (observe_valid fp s o evidence)
  unfolding observe_valid explore measure publish observe_scheduled hold_scheduler
      wait_for_scheduler
  observe_valid-retry_blocked s o evidence d r a h =
      let t = explore fp (measure fp s o) o in
      let g = signals fp t o in
      let u = publish fp t o g in
      ground (
        arith,
        observe_settled-retry_blocked u o evidence g,
        observe_settled-retry_blocked (hold_scheduler fp u evidence) o evidence g,
      )

  -- While no trial of a state runs, an observation under adaptive frame generation before the end of
  -- the hold of a rejected quality step makes no quality step, whatever headroom it shows: the
  -- selected state stays or goes one down.
  pub observe-retry_blocked :
      (s : Controller S D) (o : Observation D)
      → s.downstep.evaluation_active ≡ false
      → s.recovery.evaluation_active ≡ false
      → o.adaptive_framegen_mode ≡ true
      → fp.double.lt (now s o) s.recovery.retry_blocked_until_seconds ≡ true
      → DoesNotRise s (observe fp s o)
  unfolding observe clear_telemetry observe_enabled note_transition settle_transition
      hold_transition reject_sample
  observe-retry_blocked s o d r a h =
      let t = clear_telemetry fp s in
      let u : Controller S D = record t { observed_seconds = now s o } in
      ground (
        arith,
        observe_valid-retry_blocked (note_transition fp u o) o (evidence_seconds fp o.elapsed),
      )
