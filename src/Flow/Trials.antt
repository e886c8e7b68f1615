-- ===== src/Flow/Trials.antt =====
-- How an AdaptiveFlowController judges a lower state that it tries.
use lsfg_vk_android.Common.{◌≡◌, Bool, true, false, arith, min-pred, ◌⊎◌}
use lsfg_vk_android.Float.{Floats}
use lsfg_vk_android.Flow.Types.{
  Observation, Controller, downstep_reverted, downstep_benefit_confirmed, evaluating_downstep,
}
use lsfg_vk_android.Flow.Presets.{size}
use lsfg_vk_android.Flow.Constants.{downstep_no_benefit_hold_seconds}
use lsfg_vk_android.Flow.Signals.{Signals}
use lsfg_vk_android.Flow.Observe.Trials.{has_benefit, evaluation_seconds, judge_downstep}
use lsfg_vk_android.Flow.Invariant.{IsCoherent}
use lsfg_vk_android.Flow.Benefits.{IsWorth, has_benefit-cases}

module _ {S D : Type 0} (fp : Floats S D) where
  open fp.double use {add, sub, lt}

  -- The time since the trial began, against the period of the trial.
  abbrev pub is_early : Controller S D → Bool
  is_early s =
      lt (sub s.observed_seconds s.downstep.evaluation_started_seconds)
        (evaluation_seconds fp s.downstep)

  abbrev pub IsKeptWorth : Controller S D → Observation D → Signals → Type 0
  IsKeptWorth s o g = IsWorth fp s.downstep s.telemetry.pressure_ratio o g

  -- A trial goes on for its period and remembers a benefit. Then it is over: with a benefit the
  -- lower state is kept, without one the controller returns to the state before it and waits for
  -- the hold.
  abbrev pub Judges : Controller S D → Observation D → Signals → Controller S D → Type 0
  Judges s o g t =
      ((is_early s ≡ true)
        × (t.downstep.evaluation_active ≡ true)
        × (((t.downstep.benefit_seen ≡ true) × IsKeptWorth s o g)
            ⊎ ((t.downstep.benefit_seen ≡ false) × (¬ IsKeptWorth s o g)))
        × (t.telemetry.state_index ≡ s.telemetry.state_index)
        × (t.telemetry.reason ≡ evaluating_downstep))
      ⊎ (((is_early s ≡ false)
            × IsKeptWorth s o g
            × (t.downstep.evaluation_active ≡ false)
            × (t.telemetry.state_index ≡ s.telemetry.state_index)
            × (t.telemetry.reason ≡ downstep_benefit_confirmed)
            × (t.cooldown_until_seconds ≡ s.cooldown_until_seconds))
          ⊎ ((is_early s ≡ false)
              × (¬ IsKeptWorth s o g)
              × (t.downstep.evaluation_active ≡ false)
              × (t.telemetry.state_index ≡ s.downstep.previous_index)
              × (t.telemetry.reason ≡ downstep_reverted)
              × (t.cooldown_until_seconds
                  ≡ add s.observed_seconds (downstep_no_benefit_hold_seconds fp))))

  judge_by :
      (s : Controller S D) (o : Observation D) (g : Signals)
      → s.downstep.evaluation_active ≡ true
      → IsCoherent fp s
      → ((is_early s ≡ true)
          × ((judge_downstep fp s o g).downstep.evaluation_active ≡ true)
          × ((judge_downstep fp s o g).downstep.benefit_seen
              ≡ has_benefit fp s.downstep s.telemetry.pressure_ratio o g)
          × ((judge_downstep fp s o g).telemetry.state_index ≡ s.telemetry.state_index)
          × ((judge_downstep fp s o g).telemetry.reason ≡ evaluating_downstep))
        ⊎ (((is_early s ≡ false)
              × (has_benefit fp s.downstep s.telemetry.pressure_ratio o g ≡ true)
              × ((judge_downstep fp s o g).downstep.evaluation_active ≡ false)
              × ((judge_downstep fp s o g).telemetry.state_index ≡ s.telemetry.state_index)
              × ((judge_downstep fp s o g).telemetry.reason ≡ downstep_benefit_confirmed)
              × ((judge_downstep fp s o g).cooldown_until_seconds ≡ s.cooldown_until_seconds))
            ⊎ ((is_early s ≡ false)
                × (has_benefit fp s.downstep s.telemetry.pressure_ratio o g ≡ false)
                × ((judge_downstep fp s o g).downstep.evaluation_active ≡ false)
                × ((judge_downstep fp s o g).telemetry.state_index ≡ s.downstep.previous_index)
                × ((judge_downstep fp s o g).telemetry.reason ≡ downstep_reverted)
                × ((judge_downstep fp s o g).cooldown_until_seconds
                    ≡ add s.observed_seconds (downstep_no_benefit_hold_seconds fp))))
  unfolding judge_downstep evaluation_seconds
  judge_by s o g a h = ground (arith, min-pred s.downstep.previous_index (size s.preset))

  -- Before its period ends a lower state stays on trial, which remembers whether it is worth
  -- keeping. After it the state is kept if it is worth it, for a gain of a rate or a relief that
  -- counts or a target that is still missed, in this sample or an earlier one, and otherwise the
  -- state before the trial comes back for the hold.
  pub judge_downstep-Judges :
      (s : Controller S D) (o : Observation D) (g : Signals)
      → s.downstep.evaluation_active ≡ true
      → IsCoherent fp s
      → Judges s o g (judge_downstep fp s o g)
  judge_downstep-Judges s o g a h =
      let cases = has_benefit-cases fp s.downstep s.telemetry.pressure_ratio o g in
      let judged = judge_by s o g a h in ground arith
