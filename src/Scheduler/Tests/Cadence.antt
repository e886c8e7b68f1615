-- ===== src/Scheduler/Tests/Cadence.antt =====
-- The output cadence and the fixed baseline at concrete inputs.
use lsfg_vk_android.Common.{◌≡◌, refl, true, false, List, [], ◌∷◌}
use lsfg_vk_android.Common.Int.{pos}
use lsfg_vk_android.Float.Fixed.{fixed_floats}
use lsfg_vk_android.Scheduler.Cadence
use lsfg_vk_android.Scheduler.Cadence.{configure, begin_transition}
use lsfg_vk_android.Scheduler.Cadence.Confirmed
use lsfg_vk_android.Scheduler.Cadence.Confirmed.{
  Call, configures, observes, transitions, IsJudged, new-run-IsJudged, configure-unconfirmed,
}
use lsfg_vk_android.Scheduler.Baseline
use lsfg_vk_android.Scheduler.Baseline.{
  Observation, source_only, generated, observe, prime, refine, observe_other,
}
use lsfg_vk_android.Scheduler.Baseline.Trust
use lsfg_vk_android.Scheduler.Baseline.Trust.{has_clean_pair, new-run-baseline_valid}

-- 60 frames per second against a target of 120, and a transition.
abbrev calls : List Call
calls =
    configures true 120
    ∷ observes (pos 16_000_000) 1 0
    ∷ observes (pos 17_000_000) 1 1
    ∷ transitions
    ∷ observes (pos 16_000_000) 1 1
    ∷ []

new-run-IsJudged_example :
    IsJudged fixed_floats (Confirmed.run fixed_floats (Cadence.new fixed_floats) calls)
new-run-IsJudged_example = new-run-IsJudged fixed_floats calls refl refl

configure-unconfirmed_example :
    let t = configure fixed_floats (Cadence.new fixed_floats) true 120 in
    (t.targeted ≡ true)
    × (t.snapshot.valid ≡ false)
    × (t.sample_count ≡ 0)
    × (t.snapshot.target_satisfied_confirmed ≡ true)
    × ((begin_transition fixed_floats t).snapshot.target_satisfied_confirmed ≡ false)
configure-unconfirmed_example =
    configure-unconfirmed fixed_floats (Cadence.new fixed_floats) 120 refl

abbrev clean : Observation
clean = record {
  source_interval = pos 16_000_000;
  dispatched_generated_frames = 0;
  generation_allowed = true;
  previous = source_only;
}

abbrev mixed : Observation
mixed = record clean { previous = generated }

abbrev observations : List Observation
observations = clean ∷ mixed ∷ clean ∷ clean ∷ mixed ∷ []

new-run-baseline_valid_example :
    (Trust.run fixed_floats (Baseline.new fixed_floats) observations).telemetry.baseline_valid
    ≡ has_clean_pair fixed_floats false observations
new-run-baseline_valid_example = new-run-baseline_valid fixed_floats observations

-- The third and the fourth interval are such a pair.
observations-clean_pair : has_clean_pair fixed_floats false observations ≡ true
unfolding has_clean_pair
observations-clean_pair = refl
