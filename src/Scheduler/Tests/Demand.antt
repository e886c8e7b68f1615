-- ===== src/Scheduler/Tests/Demand.antt =====
-- AdaptiveFrameScheduler at concrete inputs.
use lsfg_vk_android.Common.{ℕ, ◌*◌, ◌≡◌, refl, true, false, List, [], ◌∷◌, arith, repeat, ◌⊎◌, inr}
use lsfg_vk_android.Common.Int.{pos}
use lsfg_vk_android.Float.Fixed.{Fixed, nano, fixed_floats}
use lsfg_vk_android.Scheduler.Frame.{
  Scheduler, construct, reset_runtime_state, default_scheduler, never,
}
use lsfg_vk_android.Scheduler.Frame.Cost.{update_cost_limit}
use lsfg_vk_android.Scheduler.Frame.Plan.{plan}
use lsfg_vk_android.Scheduler.Frame.Bounds.{
  Call, configures, hints, puts_first, plans, resets, IsWindow, IsLimited, Plans, plan-Plans, run,
  construct-run-bounds,
}
use lsfg_vk_android.Scheduler.Frame.Demand.{
  IsWarranted, is_unmet, unmet_since, allowed_samples, update_cost_limit-raises, stabilize_all,
  stabilize_all-locked,
}

-- n / 1000.
abbrev milli : ℕ → Fixed
milli n = nano (pos (n * 1_000_000))

-- A target of 120 frames per second, at most three generated for one source frame.
abbrev started : Scheduler Fixed
started = construct fixed_floats 120 3

started-IsLimited : IsLimited fixed_floats started
unfolding construct reset_runtime_state
started-IsLimited = record {
  cost_le = omega arith;
  cost_pos = inr (omega arith);
  hint_le = omega arith;
}

started-IsWindow : IsWindow fixed_floats started
unfolding construct reset_runtime_state
started-IsWindow = record { nine = refl; cursor_lt = omega arith; count_le = omega arith }

plan-Plans_example : Plans fixed_floats started (plan fixed_floats started (pos 33_000_000) false)
plan-Plans_example =
    plan-Plans fixed_floats started (pos 33_000_000) false started-IsLimited started-IsWindow

-- 30 frames per second on the way to 120.
abbrev calls : List (Call Fixed)
calls =
    plans (pos 33_000_000) false
    ∷ plans (pos 33_000_000) false
    ∷ hints 5 true
    ∷ puts_first true
    ∷ plans (pos 33_000_000) false
    ∷ configures 60 2
    ∷ plans (pos 33_000_000) true
    ∷ resets
    ∷ plans (pos 33_000_000) false
    ∷ []

construct-run-bounds_example :
    IsLimited fixed_floats (run fixed_floats started calls)
    × IsWindow fixed_floats (run fixed_floats started calls)
construct-run-bounds_example = construct-run-bounds fixed_floats 120 3 calls

-- A demand for three frames that has waited since 0.1 s.
abbrev waiting : Scheduler Fixed
waiting = record (default_scheduler fixed_floats) {
  max_generated_frames = 3;
  cost_limit = 1;
  observed_time_seconds = milli 800;
  unmet_demand_since_seconds = milli 100;
}

update_cost_limit-raises_example :
    let t = update_cost_limit fixed_floats waiting (milli 3_000) in
    ((is_unmet fixed_floats waiting (milli 3_000) ≡ false)
      × (t.cost_limit ≡ 1)
      × (t.unmet_demand_since_seconds ≡ never fixed_floats)
      × (t.capacity_raise_samples ≡ 0))
    ⊎ (((is_unmet fixed_floats waiting (milli 3_000) ≡ true)
          × IsWarranted fixed_floats waiting
          × (t.cost_limit ≡ 2)
          × (t.telemetry.cost_raised ≡ true)
          × (t.unmet_demand_since_seconds ≡ never fixed_floats)
          × (t.capacity_raise_samples ≡ 0))
        ⊎ ((is_unmet fixed_floats waiting (milli 3_000) ≡ true)
            × (¬ IsWarranted fixed_floats waiting)
            × (t.cost_limit ≡ 1)
            × (t.unmet_demand_since_seconds ≡ unmet_since fixed_floats waiting)
            × (t.capacity_raise_samples ≡ allowed_samples fixed_floats waiting)))
update_cost_limit-raises_example =
    update_cost_limit-raises fixed_floats waiting (milli 3_000) refl (omega arith) (omega arith)

abbrev locked : Scheduler Fixed
locked = record (default_scheduler fixed_floats) {
  max_generated_frames = 3;
  integer_density_locked = true;
  locked_integer_density = 2;
  integer_density_release_samples = 2;
}

abbrev demands : List Fixed
demands = milli 900 ∷ milli 3_000 ∷ milli 2_050 ∷ milli 100 ∷ []

stabilize_all-locked_example :
    stabilize_all fixed_floats locked demands ≡ repeat (nano (pos 2_000_000_000)) 4
stabilize_all-locked_example = stabilize_all-locked fixed_floats locked demands refl (omega arith)

-- Three samples near two.
abbrev near_two : Scheduler Fixed
near_two = record (default_scheduler fixed_floats) {
  max_generated_frames = 3;
  integer_density_candidate = 2;
  integer_density_candidate_samples = 3;
}
