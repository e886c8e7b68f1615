-- ===== src/Scheduler/Tests/Clock.antt =====
-- The scene guard and the source timeline at concrete inputs.
use lsfg_vk_android.Common.{ℕ, ◌≤◌, ◌≡◌, refl, true, false, List, [], ◌∷◌, arith, ◌⊎◌, min}
use native.Mathlib.Nat.{mul_right_comm, mul-le-mul_left}
use lsfg_vk_android.Common.Int.{pos, negsuc}
use lsfg_vk_android.Float.Fixed.{nano, nan, fixed_floats, fixed_extended}
use lsfg_vk_android.Scheduler.Guard.{Guard, arm, consume_source_only}
use lsfg_vk_android.Scheduler.Guard.Ramp.{limit_all, ramp, arm-ramp}
use lsfg_vk_android.Scheduler.Timeline.{Sample, Timeline, observe, synthetic_desired_time_ns}
use lsfg_vk_android.Scheduler.Timeline.Laws.{
  Anchors, observe-Anchors, IsContracting, synthetic_desired_time_ns-inside,
}

abbrev idle : Guard
idle = record { source_only_remaining = 0; generated_reacquire_remaining = 0 }

abbrev plans : List ℕ
plans = 3 ∷ 0 ∷ 3 ∷ 2 ∷ 1 ∷ 3 ∷ 3 ∷ 3 ∷ 3 ∷ []

arm-ramp_example :
    limit_all (consume_source_only (consume_source_only (arm idle true))) plans ≡ ramp 0 plans
arm-ramp_example = arm-ramp idle plans

-- The ramp of these plans: one frame for six batches, then two.
ramp-plans : ramp 0 plans ≡ 1 ∷ 0 ∷ 1 ∷ 1 ∷ 1 ∷ 1 ∷ 1 ∷ 2 ∷ 2 ∷ []
unfolding min
ramp-plans = refl

-- 60 frames per second.
abbrev running : Timeline
running = record {
  initialized = true;
  source_index = 7;
  source_desired_time_ns = 1_016_666_667;
  last_interval_ns = 16_666_667;
  predicted_interval_ns = 16_666_667;
}

observe-Anchors_example :
    Anchors fixed_extended running 1_018_000_000
      (pos 18_000_000)
      false
      (observe fixed_extended running 1_018_000_000 (pos 18_000_000) false false)
observe-Anchors_example =
    observe-Anchors fixed_extended running 1_018_000_000 (pos 18_000_000) false false

fixed-IsContracting : IsContracting fixed_floats fixed_extended
fixed-IsContracting n (nano (pos k)) a b =
    let bound = mul-le-mul_left {m = k} {n = 1_000_000_000} n (ground arith) in
    ground (arith, mul_right_comm n 1_000_000_000 k, bound)
fixed-IsContracting n (nano (negsuc k)) a b = absurd (ground arith)
fixed-IsContracting n nan a b = cc

abbrev half_way : Sample
half_way = record {
  source_index = 7;
  interval_ns = 16_666_666;
  previous_source_desired_time_ns = 1_000_000_000;
  source_desired_time_ns = 1_016_666_666;
  source_deadline_error_ns = pos 0;
  rebased = false;
  valid = true;
}

synthetic_desired_time_ns-inside_example :
    (synthetic_desired_time_ns fixed_floats fixed_extended half_way (nano (pos 500_000_000)) ≡ 0)
    ⊎ ((1_000_000_000
          ≤ synthetic_desired_time_ns fixed_floats fixed_extended half_way (nano (pos 500_000_000)))
        × (synthetic_desired_time_ns fixed_floats fixed_extended half_way (nano (pos 500_000_000))
            ≤ 1_016_666_666))
synthetic_desired_time_ns-inside_example =
    synthetic_desired_time_ns-inside fixed_floats fixed_extended fixed-IsContracting half_way
      (nano (pos 500_000_000)) (omega arith)
