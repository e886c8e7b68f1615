-- ===== src/Scheduler/Guard.antt =====
-- AdaptiveSceneTransitionGuard: two source-only frames after a scene cut, then six batches of
-- at most one generated frame, six of at most two, and no cap after that.
pub mod Ramp
use lsfg_vk_android.Common.{
  ℕ, ◌-◌, ◌+◌, ◌^◌, Bool, true, false, if◌then◌else◌, ltb, ◌==◌, min, ◌||◌,
}

-- uint32_t counters; they are only counted down.
pub record Guard : Type 0 where
  pub source_only_remaining : ℕ
  pub generated_reacquire_remaining : ℕ

abbrev pub protected_source_reprime_frames : ℕ
protected_source_reprime_frames = 2

abbrev pub reacquire_cap_one_batches : ℕ
reacquire_cap_one_batches = 6

abbrev pub reacquire_cap_two_batches : ℕ
reacquire_cap_two_batches = 6

unfoldable pub arm : Guard → Bool → Guard
arm s enabled = record {
  source_only_remaining = if enabled then protected_source_reprime_frames else 0;
  generated_reacquire_remaining =
      if enabled then reacquire_cap_one_batches + reacquire_cap_two_batches else 0;
}

unfoldable pub reset : Guard → Guard
reset s = record { source_only_remaining = 0; generated_reacquire_remaining = 0 }

unfoldable pub source_only_required : Guard → Bool
source_only_required s = ltb 0 s.source_only_remaining

unfoldable pub consume_source_only : Guard → Guard
consume_source_only s =
    if ltb 0 s.source_only_remaining
    then record s { source_only_remaining = s.source_only_remaining - 1 }
    else s

-- std::numeric_limits<std::size_t>::max().
abbrev pub size_max : ℕ
size_max = 2 ^ 64 - 1

unfoldable pub generated_reacquire_cap : Guard → ℕ
generated_reacquire_cap s =
    if ltb 0 s.source_only_remaining
    then 0
    else if ltb reacquire_cap_two_batches s.generated_reacquire_remaining
    then 1
    else if ltb 0 s.generated_reacquire_remaining
    then 2
    else size_max

-- The new guard and the number of frames that may be generated.
unfoldable pub limit_generated : Guard → ℕ → Guard × ℕ
limit_generated s planned =
    if ltb 0 s.source_only_remaining
    then (s, 0)
    else if planned == 0 || s.generated_reacquire_remaining == 0
    then (s, planned)
    else (
      record s { generated_reacquire_remaining = s.generated_reacquire_remaining - 1 },
      min planned (if ltb reacquire_cap_two_batches s.generated_reacquire_remaining then 1 else 2),
    )
