-- ===== src/Scheduler/Frame/Density.antt =====
-- The generation density of AdaptiveFrameScheduler: it locks to a whole number that the demand
-- stays near, and unlocks after sustained evidence.
use lsfg_vk_android.Common.{Bool, true, false, not, ◌&&◌, if◌then◌else◌, ltb, leb, ◌==◌}
use lsfg_vk_android.Float
use lsfg_vk_android.Float.{Floats}
use lsfg_vk_android.Scheduler.Frame.{Scheduler, bump, origin}

module _ {S D : Type 0} (fp : Floats S D) where
  open fp.double use {sub, le, abs, decimal}

  abbrev pub is_candidate : Scheduler D → D → Bool
  is_candidate s desired =
      let nearest = fp.round desired in
      le (decimal 1 0) nearest
      && le nearest (fp.of_nat s.max_generated_frames)
      && le (abs (sub desired nearest)) (decimal 10 2)

  abbrev pub drop_candidate : Scheduler D → Scheduler D
  drop_candidate s = record s {
    integer_density_candidate = 0;
    integer_density_candidate_samples = 0;
  }

  -- The part without a lock: four samples near one whole number lock it.
  unfoldable pub acquire_density : Scheduler D → D → Scheduler D × D
  acquire_density s desired =
      let candidate = fp.to_nat (fp.round desired) in
      let samples =
        if s.integer_density_candidate == candidate
        then bump s.integer_density_candidate_samples
        else 1 in
      if not (is_candidate s desired)
      then (drop_candidate s, desired)
      else if leb 4 samples
      then (
        record s {
          integer_density_locked = true;
          locked_integer_density = candidate;
          integer_density_candidate = 0;
          integer_density_candidate_samples = 0;
          integer_density_release_samples = 0;
          fractional_opportunity_phase = origin fp;
        },
        fp.of_nat candidate,
      )
      else (
        record s {
          integer_density_candidate = candidate;
          integer_density_candidate_samples = samples;
        },
        desired,
      )

  abbrev pub release_density : Scheduler D → Scheduler D
  release_density s = record s {
    integer_density_locked = false;
    locked_integer_density = 0;
    integer_density_release_samples = 0;
    integer_density_candidate = 0;
    integer_density_candidate_samples = 0;
    fractional_opportunity_phase = origin fp;
  }

  -- The part with a lock: eight samples away from it release it.
  unfoldable pub hold_density : Scheduler D → D → Scheduler D × D
  unfolding acquire_density
  hold_density s desired =
      let locked = fp.of_nat s.locked_integer_density in
      let released = acquire_density (release_density s) desired in
      if le (abs (sub desired locked)) (decimal 20 2)
      then (
        record s {
          integer_density_release_samples = 0;
          integer_density_candidate = 0;
          integer_density_candidate_samples = 0;
        },
        locked,
      )
      else if ltb (bump s.integer_density_release_samples) 8
      then (
        record s { integer_density_release_samples = bump s.integer_density_release_samples },
        locked,
      )
      else released

  unfoldable pub stabilize_generation_density : Scheduler D → D → Scheduler D × D
  unfolding hold_density acquire_density
  stabilize_generation_density s wanted =
      let desired = Float.clamp fp.double wanted (origin fp) (fp.of_nat s.max_generated_frames) in
      if s.integer_density_locked then hold_density s desired else acquire_density s desired
