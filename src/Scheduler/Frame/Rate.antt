-- ===== src/Scheduler/Frame/Rate.antt =====
-- The source cadence of AdaptiveFrameScheduler: a trimmed mean over the last nine intervals,
-- smoothed with a bounded step.
use lsfg_vk_android.Common.{
  ℕ, ◌+◌, ◌-◌, ◌%◌, Bool, true, not, ◌&&◌, if◌then◌else◌, leb, min, List, [], ◌∷◌, get_or, set,
  take, drop, ◌==◌,
}
use lsfg_vk_android.Float
use lsfg_vk_android.Float.{Floats}
use lsfg_vk_android.Scheduler.Frame.{Scheduler, source_cadence_window, bump, origin}

module _ {S D : Type 0} (fp : Floats S D) where
  open fp.double use {add, sub, mul, div, lt, le, decimal}

  -- std::sort, as insertion.
  unfoldable pub insert : D → List D → List D
  insert x [] = x ∷ []
  insert x (y ∷ ys) = if lt y x then y ∷ insert x ys else x ∷ y ∷ ys

  unfoldable pub sort : List D → List D
  unfolding insert
  sort [] = []
  sort (x ∷ xs) = insert x (sort xs)

  -- The loop `sum += sorted[i]`.
  unfoldable pub sum_from : D → List D → D
  sum_from acc [] = acc
  sum_from acc (x ∷ xs) = sum_from (add acc x) xs

  -- One outlier at each end is left out of seven or more intervals.
  unfoldable pub robust_source_interval_seconds : Scheduler D → D
  unfolding sort sum_from
  robust_source_interval_seconds s =
      let count = s.recent_source_interval_count in
      let sorted = sort (take count s.recent_source_intervals) in
      if count == 0
      then origin fp
      else if leb 7 count
      then div (sum_from (origin fp) (take (count - 2) (drop 1 sorted))) (fp.of_nat (count - 2))
      else div (sum_from (origin fp) sorted) (fp.of_nat count)

  -- The interval `offset` samples before the last one.
  abbrev pub recent : Scheduler D → ℕ → D
  recent s offset =
      get_or s.recent_source_intervals
        ((s.recent_source_interval_cursor + source_cadence_window - 1 - offset)
          % source_cadence_window)
        (origin fp)

  -- The least and the greatest of the last four intervals.
  unfoldable pub recent_min : Scheduler D → D
  recent_min s =
      let low = Float.min fp.double in
      low (low (low (low fp.largest (recent s 0)) (recent s 1)) (recent s 2)) (recent s 3)

  unfoldable pub recent_max : Scheduler D → D
  recent_max s =
      let high = Float.max fp.double in
      high (high (high (high (origin fp) (recent s 0)) (recent s 1)) (recent s 2)) (recent s 3)

  unfoldable pub is_stable : Scheduler D → D → Bool
  is_stable s robust =
      leb 4 s.recent_source_interval_count
      && lt (origin fp) robust
      && le (sub (recent_max s) (recent_min s)) (mul robust (decimal 20 2))

  unfoldable pub push_interval : Scheduler D → D → Scheduler D
  push_interval s interval = record s {
    recent_source_intervals =
        set s.recent_source_intervals s.recent_source_interval_cursor interval;
    recent_source_interval_cursor = (s.recent_source_interval_cursor + 1) % source_cadence_window;
    recent_source_interval_count = min (s.recent_source_interval_count + 1) source_cadence_window;
  }

  unfoldable pub smooth : Scheduler D → D → D
  smooth s robust =
      let previous = s.smoothed_source_interval_seconds in
      let bounded =
        Float.clamp fp.double robust (mul previous (decimal 75 2)) (mul previous (decimal 130 2)) in
      let alpha = if lt previous bounded then decimal 45 2 else decimal 30 2 in
      if not s.has_smoothed_interval
      then robust
      else if lt (origin fp) robust
      then add previous (mul alpha (sub bounded previous))
      else previous

  unfoldable pub update_source_rate : Scheduler D → D → Scheduler D
  unfolding push_interval
  update_source_rate s interval =
      let t = push_interval s interval in
      let robust = robust_source_interval_seconds t in
      let smoothed = smooth t robust in
      record t {
        stable_cadence_samples = if is_stable t robust then bump t.stable_cadence_samples else 0;
        smoothed_source_interval_seconds = smoothed;
        has_smoothed_interval = if t.has_smoothed_interval then true else lt (origin fp) robust;
        telemetry = record (t.telemetry) {
          source_fps = div (decimal 1 0) interval;
          smoothed_source_fps =
              if lt (origin fp) smoothed then div (decimal 1 0) smoothed else origin fp;
        };
      }
