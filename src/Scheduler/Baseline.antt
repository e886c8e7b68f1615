-- ===== src/Scheduler/Baseline.antt =====
-- FixedSourceCadenceTracker: the cadence of a game that generates nothing, the reference for
-- the pressure on a fixed multiplier.
pub mod Trust
use lsfg_vk_android.Common.{
  ℕ, Bool, true, false, not, ◌&&◌, ◌||◌, if◌then◌else◌, ◌==◌, List, [], ◌∷◌,
}
use lsfg_vk_android.Common.Int.{ℤ}
use lsfg_vk_android.Float.{Floats}

pub data SourceCadence : Type 0 where
  source_only history_maintenance generated : SourceCadence

pub record Telemetry (D : Type 0) : Type 0 where
  pub baseline_source_fps : D
  pub interval_ratio : D
  pub baseline_valid : Bool

pub record Tracker (D : Type 0) : Type 0 where
  pub has_baseline : Bool
  pub baseline_priming : Bool
  pub baseline_interval_seconds : D
  pub telemetry : Telemetry D

-- The arguments of observe.
pub record Observation : Type 0 where
  pub source_interval : ℤ
  pub dispatched_generated_frames : ℕ
  pub generation_allowed : Bool
  pub previous : SourceCadence

abbrev pub is_source_only : SourceCadence → Bool
is_source_only source_only = true
is_source_only history_maintenance = false
is_source_only generated = false

abbrev pub is_clean : Observation → Bool
is_clean o = o.generation_allowed && o.dispatched_generated_frames == 0 && is_source_only o.previous

module _ {S D : Type 0} (fp : Floats S D) where
  open fp.double use {add, sub, mul, div, lt, is_finite, decimal}

  abbrev pub origin : D
  origin = decimal 0 0

  abbrev pub new : Tracker D
  new = record {
    has_baseline = false;
    baseline_priming = false;
    baseline_interval_seconds = origin;
    telemetry = record {
      baseline_source_fps = origin;
      interval_ratio = decimal 1 0;
      baseline_valid = false;
    };
  }

  unfoldable pub reset : Tracker D → Tracker D
  reset s = new

  abbrev pub is_usable : Observation → Bool
  is_usable o = lt origin (fp.seconds o.source_interval) && is_finite (fp.seconds o.source_interval)

  -- An interval that is not clean drops a baseline that waits for its second interval.
  unfoldable pub observe_other : Tracker D → D → Tracker D
  observe_other s interval =
      let has = s.has_baseline && not s.baseline_priming in
      let base = if s.baseline_priming then origin else s.baseline_interval_seconds in
      let known = has && lt origin base in
      record {
        has_baseline = has;
        baseline_priming = false;
        baseline_interval_seconds = base;
        telemetry = record {
          baseline_valid = has;
          baseline_source_fps = if known then div (decimal 1 0) base else origin;
          interval_ratio = if known then div interval base else decimal 1 0;
        };
      }

  -- The first clean interval.
  unfoldable pub prime : Tracker D → D → Tracker D
  prime s interval = record {
    has_baseline = true;
    baseline_priming = true;
    baseline_interval_seconds = interval;
    telemetry = record {
      baseline_valid = false;
      baseline_source_fps = origin;
      interval_ratio = decimal 1 0;
    };
  }

  -- The second clean interval replaces the first, and later ones are averaged.
  unfoldable pub refine : Tracker D → D → Tracker D
  refine s interval =
      let base =
        if s.baseline_priming
        then interval
        else add s.baseline_interval_seconds
            (mul (decimal 35 2) (sub interval s.baseline_interval_seconds)) in
      record s {
        baseline_priming = false;
        baseline_interval_seconds = base;
        telemetry = record {
          baseline_valid = true;
          baseline_source_fps = div (decimal 1 0) base;
          interval_ratio = div interval base;
        };
      }

  unfoldable pub observe : Tracker D → Observation → Tracker D
  unfolding prime refine observe_other
  observe s o =
      let interval = fp.seconds o.source_interval in
      if not (is_usable o)
      then s
      else if not (is_clean o)
      then observe_other s interval
      else if not s.has_baseline
      then prime s interval
      else refine s interval
