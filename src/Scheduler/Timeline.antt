-- ===== src/Scheduler/Timeline.antt =====
-- SourceProtectedTimeline: the presentation clock that only source frames advance.
pub mod Laws
use lsfg_vk_android.Common.{
  ℕ, zero, suc, ◌+◌, ◌-◌, ◌*◌, ◌/◌, ◌%◌, ◌^◌, Bool, true, false, not, ◌&&◌, ◌||◌, if◌then◌else◌,
  ltb, leb, ◌==◌, max,
}
use lsfg_vk_android.Common.Int.{ℤ, pos, negsuc, pos_part}
use lsfg_vk_android.Float
use lsfg_vk_android.Float.{Floats, Extended}

-- std::numeric_limits<uint64_t>::max() and std::numeric_limits<int64_t>::max().
abbrev pub u64_max : ℕ
u64_max = 2 ^ 64 - 1

abbrev pub i64_max : ℕ
i64_max = 2 ^ 63 - 1

pub record Sample : Type 0 where
  pub source_index : ℕ
  pub interval_ns : ℕ
  pub previous_source_desired_time_ns : ℕ
  pub source_desired_time_ns : ℕ
  pub source_deadline_error_ns : ℤ
  pub rebased : Bool
  pub valid : Bool

-- A value-initialised SourceTimelineSample.
abbrev pub no_sample : Sample
no_sample = record {
  source_index = 0;
  interval_ns = 0;
  previous_source_desired_time_ns = 0;
  source_desired_time_ns = 0;
  source_deadline_error_ns = pos 0;
  rebased = false;
  valid = false;
}

pub record Timeline : Type 0 where
  pub initialized : Bool
  pub source_index : ℕ
  pub source_desired_time_ns : ℕ
  pub last_interval_ns : ℕ
  pub predicted_interval_ns : ℕ

unfoldable pub reset : Timeline → Timeline
reset s = record {
  initialized = false;
  source_index = 0;
  source_desired_time_ns = 0;
  last_interval_ns = 0;
  predicted_interval_ns = 0;
}

unfoldable pub add_saturated : ℕ → ℕ → ℕ
add_saturated base delta = if ltb (u64_max - delta) base then u64_max else base + delta

abbrev pub discontinuity_ratio : ℕ
discontinuity_ratio = 8

unfoldable pub discontinuity_threshold : Timeline → ℕ
discontinuity_threshold s =
    if ltb (u64_max / discontinuity_ratio) s.last_interval_ns
    then u64_max
    else s.last_interval_ns * discontinuity_ratio

-- ++sourceIndex_ on a uint64_t.
abbrev pub next_index : Timeline → ℕ
next_index s = (s.source_index + 1) % 2 ^ 64

abbrev pub is_discontinuity : Timeline → ℕ → Bool → Bool
is_discontinuity s interval discontinuity =
    discontinuity
    || s.initialized && ltb 0 s.last_interval_ns && ltb (discontinuity_threshold s) interval

-- The branch that keeps the cadence over a flow handoff.
unfoldable pub hold_cadence : Timeline → ℕ → Timeline × Sample
hold_cadence s arrival =
    let interval = max 1 s.predicted_interval_ns in
    let desired = add_saturated arrival interval in
    (
      record s {
        source_index = next_index s;
        source_desired_time_ns = desired;
        last_interval_ns = interval;
      },
      record {
        source_index = next_index s;
        interval_ns = interval;
        previous_source_desired_time_ns = arrival;
        source_desired_time_ns = desired;
        source_deadline_error_ns = pos 0;
        rebased = false;
        valid = true;
      },
    )

-- The first sample sets the epoch.
unfoldable pub start : Timeline → ℕ → ℕ → Timeline × Sample
start s arrival interval =
    let desired = add_saturated arrival interval in
    (
      record {
        initialized = true;
        source_index = 0;
        source_desired_time_ns = desired;
        last_interval_ns = interval;
        predicted_interval_ns = interval;
      },
      record {
        source_index = 0;
        interval_ns = interval;
        previous_source_desired_time_ns = arrival;
        source_desired_time_ns = desired;
        source_deadline_error_ns = pos 0;
        rebased = true;
        valid = true;
      },
    )

unfoldable pub absolute_error : ℕ → ℕ → ℕ
absolute_error arrival predicted =
    if leb predicted arrival then arrival - predicted else predicted - arrival

-- The signed error, saturated to an int64_t.
unfoldable pub deadline_error : ℕ → ℕ → ℤ
deadline_error arrival predicted =
    if leb predicted arrival
    then if ltb i64_max (arrival - predicted) then pos i64_max else pos (arrival - predicted)
    else if ltb i64_max (predicted - arrival)
    then negsuc i64_max
    else negsuc (predicted - arrival - 1)

abbrev pub clamp_nat : ℕ → ℕ → ℕ → ℕ
clamp_nat x lo hi = if ltb x lo then lo else if ltb hi x then hi else x

abbrev pub material_phase_error : ℕ → ℕ
material_phase_error predicted = clamp_nat (predicted / 4) 1_000_000 8_000_000

module _ {D L : Type 0} (ext : Extended D L) where
  open ext.extended use {add, sub, mul, lt, decimal}

  -- A long long as a uint64_t.
  abbrev pub as_u64 : ℤ → ℕ
  as_u64 (pos n) = n % 2 ^ 64
  as_u64 (negsuc n) = 2 ^ 64 - 1 - n % 2 ^ 64

  -- The bounded prediction: it follows a slowdown slowly and a speed-up quickly.
  unfoldable pub update_prediction : ℕ → ℕ → ℕ
  update_prediction predicted_ns interval =
      let predicted = ext.of_nat predicted_ns in
      let observed = ext.of_nat interval in
      let bounded =
        Float.clamp ext.extended observed (mul predicted (decimal 50 2))
          (mul predicted (decimal 150 2)) in
      let alpha = if lt bounded predicted then decimal 50 2 else decimal 20 2 in
      max 1 (as_u64 (ext.llround (add predicted (mul alpha (sub bounded predicted)))))

  -- A later sample: the phase error against the last prediction, and a new one.
  unfoldable pub follow : Timeline → ℕ → ℕ → Timeline × Sample
  follow s arrival interval =
      let predicted = update_prediction s.predicted_interval_ns interval in
      let desired = add_saturated arrival predicted in
      (
        record s {
          source_index = next_index s;
          source_desired_time_ns = desired;
          last_interval_ns = interval;
          predicted_interval_ns = predicted;
        },
        record {
          source_index = next_index s;
          interval_ns = predicted;
          previous_source_desired_time_ns = arrival;
          source_desired_time_ns = desired;
          source_deadline_error_ns = deadline_error arrival s.source_desired_time_ns;
          rebased =
              leb (material_phase_error s.predicted_interval_ns)
                (absolute_error arrival s.source_desired_time_ns);
          valid = true;
        },
      )

  -- A source interval that is not positive.
  abbrev pub is_empty : ℤ → Bool
  is_empty (pos n) = n == 0
  is_empty (negsuc n) = true

  unfoldable pub observe : Timeline → ℕ → ℤ → Bool → Bool → Timeline × Sample
  observe s arrival interval discontinuity preserve_cadence =
      if arrival == 0 || is_empty interval
      then (s, no_sample)
      else if is_discontinuity s (pos_part interval) discontinuity
      then (reset s, no_sample)
      else if preserve_cadence && s.initialized
      then hold_cadence s arrival
      else if not s.initialized
      then start s arrival (pos_part interval)
      else follow s arrival (pos_part interval)

module _ {S D L : Type 0} (fp : Floats S D) (ext : Extended D L) where
  -- The time of an interpolated frame, and 0 where there is none. The sum is a uint64_t.
  unfoldable pub synthetic_desired_time_ns : Sample → D → ℕ
  synthetic_desired_time_ns sample fraction =
      if not sample.valid
        || not (fp.double.lt (fp.double.decimal 0 0) fraction)
        || not (fp.double.lt fraction (fp.double.decimal 1 0))
        || leb sample.source_desired_time_ns sample.previous_source_desired_time_ns
      then 0
      else let span = sample.source_desired_time_ns - sample.previous_source_desired_time_ns in
        let offset = ext.truncate (ext.extended.mul (ext.of_nat span) (ext.of_double fraction)) in
        (sample.previous_source_desired_time_ns + offset) % 2 ^ 64
