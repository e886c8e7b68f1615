-- ===== src/Scheduler/Timeline/Laws.antt =====
-- The source timeline: saturation, the phase error, and what each observation leaves behind.
use lsfg_vk_android.Common.{
  ℕ, ◌+◌, ◌-◌, ◌*◌, ◌≤◌, ◌<◌, ◌≡◌, Bool, true, false, not, ◌&&◌, ◌||◌, ltb, ◌==◌, arith, ◌⊎◌, max,
}
use lsfg_vk_android.Common.Int.{ℤ, pos, negsuc, pos_part, neg_part}
use lsfg_vk_android.Float.{Floats, Extended}
use lsfg_vk_android.Scheduler.Timeline.{
  Sample, Timeline, u64_max, i64_max, reset, add_saturated, discontinuity_threshold, next_index,
  is_discontinuity, hold_cadence, start, deadline_error, update_prediction, follow, is_empty,
  observe, synthetic_desired_time_ns,
}

-- The saturating sum never passes the largest uint64_t, and is exact below it.
pub add_saturated_lem :
    (base delta : ℕ)
    → base ≤ u64_max
    → delta ≤ u64_max
    → (add_saturated base delta ≤ u64_max)
      × ((add_saturated base delta ≡ base + delta)
          ⊎ ((add_saturated base delta ≡ u64_max) × (u64_max < base + delta)))
unfolding add_saturated
add_saturated_lem base delta h k = ground arith

-- The saturated threshold tells a discontinuity exactly as eight times the last interval does.
pub discontinuity_threshold_lem :
    (s : Timeline) (interval : ℕ)
    → interval ≤ u64_max
    → ltb (discontinuity_threshold s) interval ≡ ltb (8 * s.last_interval_ns) interval
unfolding discontinuity_threshold
discontinuity_threshold_lem s interval h = ground arith

-- The phase error is the signed difference of two uint64_t times, saturated to an int64_t.
pub deadline_error_lem :
    (arrival predicted : ℕ)
    → (pos_part (deadline_error arrival predicted) + predicted
        ≡ neg_part (deadline_error arrival predicted) + arrival)
      ⊎ (((predicted + i64_max < arrival) × (deadline_error arrival predicted ≡ pos i64_max))
          ⊎ ((arrival + i64_max < predicted) × (deadline_error arrival predicted ≡ negsuc i64_max)))
unfolding deadline_error
deadline_error_lem arrival predicted = ground arith

max-pos : (n : ℕ) → 0 < max 1 n
unfolding max
max-pos n = ground arith

module _ {D L : Type 0} (ext : Extended D L) where
  update_prediction-pos : (predicted interval : ℕ) → 0 < update_prediction ext predicted interval
  unfolding update_prediction
  update_prediction-pos predicted interval = max-pos _

  -- A sample is valid exactly when the time and the interval are positive and there is no
  -- discontinuity.
  abbrev pub is_valid : Timeline → ℕ → ℤ → Bool → Bool
  is_valid s arrival interval discontinuity =
      not (arrival == 0 || is_empty ext interval)
      && not (is_discontinuity s (pos_part interval) discontinuity)

  -- A timeline that has seen no sample.
  abbrev pub epoch_start : Timeline
  epoch_start = record {
    initialized = false;
    source_index = 0;
    source_desired_time_ns = 0;
    last_interval_ns = 0;
    predicted_interval_ns = 0;
  }

  -- A sample without a time or an interval leaves the timeline as it is, and any other at a
  -- discontinuity starts it again. A valid
  -- one anchors the timeline at the arrival: the next source time is one positive predicted
  -- interval later.
  abbrev pub Anchors : Timeline → ℕ → ℤ → Bool → Timeline × Sample → Type 0
  Anchors s arrival interval discontinuity (t, sample) =
      ((is_valid s arrival interval discontinuity ≡ false)
        × (sample.valid ≡ false)
        × (((arrival == 0 || is_empty ext interval ≡ true) × (t ≡ s))
            ⊎ ((arrival == 0 || is_empty ext interval ≡ false)
                × (is_discontinuity s (pos_part interval) discontinuity ≡ true)
                × (t ≡ epoch_start))))
      ⊎ ((is_valid s arrival interval discontinuity ≡ true)
          × (sample.valid ≡ true)
          × (t.initialized ≡ true)
          × (0 < sample.interval_ns)
          × (sample.previous_source_desired_time_ns ≡ arrival)
          × (sample.source_desired_time_ns ≡ add_saturated arrival sample.interval_ns)
          × (t.source_desired_time_ns ≡ sample.source_desired_time_ns)
          × (t.source_index ≡ sample.source_index)
          × (((s.initialized ≡ false) × (sample.source_index ≡ 0))
              ⊎ ((s.initialized ≡ true) × (sample.source_index ≡ next_index s))))

  is_empty-false : (interval : ℤ) → is_empty ext interval ≡ false → 0 < pos_part interval
  is_empty-false (pos n) h = ground arith
  is_empty-false (negsuc n) h = cc

  -- A sample without a time or an interval is invalid and leaves the timeline as it is. One with
  -- both at a discontinuity is invalid and leaves a timeline that has seen no sample. Any other is valid, with a positive interval: its previous time
  -- is the arrival, and its source time, which the timeline keeps, is the saturated sum of both;
  -- the index starts at 0 and goes up by one.
  pub observe-Anchors :
      (s : Timeline) (arrival : ℕ) (interval : ℤ) (discontinuity preserve_cadence : Bool)
      → Anchors s arrival interval discontinuity
          (observe ext s arrival interval discontinuity preserve_cadence)
  unfolding observe hold_cadence start follow reset
  observe-Anchors s arrival interval discontinuity preserve_cadence = ground (
    arith,
    max-pos s.predicted_interval_ns,
    update_prediction-pos s.predicted_interval_ns (pos_part interval),
    is_empty-false interval,
  )

  -- A flow handoff keeps the predicted interval of the source, whatever interval it took.
  pub observe-preserve_cadence :
      (s : Timeline) (arrival : ℕ) (interval : ℤ)
      → s.initialized ≡ true
      → is_valid s arrival interval false ≡ true
      → ((observe ext s arrival interval false true).0.predicted_interval_ns
          ≡ s.predicted_interval_ns)
        × ((observe ext s arrival interval false true).1.interval_ns
            ≡ max 1 s.predicted_interval_ns)
        × ((observe ext s arrival interval false true).1.source_deadline_error_ns ≡ pos 0)
  unfolding observe hold_cadence
  observe-preserve_cadence s arrival interval i v = ground arith

module _ {S D L : Type 0} (fp : Floats S D) (ext : Extended D L) where
  -- A fraction between 0 and 1 of a whole number, cut to a whole number, does not exceed it.
  abbrev pub IsContracting : Type 0
  IsContracting =
      (n : ℕ) (fraction : D)
      → fp.double.lt (fp.double.decimal 0 0) fraction ≡ true
      → fp.double.lt fraction (fp.double.decimal 1 0) ≡ true
      → ext.truncate (ext.extended.mul (ext.of_nat n) (ext.of_double fraction)) ≤ n

  -- Where a fraction of a number does not exceed it and the source time is a uint64_t, an
  -- interpolated frame is placed inside the source interval of its sample, or has no time.
  pub synthetic_desired_time_ns-inside :
      (contracting : IsContracting) (sample : Sample) (fraction : D)
      → sample.source_desired_time_ns ≤ u64_max
      → let time = synthetic_desired_time_ns fp ext sample fraction in
        (time ≡ 0)
        ⊎ ((sample.previous_source_desired_time_ns ≤ time) × (time ≤ sample.source_desired_time_ns))
  unfolding synthetic_desired_time_ns
  synthetic_desired_time_ns-inside contracting sample fraction h = ground (
    arith,
    contracting (sample.source_desired_time_ns - sample.previous_source_desired_time_ns) fraction,
  )
