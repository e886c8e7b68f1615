-- ===== src/Scheduler/Tests/Admission.antt =====
-- The predictor and the presentation cap at concrete inputs.
use lsfg_vk_android.Common.{ℕ, ◌*◌, ◌≤◌, ◌<◌, ◌≡◌, refl, true, false, [], ◌∷◌, arith, ◌⊎◌}
use lsfg_vk_android.Common.Int.{pos}
use lsfg_vk_android.Float.Fixed.{Fixed, nano, fixed_floats}
use lsfg_vk_android.Scheduler.Deadline
use lsfg_vk_android.Scheduler.Deadline.{
  Estimate, Predictor, new, choose_estimate, nearest, predict, estimate_at, decide, no_decision,
  batch_scale, is_tracked, update_estimate, blend_total, conservative_blend, blend_gpu,
}
use lsfg_vk_android.Scheduler.Deadline.Hints.{
  admits, slot_fits, slots_fit, safe_generation_hint, safe_batch_generation_hint, largest_safe,
}
use lsfg_vk_android.Scheduler.Deadline.Laws.{
  safe_batch_generation_hint-largest, safe_generation_hint-fits, predict-admits, Fits, is_measured,
  distance,
}
use lsfg_vk_android.Scheduler.Deadline.Learning.{measures, IsSound, handle, handle-IsSound}
use lsfg_vk_android.Scheduler.Capacity
use lsfg_vk_android.Scheduler.Capacity.{Context, no_context, Tracker, fresh, configure, limit}
use lsfg_vk_android.Scheduler.Capacity.Observe
use lsfg_vk_android.Scheduler.Capacity.Observe.{lower}
use lsfg_vk_android.Scheduler.Capacity.Bounds.{
  IsBounded, Limits, MovesByOne, fresh-IsBounded, limit-Limits, observe-MovesByOne,
}

-- n / 1000.
abbrev milli : ℕ → Fixed
milli n = nano (pos (n * 1_000_000))

-- A batch of one frame in 4 ms.
abbrev one_frame : Deadline.Observation Fixed
one_frame = record {
  mipmaps_ms = milli 500;
  optical_flow_ms = milli 2_000;
  total_lsfg_ms = milli 4_000;
  generation_count = 1;
  valid = true;
}

abbrev unmeasured : Predictor Fixed
unmeasured = new fixed_floats

unmeasured-IsSound : IsSound fixed_floats unmeasured
unfolding estimate_at
unmeasured-IsSound = record { four = refl; zero_unmeasured = refl }

abbrev no_measure : Estimate Fixed
no_measure = Deadline.no_estimate fixed_floats

abbrev measured : Fixed → Estimate Fixed
measured total = record no_measure {
  valid = true;
  total_lsfg_ms = total;
  gpu_total_lsfg_ms = total;
}

-- One frame measured at 4 ms, two at 7 ms.
abbrev learned : Predictor Fixed
learned = record unmeasured {
  has_estimate = true;
  batch_estimates = no_measure ∷ measured (milli 4_000) ∷ measured (milli 7_000) ∷ no_measure ∷ [];
}

predict-admits_example :
    (0 < 2)
    × (2 < 4)
    × (fixed_floats.double.lt (milli 0) (milli 16_000) ≡ true)
    × (fixed_floats.double.is_finite (milli 16_000) ≡ true)
    × ((chosen : ℕ) × (is_tracked fixed_floats chosen ≡ true)
        × (is_measured fixed_floats learned chosen ≡ true)
        × (distance 2 chosen ≤ distance 2 1)
        × Fits fixed_floats learned 2 (milli 16_000) chosen)
unfolding predict decide no_decision choose_estimate nearest estimate_at batch_scale
predict-admits_example = predict-admits fixed_floats learned 2 1 (milli 16_000) refl refl refl

-- Two frames fit into 10 ms, and three do not.
safe_batch_generation_hint-largest_example :
    (safe_batch_generation_hint fixed_floats learned 3 (milli 10_000) ≤ 3)
    × ((safe_batch_generation_hint fixed_floats learned 3 (milli 10_000) ≡ 0)
        ⊎ (admits fixed_floats (
              predict fixed_floats learned
                (safe_batch_generation_hint fixed_floats learned 3 (milli 10_000))
                (milli 10_000))
            ≡ true))
    × ((3 ≤ safe_batch_generation_hint fixed_floats learned 3 (milli 10_000))
        ⊎ ((3 < 3) ⊎ (admits fixed_floats (predict fixed_floats learned 3 (milli 10_000)) ≡ false)))
safe_batch_generation_hint-largest_example =
    safe_batch_generation_hint-largest fixed_floats learned 3 3 (milli 10_000)

-- Two slots of a source interval of 16 ms.
safe_generation_hint-fits_example :
    (safe_generation_hint fixed_floats learned 3 (milli 16_000) ≤ 3)
    × (slot_fits fixed_floats learned
          (milli 16_000)
          (safe_generation_hint fixed_floats learned 3 (milli 16_000))
          0
        ≡ true)
unfolding safe_generation_hint largest_safe slots_fit predict decide no_decision choose_estimate
    nearest estimate_at batch_scale
safe_generation_hint-fits_example =
    safe_generation_hint-fits fixed_floats learned 3 0 (milli 16_000) (omega arith)

handle-IsSound_example : IsSound fixed_floats (handle fixed_floats unmeasured (measures one_frame))
handle-IsSound_example =
    handle-IsSound fixed_floats unmeasured (measures one_frame) unmeasured-IsSound

learned-IsSound : IsSound fixed_floats learned
unfolding estimate_at
learned-IsSound = record { four = refl; zero_unmeasured = refl }

abbrev slow_frame : Deadline.Observation Fixed
slow_frame = record one_frame { total_lsfg_ms = milli 6_000 }

-- A cap of three with five refusals on record.
abbrev refused : Tracker Fixed
refused = record (fresh fixed_floats 3) {
  rejection_evidence = 5;
  telemetry = record ((fresh fixed_floats 3).telemetry) {
    wsi_rejection_ratio = milli 500;
    rejection_evidence = 5;
  };
}

limit-Limits_example :
    Limits fixed_floats
      (fresh fixed_floats 3)
      2
      (limit fixed_floats (fresh fixed_floats 3) 2 no_context)
limit-Limits_example =
    limit-Limits fixed_floats (fresh fixed_floats 3) 2 no_context (fresh-IsBounded fixed_floats 3)

observe-MovesByOne_example :
    let t = Capacity.Observe.observe fixed_floats (fresh fixed_floats 3) 3 1 2 no_context in
    IsBounded fixed_floats t × MovesByOne fixed_floats (fresh fixed_floats 3) t
observe-MovesByOne_example =
    observe-MovesByOne fixed_floats (fresh fixed_floats 3) 3 1 2 no_context refl
      (fresh-IsBounded fixed_floats 3)
