-- ===== src/Scheduler/Baseline/Trust.antt =====
-- When the baseline of FixedSourceCadenceTracker is trusted.
use lsfg_vk_android.Common.{
  ◌≡◌, refl, Bool, true, false, ◌&&◌, ◌||◌, if◌then◌else◌, List, [], ◌∷◌, arith,
}
use lsfg_vk_android.Float.{Floats}
use lsfg_vk_android.Scheduler.Baseline.{
  Tracker, Observation, new, is_clean, is_usable, observe_other, prime, refine, observe,
}

module _ {S D : Type 0} (fp : Floats S D) where
  unfoldable pub run : Tracker D → List Observation → Tracker D
  run s [] = s
  run s (o ∷ rest) = run (observe fp s o) rest

  -- Two usable intervals in a row are clean; `last` says whether the one before was.
  unfoldable pub has_clean_pair : Bool → List Observation → Bool
  has_clean_pair last [] = false
  has_clean_pair last (o ∷ rest) =
      let skipped = has_clean_pair last rest in
      let next = has_clean_pair (is_clean o) rest in
      if is_usable fp o then last && is_clean o || next else skipped

  established :
      (s : Tracker D) (os : List Observation)
      → s.has_baseline ≡ true
      → s.baseline_priming ≡ false
      → s.telemetry.baseline_valid ≡ true
      → (run s os).telemetry.baseline_valid ≡ true
  unfolding run observe observe_other prime refine
  established s [] h p v = v
  established s (o ∷ rest) h p v = ground (arith, established (observe fp s o) rest)

  primed :
      (s : Tracker D) (os : List Observation)
      → s.has_baseline ≡ s.baseline_priming
      → s.telemetry.baseline_valid ≡ false
      → (run s os).telemetry.baseline_valid ≡ has_clean_pair s.has_baseline os
  unfolding run observe observe_other prime refine has_clean_pair
  primed s [] h v = v
  primed s (o ∷ rest) h v =
      ground (arith, established (observe fp s o) rest, primed (observe fp s o) rest)

  -- From the start, the baseline is trusted exactly when two usable intervals in a row were
  -- clean at some time.
  pub new-run-baseline_valid :
      (os : List Observation) → (run (new fp) os).telemetry.baseline_valid ≡ has_clean_pair false os
  new-run-baseline_valid os = primed (new fp) os refl refl
