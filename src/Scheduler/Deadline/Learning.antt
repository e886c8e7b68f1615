-- ===== src/Scheduler/Deadline/Learning.antt =====
-- What the predictor learns from a measured batch.
use lsfg_vk_android.Common.{
  ℕ, ◌<◌, ◌≡◌, ◌≢◌, refl, true, false, List, [], ◌∷◌, map, length, length-set, get_or-set_self,
  get_or-set_other, arith, sym, get_or,
}
use lsfg_vk_android.Float.{Floats}
use lsfg_vk_android.Scheduler.Deadline.{
  Observation, Estimate, Predictor, reset, estimate_at, is_tracked, is_usable, store, no_estimate,
  blend_total, update_estimate, observe, complete_estimate, observe_blocking_completion,
  recover_estimate, observe_source_only_recovery, observe_delivery_miss, observe_delivery_success,
}

pub data Event (D : Type 0) : Type 0 where
  measures : Observation D → Event D
  completes : ℕ → D → Event D
  recovers : Event D
  misses : D → Event D
  succeeds : Event D
  resets : Event D

module _ {S D : Type 0} (fp : Floats S D) where
  -- The array keeps its four entries, and the entry of count 0 is never measured.
  pub record IsSound (s : Predictor D) : Type 0 where
    pub four : length s.batch_estimates ≡ 4
    pub zero_unmeasured : (estimate_at fp s 0).valid ≡ false

  unfoldable pub handle : Predictor D → Event D → Predictor D
  handle s (measures o) = observe fp s o
  handle s (completes count ms) = observe_blocking_completion fp s count ms
  handle s recovers = observe_source_only_recovery fp s
  handle s (misses ms) = observe_delivery_miss fp s ms
  handle s succeeds = observe_delivery_success fp s
  handle s resets = reset fp s

  tracked-pos : (count : ℕ) → is_tracked fp count ≡ true → 0 ≢ count
  tracked-pos count h e = ground arith

  tracked-lt : (count : ℕ) → is_tracked fp count ≡ true → count < 4
  tracked-lt count h = ground arith

  store-IsSound :
      (s : Predictor D) (count : ℕ) (e : Estimate D)
      → is_tracked fp count ≡ true
      → IsSound s
      → IsSound (store fp s count e)
  unfolding estimate_at
  store-IsSound s count e t h = record {
    four = omega (arith, length-set {0} s.batch_estimates count e, h.four);
    zero_unmeasured =
        rw
          (get_or-set_other s.batch_estimates count 0 e (no_estimate fp)
            (λ p. tracked-pos count t (sym p)))
          h.zero_unmeasured;
  }

  length-map :
      (f : Estimate D → Estimate D) (xs : List (Estimate D)) → length (map f xs) ≡ length xs
  length-map f [] = refl
  length-map f (x ∷ xs) = omega (arith, length-map f xs)

  head-map :
      (xs : List (Estimate D))
      → (get_or (map (recover_estimate fp) xs) 0 (no_estimate fp)).valid
        ≡ (get_or xs 0 (no_estimate fp)).valid
  unfolding recover_estimate
  head-map [] = refl
  head-map (x ∷ xs) = refl

  -- Every call keeps the four estimates in their places and the one of count 0 unmeasured.
  pub handle-IsSound : (s : Predictor D) (e : Event D) → IsSound s → IsSound (handle s e)
  unfolding handle observe observe_blocking_completion
  handle-IsSound s (measures o) h = ground (
    arith,
    store-IsSound s o.generation_count (update_estimate fp (estimate_at fp s o.generation_count) o),
  )
  handle-IsSound s (completes count ms) h =
      ground (arith, store-IsSound s count (complete_estimate fp (estimate_at fp s count) ms))
  handle-IsSound s recovers h =
      unfold observe_source_only_recovery estimate_at in
      record {
        four = omega (arith, length-map (recover_estimate fp) s.batch_estimates, h.four);
        zero_unmeasured = rw (head-map s.batch_estimates) h.zero_unmeasured;
      }
  handle-IsSound s (misses ms) h = unfold observe_delivery_miss estimate_at in ground arith
  handle-IsSound s succeeds h =
      unfold observe_delivery_success estimate_at in
      record { four = h.four; zero_unmeasured = h.zero_unmeasured }
  handle-IsSound s resets h =
      unfold reset estimate_at in record { four = refl; zero_unmeasured = refl }

  -- A usable batch that costs more than the estimate of its count, in a sound predictor, closes
  -- admission at once: the new estimate is the measured cost, and the other estimates stay.
  pub observe-raises :
      (s : Predictor D) (o : Observation D) (other : ℕ)
      → IsSound s
      → is_usable fp o ≡ true
      → fp.double.lt (estimate_at fp s o.generation_count).total_lsfg_ms o.total_lsfg_ms ≡ true
      → fp.double.le (estimate_at fp s o.generation_count).total_lsfg_ms o.total_lsfg_ms ≡ true
      → other ≢ o.generation_count
      → let t = observe fp s o in
        (t.has_estimate ≡ true)
        × ((estimate_at fp t o.generation_count).valid ≡ true)
        × ((estimate_at fp t o.generation_count).total_lsfg_ms ≡ o.total_lsfg_ms)
        × (estimate_at fp t other ≡ estimate_at fp s other)
  unfolding observe estimate_at update_estimate blend_total
  observe-raises s o other h u a b d = ground (
    arith,
    h.four,
    tracked-lt o.generation_count,
    get_or-set_self s.batch_estimates o.generation_count
        (update_estimate fp (estimate_at fp s o.generation_count) o) (no_estimate fp),
    get_or-set_other s.batch_estimates o.generation_count other
        (update_estimate fp (estimate_at fp s o.generation_count) o) (no_estimate fp)
        (λ p. d (sym p)),
  )
