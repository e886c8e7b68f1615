-- ===== src/Scheduler/Deadline/Laws.antt =====
-- The predictor: which estimate is used, what an admission means, and that the hints are the
-- largest counts that are admitted.
use lsfg_vk_android.Common.{
  ℕ, zero, suc, ◌+◌, ◌-◌, ◌≤◌, ◌<◌, ◌≡◌, refl, Bool, true, false, not, ◌||◌, arith, ◌⊎◌, inl, inr,
  Option, none, some, Bool-cases, &&-left, &&-right,
}
use native.Mathlib.Decide.{ℕ_discrete}
use lsfg_vk_android.Float
use lsfg_vk_android.Float.{Floats}
use lsfg_vk_android.Scheduler.Deadline.{
  Predictor, estimate_at, is_tracked, nearest, choose_estimate, no_decision, decide, predict,
  batch_scale,
}
use lsfg_vk_android.Scheduler.Deadline.Hints.{
  admits, slot_fits, slots_fit, largest_safe, safe_generation_hint, largest_batch,
  safe_batch_generation_hint,
}

-- |a - b|.
abbrev pub distance : ℕ → ℕ → ℕ
distance a b = (a - b) + (b - a)

module _ {S D : Type 0} (fp : Floats S D) where
  abbrev pub is_measured : Predictor D → ℕ → Bool
  is_measured s i = (estimate_at fp s i).valid

  -- The estimate that a prediction uses is a measured one, and none is nearer to the count.
  pub choose_estimate-nearest :
      (s : Predictor D) (count chosen other : ℕ)
      → is_tracked fp count ≡ true
      → choose_estimate fp s count ≡ some chosen
      → is_tracked fp other ≡ true
      → is_measured s other ≡ true
      → (is_measured s chosen ≡ true)
        × (is_tracked fp chosen ≡ true)
        × (distance count chosen ≤ distance count other)
  unfolding choose_estimate nearest
  choose_estimate-nearest s zero chosen other t e u m = cc
  choose_estimate-nearest s (suc zero) chosen zero t e u m = cc
  choose_estimate-nearest s (suc zero) chosen (suc zero) t e u m = ground arith
  choose_estimate-nearest s (suc zero) chosen (suc (suc zero)) t e u m = ground arith
  choose_estimate-nearest s (suc zero) chosen (suc (suc (suc zero))) t e u m = ground arith
  choose_estimate-nearest s (suc zero) chosen (suc (suc (suc (suc n)))) t e u m =
      absurd (ground arith)
  choose_estimate-nearest s (suc (suc zero)) chosen zero t e u m = cc
  choose_estimate-nearest s (suc (suc zero)) chosen (suc zero) t e u m = ground arith
  choose_estimate-nearest s (suc (suc zero)) chosen (suc (suc zero)) t e u m = ground arith
  choose_estimate-nearest s (suc (suc zero)) chosen (suc (suc (suc zero))) t e u m = ground arith
  choose_estimate-nearest s (suc (suc zero)) chosen (suc (suc (suc (suc n)))) t e u m =
      absurd (ground arith)
  choose_estimate-nearest s (suc (suc (suc zero))) chosen zero t e u m = cc
  choose_estimate-nearest s (suc (suc (suc zero))) chosen (suc zero) t e u m = ground arith
  choose_estimate-nearest s (suc (suc (suc zero))) chosen (suc (suc zero)) t e u m = ground arith
  choose_estimate-nearest s (suc (suc (suc zero))) chosen (suc (suc (suc zero))) t e u m =
      ground arith
  choose_estimate-nearest s (suc (suc (suc zero))) chosen (suc (suc (suc (suc n)))) t e u m =
      absurd (ground arith)
  choose_estimate-nearest s (suc (suc (suc (suc n)))) chosen other t e u m = absurd (ground arith)

  largest_batch-admitted :
      (s : Predictor D) (budget : D) (n : ℕ)
      → (largest_batch fp s budget n ≡ 0)
        ⊎ (admits fp (predict fp s (largest_batch fp s budget n) budget) ≡ true)
  unfolding largest_batch
  largest_batch-admitted s budget zero = inl refl
  largest_batch-admitted s budget (suc n) = ground (arith, largest_batch-admitted s budget n)

  largest_batch-le : (s : Predictor D) (budget : D) (n : ℕ) → largest_batch fp s budget n ≤ n
  unfolding largest_batch
  largest_batch-le s budget zero = omega arith
  largest_batch-le s budget (suc n) = ground (arith, largest_batch-le s budget n)

  largest_batch-largest :
      (s : Predictor D) (budget : D) (n c : ℕ)
      → largest_batch fp s budget n < c
      → c ≤ n
      → admits fp (predict fp s c budget) ≡ false
  unfolding largest_batch
  largest_batch-largest s budget zero c h k = absurd (omega arith)
  largest_batch-largest s budget (suc n) c h k =
      elim (Bool-cases (admits fp (predict fp s (suc n) budget))) [
        | inl e ↦ absurd (ground arith)
        | inr e ↦ elim (ℕ_discrete c (suc n)) [
          | yes p ↦ rw p e
          | no p ↦ largest_batch-largest s budget n c (ground arith) (omega arith)
        ]
      ]

  predict-refused :
      (s : Predictor D) (c : ℕ) (budget : D)
      → (not s.has_estimate
          || not (fp.double.lt (fp.double.decimal 0 0) budget)
          || not (fp.double.is_finite budget))
        ≡ true
      → admits fp (predict fp s c budget) ≡ false
  unfolding predict no_decision
  predict-refused s c budget h = ground arith

  -- The batch hint is at most the maximum and is admitted or 0. Any count is at most the hint,
  -- above the maximum or not admitted.
  pub safe_batch_generation_hint-largest :
      (s : Predictor D) (max_count c : ℕ) (budget : D)
      → (safe_batch_generation_hint fp s max_count budget ≤ max_count)
        × ((safe_batch_generation_hint fp s max_count budget ≡ 0)
            ⊎ (admits fp (predict fp s (safe_batch_generation_hint fp s max_count budget) budget)
                ≡ true))
        × ((c ≤ safe_batch_generation_hint fp s max_count budget)
            ⊎ ((max_count < c) ⊎ (admits fp (predict fp s c budget) ≡ false)))
  unfolding safe_batch_generation_hint
  safe_batch_generation_hint-largest s max_count c budget = ground (
    arith,
    largest_batch-le s budget max_count,
    largest_batch-admitted s budget max_count,
    largest_batch-largest s budget max_count c,
    predict-refused s c budget,
  )

  -- Every slot of the candidate is admitted within its own deadline.
  slots_fit-slot :
      (s : Predictor D) (interval : D) (candidate left first slot : ℕ)
      → slots_fit fp s interval candidate left first ≡ true
      → first ≤ slot
      → slot < first + left
      → slot_fits fp s interval candidate slot ≡ true
  unfolding slots_fit
  slots_fit-slot s interval candidate zero first slot h a b = absurd (omega arith)
  slots_fit-slot s interval candidate (suc left) first slot h a b = elim (ℕ_discrete slot first) [
    | yes p ↦ rw p (&&-left _ _ h)
    | no p ↦
        slots_fit-slot s interval candidate left (first + 1) slot (&&-right _ _ h) (omega arith)
          (omega arith)
  ]

  largest_safe-fits :
      (s : Predictor D) (interval : D) (n : ℕ)
      → (largest_safe fp s interval n ≤ n)
        × (slots_fit fp s interval (largest_safe fp s interval n) (largest_safe fp s interval n) 0
            ≡ true)
  unfolding largest_safe slots_fit
  largest_safe-fits s interval zero = (omega arith, refl)
  largest_safe-fits s interval (suc n) = ground (arith, largest_safe-fits s interval n)

  -- A generation hint promises only frames that each fit before their own evenly spaced
  -- deadline.
  pub safe_generation_hint-fits :
      (s : Predictor D) (max_count slot : ℕ) (interval : D)
      → slot < safe_generation_hint fp s max_count interval
      → (safe_generation_hint fp s max_count interval ≤ max_count)
        × (slot_fits fp s interval (safe_generation_hint fp s max_count interval) slot ≡ true)
  unfolding safe_generation_hint
  safe_generation_hint-fits s max_count slot interval h = ground (
    arith,
    largest_safe-fits s interval max_count,
    slots_fit-slot s interval (largest_safe fp s interval max_count)
        (largest_safe fp s interval max_count) 0 slot,
  )

  -- What a batch of a count is expected to cost by the estimate of a chosen count: the cost is
  -- finite and positive, and with a margin of 12 % of it, but 0.35 ms at least, it fits into what
  -- the delivery reserve leaves of the budget.
  abbrev pub Fits : Predictor D → ℕ → D → ℕ → Type 0
  Fits s count budget chosen =
      let total =
        fp.double.mul (estimate_at fp s chosen).total_lsfg_ms (batch_scale fp count chosen) in
      let margin =
        Float.max fp.double (fp.double.decimal 35 2)
          (fp.double.mul total (fp.double.decimal 12 2)) in
      let left =
        Float.max fp.double (fp.double.decimal 0 0) (fp.double.sub budget s.delivery_reserve_ms) in
      (fp.double.is_finite total ≡ true)
      × (fp.double.lt (fp.double.decimal 0 0) total ≡ true)
      × (fp.double.le (fp.double.add total margin) left ≡ true)

  decide-Fits :
      (s : Predictor D) (count : ℕ) (budget : D) (chosen : Option ℕ)
      → admits fp (decide fp s count budget chosen) ≡ true
      → (c : ℕ) × (chosen ≡ some c) × Fits s count budget c
  unfolding decide no_decision
  decide-Fits s count budget none h = absurd (ground arith)
  decide-Fits s count budget (some zero) h = absurd (ground arith)
  decide-Fits s count budget (some (suc c)) h =
      (suc c, refl, (ground arith, ground arith, ground arith))

  predict-decides :
      (s : Predictor D) (count : ℕ) (budget : D)
      → admits fp (predict fp s count budget) ≡ true
      → (is_tracked fp count ≡ true)
        × (s.has_estimate ≡ true)
        × (fp.double.lt (fp.double.decimal 0 0) budget ≡ true)
        × (fp.double.is_finite budget ≡ true)
        × (admits fp (decide fp s count budget (choose_estimate fp s count)) ≡ true)
  unfolding predict no_decision
  predict-decides s count budget h = ground arith

  -- An admitted batch is one of one to three frames, and its budget is finite and positive. Its
  -- cost comes from a measured estimate of a tracked count, with no measured one nearer to the
  -- batch, and that cost, scaled to the batch, is finite and positive and fits with its margin into
  -- what the delivery reserve leaves of the budget.
  pub predict-admits :
      (s : Predictor D) (count other : ℕ) (budget : D)
      → admits fp (predict fp s count budget) ≡ true
      → is_tracked fp other ≡ true
      → is_measured s other ≡ true
      → (0 < count)
        × (count < 4)
        × (fp.double.lt (fp.double.decimal 0 0) budget ≡ true)
        × (fp.double.is_finite budget ≡ true)
        × ((chosen : ℕ) × (is_tracked fp chosen ≡ true)
            × (is_measured s chosen ≡ true)
            × (distance count chosen ≤ distance count other)
            × Fits s count budget chosen)
  predict-admits s count other budget h tracked measured =
      let (small, known, positive, finite, decided) = predict-decides s count budget h in
      let (chosen, choice, fits) =
        decide-Fits s count budget (choose_estimate fp s count) decided in
      let (seen, within, near) =
        choose_estimate-nearest s count chosen other small choice tracked measured in
      (ground arith, ground arith, positive, finite, (chosen, within, seen, near, fits))
