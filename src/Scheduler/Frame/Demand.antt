-- ===== src/Scheduler/Frame/Demand.antt =====
-- How AdaptiveFrameScheduler moves its cost limit, and how long a locked density lasts.
use lsfg_vk_android.Common.{
  ◌+◌, ◌^◌, ◌≤◌, ◌<◌, ◌≡◌, refl, Bool, not, ◌&&◌, if◌then◌else◌, ltb, leb, ℕ, true, false, min,
  arith, ◌⊎◌, List, [], ◌∷◌, repeat, length,
}
use lsfg_vk_android.Float.{Floats}
use lsfg_vk_android.Scheduler.Frame.{Scheduler, never, origin, bump}
use lsfg_vk_android.Scheduler.Frame.Cost.{note_demand, raise_cost, update_cost_limit}
use lsfg_vk_android.Scheduler.Frame.Density.{
  acquire_density, hold_density, stabilize_generation_density,
}

module _ {S D : Type 0} (fp : Floats S D) where
  -- Since when the demand has been unmet, seen from a state with an unmet demand: the time that is
  -- kept, or this one where none is.
  abbrev pub unmet_since : Scheduler D → D
  unmet_since s =
      if fp.double.lt s.unmet_demand_since_seconds (origin fp)
      then s.observed_time_seconds
      else s.unmet_demand_since_seconds

  -- The samples in a row that allowed one frame more than the limit, this one included.
  abbrev pub allowed_samples : Scheduler D → ℕ
  allowed_samples s =
      if s.safe_generation_hint_valid && leb (s.cost_limit + 1) s.safe_generation_hint
      then bump s.capacity_raise_samples
      else 0

  -- The demand has been unmet for 0.6 s, or four samples in a row allowed one frame more, the
  -- cadence being stable.
  abbrev pub IsWarranted : Scheduler D → Type 0
  IsWarranted s =
      (fp.double.lt (fp.double.sub s.observed_time_seconds (unmet_since s))
          (fp.double.decimal 600 3)
        ≡ false)
      ⊎ ((4 ≤ allowed_samples s) × (0 < s.stable_cadence_samples))

  -- The demand is above the limit, and the limit is below the maximum.
  abbrev pub is_unmet : Scheduler D → D → Bool
  is_unmet s wanted =
      ltb s.cost_limit s.max_generated_frames
      && not (fp.double.le wanted (fp.double.add (fp.of_nat s.cost_limit) (fp.double.decimal 1 3)))

  -- Without generation first, a cost limit from one to the maximum is kept or raised by one. A
  -- demand that the limit meets keeps it and forgets since when a demand was unmet and how many
  -- samples allowed more. A demand that it does not meet raises it exactly when the demand has been
  -- unmet for 0.6 s or the capacity is proven, and then forgets both; otherwise it keeps the limit
  -- and both.
  pub update_cost_limit-raises :
      (s : Scheduler D) (wanted : D)
      → s.generation_first ≡ false
      → 0 < s.cost_limit
      → s.cost_limit ≤ s.max_generated_frames
      → let t = update_cost_limit fp s wanted in
        ((is_unmet s wanted ≡ false)
          × (t.cost_limit ≡ s.cost_limit)
          × (t.unmet_demand_since_seconds ≡ never fp)
          × (t.capacity_raise_samples ≡ 0))
        ⊎ (((is_unmet s wanted ≡ true)
              × IsWarranted s
              × (t.cost_limit ≡ s.cost_limit + 1)
              × (t.telemetry.cost_raised ≡ true)
              × (t.unmet_demand_since_seconds ≡ never fp)
              × (t.capacity_raise_samples ≡ 0))
            ⊎ ((is_unmet s wanted ≡ true)
                × (¬ IsWarranted s)
                × (t.cost_limit ≡ s.cost_limit)
                × (t.unmet_demand_since_seconds ≡ unmet_since s)
                × (t.capacity_raise_samples ≡ allowed_samples s)))
  unfolding update_cost_limit raise_cost note_demand min
  update_cost_limit-raises s wanted g p h = ground arith

  -- The densities of a sequence of demands.
  unfoldable pub stabilize_all : Scheduler D → List D → List D
  stabilize_all s [] = []
  stabilize_all s (wanted ∷ rest) =
      let (t, density) = stabilize_generation_density fp s wanted in density ∷ stabilize_all t rest

  stabilize-locked :
      (s : Scheduler D) (wanted : D)
      → s.integer_density_locked ≡ true
      → s.integer_density_release_samples < 7
      → let (t, density) = stabilize_generation_density fp s wanted in
        (density ≡ fp.of_nat s.locked_integer_density)
        × (t.integer_density_locked ≡ true)
        × (t.locked_integer_density ≡ s.locked_integer_density)
        × (t.integer_density_release_samples ≤ s.integer_density_release_samples + 1)
  unfolding stabilize_generation_density hold_density acquire_density
  stabilize-locked s wanted l h = ground arith

  -- While its release samples and the demands to come are seven at most, a locked density is
  -- kept for every one of them, however far they are from it.
  pub stabilize_all-locked :
      (s : Scheduler D) (demands : List D)
      → s.integer_density_locked ≡ true
      → s.integer_density_release_samples + length demands ≤ 7
      → stabilize_all s demands ≡ repeat (fp.of_nat s.locked_integer_density) (length demands)
  unfolding stabilize_all
  stabilize_all-locked s [] l h = refl
  stabilize_all-locked s (wanted ∷ rest) l h =
      let t = (stabilize_generation_density fp s wanted).0 in
      ground (arith, stabilize-locked s wanted, stabilize_all-locked t rest)

  -- A density that is not locked locks only after three earlier samples for the same whole
  -- number, whose counter is an `unsigned`; it locks to that number, which becomes the density, and the phase starts at the origin.
  pub stabilize-locks :
      (s : Scheduler D) (wanted : D)
      → s.integer_density_locked ≡ false
      → s.integer_density_candidate_samples < 2 ^ 32
      → (stabilize_generation_density fp s wanted).0.integer_density_locked ≡ true
      → let (t, density) = stabilize_generation_density fp s wanted in
        (3 ≤ s.integer_density_candidate_samples)
        × (t.locked_integer_density ≡ s.integer_density_candidate)
        × (density ≡ fp.of_nat s.integer_density_candidate)
        × (t.fractional_opportunity_phase ≡ origin fp)
  unfolding stabilize_generation_density acquire_density
  stabilize-locks s wanted l h e = ground arith
