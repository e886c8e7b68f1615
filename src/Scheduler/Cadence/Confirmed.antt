-- ===== src/Scheduler/Cadence/Confirmed.antt =====
-- What a confirmed deficit and a confirmed target of the output rate rest on.
use lsfg_vk_android.Common.{
  same_bool, ℕ, ◌≡◌, refl, Bool, true, false, ◌&&◌, ◌==◌, arith, ◌⊎◌, inl, List, [], ◌∷◌,
}
use lsfg_vk_android.Common.Int.{ℤ}
use lsfg_vk_android.Float
use lsfg_vk_android.Float.{Floats}
use lsfg_vk_android.Scheduler.Cadence.{
  Tracker, new, origin, clear_window, begin_transition, reset, configure, measure, is_deficit,
  is_satisfied, accumulate, rebuild_snapshot, push_sample, observe, add_size,
}

pub data Call : Type 0 where
  configures : Bool → ℕ → Call
  observes : ℤ → ℕ → ℕ → Call
  transitions resets : Call

module _ {S D : Type 0} (fp : Floats S D) where
  -- A confirmed deficit has a target and a valid rate below 97 % of it. A confirmed target has
  -- a valid rate of at least 98.5 % of it, or no target, or no sample yet.
  pub record IsJudged (s : Tracker D) : Type 0 where
    pub deficit :
        (s.snapshot.deficit_confirmed ≡ false)
        ⊎ ((s.targeted ≡ true)
            × (s.snapshot.valid ≡ true)
            × (is_deficit fp s ≡ true)
            × (s.snapshot.target_satisfied_confirmed ≡ false))
    pub satisfied :
        (s.snapshot.target_satisfied_confirmed ≡ false)
        ⊎ ((s.targeted ≡ false)
            ⊎ ((s.sample_count ≡ 0) ⊎ ((s.snapshot.valid ≡ true) × (is_satisfied fp s ≡ true))))

  rebuild_snapshot-IsJudged :
      (s : Tracker D) (evidence : D)
      → fp.double.le (fp.double.decimal 30 2) (origin fp) ≡ false
      → fp.double.le (fp.double.decimal 50 2) (origin fp) ≡ false
      → IsJudged (rebuild_snapshot fp s evidence)
  unfolding rebuild_snapshot accumulate measure
  rebuild_snapshot-IsJudged s evidence a b = ground arith

  cleared-IsJudged : (s : Tracker D) → IsJudged (clear_window fp s)
  unfolding clear_window
  cleared-IsJudged s = ground arith

  unfoldable pub call : Tracker D → Call → Tracker D
  call s (configures targeted target_fps) = configure fp s targeted target_fps
  call s (observes elapsed source generated) = observe fp s elapsed source generated
  call s transitions = begin_transition fp s
  call s resets = reset fp s

  unfoldable pub run : Tracker D → List Call → Tracker D
  run s [] = s
  run s (c ∷ rest) = run (call s c) rest

  call-IsJudged :
      (s : Tracker D) (c : Call)
      → fp.double.le (fp.double.decimal 30 2) (origin fp) ≡ false
      → fp.double.le (fp.double.decimal 50 2) (origin fp) ≡ false
      → IsJudged s
      → IsJudged (call s c)
  unfolding call configure reset observe begin_transition clear_window
  call-IsJudged s (configures targeted target_fps) a b h = ground arith
  call-IsJudged s (observes elapsed source generated) a b h =
      let seconds = fp.seconds elapsed in
      let t = push_sample fp s seconds (add_size source generated) in
      ground (
        arith,
        cleared-IsJudged s,
        rebuild_snapshot-IsJudged t (Float.min fp.double seconds (fp.double.decimal 50 3)) a b,
      )
  call-IsJudged s transitions a b h = cleared-IsJudged s
  call-IsJudged s resets a b h = cleared-IsJudged (record s { targeted = false; target_fps = 0 })

  run-IsJudged :
      (s : Tracker D) (calls : List Call)
      → fp.double.le (fp.double.decimal 30 2) (origin fp) ≡ false
      → fp.double.le (fp.double.decimal 50 2) (origin fp) ≡ false
      → IsJudged s
      → IsJudged (run s calls)
  unfolding run
  run-IsJudged s [] a b h = h
  run-IsJudged s (c ∷ rest) a b h = run-IsJudged (call s c) rest a b (call-IsJudged s c a b h)

  -- Whatever is called on a new tracker, where 0 counts as less than 0.3 and 0.5: a confirmed
  -- deficit has a target and a valid rate below 97 % of it, and excludes a confirmed target; a
  -- confirmed target has a valid rate of at least 98.5 % of it, or no target, or no sample yet.
  pub new-run-IsJudged :
      (calls : List Call)
      → fp.double.le (fp.double.decimal 30 2) (origin fp) ≡ false
      → fp.double.le (fp.double.decimal 50 2) (origin fp) ≡ false
      → IsJudged (run (new fp) calls)
  new-run-IsJudged calls a b =
      run-IsJudged (new fp) calls a b (record { deficit = inl refl; satisfied = inl refl })

  -- A change to a target leaves the target confirmed without a sample, which the transition
  -- that follows takes back.
  pub configure-unconfirmed :
      (s : Tracker D) (target_fps : ℕ)
      → (same_bool s.targeted true && s.target_fps == target_fps) ≡ false
      → let t = configure fp s true target_fps in
        (t.targeted ≡ true)
        × (t.snapshot.valid ≡ false)
        × (t.sample_count ≡ 0)
        × (t.snapshot.target_satisfied_confirmed ≡ true)
        × ((begin_transition fp t).snapshot.target_satisfied_confirmed ≡ false)
  unfolding configure reset begin_transition clear_window
  configure-unconfirmed s target_fps h = ground arith
