-- ===== src/Flow/Entry.antt =====
-- How a controller enters its coherent states: construction, configuration, reset and seeding.
use lsfg_vk_android.Common.{
  ℕ, suc, ◌+◌, ◌<◌, ◌≡◌, refl, Bool, true, false, arith, List, [], ◌∷◌, length, get_or, some, none,
  inl, inr, Option, Bool-cases, ◌⊎◌,
}
use lsfg_vk_android.Float.{Floats}
use lsfg_vk_android.Flow.Types.{Preset, quality, balanced, low, auto, Controller}
use lsfg_vk_android.Flow.Presets.{size, states, first_or, scale_epsilon}
use lsfg_vk_android.Flow.Lifecycle.{
  construct, restart, reset, configure, find_scale, place_seed, seed_current_scale,
  default_controller,
}
use lsfg_vk_android.Flow.Observe.Trials.{scale_at}
use lsfg_vk_android.Flow.Invariant.{IsCoherent}

size-pos : (p : Preset) → 0 < size p
unfolding size
size-pos quality = omega arith
size-pos balanced = omega arith
size-pos low = omega arith
size-pos auto = omega arith

module _ {S D : Type 0} (fp : Floats S D) where
  front-scale_at : (p : Preset) → first_or (states fp p) (fp.single.decimal 100 2) ≡ scale_at fp p 0
  unfolding states scale_at
  front-scale_at quality = refl
  front-scale_at balanced = refl
  front-scale_at low = refl
  front-scale_at auto = refl

  restart-IsCoherent : (s : Controller S D) → IsCoherent fp (restart fp s)
  unfolding restart
  restart-IsCoherent s = ground (arith, size-pos s.preset, front-scale_at s.preset)

  pub construct-IsCoherent : (p : Preset) → IsCoherent fp (construct fp p)
  unfolding construct
  construct-IsCoherent p = ground (arith, size-pos p, front-scale_at p)

  pub default-IsCoherent : IsCoherent fp (default_controller fp)
  unfolding states
  default-IsCoherent = ground (arith, size-pos quality, front-scale_at quality)

  pub reset-IsCoherent : (s : Controller S D) → IsCoherent fp (reset fp s)
  unfolding reset
  reset-IsCoherent s = ground (arith, restart-IsCoherent s)

  pub configure-IsCoherent :
      (s : Controller S D) (enabled : Bool) (preset : Preset)
      → IsCoherent fp s
      → IsCoherent fp (configure fp s enabled preset)
  unfolding configure
  configure-IsCoherent s enabled preset h =
      ground (arith, restart-IsCoherent (record s { enabled = enabled; preset = preset }))

  pub size-length : (p : Preset) → length (states fp p) ≡ size p
  unfolding states size
  size-length quality = refl
  size-length balanced = refl
  size-length low = refl
  size-length auto = refl

  -- A position that find_scale returns holds the state that it returns, and that state is
  -- within the tolerance.
  abbrev Found : S → ℕ → List S → ℕ → S → Type 0
  Found scale i xs j state =
      (k : ℕ) × (j ≡ i + k)
      × (k < length xs)
      × ((d : S) → get_or xs k d ≡ state)
      × (fp.single.le (fp.single.abs (fp.single.sub state scale)) (scale_epsilon fp) ≡ true)

  find_scale-Found :
      (scale : S) (i : ℕ) (xs : List S) (j : ℕ) (state : S)
      → find_scale fp scale i xs ≡ some (j, state)
      → Found scale i xs j state
  unfolding find_scale
  find_scale-Found scale i [] j state h = cc
  find_scale-Found scale i (x ∷ xs) j state h =
      elim (Bool-cases (fp.single.le (fp.single.abs (fp.single.sub x scale)) (scale_epsilon fp))) [
        | inl e ↦ (0, ground arith, omega arith, λ d. ground arith, ground arith)
        | inr e ↦
            let (k, at, below, here, near) =
              find_scale-Found scale (suc i) xs j state (ground arith) in
            (suc k, omega arith, omega arith, here, near)
      ]

  -- What a seed does: it is refused and nothing changes, or the controller restarts on a state
  -- of its preset that is within the tolerance of the seed.
  abbrev pub Seeds : Controller S D → S → Controller S D × Bool → Type 0
  Seeds s scale (t, placed) =
      ((placed ≡ false) × (t ≡ s))
      ⊎ ((placed ≡ true)
          × IsCoherent fp t
          × (t.preset ≡ s.preset)
          × (t.enabled ≡ true)
          × (t.downstep.evaluation_active ≡ false)
          × (t.recovery.evaluation_active ≡ false)
          × (fp.single.le (fp.single.abs (fp.single.sub t.telemetry.current_scale scale))
                (scale_epsilon fp)
              ≡ true))

  place_seed-Seeds :
      (s : Controller S D) (scale : S) (found : Option (ℕ × S))
      → s.enabled ≡ true
      → find_scale fp scale 0 (states fp s.preset) ≡ found
      → Seeds s scale (place_seed fp s found)
  place_seed-Seeds s scale none on e = inl (refl, refl)
  place_seed-Seeds s scale (some (i, state)) on e =
      let (k, at, below, here, near) = find_scale-Found scale 0 (states fp s.preset) i state e in
      let placed : scale_at fp s.preset k ≡ state =
        unfold scale_at in here (fp.single.decimal 100 2) in
      inr (
        unfold reset restart in
        (
          refl,
          ground (arith, size-length s.preset, placed),
          ground arith,
          ground arith,
          ground arith,
          ground arith,
          near,
        ))

  -- Seeding is refused without effect, or lands on a state of the preset within the tolerance.
  pub seed_current_scale-Seeds :
      (s : Controller S D) (scale : S) → Seeds s scale (seed_current_scale fp s scale)
  unfolding seed_current_scale
  seed_current_scale-Seeds s scale =
      ground (arith, place_seed-Seeds s scale (find_scale fp scale 0 (states fp s.preset)))
