-- ===== src/Flow/Presets.antt =====
-- The scales of each preset, and the scale at which a preset takes over from a fixed one.
use lsfg_vk_android.Common.{ℕ, List, [], ◌∷◌, map, length, Option, none, some, if◌then◌else◌, not}
use lsfg_vk_android.Float.{Floats}
use lsfg_vk_android.Flow.Types.{Preset, quality, balanced, low, auto}

-- The tables, in hundredths.
abbrev pub quality_states : List ℕ
quality_states = 100 ∷ 95 ∷ 90 ∷ 85 ∷ 80 ∷ 75 ∷ 70 ∷ []

abbrev pub balanced_states : List ℕ
balanced_states = 80 ∷ 75 ∷ 70 ∷ 65 ∷ 60 ∷ 55 ∷ []

abbrev pub low_states : List ℕ
low_states = 55 ∷ 50 ∷ 45 ∷ 40 ∷ 35 ∷ 30 ∷ 25 ∷ []

abbrev pub auto_states : List ℕ
auto_states = 100 ∷ 95 ∷ 90 ∷ 85 ∷ 80 ∷ 75 ∷ 70 ∷ 65 ∷ 60 ∷ 55 ∷ 50 ∷ 45 ∷ 40 ∷ 35 ∷ 30 ∷ 25 ∷ []

unfoldable pub hundredths : Preset → List ℕ
hundredths quality = quality_states
hundredths balanced = balanced_states
hundredths low = low_states
hundredths auto = auto_states

-- presetStates.size().
unfoldable pub size : Preset → ℕ
unfolding hundredths
size p = length (hundredths p)

abbrev pub first_or {ℓ} : {A : Type ℓ} → List A → A → A
first_or [] d = d
first_or (x ∷ xs) d = x

abbrev pub last_or {ℓ} : {A : Type ℓ} → List A → A → A
last_or [] d = d
last_or (x ∷ xs) d = last_or xs x

module _ {S D : Type 0} (fp : Floats S D) where
  open fp.single use {add, le, is_finite, decimal}

  -- The tables as `float` literals.
  unfoldable pub states : Preset → List S
  unfolding hundredths
  states p = map (λ n. decimal n 2) (hundredths p)

  -- 0.0005F.
  abbrev pub scale_epsilon : S
  scale_epsilon = decimal 5 4

  -- The loop of conservativeSeedScale: the first state that does not exceed the scale.
  unfoldable pub first_within : S → List S → Option S
  first_within scale [] = none
  first_within scale (candidate ∷ rest) =
      if le candidate (add scale scale_epsilon) then some candidate else first_within scale rest

  abbrev pub or_floor : List S → Option S → S
  or_floor presets none = last_or presets (decimal 1 0)
  or_floor presets (some candidate) = candidate

  unfoldable pub conservative_seed_scale : Preset → S → Option S
  conservative_seed_scale preset scale =
      if not (is_finite scale)
      then none
      else some (or_floor (states preset) (first_within scale (states preset)))
