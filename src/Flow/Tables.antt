-- ===== src/Flow/Tables.antt =====
-- The preset tables, and the state at which a preset takes over from a fixed scale.
use lsfg_vk_android.Common.{
  ℕ, ◌+◌, ◌≤◌, ◌≡◌, refl, true, false, List, [], ◌∷◌, ◌++◌, Option, none, some, arith, ◌⊎◌, inl,
  inr, Bool-cases,
}
use lsfg_vk_android.Float.{Floats}
use lsfg_vk_android.Flow.Types.{Preset, quality, balanced, low, auto}
use lsfg_vk_android.Flow.Presets.{
  hundredths, states, first_or, last_or, scale_epsilon, first_within, or_floor,
  conservative_seed_scale,
}

-- Each state lies 5 hundredths below the state before it.
abbrev pub IsLadder : List ℕ → Type 0
IsLadder [] = Unit {0}
IsLadder (a ∷ []) = Unit {0}
IsLadder (a ∷ b ∷ r) = (a ≡ b + 5) × IsLadder (b ∷ r)

-- The states of every preset go down by 5 hundredths at a time, and stay from 0.25 to 1.00.
pub hundredths-IsLadder :
    (p : Preset)
    → IsLadder (hundredths p) × (25 ≤ last_or (hundredths p) 0) × (first_or (hundredths p) 0 ≤ 100)
unfolding hundredths
hundredths-IsLadder quality = omega arith
hundredths-IsLadder balanced = omega arith
hundredths-IsLadder low = omega arith
hundredths-IsLadder auto = omega arith

module _ {S D : Type 0} (fp : Floats S D) where
  -- The candidate does not exceed the scale by more than the tolerance.
  abbrev pub IsWithin : S → S → Type 0
  IsWithin scale candidate = fp.single.le candidate (fp.single.add scale (scale_epsilon fp)) ≡ true

  abbrev pub AllExceed : S → List S → Type 0
  AllExceed scale [] = Unit {0}
  AllExceed scale (x ∷ xs) =
      (fp.single.le x (fp.single.add scale (scale_epsilon fp)) ≡ false) × AllExceed scale xs

  -- The first state within the scale, or the floor if all states exceed it.
  abbrev pub IsSeed : S → List S → S → Type 0
  IsSeed scale xs seed =
      ((before : List S) × (after : List S) × (xs ≡ before ++ seed ∷ after)
        × AllExceed scale before
        × IsWithin scale seed)
      ⊎ (AllExceed scale xs × (seed ≡ last_or xs (fp.single.decimal 1 0)))

  abbrev Selects : S → List S → Option S → Type 0
  Selects scale xs none = AllExceed scale xs
  Selects scale xs (some seed) =
      (before : List S) × (after : List S) × (xs ≡ before ++ seed ∷ after)
      × AllExceed scale before
      × IsWithin scale seed

  first_within-Selects : (scale : S) (xs : List S) → Selects scale xs (first_within fp scale xs)
  unfolding first_within
  first_within-Selects scale [] = tt
  first_within-Selects scale (x ∷ xs) =
      elim (Bool-cases (fp.single.le x (fp.single.add scale (scale_epsilon fp)))) [
        | inl e ↦ rw e ([], xs, refl, tt, e)
        | inr e ↦ rw e (Selects-cons x e (first_within fp scale xs) (first_within-Selects scale xs))
      ]
    where
      Selects-cons :
          (y : S)
          → fp.single.le y (fp.single.add scale (scale_epsilon fp)) ≡ false
          → (found : Option S) → Selects scale xs found
          → Selects scale (y ∷ xs) found
      Selects-cons y e none h = (e, h)
      Selects-cons y e (some seed) (before, after, split, all, within) =
          (y ∷ before, after, cc, (e, all), within)

  or_floor-IsSeed :
      (scale : S) (xs : List S) (found : Option S)
      → Selects scale xs found
      → IsSeed scale xs (or_floor fp xs found)
  or_floor-IsSeed scale xs none h = inr (h, refl)
  or_floor-IsSeed scale xs (some seed) h = inl h

  -- For a finite scale the seed is the first state of the preset that does not exceed it, and
  -- the floor of the preset if there is none.
  pub conservative_seed_scale-IsSeed :
      (p : Preset) (scale : S)
      → fp.single.is_finite scale ≡ true
      → (seed : S) × (conservative_seed_scale fp p scale ≡ some seed)
        × IsSeed scale (states fp p) seed
  unfolding conservative_seed_scale
  conservative_seed_scale-IsSeed p scale finite = (
    or_floor fp (states fp p) (first_within fp scale (states fp p)),
    rw finite,
    or_floor-IsSeed scale (states fp p) _ (first_within-Selects scale (states fp p)),
  )
