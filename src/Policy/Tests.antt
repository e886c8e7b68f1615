-- ===== src/Policy/Tests.antt =====
-- The policies at concrete inputs.
use lsfg_vk_android.Common.{
  some, none, ℕ, ◌<◌, ◌≡◌, ◌↔◌, refl, true, false, List, [], ◌∷◌, ◌⊎◌, length,
}
use lsfg_vk_android.Common.Int.{pos}
use lsfg_vk_android.Float.Fixed.{Fixed, nano, fixed_float}
use lsfg_vk_android.Policy.Handoff.{Identity, compatible, select_enable_scale, select_stable_scale}
use lsfg_vk_android.Policy.Handoffs.{compatible_iff, select_scale_iff, Continues, Enables}
use lsfg_vk_android.Policy.Sync.{
  other_driver, contains_ascii_case_insensitive, select_framegen_compatibility_path, adreno,
  adreno_latest_known_good, ascii_lower, matches, matches_at,
}
use lsfg_vk_android.Policy.Names.{HasPart, contains_iff}

abbrev playing : Identity
playing = record {
  enabled = true;
  targeted = true;
  adaptive_framegen = true;
  adaptive_flow = true;
  performance = false;
  hdr = false;
  multiplier = 2;
  target_fps = 120;
  width = 1920;
  height = 1080;
  dll = b'a' ∷ [];
  preset = b'l' ∷ b'o' ∷ b'w' ∷ [];
}

abbrev wider : Identity
wider = record playing { width = 2560 }

compatible_iff_example :
    (compatible playing wider ≡ true)
    ↔ ((playing ≡ wider) × (playing.enabled ≡ true) × (playing.adaptive_flow ≡ true))
compatible_iff_example = compatible_iff playing wider

-- 0.65.
abbrev scale : Fixed
scale = nano (pos 650_000_000)

select_scale_iff_example :
    (((select_stable_scale fixed_float true playing playing scale scale false 0 ≡ some scale)
        × Continues fixed_float true playing playing scale scale false 0)
      ⊎ ((select_stable_scale fixed_float true playing playing scale scale false 0 ≡ none)
          × (¬ Continues fixed_float true playing playing scale scale false 0)))
    × (((select_enable_scale fixed_float playing playing scale ≡ some scale)
          × Enables fixed_float playing playing scale)
        ⊎ ((select_enable_scale fixed_float playing playing scale ≡ none)
            × (¬ Enables fixed_float playing playing scale)))
select_scale_iff_example =
    select_scale_iff fixed_float true playing playing scale scale scale false 0

-- "A Adreno".
abbrev name : List ℕ
name = b'A' ∷ b' ' ∷ b'A' ∷ b'd' ∷ b'r' ∷ b'e' ∷ b'n' ∷ b'o' ∷ []

contains_iff_example :
    (contains_ascii_case_insensitive name adreno ≡ true)
    ↔ ((0 < length adreno) × HasPart name adreno)
contains_iff_example = contains_iff name adreno

name-is_adreno : select_framegen_compatibility_path other_driver name [] ≡ adreno_latest_known_good
unfolding select_framegen_compatibility_path contains_ascii_case_insensitive matches_at matches
    ascii_lower
name-is_adreno = refl
