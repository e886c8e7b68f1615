-- ===== src/Policy/Sync.antt =====
-- include/android_sync_policy.hpp: the compatibility path of a driver family. Characters are
-- bytes; a byte above 127, negative as a char, is no letter.
use lsfg_vk_android.Common.{
  ℕ, ◌+◌, Bool, true, false, ◌&&◌, ◌||◌, if◌then◌else◌, leb, ltb, ◌==◌, List, [], ◌∷◌, length,
}

pub data FramegenCompatibilityPath : Type 0 where
  adreno_latest_known_good xclipse_current generic : FramegenCompatibilityPath

-- The values of VkDriverId that the policy knows.
pub data DriverId : Type 0 where
  mesa_turnip qualcomm_proprietary samsung_proprietary other_driver : DriverId

unfoldable pub ascii_lower : ℕ → ℕ
ascii_lower ch = if leb b'A' ch && leb ch b'Z' then ch + 32 else ch

-- The inner loop: the needle at one place.
unfoldable pub matches : List ℕ → List ℕ → Bool
matches [] value = true
matches (n ∷ needle) [] = false
matches (n ∷ needle) (v ∷ value) = ascii_lower v == ascii_lower n && matches needle value

-- The outer loop, over the places that leave room for the needle.
unfoldable pub matches_at : List ℕ → List ℕ → Bool
matches_at needle [] = false
matches_at needle (v ∷ value) =
    leb (length needle) (length (v ∷ value))
    && (matches needle (v ∷ value) || matches_at needle value)

unfoldable pub contains_ascii_case_insensitive : List ℕ → List ℕ → Bool
contains_ascii_case_insensitive value needle =
    if length needle == 0 || ltb (length value) (length needle)
    then false
    else matches_at needle value

abbrev pub turnip : List ℕ
turnip = b't' ∷ b'u' ∷ b'r' ∷ b'n' ∷ b'i' ∷ b'p' ∷ []

abbrev pub qualcomm : List ℕ
qualcomm = b'q' ∷ b'u' ∷ b'a' ∷ b'l' ∷ b'c' ∷ b'o' ∷ b'm' ∷ b'm' ∷ []

abbrev pub adreno : List ℕ
adreno = b'a' ∷ b'd' ∷ b'r' ∷ b'e' ∷ b'n' ∷ b'o' ∷ []

abbrev pub xclipse : List ℕ
xclipse = b'x' ∷ b'c' ∷ b'l' ∷ b'i' ∷ b'p' ∷ b's' ∷ b'e' ∷ []

abbrev pub samsung : List ℕ
samsung = b's' ∷ b'a' ∷ b'm' ∷ b's' ∷ b'u' ∷ b'n' ∷ b'g' ∷ []

abbrev pub is_adreno : DriverId → Bool
is_adreno mesa_turnip = true
is_adreno qualcomm_proprietary = true
is_adreno samsung_proprietary = false
is_adreno other_driver = false

abbrev pub is_samsung : DriverId → Bool
is_samsung mesa_turnip = false
is_samsung qualcomm_proprietary = false
is_samsung samsung_proprietary = true
is_samsung other_driver = false

unfoldable pub select_framegen_compatibility_path :
    DriverId → List ℕ → List ℕ → FramegenCompatibilityPath
select_framegen_compatibility_path driver_id driver_name device_name =
    let driver = contains_ascii_case_insensitive driver_name in
    let device = contains_ascii_case_insensitive device_name in
    if is_adreno driver_id
    then adreno_latest_known_good
    else if driver turnip || driver qualcomm || driver adreno || device qualcomm || device adreno
    then adreno_latest_known_good
    else if is_samsung driver_id
        || driver xclipse
        || driver samsung
        || device xclipse
        || device samsung
    then xclipse_current
    else generic

abbrev pub is_conservative : FramegenCompatibilityPath → Bool
is_conservative adreno_latest_known_good = true
is_conservative xclipse_current = false
is_conservative generic = false

unfoldable pub requires_conservative_cross_device_sync : DriverId → List ℕ → Bool
requires_conservative_cross_device_sync driver_id driver_name =
    is_conservative (select_framegen_compatibility_path driver_id driver_name [])
