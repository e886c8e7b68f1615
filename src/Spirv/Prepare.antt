-- ===== src/Spirv/Prepare.antt =====
-- framegen/src/core/spirv_compat.cpp, prepareSpirvForTarget.
use mathlib.Core.List.{reverse}
use lsfg_vk_android.Common.{
  ℕ, ◌*◌, ◌%◌, List, [], ◌∷◌, ◌++◌, length, drop, take, set, get_or, Bool, true, false, not, ◌&&◌,
  ◌||◌, if◌then◌else◌, ltb, ◌==◌, Option, none, some, codes, ok, err,
}
use lsfg_vk_android.Spirv.{magic, header_words, spirv_14, spirv_15, spirv_16, valid_target}
use lsfg_vk_android.Spirv.Words.{bytes_to_words, words_to_bytes, encode_extension}
use lsfg_vk_android.Spirv.Walk.{
  Scan, scan, has_extension, Rejection, unsupported_target, invalid_length, invalid_magic,
  unaudited_version,
}

-- `none` is the empty text of rejectionReason.
pub record SpirvCompatibilityResult : Type 0 where
  pub supported : Bool
  pub lowered : Bool
  pub source_version : ℕ
  pub target_version : ℕ
  pub capabilities : List ℕ
  pub code : List ℕ
  pub rejection_reason : Option Rejection

-- std::sort, std::unique and erase.
abbrev pub insert_once : ℕ → List ℕ → List ℕ
insert_once x [] = x ∷ []
insert_once x (y ∷ ys) =
    if ltb x y then x ∷ y ∷ ys else if x == y then y ∷ ys else y ∷ insert_once x ys

unfoldable pub sort_unique : List ℕ → List ℕ
sort_unique [] = []
sort_unique (x ∷ xs) = insert_once x (sort_unique xs)

abbrev pub initial_result : ℕ → SpirvCompatibilityResult
initial_result target = record {
  supported = false;
  lowered = false;
  source_version = 0;
  target_version = target;
  capabilities = [];
  code = [];
  rejection_reason = none;
}

abbrev pub initial_scan : Scan
initial_scan = record {
  needs_memory_model_extension = false;
  insert_at = header_words;
  capabilities = [];
}

-- The bytes of SPV_KHR_vulkan_memory_model.
abbrev pub memory_model_extension : List ℕ
memory_model_extension = codes "SPV_KHR_vulkan_memory_model"

unfoldable pub insert_extension : ℕ → Scan → List ℕ → List ℕ
insert_extension target s words =
    let missing =
      not (
        has_extension (length words) (drop header_words words)
          (memory_model_extension ++ 0 ∷ [])) in
    if ltb target spirv_15 && s.needs_memory_model_extension && missing
    then take s.insert_at words ++ encode_extension memory_model_extension ++ drop s.insert_at words
    else words

-- From the end of the loop on.
unfoldable pub emit : ℕ → List ℕ → Scan → SpirvCompatibilityResult → SpirvCompatibilityResult
emit target words s result =
    let is_lowered = ltb target result.source_version in
    record result {
      capabilities = sort_unique (reverse s.capabilities);
      lowered = is_lowered;
      code =
          words_to_bytes
            (if is_lowered then set (insert_extension target s words) 1 target else words);
      supported = true;
    }

abbrev pub reject : Rejection → SpirvCompatibilityResult → SpirvCompatibilityResult
reject reason result = record result { rejection_reason = some reason }

unfoldable pub rewrite_words : List ℕ → ℕ → SpirvCompatibilityResult → SpirvCompatibilityResult
rewrite_words words target result =
    elim (scan (length words) target header_words (drop header_words words) initial_scan) [
      | ok s ↦ emit target words s result
      | err (reason, seen) ↦ reject reason (record result { capabilities = reverse seen })
    ]

unfoldable pub prepare_spirv_for_target : List ℕ → ℕ → SpirvCompatibilityResult
prepare_spirv_for_target source target =
    let words = bytes_to_words source in
    let version = get_or words 1 0 in
    let result = initial_result target in
    let versioned = record result { source_version = version } in
    if not (valid_target target)
    then reject unsupported_target result
    else if ltb (length source) (header_words * 4) || not (length source % 4 == 0)
    then reject invalid_length result
    else if not (get_or words 0 0 == magic)
    then reject invalid_magic result
    else if ltb version spirv_14 || ltb spirv_16 version
    then reject unaudited_version versioned
    else rewrite_words words target versioned
