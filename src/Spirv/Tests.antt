-- ===== src/Spirv/Tests.antt =====
-- The rewriting at a concrete module: the capabilities Shader and VulkanMemoryModel, and OpMemoryModel.
use lsfg_vk_android.Common.{
  ℕ, ◌<◌, ◌≤◌, ◌≡◌, ◌≢◌, ◌⊎◌, arith, refl, true, false, List, [], ◌∷◌, get_or, length, drop, some,
  min,
}
use lsfg_vk_android.Spirv.{
  magic, header_words, spirv_14, spirv_15, valid_target, is_spirv16_only_capability,
  is_spirv15_promoted_capability_without_compat_path, is_spirv16_only_opcode,
}
use lsfg_vk_android.Spirv.Words.{
  bytes_to_words, words_to_bytes, encode_extension, same_text, AreBytes, bytes-words-bytes,
}
use lsfg_vk_android.Spirv.Walk.{
  out_of_fuel, scan, visit, visit_capability, has_extension, is_non_semantic_import,
}
use lsfg_vk_android.Spirv.Prepare.{prepare_spirv_for_target, rewrite_words, emit, insert_extension}
use lsfg_vk_android.Spirv.Scans.{Allowed, Declares}
use lsfg_vk_android.Spirv.Lowering.{prepare-ends, prepare-unchanged, prepare-Allowed}
use lsfg_vk_android.Spirv.Version.{prepare-version}

abbrev words : List ℕ
words = magic ∷ spirv_15 ∷ 0 ∷ 8 ∷ 0 ∷ 131089 ∷ 1 ∷ 131089 ∷ 5345 ∷ 196622 ∷ 0 ∷ 3 ∷ []

abbrev module_bytes : List ℕ
module_bytes =
    3 ∷ 2 ∷ 35 ∷ 7 ∷ 0 ∷ 5 ∷ 1 ∷ 0 ∷ 0 ∷ 0 ∷ 0 ∷ 0 ∷ 8 ∷ 0 ∷ 0 ∷ 0 ∷ 0 ∷ 0 ∷ 0 ∷ 0 ∷ 17 ∷ 0 ∷ 2 ∷ 0
    ∷ 1 ∷ 0 ∷ 0 ∷ 0 ∷ 17 ∷ 0 ∷ 2 ∷ 0 ∷ 225 ∷ 20 ∷ 0 ∷ 0 ∷ 14 ∷ 0 ∷ 3 ∷ 0 ∷ 0 ∷ 0 ∷ 0 ∷ 0 ∷ 3 ∷ 0 ∷ 0
    ∷ 0 ∷ []

bytes-are : AreBytes module_bytes
bytes-are = ground arith

same : words_to_bytes words ≡ module_bytes
unfolding words_to_bytes
same = refl

is_supported : (prepare_spirv_for_target module_bytes spirv_14).supported ≡ true
unfolding prepare_spirv_for_target rewrite_words emit scan visit visit_capability bytes_to_words
    valid_target is_spirv16_only_capability is_spirv15_promoted_capability_without_compat_path
    is_spirv16_only_opcode is_non_semantic_import
is_supported = refl

longer : length (prepare_spirv_for_target module_bytes spirv_14).code ≡ 80
unfolding prepare_spirv_for_target rewrite_words emit scan visit visit_capability bytes_to_words
    valid_target is_spirv16_only_capability is_spirv15_promoted_capability_without_compat_path
    is_spirv16_only_opcode is_non_semantic_import insert_extension has_extension encode_extension
    words_to_bytes same_text
longer = refl

bytes-words-bytes_example : words_to_bytes (bytes_to_words module_bytes) ≡ module_bytes
bytes-words-bytes_example = bytes-words-bytes module_bytes refl bytes-are

prepare-ends_example :
    (prepare_spirv_for_target module_bytes spirv_14).rejection_reason ≢ some out_of_fuel
prepare-ends_example = prepare-ends module_bytes spirv_14

prepare-unchanged_example :
    ((prepare_spirv_for_target module_bytes spirv_14).lowered ≡ true
      × spirv_14 < get_or (bytes_to_words module_bytes) 1 0)
    ⊎ ((prepare_spirv_for_target module_bytes spirv_14).lowered ≡ false
        × get_or (bytes_to_words module_bytes) 1 0 ≤ spirv_14
        × (prepare_spirv_for_target module_bytes spirv_14).code ≡ module_bytes)
prepare-unchanged_example = prepare-unchanged module_bytes spirv_14 bytes-are is_supported

-- The second instruction declares VulkanMemoryModel.
memory_model : Declares (drop header_words (bytes_to_words module_bytes)) 5345
unfolding bytes_to_words
memory_model =
    Declares.later {word = 131089} {rest = 1 ∷ 131089 ∷ 5345 ∷ 196622 ∷ 0 ∷ 3 ∷ []}
      (Declares.here {word = 131089} {rest = 196622 ∷ 0 ∷ 3 ∷ []} refl (omega arith))

prepare-Allowed_example : Allowed spirv_14 5345
prepare-Allowed_example = prepare-Allowed module_bytes spirv_14 5345 is_supported memory_model

prepare-version_example :
    get_or (bytes_to_words (prepare_spirv_for_target module_bytes spirv_14).code) 1 0
    ≡ min spirv_14 (get_or (bytes_to_words module_bytes) 1 0)
prepare-version_example = prepare-version module_bytes spirv_14 bytes-are is_supported
