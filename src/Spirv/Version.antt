-- ===== src/Spirv/Version.antt =====
-- The version that the code of prepareSpirvForTarget declares.
use lsfg_vk_android.Common.{
  ℕ, ◌^◌, ◌<◌, ◌≤◌, ◌≡◌, List, ◌++◌, length, drop, take, set, get_or, true, arith, if_cases, min,
  All-append, All-take, All-drop, All-set, length-append, length-take-drop, get_or-set_self,
}
use lsfg_vk_android.Spirv.{valid_target}
use lsfg_vk_android.Spirv.Words.{
  bytes_to_words, AreBytes, AreWords, words-bytes-words, encode_extension, bytes_to_words-AreWords,
}
use lsfg_vk_android.Spirv.Walk.{Scan}
use lsfg_vk_android.Spirv.Prepare.{
  prepare_spirv_for_target, emit, insert_extension, memory_model_extension,
}
use lsfg_vk_android.Spirv.Lowering.{prepare-elim, length-bytes_to_words}

extension-AreWords : AreWords (encode_extension memory_model_extension)
unfolding encode_extension bytes_to_words
extension-AreWords = ground arith

module _ (at : ℕ) (words : List ℕ) where
  -- The words with the extension inserted.
  abbrev with_extension : List ℕ
  with_extension = take at words ++ encode_extension memory_model_extension ++ drop at words

  with_extension-AreWords : AreWords words → AreWords with_extension
  with_extension-AreWords v =
      let Word : ℕ → Type 0 = λ w. w < 2 ^ 32 in
      let extension = encode_extension memory_model_extension in
      All-append Word (take at words ++ extension) (drop at words)
        (All-append Word (take at words) extension (All-take Word at words v) extension-AreWords)
        (All-drop Word at words v)

  with_extension-longer : length words ≤ length with_extension
  with_extension-longer =
      let extension = encode_extension memory_model_extension in
      omega (
        arith,
        length-append (take at words ++ extension) (drop at words),
        length-append (take at words) extension,
        length-take-drop at words,
      )

insert_extension-AreWords :
    (target : ℕ) (s : Scan) (words : List ℕ)
    → AreWords words
    → AreWords (insert_extension target s words)
unfolding insert_extension
insert_extension-AreWords target s words v =
    if_cases AreWords _ (λ _. with_extension-AreWords s.insert_at words v) (λ _. v)

insert_extension-longer :
    (target : ℕ) (s : Scan) (words : List ℕ)
    → length words ≤ length (insert_extension target s words)
unfolding insert_extension
insert_extension-longer target s words = ground (arith, with_extension-longer s.insert_at words)

target-bound : (target : ℕ) → valid_target target ≡ true → target < 2 ^ 32
unfolding valid_target
target-bound target h = ground arith

-- The version that the code of a supported module of bytes declares is that of the module or the
-- target, whichever is lower.
pub prepare-version :
    (source : List ℕ) (target : ℕ)
    → AreBytes source
    → (prepare_spirv_for_target source target).supported ≡ true
    → get_or (bytes_to_words (prepare_spirv_for_target source target).code) 1 0
      ≡ min target (get_or (bytes_to_words source) 1 0)
unfolding emit min
prepare-version source target v =
    let words = bytes_to_words source in
    let version = get_or words 1 0 in
    prepare-elim source target
      (λ r. r.supported ≡ true → get_or (bytes_to_words r.code) 1 0 ≡ min target version)
      (λ r (reason, given, other, unsupported) h. absurd (ground arith))
      λ s whole long valid e h.
        let kept = bytes_to_words-AreWords source v in
        let inserted = insert_extension target s words in
        let bound = target-bound target valid in
        let size : 1 < length inserted =
          omega (arith, length-bytes_to_words source, insert_extension-longer target s words) in
        let lowered = set inserted 1 target in
        let all =
          All-set (λ w. w < 2 ^ 32) inserted 1 target
            (insert_extension-AreWords target s words kept) bound in
        let declared : get_or lowered 1 0 ≡ target = get_or-set_self inserted 1 target 0 size in
        ground (arith, words-bytes-words words kept, words-bytes-words lowered all, declared)
