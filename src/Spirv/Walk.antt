-- ===== src/Spirv/Walk.antt =====
-- framegen/src/core/spirv_compat.cpp, hasExtension and the loop of prepareSpirvForTarget. The words
-- from an offset on stand for the module at that offset, and fuel counts the turns of a loop.
use lsfg_vk_android.Common.{
  ℕ, zero, suc, ◌+◌, ◌-◌, ◌*◌, ◌/◌, ◌%◌, ◌^◌, List, [], ◌∷◌, length, drop, get_or, Bool, true,
  false, ◌&&◌, ◌||◌, if◌then◌else◌, ltb, leb, ◌==◌, codes, Result, ok, err, ◌>>=◌, ◌>>◌, throw_if,
  take,
}
use lsfg_vk_android.Spirv.{
  op_extension, op_ext_inst_import, op_memory_model, op_capability, op_function, spirv_15, spirv_16,
  is_spirv16_only_capability, is_spirv15_promoted_capability_without_compat_path,
  is_memory_model_capability, is_spirv16_only_opcode,
}
use lsfg_vk_android.Spirv.Words.{words_to_bytes, same_text}

-- The word count and the opcode of an instruction's first word.
abbrev pub count_of : ℕ → ℕ
count_of word = word / 2 ^ 16

abbrev pub opcode_of : ℕ → ℕ
opcode_of word = word % 2 ^ 16

-- The bytes of the words of an instruction from its i-th word on.
abbrev pub operands : ℕ → ℕ → List ℕ → List ℕ
operands i count words = words_to_bytes (take (count - i) (drop i words))

unfoldable pub is_non_semantic_import : List ℕ → ℕ → Bool
is_non_semantic_import words count =
    leb 3 count
    && leb 12 ((count - 2) * 4)
    && same_text 12 (operands 2 count words) (codes "NonSemantic.")

-- Whether the loop cannot go on at a word: its count is 0 or reaches beyond the end.
abbrev pub is_malformed : ℕ → List ℕ → Bool
is_malformed word words = count_of word == 0 || ltb (length words) (count_of word)

unfoldable pub has_extension : ℕ → List ℕ → List ℕ → Bool
has_extension zero words expected = false
has_extension (suc fuel) [] expected = false
has_extension (suc fuel) (word ∷ rest) expected =
    let words = word ∷ rest in
    let count = count_of word in
    let opcode = opcode_of word in
    let later = has_extension fuel (drop count words) expected in
    if is_malformed word words
    then false
    else if opcode == op_memory_model || opcode == op_function
    then false
    else if opcode == op_extension
        && leb 2 count
        && same_text ((count - 1) * 4) (operands 1 count words) expected
    then true
    else later

-- The texts of rejectionReason; `out_of_fuel` is none of them.
pub data Rejection : Type 0 where
  unsupported_target invalid_length invalid_magic unaudited_version malformed_instruction :
      Rejection
  spirv16_capability spirv15_capability spirv16_instruction non_semantic_import : Rejection
  out_of_fuel : Rejection

-- The locals of the loop, and the capabilities of the result, last one first.
pub record Scan : Type 0 where
  pub needs_memory_model_extension : Bool
  pub insert_at : ℕ
  pub capabilities : List ℕ

-- The body of the loop at an instruction that is not malformed. A rejection comes with the
-- capabilities seen.
unfoldable pub visit_capability : ℕ → ℕ → ℕ → ℕ → Scan → Result (Rejection × List ℕ) Scan
visit_capability target offset count capability s =
    let seen = capability ∷ s.capabilities in
    throw_if (ltb target spirv_16 && is_spirv16_only_capability capability)
      (spirv16_capability, seen)
    >> throw_if
        (ltb target spirv_15 && is_spirv15_promoted_capability_without_compat_path capability)
        (spirv15_capability, seen)
    >> ok (record {
      needs_memory_model_extension =
          s.needs_memory_model_extension || is_memory_model_capability capability;
      insert_at = offset + count;
      capabilities = seen;
    })

unfoldable pub visit : ℕ → ℕ → List ℕ → ℕ → Scan → Result (Rejection × List ℕ) Scan
visit target offset words word s =
    let count = count_of word in
    let opcode = opcode_of word in
    if opcode == op_capability && leb 2 count
    then visit_capability target offset count (get_or words 1 0) s
    else if opcode == op_extension
    then ok (record s { insert_at = offset + count })
    else if ltb target spirv_16 && is_spirv16_only_opcode opcode
    then err (spirv16_instruction, s.capabilities)
    else if ltb target spirv_16
        && opcode == op_ext_inst_import
        && is_non_semantic_import words count
    then err (non_semantic_import, s.capabilities)
    else ok s

unfoldable pub scan : ℕ → ℕ → ℕ → List ℕ → Scan → Result (Rejection × List ℕ) Scan
scan zero target offset words s = err (out_of_fuel, s.capabilities)
scan (suc fuel) target offset [] s = ok s
scan (suc fuel) target offset (word ∷ rest) s =
    let words = word ∷ rest in
    let count = count_of word in
    if is_malformed word words
    then err (malformed_instruction, s.capabilities)
    else (visit target offset words word s >>= λ t.
        scan fuel target (offset + count) (drop count words) t)
