-- ===== src/Spirv/Lowering.antt =====
-- What prepareSpirvForTarget of framegen/src/core/spirv_compat.cpp gives.
use mathlib.Core.List.{reverse}
use lsfg_vk_android.Common.{
  ℕ, zero, ◌+◌, ◌*◌, ◌%◌, ◌<◌, ◌≤◌, ◌≡◌, ◌≢◌, refl, List, [], ◌∷◌, length, drop, length-drop,
  if_cases, get_or, true, false, not, ltb, ◌==◌, ◌||◌, ◌⊎◌, ◌↔◌, inl, inr, none, some, Result, ok,
  err, arith,
}
use lsfg_vk_android.Spirv.{header_words, valid_target, magic, spirv_14, spirv_16}
use lsfg_vk_android.Spirv.Words.{bytes_to_words, AreBytes, bytes-words-bytes}
use lsfg_vk_android.Spirv.Walk.{
  Scan, scan, Rejection, out_of_fuel, unsupported_target, invalid_length, invalid_magic,
  unaudited_version,
}
use lsfg_vk_android.Spirv.Prepare.{
  SpirvCompatibilityResult, prepare_spirv_for_target, rewrite_words, emit, initial_result,
  initial_scan, reject,
}
use lsfg_vk_android.Spirv.Scans.{Ends, scan-Ends, Allowed, Declares, scan-Allowed}

pub length-bytes_to_words :
    (bytes : List ℕ)
    → (4 * length (bytes_to_words bytes) ≤ length bytes)
      × (length bytes < 4 * length (bytes_to_words bytes) + 4)
unfolding bytes_to_words
length-bytes_to_words [] = (omega arith, omega arith)
length-bytes_to_words (a ∷ []) = (omega arith, omega arith)
length-bytes_to_words (a ∷ b ∷ []) = (omega arith, omega arith)
length-bytes_to_words (a ∷ b ∷ c ∷ []) = (omega arith, omega arith)
length-bytes_to_words (a ∷ b ∷ c ∷ d ∷ rest) =
    let (low, high) = length-bytes_to_words rest in (omega arith, omega arith)

-- A result of the end of the loop, with the words that were scanned.
abbrev Emitted : List ℕ → ℕ → SpirvCompatibilityResult → SpirvCompatibilityResult → Type 0
Emitted words target before r =
    (s : Scan) × (scan (length words) target header_words (drop header_words words) initial_scan
      ≡ ok s)
    × (r ≡ emit target words s before)

-- A refusal by the code, and not by the bound on the turns.
abbrev pub Refused : SpirvCompatibilityResult → Type 0
Refused r =
    (reason : Rejection) × (r.rejection_reason ≡ some reason)
    × (reason ≢ out_of_fuel)
    × (r.supported ≡ false)

rewrite_words-cases :
    (words : List ℕ) (target : ℕ) (before : SpirvCompatibilityResult)
    → header_words ≤ length words
    → before.supported ≡ false
    → Refused (rewrite_words words target before)
      ⊎ Emitted words target before (rewrite_words words target before)
unfolding rewrite_words
rewrite_words-cases words target before h b =
    after (scan (length words) target header_words (drop header_words words) initial_scan) refl (
      scan-Ends (length words) target header_words (drop header_words words) initial_scan
        (omega (arith, length-drop header_words words)))
  where
    after :
        (m : Result (Rejection × List ℕ) Scan)
        → scan (length words) target header_words (drop header_words words) initial_scan ≡ m
        → Ends m
        → Refused (elim m [
          | ok s ↦ emit target words s before
          | err (reason, seen) ↦ reject reason (record before { capabilities = reverse seen })
        ])
          ⊎ Emitted words target before (elim m [
            | ok s ↦ emit target words s before
            | err (reason, seen) ↦ reject reason (record before { capabilities = reverse seen })
          ])
    after (ok s) e n = inr (s, e, refl)
    after (err (reason, seen)) e n = inl (reason, refl, n, b)

abbrev pub versioned : List ℕ → ℕ → SpirvCompatibilityResult
versioned source target = record (initial_result target) {
  source_version = get_or (bytes_to_words source) 1 0;
}

prepare-cases :
    (source : List ℕ) (target : ℕ)
    → Refused (prepare_spirv_for_target source target)
      ⊎ ((length source % 4 ≡ zero)
          × (20 ≤ length source)
          × (valid_target target ≡ true)
          × Emitted
              (bytes_to_words source)
              target
              (versioned source target)
              (prepare_spirv_for_target source target))
unfolding prepare_spirv_for_target
prepare-cases source target =
    let words = bytes_to_words source in
    let version = get_or words 1 0 in
    let Cases : SpirvCompatibilityResult → Type 0 = λ r.
      Refused r
      ⊎ ((length source % 4 ≡ zero)
          × (20 ≤ length source)
          × (valid_target target ≡ true)
          × Emitted words target (versioned source target) r) in
    let bounds = length-bytes_to_words source in
    if_cases Cases (not (valid_target target))
      (λ _. inl (unsupported_target, refl, ground arith, refl))
      λ valid.
        if_cases Cases (ltb (length source) (header_words * 4) || not (length source % 4 == 0))
          (λ _. inl (invalid_length, refl, ground arith, refl))
          λ whole.
            if_cases Cases (not (get_or words 0 0 == magic))
              (λ _. inl (invalid_magic, refl, ground arith, refl))
              λ _.
                if_cases Cases (ltb version spirv_14 || ltb spirv_16 version)
                  (λ _. inl (unaudited_version, refl, ground arith, refl))
                  λ _.
                    elim (rewrite_words-cases words target (versioned source target) (ground arith)
                      refl) [
                        | inl refused ↦ inl refused
                        | inr emitted ↦ inr (ground arith, ground arith, ground arith, emitted)
                      ]

-- What holds of the refusals and of the results of the end of the loop holds of the result.
pub prepare-elim :
    (source : List ℕ) (target : ℕ) (P : SpirvCompatibilityResult → Type 0)
    → ((r : SpirvCompatibilityResult) → Refused r → P r)
    → ((s : Scan)
        → length source % 4 ≡ zero
        → 20 ≤ length source
        → valid_target target ≡ true
        → scan
            (length (bytes_to_words source))
            target
            header_words
            (drop header_words (bytes_to_words source))
            initial_scan
          ≡ ok s
        → P (emit target (bytes_to_words source) s (versioned source target)))
    → P (prepare_spirv_for_target source target)
prepare-elim source target P refused emitted = elim (prepare-cases source target) [
  | inl r ↦ refused (prepare_spirv_for_target source target) r
  | inr (whole, long, valid, (s, e, same)) ↦ rw same (emitted s whole long valid e)
]

-- Whatever the module, the code decides: the loop ends before its bound on the turns.
pub prepare-ends :
    (source : List ℕ) (target : ℕ)
    → (prepare_spirv_for_target source target).rejection_reason ≢ some out_of_fuel
unfolding emit
prepare-ends source target =
    prepare-elim source target (λ r. r.rejection_reason ≢ some out_of_fuel)
      (λ r (reason, given, other, unsupported). ground arith) λ s whole long valid e. ground arith

-- A module is refused exactly with a reason.
pub prepare-reason_iff :
    (source : List ℕ) (target : ℕ)
    → (prepare_spirv_for_target source target).supported ≡ true
      ↔ (prepare_spirv_for_target source target).rejection_reason ≡ none
unfolding emit
prepare-reason_iff source target =
    prepare-elim source target (λ r. r.supported ≡ true ↔ r.rejection_reason ≡ none)
      (λ r (reason, given, other, unsupported).
        (λ h. absurd (ground arith), λ h. absurd (ground arith)))
      λ s whole long valid e. (λ _. refl, λ _. refl)

-- A module of bytes that is supported is lowered, where its version is beyond the target, and keeps
-- its code to the byte where it is not.
pub prepare-unchanged :
    (source : List ℕ) (target : ℕ)
    → AreBytes source
    → (prepare_spirv_for_target source target).supported ≡ true
    → ((prepare_spirv_for_target source target).lowered ≡ true
        × target < get_or (bytes_to_words source) 1 0)
      ⊎ ((prepare_spirv_for_target source target).lowered ≡ false
          × get_or (bytes_to_words source) 1 0 ≤ target
          × (prepare_spirv_for_target source target).code ≡ source)
unfolding emit
prepare-unchanged source target v =
    let version = get_or (bytes_to_words source) 1 0 in
    prepare-elim source target
      (λ r.
        r.supported ≡ true
        → (r.lowered ≡ true × target < version)
          ⊎ (r.lowered ≡ false × version ≤ target × r.code ≡ source))
      (λ r (reason, given, other, unsupported) h. absurd (ground arith))
      λ s whole long valid e h. ground (arith, bytes-words-bytes source whole v)

-- A supported module declares, by an OpCapability before or behind any other instruction, only
-- capabilities that the target may have: below SPIR-V 1.6 none of the 1.6-only ones, and below 1.5
-- none of those that 1.5 brought without a path for 1.4.
pub prepare-Allowed :
    (source : List ℕ) (target capability : ℕ)
    → (prepare_spirv_for_target source target).supported ≡ true
    → Declares (drop header_words (bytes_to_words source)) capability
    → Allowed target capability
prepare-Allowed source target capability supported declared =
    let words = bytes_to_words source in
    let fuel = length words in
    prepare-elim source target (λ r. r.supported ≡ true → Allowed target capability)
      (λ r (reason, given, other, unsupported) h. absurd (ground arith))
      (λ s whole long valid e h. scan-Allowed fuel target header_words initial_scan s e declared)
      supported
