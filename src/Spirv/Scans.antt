-- ===== src/Spirv/Scans.antt =====
-- The loop of prepareSpirvForTarget: it ends, and what it lets through.
use lsfg_vk_android.Common.{
  ℕ, zero, suc, ◌+◌, ◌%◌, ◌/◌, ◌^◌, ◌<◌, ◌≤◌, ◌≡◌, ◌≢◌, refl, List, [], ◌∷◌, length, drop,
  length-drop, false, ltb, ◌&&◌, Result, ok, err, ◌>>=◌, Bool-cases, arith, inl, inr,
}
use lsfg_vk_android.Spirv.{
  spirv_15, spirv_16, is_spirv16_only_capability,
  is_spirv15_promoted_capability_without_compat_path,
}
use lsfg_vk_android.Spirv.Walk.{
  Scan, has_extension, Rejection, out_of_fuel, visit, visit_capability, scan, is_malformed,
  count_of,
}

-- A result that the code, and not the bound on the turns, decides.
abbrev pub Ends : Result (Rejection × List ℕ) Scan → Type 0
Ends (ok s) = Unit
Ends (err e) = e.0 ≢ out_of_fuel

visit-Ends :
    (target offset : ℕ) (words : List ℕ) (word : ℕ) (s : Scan)
    → Ends (visit target offset words word s)
unfolding visit visit_capability
visit-Ends target offset words word s = ground arith

then-Ends :
    (m : Result (Rejection × List ℕ) Scan) (k : Scan → Result (Rejection × List ℕ) Scan)
    → Ends m
    → ((t : Scan) → Ends (k t))
    → Ends (m >>= k)
then-Ends (ok t) k h next = next t
then-Ends (err e) k h next = h

is_malformed_lem : (word : ℕ) (words : List ℕ) → is_malformed word words ≡ false → 0 < count_of word
is_malformed_lem word words e = ground arith

-- More turns than words left are enough: the loop ends by itself.
pub scan-Ends :
    (fuel target offset : ℕ) (words : List ℕ) (s : Scan)
    → length words < fuel
    → Ends (scan fuel target offset words s)
unfolding scan
scan-Ends zero target offset words s h = absurd (omega arith)
scan-Ends (suc fuel) target offset [] s h = tt
scan-Ends (suc fuel) target offset (word ∷ rest) s h =
    elim (Bool-cases (is_malformed word (word ∷ rest))) [
      | inl e ↦ rw e (ground arith)
      | inr e ↦ rw e (
          then-Ends (visit target offset (word ∷ rest) word s) _
            (visit-Ends target offset (word ∷ rest) word s)
            λ t.
              scan-Ends fuel target (offset + count_of word) (drop (count_of word) (word ∷ rest)) t
                (shorter (count_of word) (ground arith)))
    ]
  where
    shorter : (n : ℕ) → n ≢ 0 → length (drop n (word ∷ rest)) < fuel
    shorter n e = omega (arith, length-drop n (word ∷ rest))

-- A capability that a target may have.
abbrev pub Allowed : ℕ → ℕ → Type 0
Allowed target capability =
    ((ltb target spirv_16 && is_spirv16_only_capability capability) ≡ false)
    × ((ltb target spirv_15 && is_spirv15_promoted_capability_without_compat_path capability)
        ≡ false)

-- A module, as its words from an instruction on, declares a capability: this instruction is an
-- OpCapability with it, or the rest of the module, after as many words as this one says it has,
-- declares it.
pub data Declares : List ℕ → ℕ → Type 0 where
  here :
      {word capability : ℕ} {rest : List ℕ}
      → word % 2 ^ 16 ≡ 17
      → 2 ≤ word / 2 ^ 16
      → Declares (word ∷ capability ∷ rest) capability
  later :
      {word capability : ℕ} {rest : List ℕ}
      → Declares (drop (word / 2 ^ 16) (word ∷ rest)) capability
      → Declares (word ∷ rest) capability

visit-here :
    (target offset word capability : ℕ) (rest : List ℕ) (s t : Scan)
    → word % 2 ^ 16 ≡ 17
    → 2 ≤ word / 2 ^ 16
    → visit target offset (word ∷ capability ∷ rest) word s ≡ ok t
    → Allowed target capability
unfolding visit visit_capability
visit-here target offset word capability rest s t h g e = ground arith

-- A turn of the loop that succeeds succeeds in its body and in the turns after it.
bind-ok :
    {E A B : Type 0} (m : Result E A) (k : A → Result E B) (b : B)
    → (m >>= k) ≡ ok b
    → (a : A) × (m ≡ ok a) × (k a ≡ ok b)
bind-ok (ok a) k b e = (a, refl, e)
bind-ok (err x) k b e = absurd (ground arith)

scan-step :
    (fuel target offset word : ℕ) (rest : List ℕ) (s t : Scan)
    → scan (suc fuel) target offset (word ∷ rest) s ≡ ok t
    → (u : Scan) × (visit target offset (word ∷ rest) word s ≡ ok u)
      × (scan fuel target (offset + count_of word) (drop (count_of word) (word ∷ rest)) u ≡ ok t)
unfolding scan
scan-step fuel target offset word rest s t e = elim (Bool-cases (is_malformed word (word ∷ rest))) [
  | inl bad ↦ absurd (ground arith)
  | inr good ↦ bind-ok (visit target offset (word ∷ rest) word s) _ t (rw good at e)
]

out_of_turns :
    (target offset : ℕ) (words : List ℕ) (s t : Scan) → scan zero target offset words s ≢ ok t
unfolding scan
out_of_turns target offset words s t e = ground arith

-- What the loop lets through declares only what its target may have.
pub scan-Allowed :
    (fuel target offset : ℕ) {words : List ℕ} {capability : ℕ} (s t : Scan)
    → scan fuel target offset words s ≡ ok t
    → Declares words capability
    → Allowed target capability
scan-Allowed zero target offset s t e (here op long) = absurd (out_of_turns target offset _ s t e)
scan-Allowed zero target offset s t e (later d) = absurd (out_of_turns target offset _ s t e)
scan-Allowed (suc fuel) target offset s t e (here {word} {capability} {rest} op long) =
    let (u, seen, on) = scan-step fuel target offset word (capability ∷ rest) s t e in
    visit-here target offset word capability rest s u op long seen
scan-Allowed (suc fuel) target offset s t e (later {word} {capability} {rest} d) =
    let (u, seen, on) = scan-step fuel target offset word rest s t e in
    scan-Allowed fuel target (offset + count_of word) u t on d

-- More turns than words left change nothing in the search of an extension.
pub has_extension-enough :
    (m n : ℕ) (words expected : List ℕ)
    → length words ≤ m
    → length words ≤ n
    → has_extension m words expected ≡ has_extension n words expected
unfolding has_extension
has_extension-enough zero zero words expected h g = refl
has_extension-enough zero (suc n) [] expected h g = refl
has_extension-enough zero (suc n) (word ∷ rest) expected h g = absurd (omega arith)
has_extension-enough (suc m) zero [] expected h g = refl
has_extension-enough (suc m) zero (word ∷ rest) expected h g = absurd (omega arith)
has_extension-enough (suc m) (suc n) [] expected h g = refl
has_extension-enough (suc m) (suc n) (word ∷ rest) expected h g =
    elim (Bool-cases (is_malformed word (word ∷ rest))) [
      | inl e ↦ rw e refl
      | inr e ↦
          let later = drop (count_of word) (word ∷ rest) in
          let shorter : length later < length (word ∷ rest) = omega (
            arith,
            length-drop (count_of word) (word ∷ rest),
            is_malformed_lem word (word ∷ rest) e,
          ) in
          rw (has_extension-enough m n later expected (omega arith) (omega arith)) refl
    ]
