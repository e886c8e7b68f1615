-- ===== src/Runtime/Passes/Done.antt =====
-- Which fences a render pass of src/context.cpp has seen done when its work is retired.
use lsfg_vk_android.Common.{
  ℕ, zero, suc, ◌+◌, ◌<◌, ◌≤◌, ◌≡◌, ◌≢◌, ◌∙◌, ap, refl, Bool, true, false, ltb, List, [], ◌∷◌,
  get_or, set, length, arith, ◌⊎◌, inl, inr, Bool-cases,
}
use native.Mathlib.Decide.{ℕ_discrete}
use lsfg_vk_android.Runtime.Admission.{FenceAnswer, signalled}
use lsfg_vk_android.Runtime.Passes.{
  Pass, wait_and_reset, retire_completion, retire_copy, retire_copies,
}

pub out_of_range : (flags : List Bool) (j : ℕ) → length flags ≤ j → get_or flags j false ≡ false
out_of_range [] j h = refl
out_of_range (f ∷ fs) zero h = absurd (omega arith)
out_of_range (f ∷ fs) (suc j) h = out_of_range fs j (omega arith)

pub wait_and_reset-same :
    (answer : FenceAnswer) (present : Bool) (p : Pass)
    → (wait_and_reset answer present p).0.post_copy_submitted ≡ p.post_copy_submitted
unfolding wait_and_reset
wait_and_reset-same answer present p = ground arith

set-other :
    (flags : List Bool) (i j : ℕ)
    → i ≢ j
    → get_or (set flags i false) j false ≡ get_or flags j false
set-other [] i j h = refl
set-other (f ∷ fs) zero zero h = absurd (h refl)
set-other (f ∷ fs) zero (suc j) h = refl
set-other (f ∷ fs) (suc i) zero h = refl
set-other (f ∷ fs) (suc i) (suc j) h = set-other fs i j (omega arith)

-- The driver said that the work of a fence is done, and the fence was reset.
abbrev pub IsDone : Bool → FenceAnswer → Type 0
IsDone fence answer = (fence ≡ true) × (answer ≡ signalled)

-- A submission, if there was one, is done.
abbrev pub SubmittedIsDone : Bool → Bool → FenceAnswer → Type 0
SubmittedIsDone submitted fence answer = (submitted ≡ false) ⊎ IsDone fence answer

wait_and_reset-IsDone :
    (answer : FenceAnswer) (fence : Bool) (p : Pass)
    → (wait_and_reset answer fence p).1 ≡ true
    → IsDone fence answer
unfolding wait_and_reset
wait_and_reset-IsDone answer fence p h = ground arith

pub retire_completion-done :
    (answer : FenceAnswer) (p : Pass)
    → (retire_completion answer p).1 ≡ true
    → SubmittedIsDone p.completion_submitted p.completion_fence answer
unfolding retire_completion
retire_completion-done answer p h =
    ground (arith, wait_and_reset-IsDone answer p.completion_fence p)

-- The copy of an index, as a pass shows it, is done.
abbrev pub CopyIsDone : (ℕ → FenceAnswer) → ℕ → Pass → Type 0
CopyIsDone answer j p =
    SubmittedIsDone (get_or p.post_copy_submitted j false) (get_or p.post_copy_fences j false)
      (answer j)

wait_and_reset-fences :
    (answer : FenceAnswer) (present : Bool) (p : Pass)
    → (wait_and_reset answer present p).0.post_copy_fences ≡ p.post_copy_fences
unfolding wait_and_reset
wait_and_reset-fences answer present p = ground arith

retire_copy-done :
    (answer : ℕ → FenceAnswer) (i : ℕ) (p : Pass)
    → (retire_copy answer i p).1 ≡ true
    → CopyIsDone answer i p
unfolding retire_copy
retire_copy-done answer i p h =
    ground (arith, wait_and_reset-IsDone (answer i) (get_or p.post_copy_fences i false) p)

retire_copy-other :
    (answer : ℕ → FenceAnswer) (i j : ℕ) (p : Pass)
    → i ≢ j
    → (get_or (retire_copy answer i p).0.post_copy_submitted j false
        ≡ get_or p.post_copy_submitted j false)
      × ((retire_copy answer i p).0.post_copy_fences ≡ p.post_copy_fences)
unfolding retire_copy
retire_copy-other answer i j p h =
    let fence = get_or p.post_copy_fences i false in
    let q = (wait_and_reset (answer i) fence p).0 in
    let same = wait_and_reset-same (answer i) fence p in
    let fences = wait_and_reset-fences (answer i) fence p in
    let kept : get_or (set q.post_copy_submitted i false) j false
        ≡ get_or p.post_copy_submitted j false =
      set-other q.post_copy_submitted i j h ∙ ap (λ flags. get_or flags j false) same in
    let passed : get_or q.post_copy_submitted j false ≡ get_or p.post_copy_submitted j false =
      ap (λ flags. get_or flags j false) same in
    ground arith

retire_copies-done :
    (answer : ℕ → FenceAnswer) (left i j : ℕ) (p : Pass)
    → (retire_copies answer left i p).1 ≡ true
    → i ≤ j
    → j < i + left
    → CopyIsDone answer j p
unfolding retire_copies
retire_copies-done answer zero i j p h low high = absurd (omega arith)
retire_copies-done answer (suc left) i j p h low high =
    let q = (retire_copy answer i p).0 in
    elim (Bool-cases (retire_copy answer i p).1) [
      | inr e ↦ absurd (ground arith)
      | inl e ↦ elim (ℕ_discrete i j) [
        | yes here ↦ rw (← here) (retire_copy-done answer i p e)
        | no other ↦
            let ready : (retire_copies answer left (i + 1) q).1 ≡ true = ground arith in
            let (same, fences) = retire_copy-other answer i j p other in
            let done =
              retire_copies-done answer left (i + 1) j q ready (omega arith) (omega arith) in
            rw (same, fences) at done
      ]
    ]

pub retire_completion-copies :
    (answer : FenceAnswer) (p : Pass)
    → ((retire_completion answer p).0.post_copy_submitted ≡ p.post_copy_submitted)
      × ((retire_completion answer p).0.post_copy_fences ≡ p.post_copy_fences)
unfolding retire_completion wait_and_reset
retire_completion-copies answer p = ground arith

pub all_done :
    (answer : ℕ → FenceAnswer) (p : Pass) (j : ℕ)
    → (retire_copies answer (length p.post_copy_submitted) 0 p).1 ≡ true
    → CopyIsDone answer j p
all_done answer p j h =
    let n = length p.post_copy_submitted in
    elim (Bool-cases (ltb j n)) [
      | inl inside ↦ retire_copies-done answer n 0 j p h (omega arith) (ground arith)
      | inr outside ↦ inl (out_of_range p.post_copy_submitted j (ground arith))
    ]
