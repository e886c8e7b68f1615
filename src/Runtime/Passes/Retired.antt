-- ===== src/Runtime/Passes/Retired.antt =====
-- A render pass of src/context.cpp is used again only after all its work is retired.
use lsfg_vk_android.Common.{
  ℕ, zero, suc, ◌+◌, ◌<◌, ◌≤◌, ◌≡◌, ◌∙◌, sym, refl, Bool, true, false, not, ◌&&◌, ◌||◌, ltb, leb,
  List, [], ◌∷◌, get_or, set, length, arith, ◌⊎◌, inl, inr, Bool-cases, if_cases,
}
use lsfg_vk_android.Runtime.Admission.{FenceAnswer}
use lsfg_vk_android.Runtime.Passes.{
  Pass, is_empty, wait_and_reset, retire_completion, retire_copy, retire_copies, try_recycle_pass,
}
use lsfg_vk_android.Runtime.Passes.Done.{
  SubmittedIsDone, CopyIsDone, out_of_range, wait_and_reset-same, retire_completion-done, all_done,
  retire_completion-copies,
}

-- The semaphores and the owner that a pass holds are untouched.
abbrev Holds : Pass → Pass → Type 0
Holds p q =
    (q.cross_frame_retentions ≡ p.cross_frame_retentions)
    × (q.acquired_retentions ≡ p.acquired_retentions)
    × (q.retirements_armed ≡ p.retirements_armed)
    × (q.deferred_owned ≡ p.deferred_owned)
    × (q.completion_submitted ≡ p.completion_submitted)

retire_copy-Holds :
    (answer : ℕ → FenceAnswer) (i : ℕ) (p : Pass) → Holds p (retire_copy answer i p).0
unfolding retire_copy wait_and_reset
retire_copy-Holds answer i p = ground arith

retire_copies-Holds :
    (answer : ℕ → FenceAnswer) (left i : ℕ) (p : Pass) → Holds p (retire_copies answer left i p).0
unfolding retire_copies
retire_copies-Holds answer zero i p = (refl, refl, refl, refl, refl)
retire_copies-Holds answer (suc left) i p =
    let q = (retire_copy answer i p).0 in
    ground (arith, retire_copy-Holds answer i p, retire_copies-Holds answer left (i + 1) q)

cleared : (flags : List Bool) (i : ℕ) → get_or (set flags i false) i false ≡ false
cleared [] i = refl
cleared (f ∷ fs) zero = refl
cleared (f ∷ fs) (suc i) = cleared fs i

stays_cleared :
    (flags : List Bool) (i j : ℕ)
    → get_or flags j false ≡ false
    → get_or (set flags i false) j false ≡ false
stays_cleared [] i j h = refl
stays_cleared (f ∷ fs) zero zero h = refl
stays_cleared (f ∷ fs) zero (suc j) h = h
stays_cleared (f ∷ fs) (suc i) zero h = h
stays_cleared (f ∷ fs) (suc i) (suc j) h = stays_cleared fs i j h

retire_copy-clears :
    (answer : ℕ → FenceAnswer) (i : ℕ) (p : Pass)
    → (retire_copy answer i p).1 ≡ true
    → get_or (retire_copy answer i p).0.post_copy_submitted i false ≡ false
unfolding retire_copy
retire_copy-clears answer i p h =
    let fence = get_or p.post_copy_fences i false in
    ground (
      arith,
      wait_and_reset-same (answer i) fence p,
      cleared (wait_and_reset (answer i) fence p).0.post_copy_submitted i,
    )

retire_copy-keeps :
    (answer : ℕ → FenceAnswer) (i j : ℕ) (p : Pass)
    → get_or p.post_copy_submitted j false ≡ false
    → get_or (retire_copy answer i p).0.post_copy_submitted j false ≡ false
unfolding retire_copy
retire_copy-keeps answer i j p h =
    let fence = get_or p.post_copy_fences i false in
    let q = (wait_and_reset (answer i) fence p).0 in
    let same = wait_and_reset-same (answer i) fence p in
    let kept : get_or q.post_copy_submitted j false ≡ false = rw same h in
    ground (arith, stays_cleared q.post_copy_submitted i j kept)

retire_copies-keeps :
    (answer : ℕ → FenceAnswer) (left i j : ℕ) (p : Pass)
    → get_or p.post_copy_submitted j false ≡ false
    → get_or (retire_copies answer left i p).0.post_copy_submitted j false ≡ false
unfolding retire_copies
retire_copies-keeps answer zero i j p h = h
retire_copies-keeps answer (suc left) i j p h =
    let q = (retire_copy answer i p).0 in
    let kept = retire_copy-keeps answer i j p h in
    ground (arith, retire_copies-keeps answer left (i + 1) j q kept)

retire_copies-clears :
    (answer : ℕ → FenceAnswer) (left i j : ℕ) (p : Pass)
    → (retire_copies answer left i p).1 ≡ true
    → i ≤ j
    → j < i + left
    → get_or (retire_copies answer left i p).0.post_copy_submitted j false ≡ false
unfolding retire_copies
retire_copies-clears answer zero i j p h low high = absurd (omega arith)
retire_copies-clears answer (suc left) i j p h low high =
    let q = (retire_copy answer i p).0 in
    let first = retire_copy-clears answer i p in
    elim (Bool-cases (retire_copy answer i p).1) [
      | inr e ↦ absurd (ground arith)
      | inl e ↦ elim (Bool-cases (leb j i)) [
        | inl here ↦
            let at : i ≡ j = ground arith in
            let clear : get_or q.post_copy_submitted j false ≡ false = rw (← at) (first e) in
            rw e (retire_copies-keeps answer left (i + 1) j q clear)
        | inr later ↦
            let ready : (retire_copies answer left (i + 1) q).1 ≡ true = ground arith in
            let beyond : i + 1 ≤ j = ground arith in
            rw e (retire_copies-clears answer left (i + 1) j q ready beyond (omega arith))
      ]
    ]

retire_completion-Holds :
    (answer : FenceAnswer) (p : Pass)
    → ((retire_completion answer p).0.cross_frame_retentions ≡ p.cross_frame_retentions)
      × ((retire_completion answer p).0.acquired_retentions ≡ p.acquired_retentions)
      × ((retire_completion answer p).0.retirements_armed ≡ p.retirements_armed)
      × (((retire_completion answer p).1 ≡ false)
          ⊎ ((retire_completion answer p).0.completion_submitted ≡ false))
unfolding retire_completion wait_and_reset
retire_completion-Holds answer p = ground arith

-- What a recycled pass was and is: each submission that it showed has a fence, whose work the driver
-- said is done; it shows none any more and holds no semaphore; and it was neither owned by a deferred
-- batch nor failed nor waiting for an acquire that was not submitted.
pub record IsRetired (answer : FenceAnswer) (answers : ℕ → FenceAnswer) (p q : Pass) : Type 0 where
  pub batch_done : SubmittedIsDone p.completion_submitted p.completion_fence answer
  pub copies_done : (j : ℕ) → CopyIsDone answers j p
  pub completion : q.completion_submitted ≡ false
  pub copies : (j : ℕ) → get_or q.post_copy_submitted j false ≡ false
  pub cross_frame : q.cross_frame_retentions ≡ []
  pub acquired : q.acquired_retentions ≡ []
  pub owned : p.deferred_owned ≡ false
  pub failed : p.completion_failed ≡ false
  pub armed : (p.acquired_retentions ≡ []) ⊎ (p.retirements_armed ≡ true)

empty_or_armed :
    (held : List ℕ) (armed : Bool)
    → (not (is_empty held) && not armed) ≡ false
    → (held ≡ []) ⊎ (armed ≡ true)
empty_or_armed [] armed h = inl refl
empty_or_armed (x ∷ xs) true h = inr refl
empty_or_armed (x ∷ xs) false h = absurd (ground arith)

-- What a pass that is not recycled keeps.
abbrev pub Kept : Pass → Pass → Type 0
Kept p q =
    (q.cross_frame_retentions ≡ p.cross_frame_retentions)
    × (q.acquired_retentions ≡ p.acquired_retentions)
    × (q.retirements_armed ≡ p.retirements_armed)

held_or_armed :
    (p r : Pass)
    → Kept p r
    → (not (is_empty r.acquired_retentions) && not r.retirements_armed) ≡ false
    → (p.acquired_retentions ≡ []) ⊎ (p.retirements_armed ≡ true)
held_or_armed p r (crossing, acquired, armed) h =
    elim (empty_or_armed r.acquired_retentions r.retirements_armed h) [
      | inl e ↦ inl (sym acquired ∙ e)
      | inr e ↦ inr (sym armed ∙ e)
    ]

abbrev pub Recycles : FenceAnswer → (ℕ → FenceAnswer) → Pass → Pass × Bool → Type 0
Recycles answer answers p (q, recycled) =
    ((recycled ≡ true) × IsRetired answer answers p q) ⊎ ((recycled ≡ false) × Kept p q)

-- After the loop over all the fences none of them is outstanding.
all_cleared :
    (answer : ℕ → FenceAnswer) (p : Pass)
    → (let n = length p.post_copy_submitted in
        (retire_copies answer n 0 p).1 ≡ true
        → (j : ℕ) → get_or (retire_copies answer n 0 p).0.post_copy_submitted j false ≡ false)
all_cleared answer p h j =
    let n = length p.post_copy_submitted in
    elim (Bool-cases (ltb j n)) [
      | inl inside ↦ retire_copies-clears answer n 0 j p h (omega arith) (ground arith)
      | inr outside ↦
          retire_copies-keeps answer n 0 j p (out_of_range p.post_copy_submitted j (ground arith))
    ]

-- A pass is recycled only if the driver said of each fence that it submitted that its work is done,
-- if no deferred batch owns it, no wait failed, and it holds no acquire that was not submitted; it
-- is left with no fence submitted and no semaphore. A pass that is not recycled keeps the semaphores
-- that it holds.
pub try_recycle_pass-cases :
    (has_callbacks : Bool) (completion : FenceAnswer) (copies : ℕ → FenceAnswer) (p : Pass)
    → Recycles completion copies p (try_recycle_pass has_callbacks completion copies p)
unfolding try_recycle_pass
try_recycle_pass-cases has_callbacks completion copies p =
    let P : Pass × Bool → Type 0 = Recycles completion copies p in
    let q = (retire_completion completion p).0 in
    let (qx, qa, qr, qc) = retire_completion-Holds completion p in
    let (qs, qf) = retire_completion-copies completion p in
    let n = length q.post_copy_submitted in
    let r = (retire_copies copies n 0 q).0 in
    let (rx, ra, rr, ro, rc) = retire_copies-Holds copies n 0 q in
    let kept : Kept p r = (rx ∙ qx, ra ∙ qa, rr ∙ qr) in
    if_cases P (p.deferred_owned || p.completion_failed || not has_callbacks)
      (λ _. inr (refl, (refl, refl, refl)))
      λ free.
        if_cases P (not (retire_completion completion p).1) (λ _. inr (refl, (qx, qa, qr)))
          λ completed.
            if_cases P (not (retire_copies copies n 0 q).1) (λ _. inr (refl, kept))
              λ copied.
                if_cases P (not (is_empty r.acquired_retentions) && not r.retirements_armed)
                  (λ _. inr (refl, kept))
                  λ waiting. inl (
                    refl,
                    record {
                      batch_done = retire_completion-done completion p (ground arith);
                      copies_done = λ j. rw (qs, qf) at (all_done copies q j (ground arith));
                      completion = ground arith;
                      copies = all_cleared copies q (ground arith);
                      cross_frame = refl;
                      acquired = refl;
                      owned = ground arith;
                      failed = ground arith;
                      armed = held_or_armed p r kept waiting;
                    },
                  )
