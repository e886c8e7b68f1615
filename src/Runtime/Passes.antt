-- ===== src/Runtime/Passes.antt =====
-- src/context.cpp, tryRecyclePass, submitPassCompletionFence, retainPresentWait and
-- releasePresentWaitRetirements: when the resources of a render pass may be used again. A fence
-- stands for whether there is one, and a semaphore for its handle, 0 where it is none.
pub mod Done
pub mod Retired
use lsfg_vk_android.Common.{
  ℕ, zero, suc, ◌+◌, Bool, true, false, not, ◌&&◌, ◌||◌, if◌then◌else◌, ltb, leb, ◌==◌, List, [],
  ◌∷◌, ◌++◌, get_or, set, length,
}
use lsfg_vk_android.Runtime.Admission.{FenceAnswer, signalled, reset_failed, pending, query_failed}

-- The members of RenderPassInfo that recycling reads or changes.
pub record Pass : Type 0 where
  pub batch_complete_valid : Bool
  pub deferred_owned : Bool
  pub cross_frame_retentions : List ℕ
  pub acquired_retentions : List ℕ
  pub retirements_armed : Bool
  pub completion_fence : Bool
  pub completion_submitted : Bool
  pub post_copy_fences : List Bool
  pub post_copy_submitted : List Bool
  pub completion_failed : Bool

abbrev pub is_empty : List ℕ → Bool
is_empty [] = true
is_empty (x ∷ xs) = false

-- waitAndResetFence: whether the fence is retired.
unfoldable pub wait_and_reset : FenceAnswer → Bool → Pass → Pass × Bool
wait_and_reset answer false p = (record p { completion_failed = true }, false)
wait_and_reset signalled true p = (p, true)
wait_and_reset reset_failed true p = (record p { completion_failed = true }, false)
wait_and_reset pending true p = (p, false)
wait_and_reset query_failed true p = (p, false)

unfoldable pub retire_completion : FenceAnswer → Pass → Pass × Bool
retire_completion answer p =
    let (q, retired) = wait_and_reset answer p.completion_fence p in
    if not p.completion_submitted
    then (p, true)
    else if retired
    then (record q { completion_submitted = false }, true)
    else (q, false)

-- One turn of the loop over the fences of the output copies.
unfoldable pub retire_copy : (ℕ → FenceAnswer) → ℕ → Pass → Pass × Bool
retire_copy answer i p =
    let (q, retired) = wait_and_reset (answer i) (get_or p.post_copy_fences i false) p in
    if not (get_or p.post_copy_submitted i false)
    then (p, true)
    else if leb (length p.post_copy_fences) i
    then (p, false)
    else if retired
    then (record q { post_copy_submitted = set q.post_copy_submitted i false }, true)
    else (q, false)

-- The loop, which the first fence that is not retired ends: `left` turns from `i` on.
unfoldable pub retire_copies : (ℕ → FenceAnswer) → ℕ → ℕ → Pass → Pass × Bool
retire_copies answer zero i p = (p, true)
retire_copies answer (suc left) i p =
    let (q, retired) = retire_copy answer i p in
    let rest = retire_copies answer left (i + 1) q in if retired then rest else (q, false)

-- The retained semaphores are let go.
abbrev pub release : Pass → Pass
release p = record p {
  acquired_retentions = [];
  retirements_armed = false;
  cross_frame_retentions = [];
  batch_complete_valid = false;
}

-- `has_callbacks`: whether both fence functions of the device were found.
unfoldable pub try_recycle_pass : Bool → FenceAnswer → (ℕ → FenceAnswer) → Pass → Pass × Bool
try_recycle_pass has_callbacks completion copies p =
    let (q, completed) = retire_completion completion p in
    let (r, copied) = retire_copies copies (length q.post_copy_submitted) 0 q in
    if p.deferred_owned || p.completion_failed || not has_callbacks
    then (p, false)
    else if not completed
    then (q, false)
    else if not copied
    then (r, false)
    else if not (is_empty r.acquired_retentions) && not r.retirements_armed
    then (r, false)
    else (release r, true)

-- `submitted`: whether the queue took the fence; `idle`: whether waiting for the queue worked.
unfoldable pub submit_pass_completion_fence : Bool → Bool → Pass → Pass × Bool
submit_pass_completion_fence submitted idle p =
    if not p.completion_fence || p.completion_submitted || p.completion_failed
    then (p, false)
    else if submitted
    then (record p { completion_submitted = true }, true)
    else if idle
    then (p, true)
    else (record p { completion_failed = true }, false)

-- The semaphores that each image of the swapchain holds until it is acquired again.
unfoldable pub release_present_wait_retirements : ℕ → List (List ℕ) → List (List ℕ)
release_present_wait_retirements image held = set held image []

unfoldable pub retain_present_wait : ℕ → ℕ → List (List ℕ) → List (List ℕ)
retain_present_wait image semaphore held =
    if leb (length held) image || semaphore == 0
    then held
    else set held image (get_or held image [] ++ semaphore ∷ [])
