-- ===== src/Runtime/Admitted.antt =====
-- The stages of the admission of src/context.cpp leave the bounds and take frames away only.
use lsfg_vk_android.Common.{ℕ, zero, suc, ◌+◌, ◌≤◌, ◌≡◌, refl, Bool, arith, min}
use lsfg_vk_android.Common.Int.{ℤ}
use lsfg_vk_android.Float.{Floats, Extended}
use lsfg_vk_android.Config.{Configuration}
use lsfg_vk_android.Scheduler.Guard
use lsfg_vk_android.Scheduler.Capacity.{Context}
use lsfg_vk_android.Scheduler.Capacity.Bounds.{limit-Limits}
use lsfg_vk_android.Runtime.{Runtime}
use lsfg_vk_android.Runtime.Reset.{empty_decision}
use lsfg_vk_android.Runtime.Admission.{
  FenceAnswer, retire_one, retire_from, retire_xclipse_output_copies, admit_deadline, admit_batch,
  admit_slots, admit_presentation, admit_retirement, admitted_count,
}
use lsfg_vk_android.Runtime.Cycle.{
  Answers, admit_reacquire, admit_frames, is_warming, capacity_context,
}
use lsfg_vk_android.Runtime.Bounds.{IsSound}

module _ {S D L : Type 0} (fp : Floats S D) (ext : Extended D L) where
  -- What a stage of the admission leaves: sound, and at most the frames it was given.
  abbrev pub Leaves : ℕ → Runtime S D × ℕ → Type 0
  Leaves planned (t, n) = IsSound fp ext t × (n ≤ planned)

  pub admitted_count_le :
      (s : Runtime S D) (now count : ℕ) → admitted_count fp ext s now count ≤ count
  unfolding admitted_count
  admitted_count_le s now zero = omega arith
  admitted_count_le s now (suc c) = ground (arith, admitted_count_le s now c)

  deadline-Leaves :
      (s : Runtime S D) (adaptive warming : Bool) (now planned : ℕ)
      → IsSound fp ext s
      → Leaves planned (admit_deadline fp ext s adaptive warming now planned)
  unfolding admit_deadline admit_batch admit_slots
  deadline-Leaves s adaptive warming now planned h =
      let t : Runtime S D = record s { batch_decision = empty_decision fp } in
      ground (arith, admitted_count_le t now planned)

  presentation-Leaves :
      (s : Runtime S D) (adaptive : Bool) (context : Context) (planned : ℕ)
      → IsSound fp ext s
      → Leaves planned (admit_presentation fp ext s adaptive context planned)
  unfolding admit_presentation
  presentation-Leaves s adaptive context planned h =
      ground (arith, limit-Limits fp s.capacity planned context)

  -- The fences are no business of the scheduler and of the capacity tracker.
  pub retire_from-same :
      (answer : ℕ → FenceAnswer) (left i : ℕ) (s : Runtime S D)
      → ((retire_from answer left i s).0.scheduler ≡ s.scheduler)
        × ((retire_from answer left i s).0.capacity ≡ s.capacity)
        × ((retire_from answer left i s).0.metrics ≡ s.metrics)
        × ((retire_from answer left i s).0.conservative_cross_device_sync
            ≡ s.conservative_cross_device_sync)
        × (is_warming (retire_from answer left i s).0 ≡ is_warming s)
  unfolding retire_from
  retire_from-same answer zero i s = (refl, refl, refl, refl, refl)
  retire_from-same answer (suc left) i s =
      let t = (retire_one answer s i).0 in ground (arith, retire_from-same answer left (i + 1) t)

  retirement-Leaves :
      (s : Runtime S D) (answer : ℕ → FenceAnswer) (warming : Bool) (planned : ℕ)
      → IsSound fp ext s
      → Leaves planned (admit_retirement fp ext s answer warming planned)
  unfolding admit_retirement retire_xclipse_output_copies
  retirement-Leaves s answer warming planned h = ground (arith, retire_from-same answer planned 0 s)

  reacquire-Leaves :
      (s : Runtime S D) (adaptive : Bool) (planned : ℕ)
      → IsSound fp ext s
      → Leaves planned (admit_reacquire fp ext s adaptive planned)
  unfolding admit_reacquire Guard.limit_generated min
  reacquire-Leaves s adaptive planned h = ground arith

  pub admit_frames-Leaves :
      (conf : Configuration S) (interval : ℤ) (hint_valid : Bool) (hint : ℕ) (discontinuity : Bool)
      (answers : Answers) (s : Runtime S D) (planned : ℕ)
      → IsSound fp ext s
      → Leaves planned
          (admit_frames fp ext conf interval hint_valid hint discontinuity answers s planned)
  unfolding admit_frames
  admit_frames-Leaves conf interval hint_valid hint discontinuity answers s planned h =
      let adaptive = conf.adaptive_framegen in
      let warming = is_warming s in
      let (t, n) = admit_deadline fp ext s adaptive warming answers.admission_now_ns planned in
      let (ht, hn) = deadline-Leaves s adaptive warming answers.admission_now_ns planned h in
      let context = capacity_context fp ext conf interval hint_valid hint discontinuity t in
      let (u, m) = admit_presentation fp ext t adaptive context n in
      let (hu, hm) = presentation-Leaves t adaptive context n ht in
      let (v, k) = admit_retirement fp ext u answers.fence warming m in
      let (hv, hk) = retirement-Leaves u answers.fence warming m hu in
      let (hw, hl) = reacquire-Leaves v adaptive k hv in (hw, omega arith)
