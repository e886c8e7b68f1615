-- ===== src/Runtime/Admission.antt =====
-- src/context.cpp, LsContext::present: how many planned frames the deadline, the swapchain and the
-- copies of earlier batches leave.
use lsfg_vk_android.Common.{
  ℕ, zero, suc, ◌+◌, ◌-◌, Bool, true, false, not, ◌&&◌, ◌||◌, if◌then◌else◌, ltb, leb, ◌==◌, get_or,
  set, length,
}
use lsfg_vk_android.Float.{Floats, Extended}
use lsfg_vk_android.Scheduler.Timeline.{synthetic_desired_time_ns}
use lsfg_vk_android.Scheduler.Deadline.{Decision, predict}
use lsfg_vk_android.Scheduler.Deadline.Hints.{admits}
use lsfg_vk_android.Scheduler.Capacity
use lsfg_vk_android.Scheduler.Capacity.{Context}
use lsfg_vk_android.Runtime.{Runtime, Metrics, add_u64}
use lsfg_vk_android.Runtime.Reset.{empty_decision}

-- What the driver answers when a fence is queried and, if it is signalled, reset.
pub data FenceAnswer : Type 0 where
  signalled reset_failed pending query_failed : FenceAnswer

-- Rejected frames count as late and as refused.
unfoldable pub count_rejected : {D : Type 0} → ℕ → Metrics D → Metrics D
count_rejected n m = record m {
  window_generated_late_drops = add_u64 m.window_generated_late_drops n;
  total_generated_late_drops = add_u64 m.total_generated_late_drops n;
  window_admission_rejects = add_u64 m.window_admission_rejects n;
  total_admission_rejects = add_u64 m.total_admission_rejects n;
}

unfoldable pub count_capped : {D : Type 0} → ℕ → Metrics D → Metrics D
count_capped n m = record m {
  window_generated_presentation_cap_drops = add_u64 m.window_generated_presentation_cap_drops n;
  total_generated_presentation_cap_drops = add_u64 m.total_generated_presentation_cap_drops n;
}

unfoldable pub count_shadow : {D : Type 0} → Bool → Metrics D → Metrics D
count_shadow would_admit m = record m {
  window_deadline_shadow_opportunities = add_u64 m.window_deadline_shadow_opportunities 1;
  total_deadline_shadow_opportunities = add_u64 m.total_deadline_shadow_opportunities 1;
  window_deadline_shadow_would_admit =
      if would_admit
      then add_u64 m.window_deadline_shadow_would_admit 1
      else m.window_deadline_shadow_would_admit;
  window_deadline_shadow_would_reject =
      if would_admit
      then m.window_deadline_shadow_would_reject
      else add_u64 m.window_deadline_shadow_would_reject 1;
  total_deadline_shadow_would_reject =
      if would_admit
      then m.total_deadline_shadow_would_reject
      else add_u64 m.total_deadline_shadow_would_reject 1;
}

module _ {S D : Type 0} where
  -- The query of one fence, and whether its copy is done.
  abbrev pub retire_one : (ℕ → FenceAnswer) → Runtime S D → ℕ → Runtime S D × Bool
  retire_one answer s i =
      if not (get_or s.output_fence_submitted i false)
      then (s, true)
      else if not (get_or s.output_fences i false)
      then (s, false)
      else elim (answer i) [
        | signalled ↦
            (record s { output_fence_submitted = set s.output_fence_submitted i false }, true)
        | _ ↦ (s, false)
      ]

  -- The loop over the fences: `left` of them from `i` on.
  unfoldable pub retire_from : (ℕ → FenceAnswer) → ℕ → ℕ → Runtime S D → Runtime S D × Bool
  retire_from answer zero i s = (s, true)
  retire_from answer (suc left) i s =
      let (t, ready) = retire_one answer s i in
      let (u, rest) = retire_from answer left (i + 1) t in (u, ready && rest)

  unfoldable pub retire_xclipse_output_copies :
      (ℕ → FenceAnswer) → ℕ → Runtime S D → Runtime S D × Bool
  retire_xclipse_output_copies answer count s =
      if count == 0 || length s.output_fences == 0
      then (s, true)
      else if ltb (length s.output_fences) count || ltb (length s.output_fence_submitted) count
      then (s, false)
      else retire_from answer count 0 s

module _ {S D L : Type 0} (fp : Floats S D) (ext : Extended D L) where
  open fp.double use {div, decimal}

  -- A number of nanoseconds as milliseconds.
  abbrev pub as_ms : ℕ → D
  as_ms ns = div (fp.of_nat ns) (decimal 1_000_000 0)

  -- What is left for the slot of a batch of `count`.
  abbrev pub slot_budget_ms : Runtime S D → ℕ → ℕ → ℕ → D
  slot_budget_ms s now count slot =
      let deadline =
        synthetic_desired_time_ns fp ext s.current_sample
          (div (fp.of_nat (slot + 1)) (fp.of_nat (count + 1))) in
      if ltb now deadline then as_ms (deadline - now) else decimal 0 0

  abbrev pub slot_decision : Runtime S D → ℕ → ℕ → ℕ → Decision D
  slot_decision s now count slot =
      predict fp s.predictor (slot + 1) (slot_budget_ms s now count slot)

  -- The loop that counts what each slot would have been answered: `left` slots from `slot` on.
  unfoldable pub shadow_slots : Runtime S D → ℕ → ℕ → ℕ → ℕ → Metrics D → Metrics D
  shadow_slots s now count zero slot m = m
  shadow_slots s now count (suc left) slot m =
      let d = slot_decision s now count slot in
      shadow_slots s now count left (slot + 1) (if d.valid then count_shadow d.would_admit m else m)

  unfoldable pub candidate_fits : Runtime S D → ℕ → ℕ → ℕ → ℕ → Bool
  candidate_fits s now count zero slot = true
  candidate_fits s now count (suc left) slot =
      admits fp (slot_decision s now count slot) && candidate_fits s now count left (slot + 1)

  -- The largest batch, from a candidate down, all of whose slots fit.
  unfoldable pub admitted_count : Runtime S D → ℕ → ℕ → ℕ
  admitted_count s now zero = 0
  admitted_count s now (suc c) =
      if candidate_fits s now (suc c) (suc c) 0 then suc c else admitted_count s now c

  -- The metrics with the frames that a count leaves out.
  abbrev pub leave : Runtime S D → ℕ → ℕ → Runtime S D
  leave s planned admitted =
      if ltb admitted planned
      then record s { metrics = count_rejected (planned - admitted) s.metrics }
      else s

  -- A batch with a valid decision: each slot before its own deadline.
  unfoldable pub admit_slots : Runtime S D → ℕ → ℕ → D → Runtime S D × ℕ
  admit_slots s now planned budget =
      let admitted = admitted_count s now planned in
      let t : Runtime S D = record s { metrics = shadow_slots s now planned planned 0 s.metrics } in
      let u = leave t planned admitted in
      (
        record u {
          batch_decision =
              if ltb 0 admitted then predict fp s.predictor admitted budget else s.batch_decision;
        },
        admitted,
      )

  -- Where no estimate reaches the batch, one frame is tried.
  unfoldable pub admit_batch : Runtime S D → ℕ → ℕ → Runtime S D × ℕ
  unfolding admit_slots
  admit_batch s now planned =
      let budget = as_ms (s.current_sample.source_desired_time_ns - now) in
      let d = predict fp s.predictor planned budget in
      if leb s.current_sample.source_desired_time_ns now
      then (record s { metrics = count_rejected planned s.metrics }, 0)
      else if not d.valid && ltb 1 planned
      then (record s { metrics = count_rejected (planned - 1) s.metrics }, 1)
      else if d.valid
      then admit_slots s now planned budget
      else (s, planned)

  -- The deadline admission of the adaptive mode; `now` is 0 where the clock gave no time.
  unfoldable pub admit_deadline : Runtime S D → Bool → Bool → ℕ → ℕ → Runtime S D × ℕ
  admit_deadline s adaptive warming now planned =
      let t : Runtime S D = record s { batch_decision = empty_decision fp } in
      if adaptive
        && not s.conservative_cross_device_sync
        && not warming
        && ltb 0 planned
        && s.current_sample.valid
        && not (now == 0)
      then admit_batch t now planned
      else (t, planned)

  -- The cap of the swapchain.
  unfoldable pub admit_presentation : Runtime S D → Bool → Context → ℕ → Runtime S D × ℕ
  admit_presentation s adaptive context planned =
      let (capacity, capped) = Capacity.limit fp s.capacity planned context in
      let t : Runtime S D = record s { capacity = capacity } in
      if not (adaptive && not s.conservative_cross_device_sync && ltb 0 planned)
      then (s, planned)
      else if ltb capped planned
      then (record t { metrics = count_capped (planned - capped) s.metrics }, capped)
      else (t, planned)

  -- A FIFO swapchain drops a batch while copies of an earlier one are not done.
  unfoldable pub admit_retirement : Runtime S D → (ℕ → FenceAnswer) → Bool → ℕ → Runtime S D × ℕ
  admit_retirement s answer warming planned =
      let (t, ready) = retire_xclipse_output_copies answer planned s in
      if not (not s.conservative_cross_device_sync && s.is_fifo && ltb 0 planned && not warming)
      then (s, planned)
      else if ready
      then (t, planned)
      else (
        record t { metrics = count_rejected planned t.metrics; batch_decision = empty_decision fp },
        0,
      )
