-- ===== src/Scheduler/Capacity/Observe.antt =====
-- GeneratedPresentationCapacityTracker::observe, one function for each block of the source.
use lsfg_vk_android.Common.{
  ℕ, ◌+◌, ◌-◌, ◌%◌, ◌^◌, Bool, true, false, not, ◌&&◌, ◌||◌, if◌then◌else◌, ltb, leb, ◌==◌, min,
  max,
}
use lsfg_vk_android.Float
use lsfg_vk_android.Float.{Floats}
use lsfg_vk_android.Scheduler.Capacity.{
  Context, no_context, Provisional, Tracker, rejection_probe, profitability_keep_lower,
  profitability_restore_higher, recovery_evidence_raise, target_deficit_probe_success,
  sub_one_duty_lower, sub_one_duty_recover, origin, duty_epsilon, next_lower_duty, next_higher_duty,
  higher_capacity_is_proven,
}

module _ {S D : Type 0} (fp : Floats S D) where
  open fp.double use {add, sub, mul, div, lt, le, decimal}

  -- current + alpha * (sample - current), with the factor 0.25.
  abbrev pub average : D → D → D
  average current sample = add current (mul (decimal 25 2) (sub sample current))

  -- The ratios and averages, and the counters (uint64_t).
  unfoldable pub account : Tracker D → ℕ → ℕ → ℕ → Tracker D
  account s attempted accepted rejected =
      let efficiency = div (fp.of_nat accepted) (fp.of_nat attempted) in
      let sample = div (fp.of_nat rejected) (fp.of_nat attempted) in
      let accepted_ewma =
        if s.has_observation
        then average s.accepted_frames_ewma (fp.of_nat accepted)
        else fp.of_nat accepted in
      let efficiency_ewma =
        if s.has_observation then average s.efficiency_ewma efficiency else efficiency in
      record s {
        has_observation = true;
        accepted_frames_ewma = accepted_ewma;
        efficiency_ewma = efficiency_ewma;
        telemetry = record (s.telemetry) {
          wsi_rejection_ratio =
              if s.has_observation then average s.telemetry.wsi_rejection_ratio sample else sample;
          attempted_generated_frames =
              (s.telemetry.attempted_generated_frames + attempted) % 2 ^ 64;
          accepted_generated_frames = (s.telemetry.accepted_generated_frames + accepted) % 2 ^ 64;
          delivered_efficiency = efficiency_ewma;
          accepted_frames_ewma = accepted_ewma;
          highest_useful_capacity =
              if ltb 0 accepted && leb s.telemetry.generation_cap attempted
              then max s.telemetry.highest_useful_capacity attempted
              else s.telemetry.highest_useful_capacity;
        };
      }

  -- The evidence for a lower cap and for a higher one.
  unfoldable pub weigh : Tracker D → ℕ → ℕ → ℕ → Context → Tracker D
  weigh s attempted accepted rejected c =
      let efficiency = div (fp.of_nat accepted) (fp.of_nat attempted) in
      let recovery =
        if ltb 0 rejected
        then Float.max fp.double (origin fp) (sub s.recovery_evidence (decimal 25 2))
        else if le (decimal 80 2) efficiency
        then add s.recovery_evidence (decimal 10 1)
        else s.recovery_evidence in
      record s {
        rejection_evidence =
            if ltb 0 rejected
            then min (s.rejection_evidence + 2) 15
            else if ltb 1 s.rejection_evidence
            then s.rejection_evidence - 1
            else 0;
        recovery_evidence =
            if c.output_deficit && higher_capacity_is_proven fp c s.telemetry.generation_cap
            then add recovery (decimal 75 2)
            else recovery;
      }

  -- The outcome of a probe in flight.
  unfoldable pub settle_probe : Tracker D → ℕ → Context → Tracker D
  settle_probe s accepted c =
      if not s.upward_probe_in_flight
      then s
      else if ltb s.telemetry.generation_cap accepted
      then record s {
        recovery_evidence = origin fp;
        rejection_evidence = 0;
        single_frame_phase = origin fp;
        upward_probe_in_flight = false;
        upward_probe_attempted = 0;
        telemetry = record (s.telemetry) {
          generation_cap = min (s.telemetry.generation_cap + 1) s.max_generated_frames;
          single_frame_duty = decimal 10 1;
          raised = true;
          last_change_reason =
              if c.output_deficit then target_deficit_probe_success else recovery_evidence_raise;
          last_change_output_deficit = c.output_deficit;
        };
      }
      else record s {
        recovery_evidence =
            Float.max fp.double (origin fp) (sub s.recovery_evidence (decimal 10 1));
        upward_probe_in_flight = false;
        upward_probe_attempted = 0;
      }

  -- The lower cap did not pay off.
  unfoldable pub is_unprofitable : Provisional D → Context → Bool
  is_unprofitable p c =
      let lower_accepted = div p.accepted_sum (fp.of_nat p.samples) in
      let lower_efficiency = div p.efficiency_sum (fp.of_nat p.samples) in
      let improved = le (add p.baseline_efficiency (decimal 8 2)) lower_efficiency in
      let preserved =
        le p.baseline_accepted (origin fp)
        || le (mul p.baseline_accepted (decimal 95 2)) lower_accepted in
      if c.output_deficit then not preserved || not improved else not preserved && not improved

  abbrev pub close_provisional : Provisional D → Provisional D
  close_provisional p = record p {
    lower_active = false;
    samples = 0;
    accepted_sum = origin fp;
    efficiency_sum = origin fp;
  }

  unfoldable pub sample_provisional : Provisional D → ℕ → ℕ → Provisional D
  sample_provisional p attempted accepted = record p {
    samples = p.samples + 1;
    accepted_sum = add p.accepted_sum (fp.of_nat accepted);
    efficiency_sum = add p.efficiency_sum (div (fp.of_nat accepted) (fp.of_nat attempted));
  }

  -- The trial of a lower cap: after six samples it is kept, or the cap before it returns.
  unfoldable pub judge_provisional : Tracker D → ℕ → ℕ → Context → Tracker D
  judge_provisional s attempted accepted c =
      let p = sample_provisional s.provisional attempted accepted in
      if not s.provisional.lower_active
      then s
      else if ltb p.samples 6
      then record s { provisional = p }
      else if is_unprofitable p c
      then record s {
        provisional = close_provisional p;
        recovery_evidence = origin fp;
        rejection_evidence = 0;
        telemetry = record (s.telemetry) {
          generation_cap = min p.previous_cap s.max_generated_frames;
          raised = true;
          last_change_reason = profitability_restore_higher;
          last_change_output_deficit = c.output_deficit;
        };
      }
      else record s {
        provisional = close_provisional p;
        telemetry = record (s.telemetry) {
          last_change_reason = profitability_keep_lower;
          last_change_output_deficit = c.output_deficit;
        };
      }

  abbrev pub may_lower_cap : Tracker D → Bool
  may_lower_cap s =
      not s.provisional.lower_active
      && ltb 1 s.telemetry.generation_cap
      && leb 5 s.rejection_evidence
      && le (decimal 20 2) s.telemetry.wsi_rejection_ratio

  -- `proven` is what higherCapacityIsProven said before the probe was settled.
  unfoldable pub may_lower_duty : Tracker D → Context → Bool → Bool
  may_lower_duty s c proven =
      not s.provisional.lower_active
      && s.telemetry.generation_cap == 1
      && leb 5 s.rejection_evidence
      && le (decimal 50 2) s.telemetry.wsi_rejection_ratio
      && not (c.output_deficit && c.source_inside_budget && proven)
      && lt (add (decimal 25 2) (duty_epsilon fp)) s.telemetry.single_frame_duty

  unfoldable pub lower : Tracker D → Context → Bool → Tracker D
  lower s c proven =
      if may_lower_cap s
      then record s {
        provisional = record {
          lower_active = true;
          previous_cap = s.telemetry.generation_cap;
          samples = 0;
          accepted_sum = origin fp;
          efficiency_sum = origin fp;
          baseline_accepted = s.accepted_frames_ewma;
          baseline_efficiency = s.efficiency_ewma;
        };
        rejection_evidence = 1;
        single_frame_phase = origin fp;
        telemetry = record (s.telemetry) {
          generation_cap = s.telemetry.generation_cap - 1;
          lowered = true;
          last_change_reason = rejection_probe;
          last_change_output_deficit = c.output_deficit;
        };
      }
      else if may_lower_duty s c proven
      then record s {
        rejection_evidence = 0;
        recovery_evidence = origin fp;
        single_frame_phase = origin fp;
        telemetry = record (s.telemetry) {
          single_frame_duty = next_lower_duty fp s.telemetry.single_frame_duty;
          lowered = true;
          last_change_reason = sub_one_duty_lower;
          last_change_output_deficit = c.output_deficit;
        };
      }
      else s

  unfoldable pub raise : Tracker D → Context → Bool → Tracker D
  raise s c proven =
      if lt s.telemetry.single_frame_duty (decimal 999 3) && le (decimal 80 1) s.recovery_evidence
      then record s {
        recovery_evidence = origin fp;
        single_frame_phase = origin fp;
        telemetry = record (s.telemetry) {
          single_frame_duty = next_higher_duty fp s.telemetry.single_frame_duty;
          raised = true;
          last_change_reason = sub_one_duty_recover;
          last_change_output_deficit = c.output_deficit;
        };
      }
      else if not s.provisional.lower_active
          && ltb s.telemetry.generation_cap s.max_generated_frames
          && le (decimal 80 1) s.recovery_evidence
      then if not c.output_deficit && not c.deadline_capacity_valid
        then record s {
          recovery_evidence = origin fp;
          telemetry = record (s.telemetry) {
            generation_cap = s.telemetry.generation_cap + 1;
            raised = true;
            last_change_reason = recovery_evidence_raise;
            last_change_output_deficit = false;
          };
        }
        else record s { upward_probe_pending = true }
      else if c.output_deficit && proven && le (decimal 25 1) s.recovery_evidence
      then record s { upward_probe_pending = true }
      else s

  unfoldable pub publish : Tracker D → ℕ → ℕ → ℕ → Tracker D
  publish s attempted accepted rejected = record s {
    telemetry = record (s.telemetry) {
      rejection_evidence = s.rejection_evidence;
      recovery_evidence = s.recovery_evidence;
      highest_useful_capacity =
          max s.telemetry.highest_useful_capacity (if ltb 0 accepted then attempted else 0);
      upward_probe_pending = s.upward_probe_pending;
      provisional_lower_active = s.provisional.lower_active;
      pressure =
          ltb 0 rejected
          || le (decimal 10 2) s.telemetry.wsi_rejection_ratio
          || s.provisional.lower_active
          || ltb s.telemetry.generation_cap s.max_generated_frames
          || lt s.telemetry.single_frame_duty (decimal 999 3);
    };
  }

  abbrev pub clear_change : Tracker D → Tracker D
  clear_change s = record s { telemetry = record (s.telemetry) { lowered = false; raised = false } }

  -- The rest of observe, for the clamped counts.
  unfoldable pub observe_counts : Tracker D → ℕ → ℕ → ℕ → Context → Tracker D
  observe_counts s attempted accepted rejected c =
      let t = weigh (account s attempted accepted rejected) attempted accepted rejected c in
      let proven = higher_capacity_is_proven fp c t.telemetry.generation_cap in
      let u = judge_provisional (settle_probe t accepted c) attempted accepted c in
      publish (raise (lower u c proven) c proven) attempted accepted rejected

  unfoldable pub observe : Tracker D → ℕ → ℕ → ℕ → Context → Tracker D
  observe s attempted accepted wsi_rejected c =
      let t = clear_change s in
      let rejected = min wsi_rejected attempted in
      if attempted == 0 || s.max_generated_frames == 0
      then t
      else observe_counts t attempted (min accepted (attempted - rejected)) rejected c

  -- The overload without a context.
  unfoldable pub observe_rejected : Tracker D → ℕ → ℕ → Tracker D
  unfolding observe
  observe_rejected s attempted wsi_rejected =
      let rejected = min wsi_rejected attempted in
      observe s attempted (attempted - rejected) rejected no_context
