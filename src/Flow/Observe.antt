-- ===== src/Flow/Observe.antt =====
-- The second half of AdaptiveFlowController::observe. Each early return of the source is a
-- function of its own, which is given what the code above it has computed.
pub mod Trials
pub mod Actuate
use lsfg_vk_android.Common.{ℕ, Bool, true, false, not, ◌&&◌, ◌||◌, if◌then◌else◌}
use lsfg_vk_android.Common.Int.{ℤ, pos}
use lsfg_vk_android.Float
use lsfg_vk_android.Float.{Floats}
use lsfg_vk_android.Flow.Types.{
  Observation, Controller, disabled, flow_transition, flow_transition_settle, invalid_telemetry,
  scheduler_transition, cooldown,
}
use lsfg_vk_android.Flow.Lifecycle.{origin, reset_evidence, with_reason}
use lsfg_vk_android.Flow.Signals.{Signals, measure, explore, signals, publish}
use lsfg_vk_android.Flow.Constants.{
  flow_transition_settle_seconds, scheduler_transition_hold_seconds,
}
use Trials.{judge_recovery, judge_downstep}
use Actuate.{decide}

module _ {S D : Type 0} (fp : Floats S D) where
  open fp.double use {add, lt, le, is_finite, decimal}

  -- The telemetry that every observation clears first.
  unfoldable pub clear_telemetry : Controller S D → Controller S D
  clear_telemetry s = record s {
    telemetry = record (s.telemetry) {
      changed = false;
      estimated_next_total_ms = origin fp;
      pressure_ratio = origin fp;
      flow_budget_ratio = origin fp;
      global_gpu_usage_percent = origin fp;
      global_pressure = false;
      thermal_status = pos 0;
      thermal_pressure = false;
      compute_pressure = false;
      wsi_pressure = false;
      output_deficit = false;
      output_pressure = false;
      source_pressure = false;
      exploratory_source_pressure = false;
      source_reference_fps = origin fp;
      downstep_evaluation_active = s.downstep.evaluation_active;
    };
  }

  unfoldable pub evidence_seconds : ℤ → D
  evidence_seconds elapsed =
      let seconds = fp.seconds elapsed in
      if lt (origin fp) seconds && is_finite seconds
      then Float.min fp.double seconds (decimal 25 2)
      else origin fp

  -- A trial that is running starts again.
  unfoldable pub restart_trials : Controller S D → Controller S D
  restart_trials s = record s {
    downstep =
        if s.downstep.evaluation_active
        then record (s.downstep) {
          evaluation_started_seconds = s.observed_seconds;
          benefit_seen = false;
        }
        else s.downstep;
    recovery =
        if s.recovery.evaluation_active
        then record (s.recovery) {
          evaluation_started_seconds = s.observed_seconds;
          regression_seconds = origin fp;
        }
        else s.recovery;
  }

  abbrev pub show_trial : Controller S D → Controller S D
  show_trial s = record s {
    telemetry = record (s.telemetry) { downstep_evaluation_active = s.downstep.evaluation_active };
  }

  unfoldable pub note_transition : Controller S D → Observation D → Controller S D
  note_transition s o = record s {
    flow_transition_hold_active = if o.flow_transition then true else s.flow_transition_hold_active;
    flow_transition_settle_until_seconds =
        if o.flow_transition
        then add s.observed_seconds (flow_transition_settle_seconds fp)
        else s.flow_transition_settle_until_seconds;
  }

  unfoldable pub hold_transition : Controller S D → Observation D → Controller S D
  unfolding restart_trials
  hold_transition s o =
      let t = restart_trials s in
      let u : Controller S D = record t {
        flow_transition_hold_active =
            if not o.flow_transition then false else t.flow_transition_hold_active;
      } in
      with_reason fp (show_trial (reset_evidence fp u)) flow_transition

  unfoldable pub settle_transition : Controller S D → Controller S D
  unfolding restart_trials
  settle_transition s =
      with_reason fp (show_trial (reset_evidence fp (restart_trials s))) flow_transition_settle

  abbrev pub is_invalid : Observation D → Bool
  is_invalid o =
      not o.valid
      || not (lt (origin fp) o.frame_budget_ms)
      || not (is_finite o.frame_budget_ms)
      || lt o.total_lsfg_ms (origin fp)
      || lt o.flow_ms (origin fp)
      || not (is_finite o.total_lsfg_ms)
      || not (is_finite o.flow_ms)

  -- A running trial of a lower state does not count the elapsed time.
  abbrev pub defer_downstep : Controller S D → D → Controller S D
  defer_downstep s evidence = record s {
    downstep =
        if s.downstep.evaluation_active
        then record (s.downstep) {
          evaluation_started_seconds = add s.downstep.evaluation_started_seconds evidence;
        }
        else s.downstep;
  }

  abbrev pub defer_recovery : Controller S D → D → Controller S D
  defer_recovery s evidence = record s {
    recovery =
        if s.recovery.evaluation_active
        then record (s.recovery) {
          evaluation_started_seconds = add s.recovery.evaluation_started_seconds evidence;
        }
        else s.recovery;
  }

  unfoldable pub reject_sample : Controller S D → D → Controller S D
  reject_sample s evidence =
      with_reason fp
        (show_trial (reset_evidence fp (defer_recovery (defer_downstep s evidence) evidence)))
        invalid_telemetry

  -- While the scheduler holds, only global pressure gathers evidence.
  unfoldable pub wait_for_scheduler : Controller S D → D → Signals → Controller S D
  wait_for_scheduler s evidence g =
      with_reason fp
        (record s {
          headroom_seconds = origin fp;
          pressure_seconds =
              if g.global_pressure then add s.pressure_seconds evidence else origin fp;
        })
        scheduler_transition

  -- The hold of a scheduler transition.
  unfoldable pub hold_scheduler : Controller S D → D → Controller S D
  hold_scheduler s evidence =
      let t = defer_downstep s evidence in
      record t {
        scheduler_hold_until_seconds =
            Float.max fp.double t.scheduler_hold_until_seconds
              (add t.observed_seconds (scheduler_transition_hold_seconds fp));
        headroom_seconds = origin fp;
      }

  -- From `if (downstepEvaluationActive_)` on.
  unfoldable pub observe_settled : Controller S D → Observation D → D → Signals → Controller S D
  observe_settled s o evidence g =
      if s.downstep.evaluation_active
      then judge_downstep fp s o g
      else if lt s.observed_seconds s.cooldown_until_seconds
      then with_reason fp (reset_evidence fp s) cooldown
      else decide fp s o evidence g

  -- From the scheduler transition on.
  unfoldable pub observe_scheduled : Controller S D → Observation D → D → Signals → Controller S D
  observe_scheduled s o evidence g =
      let severe = g.compute_pressure && le (decimal 1 0) s.telemetry.pressure_ratio in
      let t : Controller S D = if o.scheduler_transition then hold_scheduler s evidence else s in
      if o.scheduler_transition && not severe
      then wait_for_scheduler t evidence g
      else if lt t.observed_seconds t.scheduler_hold_until_seconds && not severe
      then wait_for_scheduler (defer_downstep t evidence) evidence g
      else observe_settled t o evidence g

  -- From a valid sample on.
  unfoldable pub observe_valid : Controller S D → Observation D → D → Controller S D
  observe_valid s o evidence =
      let t = explore fp (measure fp s o) o in
      let g = signals fp t o in
      let u = publish fp t o g in
      if u.recovery.evaluation_active
      then judge_recovery fp u o evidence g
      else observe_scheduled u o evidence g

  -- From the advanced clock on.
  unfoldable pub observe_enabled : Controller S D → Observation D → D → Controller S D
  observe_enabled s o evidence =
      let t = note_transition s o in
      if t.flow_transition_hold_active
      then hold_transition t o
      else if lt t.observed_seconds t.flow_transition_settle_until_seconds
      then settle_transition t
      else if is_invalid o
      then reject_sample t evidence
      else observe_valid t o evidence

  -- The result is the new controller; the source also returns its current scale.
  unfoldable pub observe : Controller S D → Observation D → Controller S D
  observe s o =
      let t = clear_telemetry s in
      if not s.enabled
      then with_reason fp t disabled
      else let evidence = evidence_seconds o.elapsed in
        observe_enabled (record t { observed_seconds = add s.observed_seconds evidence }) o evidence
