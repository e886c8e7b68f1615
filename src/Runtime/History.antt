-- ===== src/Runtime/History.antt =====
-- src/context.cpp, LsContext::present: the members that a completed history cycle changes, without the
-- governor of the flow scale.
use lsfg_vk_android.Common.{◌-◌, Bool, false, not, ◌&&◌, if◌then◌else◌, ltb, List, [], ◌∷◌}
use lsfg_vk_android.Float.{Floats}
use lsfg_vk_android.Config.{Configuration}
use lsfg_vk_android.Scheduler.Guard.{source_only_required, consume_source_only}
use lsfg_vk_android.Scheduler.Deadline.{observe_source_only_recovery}
use lsfg_vk_android.Scheduler.Baseline.{history_maintenance}
use lsfg_vk_android.Runtime.{Runtime}
use lsfg_vk_android.Runtime.Cycle.{is_warming}

module _ {S D : Type 0} (fp : Floats S D) where
  -- The warm-up of a generation-first device, which only copies the source.
  unfoldable pub complete_source_warmup : Runtime S D → Runtime S D
  complete_source_warmup s = record s {
    last_dispatched_generated_frame_count = 0;
    last_source_cadence_observation = history_maintenance;
    last_generated_frame_count = 0;
    source_history_warmup_remaining = s.source_history_warmup_remaining - 1;
    requires_source_history_warmup = ltb 0 (s.source_history_warmup_remaining - 1);
  }

  -- A cycle that writes history and generates nothing, once the frame generation has finished it.
  unfoldable pub complete_history_cycle : Configuration S → Bool → Runtime S D → Runtime S D
  complete_history_cycle conf seeding s = record s {
    last_dispatched_generated_frame_count = 0;
    last_source_cadence_observation = history_maintenance;
    predictor =
        if conf.adaptive_framegen && not s.conservative_cross_device_sync
        then observe_source_only_recovery fp s.predictor
        else s.predictor;
    source_history_warmup_remaining = s.source_history_warmup_remaining - 1;
    guard = if source_only_required s.guard then consume_source_only s.guard else s.guard;
    flow_startup_seed_pending = if seeding then false else s.flow_startup_seed_pending;
    requires_source_history_warmup = ltb 0 (s.source_history_warmup_remaining - 1);
    last_generated_frame_count = 0;
  }

  -- The two in the order in which present looks for them.
  unfoldable pub maintain_history : Configuration S → Bool → Runtime S D → Runtime S D
  maintain_history conf seeding s =
      if s.conservative_cross_device_sync && is_warming s
      then complete_source_warmup s
      else complete_history_cycle conf seeding s

  -- One completed history cycle for each flag, which says whether it commits a startup seed.
  unfoldable pub maintain_all : Configuration S → List Bool → Runtime S D → Runtime S D
  maintain_all conf [] s = s
  maintain_all conf (seeding ∷ rest) s = maintain_all conf rest (maintain_history conf seeding s)
