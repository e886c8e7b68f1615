-- ===== src/Scheduler/Frame/Cost.antt =====
-- The cost limit of AdaptiveFrameScheduler: it rises by one frame after sustained demand, or
-- early when the capacity is proven.
use lsfg_vk_android.Common.{◌+◌, Bool, true, not, ◌&&◌, if◌then◌else◌, ltb, leb, ◌==◌, min}
use lsfg_vk_android.Float.{Floats}
use lsfg_vk_android.Scheduler.Frame.{Scheduler, bump, origin, reset_unmet_demand}

module _ {S D : Type 0} (fp : Floats S D) where
  open fp.double use {add, sub, lt, le, decimal}

  -- The unmet demand since when, and the samples that prove capacity for one frame more.
  unfoldable pub note_demand : Scheduler D → Scheduler D
  note_demand s = record s {
    unmet_demand_since_seconds =
        if lt s.unmet_demand_since_seconds (origin fp)
        then s.observed_time_seconds
        else s.unmet_demand_since_seconds;
    capacity_raise_samples =
        if s.safe_generation_hint_valid && leb (s.cost_limit + 1) s.safe_generation_hint
        then bump s.capacity_raise_samples
        else 0;
  }

  abbrev pub is_promotion_ready : Scheduler D → Bool
  is_promotion_ready s = leb 4 s.capacity_raise_samples && ltb 0 s.stable_cadence_samples

  unfoldable pub raise_cost : Scheduler D → Scheduler D
  raise_cost s =
      if not (is_promotion_ready s)
        && lt (sub s.observed_time_seconds s.unmet_demand_since_seconds) (decimal 600 3)
      then s
      else reset_unmet_demand fp (record s {
        cost_limit = s.cost_limit + 1;
        telemetry = record (s.telemetry) {
          capacity_promoted = is_promotion_ready s;
          cost_raised = true;
        };
      })

  unfoldable pub update_cost_limit : Scheduler D → D → Scheduler D
  unfolding note_demand raise_cost
  update_cost_limit s wanted =
      let t : Scheduler D = record s {
        cost_limit = min (if s.cost_limit == 0 then 1 else s.cost_limit) s.max_generated_frames;
      } in
      if s.max_generated_frames == 0
      then reset_unmet_demand fp (record s { cost_limit = 0 })
      else if s.generation_first
      then reset_unmet_demand fp (record s { cost_limit = s.max_generated_frames })
      else if leb t.max_generated_frames t.cost_limit
      then reset_unmet_demand fp t
      else if le wanted (add (fp.of_nat t.cost_limit) (decimal 1 3))
      then reset_unmet_demand fp t
      else raise_cost (note_demand t)
