-- ===== src/Scheduler/Frame/Bounds.antt =====
-- The bounds of AdaptiveFrameScheduler, kept by every call, and what a plan may hand out.
use lsfg_vk_android.Common.{
  ℕ, ◌+◌, ◌≤◌, ◌<◌, ◌≡◌, refl, Bool, true, false, min, arith, ◌⊎◌, List, [], ◌∷◌, length,
  length-set,
}
use lsfg_vk_android.Common.Int.{ℤ}
use lsfg_vk_android.Float.{Floats}
use lsfg_vk_android.Scheduler.Frame.{
  Scheduler, construct, configure, reset, reset_runtime_state, set_safe_generation_hint,
  set_generation_first, default_scheduler, origin,
}
use lsfg_vk_android.Scheduler.Frame.Rate.{push_interval, update_source_rate}
use lsfg_vk_android.Scheduler.Frame.Cost.{note_demand, raise_cost, update_cost_limit}
use lsfg_vk_android.Scheduler.Frame.Density.{
  acquire_density, hold_density, stabilize_generation_density,
}
use lsfg_vk_android.Scheduler.Frame.Plan.{
  clear_telemetry, take_opportunities, grant, note_density, note_wanted, note_cost, is_held,
  note_held, schedule, warm_start, wanted_frames, plan_demand, advance, reset_discontinuity,
  plan_interval, plan,
}

pub data Call (D : Type 0) : Type 0 where
  configures : ℕ → ℕ → Call D
  hints : ℕ → Bool → Call D
  puts_first : Bool → Call D
  plans : ℤ → Bool → Call D
  resets : Call D

module _ {S D : Type 0} (fp : Floats S D) where
  -- The interval window: nine places, a cursor in it, and at most nine samples.
  pub record IsWindow (s : Scheduler D) : Type 0 where
    pub nine : length s.recent_source_intervals ≡ 9
    pub cursor_lt : s.recent_source_interval_cursor < 9
    pub count_le : s.recent_source_interval_count ≤ 9

  -- The cost limit and the hint are at most the maximum, and the cost limit is 0 only where
  -- nothing may be generated.
  pub record IsLimited (s : Scheduler D) : Type 0 where
    pub cost_le : s.cost_limit ≤ s.max_generated_frames
    pub cost_pos : (s.max_generated_frames ≡ 0) ⊎ (0 < s.cost_limit)
    pub hint_le : s.safe_generation_hint ≤ s.max_generated_frames

  min_bounds : (a b : ℕ) → (min a b ≤ a) × (min a b ≤ b) × ((min a b ≡ a) ⊎ (min a b ≡ b))
  unfolding min
  min_bounds a b = ground arith

  first-IsLimited : (s : Scheduler D) → IsLimited (reset_runtime_state fp s)
  unfolding reset_runtime_state
  first-IsLimited s = ground arith

  first-IsWindow : (s : Scheduler D) → IsWindow (reset_runtime_state fp s)
  unfolding reset_runtime_state
  first-IsWindow s = record { nine = refl; cursor_lt = omega arith; count_le = omega arith }

  push_interval-IsWindow : (s : Scheduler D) (x : D) → IsWindow s → IsWindow (push_interval fp s x)
  unfolding push_interval
  push_interval-IsWindow s x h = record {
    nine =
        omega (
          arith,
          length-set {0} s.recent_source_intervals s.recent_source_interval_cursor x,
          h.nine,
        );
    cursor_lt = omega arith;
    count_le = (min_bounds (s.recent_source_interval_count + 1) 9).1;
  }

  -- What the calls before the demand leave alone.
  abbrev pub Keeps : Scheduler D → Scheduler D → Type 0
  Keeps s t =
      (t.target_fps ≡ s.target_fps)
      × (t.max_generated_frames ≡ s.max_generated_frames)
      × (t.cost_limit ≡ s.cost_limit)
      × (t.safe_generation_hint ≡ s.safe_generation_hint)
      × (t.generation_first ≡ s.generation_first)

  -- The window moves with the scheduler.
  IsWindow-same :
      (s t : Scheduler D)
      → t.recent_source_intervals ≡ s.recent_source_intervals
      → t.recent_source_interval_cursor ≡ s.recent_source_interval_cursor
      → t.recent_source_interval_count ≡ s.recent_source_interval_count
      → IsWindow s
      → IsWindow t
  IsWindow-same s t a b c h = record {
    nine = rw a h.nine;
    cursor_lt = rw b h.cursor_lt;
    count_le = rw c h.count_le;
  }

  advance-Keeps : (s : Scheduler D) (x : D) (held : Bool) → Keeps s (advance fp s x held)
  unfolding advance update_source_rate push_interval
  advance-Keeps s x true = (refl, refl, refl, refl, refl)
  advance-Keeps s x false = (refl, refl, refl, refl, refl)

  advance-IsWindow :
      (s : Scheduler D) (x : D) (held : Bool) → IsWindow s → IsWindow (advance fp s x held)
  unfolding advance update_source_rate
  advance-IsWindow s x true h = IsWindow-same s _ refl refl refl h
  advance-IsWindow s x false h =
      IsWindow-same (push_interval fp s x) _ refl refl refl (push_interval-IsWindow s x h)

  update_cost_limit-IsLimited :
      (s : Scheduler D) (wanted : D)
      → s.safe_generation_hint ≤ s.max_generated_frames
      → IsLimited (update_cost_limit fp s wanted)
        × ((update_cost_limit fp s wanted).max_generated_frames ≡ s.max_generated_frames)
        × ((update_cost_limit fp s wanted).target_fps ≡ s.target_fps)
  unfolding update_cost_limit raise_cost note_demand min
  update_cost_limit-IsLimited s wanted h = ground arith

  -- What a density leaves alone.
  abbrev pub KeepsLimits : Scheduler D → Scheduler D → Type 0
  KeepsLimits s t =
      Keeps s t
      × (t.recent_source_intervals ≡ s.recent_source_intervals)
      × (t.recent_source_interval_cursor ≡ s.recent_source_interval_cursor)
      × (t.recent_source_interval_count ≡ s.recent_source_interval_count)

  stabilize-KeepsLimits :
      (s : Scheduler D) (wanted : D) → KeepsLimits s (stabilize_generation_density fp s wanted).0
  unfolding stabilize_generation_density hold_density acquire_density
  stabilize-KeepsLimits s wanted = ground arith

  update_cost_limit-window :
      (s : Scheduler D) (wanted : D)
      → ((update_cost_limit fp s wanted).recent_source_intervals ≡ s.recent_source_intervals)
        × ((update_cost_limit fp s wanted).recent_source_interval_cursor
            ≡ s.recent_source_interval_cursor)
        × ((update_cost_limit fp s wanted).recent_source_interval_count
            ≡ s.recent_source_interval_count)
  unfolding update_cost_limit raise_cost note_demand
  update_cost_limit-window s wanted = ground arith

  -- What a plan hands out: no more than the maximum, and no more than the cost limit that it
  -- leaves; the telemetry shows it.
  abbrev pub Hands : Scheduler D → Scheduler D × ℕ → Type 0
  Hands s (t, n) =
      (n ≤ s.max_generated_frames)
      × (n ≤ t.cost_limit)
      × (t.telemetry.generated_frames ≡ n)
      × (t.max_generated_frames ≡ s.max_generated_frames)
      × (t.target_fps ≡ s.target_fps)

  take-KeepsLimits :
      (s : Scheduler D) (density : D) → KeepsLimits s (take_opportunities fp s density).0
  unfolding take_opportunities
  take-KeepsLimits s density = ground arith

  grant-Hands :
      (s : Scheduler D) (whole : ℕ)
      → Hands s (grant fp s whole) × KeepsLimits s (grant fp s whole).0
  unfolding grant
  grant-Hands s whole = ground (
    arith,
    min_bounds whole s.cost_limit,
    min_bounds (min whole s.cost_limit) s.max_generated_frames,
  )

  schedule-Hands :
      (s : Scheduler D) (wanted : D)
      → Hands s (schedule fp s wanted) × KeepsLimits s (schedule fp s wanted).0
  unfolding schedule
  schedule-Hands s wanted =
      let (t, density) = stabilize_generation_density fp s wanted in
      let u = note_density fp t density in
      let taken = take_opportunities fp u density in
      ground (
        arith,
        stabilize-KeepsLimits s wanted,
        take-KeepsLimits u density,
        grant-Hands taken.0 taken.1,
      )

  warm_start-same :
      (s : Scheduler D) (wanted : D)
      → ((warm_start fp s wanted).recent_source_intervals ≡ s.recent_source_intervals)
        × ((warm_start fp s wanted).recent_source_interval_cursor ≡ s.recent_source_interval_cursor)
        × ((warm_start fp s wanted).recent_source_interval_count ≡ s.recent_source_interval_count)
        × ((warm_start fp s wanted).max_generated_frames ≡ s.max_generated_frames)
        × ((warm_start fp s wanted).target_fps ≡ s.target_fps)
        × ((warm_start fp s wanted).safe_generation_hint ≡ s.safe_generation_hint)
  unfolding warm_start
  warm_start-same s wanted = ground arith

  -- What a plan leaves behind.
  abbrev pub Plans : Scheduler D → Scheduler D × ℕ → Type 0
  Plans s r = Hands s r × IsLimited r.0 × IsWindow r.0

  plan_demand-Plans :
      (s : Scheduler D)
      → s.safe_generation_hint ≤ s.max_generated_frames
      → IsWindow s
      → Plans s (plan_demand fp s)
  unfolding plan_demand
  plan_demand-Plans s h w =
      let wanted = wanted_frames fp s in
      let t = warm_start fp (note_wanted fp s wanted) wanted in
      let u = update_cost_limit fp t wanted in
      let v = note_cost fp u in
      ground (
        arith,
        w.nine,
        warm_start-same (note_wanted fp s wanted) wanted,
        update_cost_limit-IsLimited t wanted,
        update_cost_limit-window t wanted,
        schedule-Hands (note_cost fp u) wanted,
      )

  plan_interval-Plans :
      (s : Scheduler D) (x : D) (preserve : Bool)
      → IsLimited s
      → IsWindow s
      → Plans s (plan_interval fp s x preserve)
  unfolding plan_interval reset_discontinuity
  plan_interval-Plans s x preserve h w =
      let held = is_held fp s x preserve in
      let t = note_held fp s held in
      ground (
        arith,
        first-IsLimited t,
        first-IsWindow t,
        advance-Keeps t x held,
        advance-IsWindow t x held,
        plan_demand-Plans (advance fp t x held),
      )

  -- A plan from a state within the bounds keeps them, hands out at most the maximum and at most
  -- the cost limit that it leaves, and shows the count in the telemetry.
  pub plan-Plans :
      (s : Scheduler D) (source_interval : ℤ) (preserve_cadence : Bool)
      → IsLimited s
      → IsWindow s
      → Plans s (plan fp s source_interval preserve_cadence)
  unfolding plan clear_telemetry
  plan-Plans s source_interval preserve_cadence h w = ground (
    arith,
    w.nine,
    plan_interval-Plans (clear_telemetry fp s) (fp.seconds source_interval) preserve_cadence,
  )

  unfoldable pub call : Scheduler D → Call D → Scheduler D
  call s (configures target_fps max_frames) = configure fp s target_fps max_frames
  call s (hints hint valid) = set_safe_generation_hint fp s hint valid
  call s (puts_first enabled) = set_generation_first fp s enabled
  call s (plans interval preserve) = (plan fp s interval preserve).0
  call s resets = reset fp s

  unfoldable pub run : Scheduler D → List (Call D) → Scheduler D
  run s [] = s
  run s (c ∷ rest) = run (call s c) rest

  pub call-bounds :
      (s : Scheduler D) (c : Call D)
      → IsLimited s
      → IsWindow s
      → IsLimited (call s c) × IsWindow (call s c)
  unfolding call configure reset set_safe_generation_hint set_generation_first
  call-bounds s (configures target_fps max_frames) h w =
      let t : Scheduler D = record s {
        target_fps = target_fps;
        max_generated_frames = max_frames;
      } in
      ground (arith, w.nine, first-IsLimited t, first-IsWindow t)
  call-bounds s (hints hint valid) h w =
      ground (arith, w.nine, min_bounds hint s.max_generated_frames)
  call-bounds s (puts_first enabled) h w = ground (arith, w.nine)
  call-bounds s (plans interval preserve) h w =
      let (hands, limited, window) = plan-Plans s interval preserve h w in (limited, window)
  call-bounds s resets h w =
      let t : Scheduler D = record s {
        runtime_cadence_established = false;
        last_trusted_source_interval_seconds = origin fp;
      } in
      (first-IsLimited t, first-IsWindow t)

  run-bounds :
      (s : Scheduler D) (calls : List (Call D))
      → IsLimited s
      → IsWindow s
      → IsLimited (run s calls) × IsWindow (run s calls)
  unfolding run
  run-bounds s [] h w = (h, w)
  run-bounds s (c ∷ rest) h w = let (h, w) = call-bounds s c h w in run-bounds (call s c) rest h w

  -- Whatever is called after the construction, the cost limit and the hint stay at most the
  -- maximum, and the interval window keeps its nine places with the cursor in it.
  pub construct-run-bounds :
      (target_fps max_frames : ℕ) (calls : List (Call D))
      → let s = run (construct fp target_fps max_frames) calls in IsLimited s × IsWindow s
  unfolding construct
  construct-run-bounds target_fps max_frames calls =
      let t : Scheduler D = record (default_scheduler fp) {
        target_fps = target_fps;
        max_generated_frames = max_frames;
      } in
      run-bounds (reset_runtime_state fp t) calls (first-IsLimited t) (first-IsWindow t)
