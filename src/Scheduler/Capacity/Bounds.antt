-- ===== src/Scheduler/Capacity/Bounds.antt =====
-- The bounds of the presentation cap, and how far one call moves it.
use lsfg_vk_android.Common.{ℕ, ◌+◌, ◌-◌, ◌≤◌, ◌<◌, ◌≡◌, Bool, true, false, min, arith, ◌⊎◌}
use lsfg_vk_android.Float.{Floats}
use lsfg_vk_android.Scheduler.Capacity.{
  Context, Tracker, origin, next_lower_duty, next_higher_duty, higher_capacity_is_proven, fresh,
  configure, drop_probe, may_probe, limit_by_duty, limit,
}
use lsfg_vk_android.Scheduler.Capacity.Observe.{
  account, weigh, settle_probe, judge_provisional, sample_provisional, lower, raise, publish,
  clear_change, observe_counts, observe,
}

module _ {S D : Type 0} (fp : Floats S D) where
  -- A duty of the table.
  abbrev pub IsDuty : D → Type 0
  IsDuty duty =
      (duty ≡ fp.double.decimal 10 1)
      ⊎ ((duty ≡ fp.double.decimal 75 2)
          ⊎ ((duty ≡ fp.double.decimal 50 2) ⊎ (duty ≡ fp.double.decimal 25 2)))

  -- The cap is at most the maximum and at least one, a lower cap on trial is one below the cap
  -- that it came from and excludes a probe, and the duty is one of the table.
  pub record IsBounded (s : Tracker D) : Type 0 where
    pub cap_le : s.telemetry.generation_cap ≤ s.max_generated_frames
    pub cap_pos : (s.max_generated_frames ≡ 0) ⊎ (0 < s.telemetry.generation_cap)
    pub trial :
        (s.provisional.lower_active ≡ false)
        ⊎ ((s.provisional.previous_cap ≡ s.telemetry.generation_cap + 1)
            × (s.provisional.previous_cap ≤ s.max_generated_frames)
            × (s.upward_probe_in_flight ≡ false))
    pub duty : IsDuty s.telemetry.single_frame_duty

  next_lower_duty-IsDuty : (duty : D) → IsDuty (next_lower_duty fp duty)
  unfolding next_lower_duty
  next_lower_duty-IsDuty duty = ground arith

  next_higher_duty-IsDuty : (duty : D) → IsDuty (next_higher_duty fp duty)
  unfolding next_higher_duty
  next_higher_duty-IsDuty duty = ground arith

  pub fresh-IsBounded : (n : ℕ) → IsBounded (fresh fp n)
  fresh-IsBounded n = ground arith

  pub configure-IsBounded : (s : Tracker D) (n : ℕ) → IsBounded s → IsBounded (configure fp s n)
  unfolding configure
  configure-IsBounded s n h = ground (arith, fresh-IsBounded n)

  -- What a limit may return: at most the request, and at most the cap, or one frame above it
  -- when the tracker probes.
  abbrev pub Limits : Tracker D → ℕ → Tracker D × ℕ → Type 0
  Limits s requested (t, n) =
      IsBounded t
      × (n ≤ requested)
      × (n ≤ s.max_generated_frames)
      × ((n ≤ s.telemetry.generation_cap)
          ⊎ ((n ≡ s.telemetry.generation_cap + 1)
              × (t.upward_probe_in_flight ≡ true)
              × (s.provisional.lower_active ≡ false)))
      × (t.telemetry.generation_cap ≡ s.telemetry.generation_cap)

  may_probe-room :
      (s : Tracker D) (c : Context)
      → may_probe fp s c ≡ true
      → (s.provisional.lower_active ≡ false) × (s.telemetry.generation_cap < s.max_generated_frames)
  unfolding may_probe
  may_probe-room s c h = ground arith

  min_bounds : (a b : ℕ) → (min a b ≤ a) × (min a b ≤ b) × ((min a b ≡ a) ⊎ (min a b ≡ b))
  unfolding min
  min_bounds a b = ground arith

  limit_by_duty-Limits :
      (s : Tracker D) (requested : ℕ)
      → IsBounded s
      → Limits s requested (limit_by_duty fp s requested)
  unfolding limit_by_duty
  limit_by_duty-Limits s requested h =
      ground (arith, min_bounds requested s.telemetry.generation_cap)

  -- A limit of a bounded tracker keeps the bounds and the cap, and hands out at most the request,
  -- the maximum and the cap, or one frame above the cap as a probe while no lower cap is on trial.
  pub limit-Limits :
      (s : Tracker D) (requested : ℕ) (c : Context)
      → IsBounded s
      → Limits s requested (limit fp s requested c)
  unfolding limit
  limit-Limits s requested c h = ground (
    arith,
    may_probe-room (drop_probe fp s) c,
    min_bounds requested s.telemetry.generation_cap,
    min_bounds requested (s.telemetry.generation_cap + 1),
  )

  -- The cap after the evidence was weighed: kept, or raised with the evidence cleared.
  abbrev Settles : Tracker D → Tracker D → Type 0
  Settles s t =
      IsBounded t
      × (t.max_generated_frames ≡ s.max_generated_frames)
      × ((t.telemetry.generation_cap ≡ s.telemetry.generation_cap)
          ⊎ ((t.telemetry.generation_cap ≡ s.telemetry.generation_cap + 1)
              × (t.rejection_evidence ≡ 0)
              × (t.recovery_evidence ≡ origin fp)
              × (t.provisional.lower_active ≡ false)))
      × (t.upward_probe_in_flight ≡ false)

  settle_probe-Settles :
      (s : Tracker D) (accepted : ℕ) (c : Context)
      → IsBounded s
      → Settles s (settle_probe fp s accepted c)
  unfolding settle_probe
  settle_probe-Settles s accepted c h =
      ground (arith, min_bounds (s.telemetry.generation_cap + 1) s.max_generated_frames)

  judge_provisional-Settles :
      (s : Tracker D) (t : Tracker D) (attempted accepted : ℕ) (c : Context)
      → Settles s t
      → Settles s (judge_provisional fp t attempted accepted c)
  unfolding judge_provisional sample_provisional
  judge_provisional-Settles s t attempted accepted c h =
      ground (arith, min_bounds t.provisional.previous_cap t.max_generated_frames)

  -- The cap after one observation: moved by at most one frame.
  abbrev pub MovesByOne : Tracker D → Tracker D → Type 0
  MovesByOne s t =
      (t.telemetry.generation_cap ≡ s.telemetry.generation_cap)
      ⊎ ((t.telemetry.generation_cap ≡ s.telemetry.generation_cap + 1)
          ⊎ (s.telemetry.generation_cap ≡ t.telemetry.generation_cap + 1))

  -- After the cap could be lowered: a rise leaves no evidence for another, and a fall is on
  -- trial.
  abbrev Lowers : Tracker D → Tracker D → Type 0
  Lowers s t =
      IsBounded t
      × (t.max_generated_frames ≡ s.max_generated_frames)
      × ((t.telemetry.generation_cap ≡ s.telemetry.generation_cap)
          ⊎ (((t.telemetry.generation_cap ≡ s.telemetry.generation_cap + 1)
                × (t.recovery_evidence ≡ origin fp))
              ⊎ ((s.telemetry.generation_cap ≡ t.telemetry.generation_cap + 1)
                  × (t.provisional.lower_active ≡ true))))

  lower-Lowers :
      (s t : Tracker D) (c : Context) (proven : Bool) → Settles s t → Lowers s (lower fp t c proven)
  unfolding lower
  lower-Lowers s t c proven h = ground (arith, next_lower_duty-IsDuty t.telemetry.single_frame_duty)

  raise-MovesByOne :
      (s t : Tracker D) (c : Context) (proven : Bool)
      → fp.double.le (fp.double.decimal 80 1) (origin fp) ≡ false
      → Lowers s t
      → IsBounded (raise fp t c proven)
        × MovesByOne s (raise fp t c proven)
        × ((raise fp t c proven).max_generated_frames ≡ s.max_generated_frames)
  unfolding raise
  raise-MovesByOne s t c proven ordered h =
      ground (arith, next_higher_duty-IsDuty t.telemetry.single_frame_duty)

  observe_counts-MovesByOne :
      (s : Tracker D) (attempted accepted rejected : ℕ) (c : Context)
      → fp.double.le (fp.double.decimal 80 1) (origin fp) ≡ false
      → IsBounded s
      → IsBounded (observe_counts fp s attempted accepted rejected c)
        × MovesByOne s (observe_counts fp s attempted accepted rejected c)
  unfolding observe_counts account weigh publish
  observe_counts-MovesByOne s attempted accepted rejected c ordered h =
      let t = weigh fp (account fp s attempted accepted rejected) attempted accepted rejected c in
      let proven = higher_capacity_is_proven fp c t.telemetry.generation_cap in
      let u = judge_provisional fp (settle_probe fp t accepted c) attempted accepted c in
      let v = lower fp u c proven in
      let settled =
        judge_provisional-Settles t (settle_probe fp t accepted c) attempted accepted c
          (settle_probe-Settles t accepted c (ground arith)) in
      let moved = raise-MovesByOne t v c proven ordered (lower-Lowers t u c proven settled) in
      ground (arith, moved)

  -- Where 0 counts as less than 8, an observation of a bounded tracker keeps the bounds and moves
  -- the cap by at most one frame.
  pub observe-MovesByOne :
      (s : Tracker D) (attempted accepted wsi_rejected : ℕ) (c : Context)
      → fp.double.le (fp.double.decimal 80 1) (origin fp) ≡ false
      → IsBounded s
      → IsBounded (observe fp s attempted accepted wsi_rejected c)
        × MovesByOne s (observe fp s attempted accepted wsi_rejected c)
  unfolding observe
  observe-MovesByOne s attempted accepted wsi_rejected c ordered h =
      let rejected = min wsi_rejected attempted in
      ground (
        arith,
        observe_counts-MovesByOne (clear_change fp s) attempted
            (min accepted (attempted - rejected)) rejected c,
      )

  -- Above a cap of one, an observation that lowers the cap had refused frames to show for it:
  -- the evidence counter was at its threshold, and the share of refusals under pressure.
  pub lower-cap :
      (s : Tracker D) (c : Context) (proven : Bool)
      → (lower fp s c proven).telemetry.generation_cap < s.telemetry.generation_cap
      → (1 < s.telemetry.generation_cap)
        × (5 ≤ s.rejection_evidence)
        × (fp.double.le (fp.double.decimal 20 2) s.telemetry.wsi_rejection_ratio ≡ true)
        × ((lower fp s c proven).provisional.previous_cap ≡ s.telemetry.generation_cap)
  unfolding lower
  lower-cap s c proven h = ground arith
