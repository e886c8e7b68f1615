-- ===== src/Flow/Runs.antt =====
-- AdaptiveFlowController under every sequence of calls of its public methods.
use mathlib.Core.List.{Memᴰ}
use lsfg_vk_android.Common.{ℕ, zero, suc, ◌<◌, refl, Bool, List, [], ◌∷◌, get_or, length, arith}
use lsfg_vk_android.Float.{Floats}
use lsfg_vk_android.Flow.Types.{Preset, Observation, Controller}
use lsfg_vk_android.Flow.Presets.{states}
use lsfg_vk_android.Flow.Lifecycle.{
  construct, reset, configure, seed_current_scale, default_controller,
}
use lsfg_vk_android.Flow.Observe.Trials.{scale_at}
use lsfg_vk_android.Flow.Observe.{observe}
use lsfg_vk_android.Flow.Invariant.{IsCoherent, observe-Advances}
use lsfg_vk_android.Flow.Entry.{
  construct-IsCoherent, default-IsCoherent, reset-IsCoherent, configure-IsCoherent,
  seed_current_scale-Seeds, size-length,
}

pub data Call (S D : Type 0) : Type 0 where
  configures : Bool → Preset → Call S D
  seeds : S → Call S D
  observes : Observation D → Call S D
  resets : Call S D

module _ {S D : Type 0} (fp : Floats S D) where
  unfoldable pub call : Controller S D → Call S D → Controller S D
  call s (configures enabled preset) = configure fp s enabled preset
  call s (seeds scale) = (seed_current_scale fp s scale).0
  call s (observes o) = observe fp s o
  call s resets = reset fp s

  unfoldable pub run : Controller S D → List (Call S D) → Controller S D
  run s [] = s
  run s (c ∷ cs) = run (call s c) cs

  call-IsCoherent : (s : Controller S D) (c : Call S D) → IsCoherent fp s → IsCoherent fp (call s c)
  unfolding call
  call-IsCoherent s (configures enabled preset) h = configure-IsCoherent fp s enabled preset h
  call-IsCoherent s (seeds scale) h = ground (arith, seed_current_scale-Seeds fp s scale)
  call-IsCoherent s (observes o) h = (observe-Advances fp s o h).coherent
  call-IsCoherent s resets h = reset-IsCoherent fp s

  pub run-IsCoherent :
      (s : Controller S D) (cs : List (Call S D)) → IsCoherent fp s → IsCoherent fp (run s cs)
  unfolding run
  run-IsCoherent s [] h = h
  run-IsCoherent s (c ∷ cs) h = run-IsCoherent (call s c) cs (call-IsCoherent s c h)

  mem-get_or : (xs : List S) (i : ℕ) (d : S) → i < length xs → Memᴰ (get_or xs i d) xs
  mem-get_or [] i d h = absurd (omega arith)
  mem-get_or (x ∷ xs) zero d h = Memᴰ.head refl
  mem-get_or (x ∷ xs) (suc i) d h = Memᴰ.tail (mem-get_or xs i d (omega arith))

  IsCoherent-mem :
      (s : Controller S D) → IsCoherent fp s → Memᴰ s.telemetry.current_scale (states fp s.preset)
  unfolding scale_at
  IsCoherent-mem s h = rw h.scale (
      mem-get_or (states fp s.preset) s.telemetry.state_index _
        (omega (arith, h.indices.in_range, size-length fp s.preset)))

  -- After any calls the current scale of a controller that was built with a preset is a state
  -- of the preset that is configured then.
  pub construct-run-mem :
      (p : Preset) (cs : List (Call S D))
      → let t = run (construct fp p) cs in Memᴰ t.telemetry.current_scale (states fp t.preset)
  construct-run-mem p cs =
      IsCoherent-mem _ (run-IsCoherent (construct fp p) cs (construct-IsCoherent fp p))

  -- And so for a controller that was built with no preset.
  pub default-run-mem :
      (cs : List (Call S D))
      → let t = run (default_controller fp) cs in
        Memᴰ t.telemetry.current_scale (states fp t.preset)
  default-run-mem cs =
      IsCoherent-mem _ (run-IsCoherent (default_controller fp) cs (default-IsCoherent fp))
