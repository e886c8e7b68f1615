-- ===== src/Policy/Handoff.antt =====
-- include/adaptive_flow_handoff.hpp: which optical-flow scale a new configuration takes over.
use lsfg_vk_android.Common.{
  same_bool, same_bytes, ℕ, Bool, not, ◌&&◌, ◌||◌, if◌then◌else◌, ltb, ◌==◌, List, Option, none,
  some,
}
use lsfg_vk_android.Float.{Float}

pub record Identity : Type 0 where
  pub enabled : Bool
  pub targeted : Bool
  pub adaptive_framegen : Bool
  pub adaptive_flow : Bool
  pub performance : Bool
  pub hdr : Bool
  pub multiplier : ℕ
  pub target_fps : ℕ
  pub width : ℕ
  pub height : ℕ
  pub dll : List ℕ
  pub preset : List ℕ

unfoldable pub compatible : Identity → Identity → Bool
compatible old_state new_state =
    old_state.enabled
    && new_state.enabled
    && same_bool old_state.targeted new_state.targeted
    && same_bool old_state.adaptive_framegen new_state.adaptive_framegen
    && old_state.adaptive_flow
    && new_state.adaptive_flow
    && same_bool old_state.performance new_state.performance
    && same_bool old_state.hdr new_state.hdr
    && old_state.multiplier == new_state.multiplier
    && old_state.target_fps == new_state.target_fps
    && old_state.width == new_state.width
    && old_state.height == new_state.height
    && same_bytes old_state.dll new_state.dll
    && same_bytes old_state.preset new_state.preset

pub record StartupPlan (S : Type 0) : Type 0 where
  pub backend_initial_scale : S
  pub post_create_scale : Option S

unfoldable pub startup_seed_history_only : Bool → Bool → Bool → ℕ → Bool
startup_seed_history_only adaptive_framegen startup_seed_pending transition_pending
      warmup_remaining =
    adaptive_framegen && startup_seed_pending && transition_pending && ltb 0 warmup_remaining

module _ {S : Type 0} (f : Float S) where
  open f use {sub, lt, le, abs, is_finite, decimal}

  -- A finite scale from 0.25 to the bound.
  abbrev pub is_scale : S → S → Bool
  is_scale scale bound = is_finite scale && not (lt scale (decimal 25 2)) && not (lt bound scale)

  abbrev pub is_seed : S → S → Bool
  is_seed requested target =
      is_finite requested
      && le (decimal 25 2) requested
      && le requested target
      && lt (decimal 5 4) (abs (sub requested target))

  unfoldable pub plan_adaptive_startup : S → S → StartupPlan S
  plan_adaptive_startup preset_target_scale requested_seed_scale =
      if not (is_scale preset_target_scale (decimal 1 0))
      then record { backend_initial_scale = decimal 1 0; post_create_scale = none }
      else record {
        backend_initial_scale = preset_target_scale;
        post_create_scale =
            if is_seed requested_seed_scale preset_target_scale
            then some requested_seed_scale
            else none;
      }

  unfoldable pub select_enable_scale : Identity → Identity → S → Option S
  select_enable_scale old_state new_state configured_scale =
      if not old_state.enabled
        || not new_state.enabled
        || old_state.adaptive_flow
        || not new_state.adaptive_flow
        || not new_state.adaptive_framegen
        || not (same_bool old_state.targeted new_state.targeted)
        || not (same_bool old_state.adaptive_framegen new_state.adaptive_framegen)
        || not (same_bool old_state.performance new_state.performance)
        || not (same_bool old_state.hdr new_state.hdr)
        || not (old_state.multiplier == new_state.multiplier)
        || not (old_state.target_fps == new_state.target_fps)
        || not (old_state.width == new_state.width)
        || not (old_state.height == new_state.height)
        || not (same_bytes old_state.dll new_state.dll)
        || not (is_scale configured_scale (decimal 1 0))
      then none
      else some configured_scale

  unfoldable pub select_stable_scale : Bool → Identity → Identity → S → S → Bool → ℕ → Option S
  select_stable_scale old_runtime_enabled old_state new_state requested_scale active_scale
        transition_pending warmup_remaining =
      if not old_runtime_enabled
        || not (compatible old_state new_state)
        || transition_pending
        || not (warmup_remaining == 0)
        || not (is_finite requested_scale)
        || not (is_finite active_scale)
        || lt (decimal 5 4) (abs (sub requested_scale active_scale))
      then none
      else some active_scale
