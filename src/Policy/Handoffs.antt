-- ===== src/Policy/Handoffs.antt =====
-- What a handoff keeps.
use lsfg_vk_android.Common.{
  same_bytes, same_bytes-eq, same_bytes_refl, List, ℕ, ◌≡◌, ◌↔◌, Bool, true, false, none, some,
  arith, ◌⊎◌, sym,
}
use lsfg_vk_android.Float.{Float}
use lsfg_vk_android.Policy.Handoff.{Identity, compatible, select_enable_scale, select_stable_scale}

-- The fields that are compared, for two states.
abbrev SameFields : Identity → Identity → Type 0
SameFields a b =
    (a.targeted ≡ b.targeted)
    × (a.adaptive_framegen ≡ b.adaptive_framegen)
    × (a.performance ≡ b.performance)
    × (a.hdr ≡ b.hdr)
    × (a.multiplier ≡ b.multiplier)
    × (a.target_fps ≡ b.target_fps)
    × (a.width ≡ b.width)
    × (a.height ≡ b.height)
    × (a.dll ≡ b.dll)
    × (a.preset ≡ b.preset)
    × (a.enabled ≡ b.enabled)
    × (a.adaptive_flow ≡ b.adaptive_flow)

compatible-fields :
    (a b : Identity)
    → compatible a b ≡ true
    → SameFields a b × (a.enabled ≡ true) × (a.adaptive_flow ≡ true)
unfolding compatible
compatible-fields a b h = ground (arith, same_bytes-eq a.dll b.dll, same_bytes-eq a.preset b.preset)

compatible_self : (a : Identity) → a.enabled ≡ true → a.adaptive_flow ≡ true → compatible a a ≡ true
unfolding compatible
compatible_self a e f = ground (arith, same_bytes_refl a.dll, same_bytes_refl a.preset)

same : (a b : Identity) → SameFields a b → a ≡ b
same a b (t, g, p, h, m, f, w, e, d, r, n, o) = λ i. record {
  enabled = n i;
  targeted = t i;
  adaptive_framegen = g i;
  adaptive_flow = o i;
  performance = p i;
  hdr = h i;
  multiplier = m i;
  target_fps = f i;
  width = w i;
  height = e i;
  dll = d i;
  preset = r i;
}

-- Two configurations are compatible exactly when they are equal and enabled, with adaptive flow
-- on.
pub compatible_iff :
    (a b : Identity)
    → (compatible a b ≡ true) ↔ ((a ≡ b) × (a.enabled ≡ true) × (a.adaptive_flow ≡ true))
compatible_iff a b = (
  (λ h. let (fields, enabled, flow) = compatible-fields a b h in (same a b fields, enabled, flow)),
  (λ (p, enabled, flow). rw (sym p) (compatible_self a enabled flow)),
)

same_bytes_of : (xs ys : List ℕ) → xs ≡ ys → same_bytes xs ys ≡ true
same_bytes_of xs ys e = rw e (same_bytes_refl ys)

module _ {S : Type 0} (f : Float S) where
  -- Two configurations never offer both a stable scale and an enable scale: the one wants
  -- adaptive flow before, the other wants it off.
  pub select_stable_scale-exclusive :
      (running : Bool) (a b : Identity) (requested active configured : S) (pending : Bool)
      (warmup : ℕ)
      → (select_stable_scale f running a b requested active pending warmup ≡ none)
        ⊎ (select_enable_scale f a b configured ≡ none)
  unfolding select_stable_scale select_enable_scale compatible
  select_stable_scale-exclusive running a b requested active configured pending warmup =
      ground arith

  -- A finite scale from 0.25 to 1.0.
  abbrev pub InRange : S → Type 0
  InRange scale =
      (f.is_finite scale ≡ true)
      × (f.lt scale (f.decimal 25 2) ≡ false)
      × (f.lt (f.decimal 1 0) scale ≡ false)

  -- Adaptive flow goes from off to on between enabled configurations under adaptive frame
  -- generation that agree in all else but the preset, and the scale is in range.
  abbrev pub Enables : Identity → Identity → S → Type 0
  Enables a b configured =
      ((a.enabled ≡ true) × (b.enabled ≡ true))
      × ((a.adaptive_flow ≡ false) × (b.adaptive_flow ≡ true))
      × ((a.adaptive_framegen ≡ true) × (b.adaptive_framegen ≡ true))
      × (a.targeted ≡ b.targeted)
      × (a.performance ≡ b.performance)
      × (a.hdr ≡ b.hdr)
      × (a.multiplier ≡ b.multiplier)
      × (a.target_fps ≡ b.target_fps)
      × (a.width ≡ b.width)
      × (a.height ≡ b.height)
      × (a.dll ≡ b.dll)
      × InRange configured

  -- The configurations are the same one, enabled and with adaptive flow on, the generation was
  -- running, no change is in progress, no warm-up is left, and the scale in use is the one that was
  -- asked for, up to 0.0005.
  abbrev pub Continues : Bool → Identity → Identity → S → S → Bool → ℕ → Type 0
  Continues running a b requested active pending warmup =
      (running ≡ true)
      × ((a ≡ b) × (a.enabled ≡ true) × (a.adaptive_flow ≡ true))
      × (pending ≡ false)
      × (warmup ≡ 0)
      × (f.is_finite requested ≡ true)
      × (f.is_finite active ≡ true)
      × (f.lt (f.decimal 5 4) (f.abs (f.sub requested active)) ≡ false)

  stable-Continues :
      (running : Bool) (a b : Identity) (requested active : S) (pending : Bool) (warmup : ℕ)
      → ((select_stable_scale f running a b requested active pending warmup ≡ some active)
          × Continues running a b requested active pending warmup)
        ⊎ ((select_stable_scale f running a b requested active pending warmup ≡ none)
            × (¬ Continues running a b requested active pending warmup))
  unfolding select_stable_scale
  stable-Continues running a b requested active pending warmup =
      let (forth, back) = compatible_iff a b in ground (arith, forth, back)

  enable-Enables :
      (a b : Identity) (configured : S)
      → ((select_enable_scale f a b configured ≡ some configured) × Enables a b configured)
        ⊎ ((select_enable_scale f a b configured ≡ none) × (¬ Enables a b configured))
  unfolding select_enable_scale
  enable-Enables a b configured =
      ground (arith, same_bytes-eq a.dll b.dll, same_bytes_of a.dll b.dll)

  -- The stable scale is the scale in use exactly under the conditions of a continuation, and the
  -- enable scale is the configured one exactly where adaptive flow is switched on; otherwise there
  -- is none.
  pub select_scale_iff :
      (running : Bool) (a b : Identity) (requested active configured : S) (pending : Bool)
      (warmup : ℕ)
      → (((select_stable_scale f running a b requested active pending warmup ≡ some active)
            × Continues running a b requested active pending warmup)
          ⊎ ((select_stable_scale f running a b requested active pending warmup ≡ none)
              × (¬ Continues running a b requested active pending warmup)))
        × (((select_enable_scale f a b configured ≡ some configured) × Enables a b configured)
            ⊎ ((select_enable_scale f a b configured ≡ none) × (¬ Enables a b configured)))
  select_scale_iff running a b requested active configured pending warmup =
      (stable-Continues running a b requested active pending warmup, enable-Enables a b configured)
