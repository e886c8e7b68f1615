-- ===== src/Flow/Benefits.antt =====
-- What an AdaptiveFlowController takes for a benefit of a lower state that it tries: has_benefit of
-- Flow/Observe/Trials decides a description of it in inequalities.
use lsfg_vk_android.Common.{◌≡◌, Bool, not, ◌&&◌, ◌||◌, true, false, arith, ◌⊎◌}
use lsfg_vk_android.Float.{Floats}
use lsfg_vk_android.Flow.Types.{Observation, Downstep}
use lsfg_vk_android.Flow.Lifecycle.{origin}
use lsfg_vk_android.Flow.Constants.{
  material_source_gain_ratio, material_output_gain_ratio, material_pressure_ratio_relief,
  material_flow_relief_ratio, material_total_relief_ratio, material_wsi_relief_ratio,
  material_global_gpu_relief_percent,
}
use lsfg_vk_android.Flow.Signals.{Signals}
use lsfg_vk_android.Flow.Observe.Trials.{
  has_benefit, has_source_benefit, has_output_benefit, has_compute_benefit, has_wsi_benefit,
  has_global_benefit, target_pressure_remains,
}

-- A test decides a property.
abbrev Decides : Bool → Type 0 → Type 0
Decides test P = ((test ≡ true) × P) ⊎ ((test ≡ false) × (¬ P))

itself : (b : Bool) → Decides b (b ≡ true)
itself b = ground arith

opposite : (b : Bool) → Decides (not b) (b ≡ false)
opposite b = ground arith

either : {P Q : Type 0} {a b : Bool} → Decides a P → Decides b Q → Decides (a || b) (P ⊎ Q)
either p q = ground arith

both : {P Q : Type 0} {a b : Bool} → Decides a P → Decides b Q → Decides (a && b) (P × Q)
both p q = ground arith

module _ {S D : Type 0} (fp : Floats S D) where
  open fp.double use {add, sub, mul, lt, le}

  -- At least `ratio` of a baseline that is above 0.
  abbrev pub Gains : D → D → D → Type 0
  Gains baseline ratio value =
      (lt (origin fp) baseline ≡ true) × (le (mul baseline ratio) value ≡ true)

  -- The source rate reaches 1.03 times the one before the step.
  abbrev pub SourceGains : Downstep D → Observation D → Type 0
  SourceGains d o = Gains d.baseline_source_fps (material_source_gain_ratio fp) o.source_fps

  -- The output rate, measured before and now, has grown by the ratio that counts.
  abbrev pub OutputGains : Downstep D → Observation D → Type 0
  OutputGains d o =
      (d.baseline_output_valid ≡ true)
      × (o.output_cadence_valid ≡ true)
      × (le (mul d.baseline_output_fps (material_output_gain_ratio fp)) o.output_fps ≡ true)

  -- After a step under compute pressure a sample with generated work shows that the pressure is
  -- gone, has fallen by the amount that counts, or that both the flow and the whole batch are
  -- cheaper by the ratios that count.
  abbrev pub ComputeEases : Downstep D → D → Observation D → Signals → Type 0
  ComputeEases d ratio o g =
      (d.baseline_compute_pressure ≡ true)
      × (o.generated_work_sample ≡ true)
      × ((g.compute_pressure ≡ false)
          ⊎ ((le ratio (sub d.baseline_pressure_ratio (material_pressure_ratio_relief fp)) ≡ true)
              ⊎ ((le o.flow_ms (mul d.baseline_flow_ms (material_flow_relief_ratio fp)) ≡ true)
                  × (le o.total_lsfg_ms (mul d.baseline_total_ms (material_total_relief_ratio fp))
                      ≡ true))))

  -- After a step under losses at the swapchain they have fallen by the ratio that counts.
  abbrev pub LossesEase : Downstep D → Observation D → Type 0
  LossesEase d o =
      (d.baseline_wsi_pressure ≡ true)
      × (lt (origin fp) d.baseline_wsi_loss_rate ≡ true)
      × (le o.wsi_loss_rate (mul d.baseline_wsi_loss_rate (material_wsi_relief_ratio fp)) ≡ true)

  -- After a step under global pressure a valid sample of it has fallen by the share that counts.
  abbrev pub GlobalEases : Downstep D → Observation D → Type 0
  GlobalEases d o =
      (d.baseline_global_pressure ≡ true)
      × (o.global_pressure_valid ≡ true)
      × (le o.global_gpu_usage_percent
            (sub d.baseline_global_gpu_percent (material_global_gpu_relief_percent fp))
          ≡ true)

  -- A step for the output whose target is still missed, with no losses before it, or one for the
  -- source that is still under pressure.
  abbrev pub TargetIsMissed : Downstep D → Observation D → Signals → Type 0
  TargetIsMissed d o g =
      ((d.output_driven ≡ true)
        × (g.fixed_multiplier_mode ≡ false)
        × (o.output_cadence_valid ≡ true)
        × (o.output_targeted ≡ true)
        × (o.output_target_satisfied ≡ false)
        × (d.baseline_wsi_pressure ≡ false))
      ⊎ ((d.source_driven ≡ true) × (g.source_pressure ≡ true))

  -- Why a lower state is worth keeping: it was seen to be in an earlier sample of the trial, or this
  -- one shows it. For a probe without a source reference only the source rate can show it.
  abbrev pub IsWorth : Downstep D → D → Observation D → Signals → Type 0
  IsWorth d ratio o g =
      (d.benefit_seen ≡ true)
      ⊎ (SourceGains d o
          ⊎ ((d.exploratory_source_driven ≡ false)
              × (OutputGains d o
                  ⊎ (ComputeEases d ratio o g
                      ⊎ (LossesEase d o ⊎ (GlobalEases d o ⊎ TargetIsMissed d o g))))))

  has_source_benefit-cases :
      (d : Downstep D) (o : Observation D) → Decides (has_source_benefit fp d o) (SourceGains d o)
  unfolding has_source_benefit
  has_source_benefit-cases d o = ground arith

  has_output_benefit-cases :
      (d : Downstep D) (o : Observation D) → Decides (has_output_benefit fp d o) (OutputGains d o)
  unfolding has_output_benefit
  has_output_benefit-cases d o = ground arith

  has_compute_benefit-cases :
      (d : Downstep D) (ratio : D) (o : Observation D) (g : Signals)
      → Decides (has_compute_benefit fp d ratio o g) (ComputeEases d ratio o g)
  unfolding has_compute_benefit
  has_compute_benefit-cases d ratio o g = ground arith

  has_wsi_benefit-cases :
      (d : Downstep D) (o : Observation D) → Decides (has_wsi_benefit fp d o) (LossesEase d o)
  unfolding has_wsi_benefit
  has_wsi_benefit-cases d o = ground arith

  has_global_benefit-cases :
      (d : Downstep D) (o : Observation D) → Decides (has_global_benefit fp d o) (GlobalEases d o)
  unfolding has_global_benefit
  has_global_benefit-cases d o = ground arith

  target_pressure_remains-cases :
      (d : Downstep D) (o : Observation D) (g : Signals)
      → Decides (target_pressure_remains fp d o g) (TargetIsMissed d o g)
  unfolding target_pressure_remains
  target_pressure_remains-cases d o g = ground arith

  -- The other reasons, which a probe without a reference does not have.
  other_reasons-cases :
      (d : Downstep D) (ratio : D) (o : Observation D) (g : Signals)
      → Decides
          (has_output_benefit fp d o
            || (has_compute_benefit fp d ratio o g
                || (has_wsi_benefit fp d o
                    || (has_global_benefit fp d o || target_pressure_remains fp d o g))))
          (OutputGains d o
            ⊎ (ComputeEases d ratio o g
                ⊎ (LossesEase d o ⊎ (GlobalEases d o ⊎ TargetIsMissed d o g))))
  other_reasons-cases d ratio o g = either (has_output_benefit-cases d o) (
      either (has_compute_benefit-cases d ratio o g) (
        either (has_wsi_benefit-cases d o)
          (either (has_global_benefit-cases d o) (target_pressure_remains-cases d o g))))

  has_benefit-either :
      (d : Downstep D) (ratio : D) (o : Observation D) (g : Signals)
      → has_benefit fp d ratio o g ≡ (
          d.benefit_seen
          || (has_source_benefit fp d o
              || (not d.exploratory_source_driven
                  && (has_output_benefit fp d o
                      || (has_compute_benefit fp d ratio o g
                          || (has_wsi_benefit fp d o
                              || (has_global_benefit fp d o
                                  || target_pressure_remains fp d o g)))))))
  unfolding has_benefit
  has_benefit-either d ratio o g = ground arith

  pub has_benefit-cases :
      (d : Downstep D) (ratio : D) (o : Observation D) (g : Signals)
      → Decides (has_benefit fp d ratio o g) (IsWorth d ratio o g)
  has_benefit-cases d ratio o g = rw (has_benefit-either d ratio o g) (
      either (itself d.benefit_seen) (
        either (has_source_benefit-cases d o)
          (both (opposite d.exploratory_source_driven) (other_reasons-cases d ratio o g))))

  -- A probe without a source reference is kept only if the source rate has recovered.
  pub has_benefit-exploratory :
      (d : Downstep D) (ratio : D) (o : Observation D) (g : Signals)
      → d.exploratory_source_driven ≡ true
      → d.benefit_seen ≡ false
      → has_benefit fp d ratio o g ≡ has_source_benefit fp d o
  unfolding has_benefit
  has_benefit-exploratory d ratio o g e b = ground arith
