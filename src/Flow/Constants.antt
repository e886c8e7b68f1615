-- ===== src/Flow/Constants.antt =====
-- The thresholds of src/adaptive_flow_controller.cpp.
use lsfg_vk_android.Common.Int.{ℤ, pos}
use lsfg_vk_android.Float.{Floats}

abbrev pub thermal_status_severe : ℤ
thermal_status_severe = pos 3

abbrev pub thermal_status_moderate : ℤ
thermal_status_moderate = pos 2

module _ {S D : Type 0} (fp : Floats S D) where
  open fp.double use {decimal}

  abbrev pub pressure_ratio : D
  pressure_ratio = decimal 9 1

  abbrev pub recovery_predicted_ratio : D
  recovery_predicted_ratio = decimal 82 2

  abbrev pub minimum_flow_budget_ratio : D
  minimum_flow_budget_ratio = decimal 1 1

  abbrev pub minimum_predicted_relief_ratio : D
  minimum_predicted_relief_ratio = decimal 25 3

  abbrev pub minimum_global_pressure_lsfg_budget_ratio : D
  minimum_global_pressure_lsfg_budget_ratio = decimal 4 1

  abbrev pub down_confirm_seconds : D
  down_confirm_seconds = decimal 4 1

  abbrev pub global_down_confirm_seconds : D
  global_down_confirm_seconds = decimal 2 1

  abbrev pub thermal_accelerated_confirm_seconds : D
  thermal_accelerated_confirm_seconds = decimal 25 2

  abbrev pub output_down_confirm_seconds : D
  output_down_confirm_seconds = decimal 15 2

  abbrev pub up_confirm_seconds : D
  up_confirm_seconds = decimal 175 2

  abbrev pub global_gpu_pressure_percent : D
  global_gpu_pressure_percent = decimal 96 0

  abbrev pub global_gpu_recovery_percent : D
  global_gpu_recovery_percent = decimal 88 0

  abbrev pub transition_cooldown_seconds : D
  transition_cooldown_seconds = decimal 5 1

  abbrev pub output_transition_cooldown_seconds : D
  output_transition_cooldown_seconds = decimal 25 2

  abbrev pub flow_transition_settle_seconds : D
  flow_transition_settle_seconds = decimal 25 2

  abbrev pub scheduler_transition_hold_seconds : D
  scheduler_transition_hold_seconds = decimal 5 1

  abbrev pub downstep_evaluation_seconds : D
  downstep_evaluation_seconds = decimal 3 1

  abbrev pub output_downstep_evaluation_seconds : D
  output_downstep_evaluation_seconds = decimal 15 2

  abbrev pub downstep_no_benefit_hold_seconds : D
  downstep_no_benefit_hold_seconds = decimal 2 0

  abbrev pub recovery_pacing_evaluation_seconds : D
  recovery_pacing_evaluation_seconds = decimal 4 1

  abbrev pub recovery_pacing_regression_confirm_seconds : D
  recovery_pacing_regression_confirm_seconds = decimal 15 2

  abbrev pub recovery_pacing_source_retention_ratio : D
  recovery_pacing_source_retention_ratio = decimal 94 2

  abbrev pub recovery_pacing_density_increase_tolerance : D
  recovery_pacing_density_increase_tolerance = decimal 25 2

  abbrev pub recovery_pacing_revert_hold_seconds : D
  recovery_pacing_revert_hold_seconds = decimal 15 0

  abbrev pub source_target_satisfied_ratio : D
  source_target_satisfied_ratio = decimal 98 2

  abbrev pub exploratory_source_drop_ratio : D
  exploratory_source_drop_ratio = decimal 97 2

  abbrev pub material_pressure_ratio_relief : D
  material_pressure_ratio_relief = decimal 5 2

  abbrev pub material_output_gain_ratio : D
  material_output_gain_ratio = decimal 102 2

  abbrev pub material_source_gain_ratio : D
  material_source_gain_ratio = decimal 103 2

  abbrev pub material_flow_relief_ratio : D
  material_flow_relief_ratio = decimal 88 2

  abbrev pub material_total_relief_ratio : D
  material_total_relief_ratio = decimal 95 2

  abbrev pub material_wsi_relief_ratio : D
  material_wsi_relief_ratio = decimal 75 2

  abbrev pub material_global_gpu_relief_percent : D
  material_global_gpu_relief_percent = decimal 3 0
