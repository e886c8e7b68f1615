-- ===== src/Runtime/Epochs.antt =====
-- Where an epoch of src/context.cpp ends and the next one starts.
use lsfg_vk_android.Common.{◌≡◌, true, false, arith}
use lsfg_vk_android.Float.{Floats}
use lsfg_vk_android.Runtime.{Runtime, context_recreate}
use lsfg_vk_android.Runtime.Reset.{
  reset_adaptive_source_epoch, enter_source_only_bypass, keeps_active_scale,
}

module _ {S D : Type 0} (fp : Floats S D) where
  -- Switching the generation off is a reset of the epoch with the reason ContextRecreate: the two
  -- leave the same members.
  pub enter_source_only_bypass-resets :
      (s : Runtime S D)
      → enter_source_only_bypass fp s ≡ reset_adaptive_source_epoch fp s true context_recreate
  unfolding enter_source_only_bypass reset_adaptive_source_epoch
  enter_source_only_bypass-resets s =
      let off : keeps_active_scale fp s context_recreate ≡ false = ground arith in rw off
