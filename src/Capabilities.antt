-- ===== src/Capabilities.antt =====
-- framegen/include/core/capabilities.hpp and framegen/src/core/capabilities.cpp: whether a device
-- can run the shaders, and over which versions and paths.
pub mod Verdict
mod Tests
use lsfg_vk_android.Common.{
  ℕ, Bool, true, false, not, ◌&&◌, ◌||◌, if◌then◌else◌, ltb, leb, ◌==◌, bit_and, Result, ok, err,
  ◌>>=◌, ◌>>◌, throw_if,
}

pub data VulkanPath : Type 0 where
  no_vulkan vulkan11_extensions vulkan12 vulkan13_plus : VulkanPath

pub data SpirvTarget : Type 0 where
  no_spirv spirv14 spirv15 spirv16 : SpirvTarget

pub data SynchronizationPath : Type 0 where
  no_synchronization core13_sync2 khr_sync2 legacy_pipeline_barrier : SynchronizationPath

pub data AhbFormatClass : Type 0 where
  no_format defined_format external_format_sampled_only : AhbFormatClass

pub data ShaderPrecision : Type 0 where
  fp32 fp16 : ShaderPrecision

-- The reasons that the decision gives as text, in the order in which they are looked for;
-- `no_reason` is the empty text.
pub data Reason : Type 0 where
  no_reason needs_vulkan11 lacks_spirv14 lacks_float_controls lacks_memory_model_extension : Reason
  lacks_memory_model lacks_write_without_format lacks_extended_formats needs_ahb : Reason
  external_only_ahb unknown_ahb lacks_stages lacks_operations no_subgroup_size no_sync_path : Reason

pub record VulkanCapabilities : Type 0 where
  pub api_version : ℕ
  pub android_hardware_buffer : Bool
  pub ahb_format_class : AhbFormatClass
  pub spirv14_extension : Bool
  pub shader_float_controls_extension : Bool
  pub vulkan_memory_model_extension : Bool
  pub vulkan_memory_model : Bool
  pub vulkan_memory_model_device_scope : Bool
  pub shader_storage_image_write_without_format : Bool
  pub shader_storage_image_extended_formats : Bool
  pub synchronization2_core : Bool
  pub synchronization2_extension : Bool
  pub synchronization2_feature : Bool
  pub legacy_barrier : Bool
  pub timeline_semaphore : Bool
  pub shader_float16 : Bool
  pub null_descriptor : Bool
  pub external_semaphore_opaque_fd : Bool
  pub external_semaphore_sync_fd : Bool
  pub subgroup_stages : ℕ
  pub subgroup_operations : ℕ
  pub subgroup_size : ℕ

pub record SupportRequirements : Type 0 where
  pub require_ahb : Bool
  pub require_writable_ahb_format : Bool
  pub require_shader_compatibility : Bool
  pub require_vulkan_memory_model : Bool
  pub require_storage_image_write_without_format : Bool
  pub require_storage_image_extended_formats : Bool
  pub required_subgroup_stages : ℕ
  pub required_subgroup_operations : ℕ

pub record SupportDecision : Type 0 where
  pub supported : Bool
  pub vulkan_path : VulkanPath
  pub spirv_target : SpirvTarget
  pub synchronization_path : SynchronizationPath
  pub shader_precision : ShaderPrecision
  pub has_fp16 : Bool
  pub null_descriptor : Bool
  pub external_opaque_fd : Bool
  pub external_sync_fd : Bool
  pub rejection_reason : Reason

-- SupportRequirements{}.
abbrev pub default_requirements : SupportRequirements
default_requirements = record {
  require_ahb = true;
  require_writable_ahb_format = false;
  require_shader_compatibility = true;
  require_vulkan_memory_model = true;
  require_storage_image_write_without_format = true;
  require_storage_image_extended_formats = true;
  required_subgroup_stages = 0;
  required_subgroup_operations = 0;
}

-- VK_API_VERSION_1_1, _1_2 and _1_3.
abbrev pub version_1_1 : ℕ
version_1_1 = 4_198_400

abbrev pub version_1_2 : ℕ
version_1_2 = 4_202_496

abbrev pub version_1_3 : ℕ
version_1_3 = 4_206_592

-- Each stage of the evaluation works on the decision so far, and a rejection ends it with the
-- decision as it is then.
abbrev pub reject : Bool → Reason → SupportDecision → Result SupportDecision SupportDecision
reject test reason d = if test then err (record d { rejection_reason = reason }) else ok d

abbrev pub place : VulkanPath → SpirvTarget → SupportDecision → SupportDecision
place path target d = record d { vulkan_path = path; spirv_target = target }

unfoldable pub place_path :
    VulkanCapabilities
    → SupportRequirements
    → SupportDecision
    → Result SupportDecision SupportDecision
place_path caps r d =
    if leb version_1_3 caps.api_version
    then ok (place vulkan13_plus spirv16 d)
    else if leb version_1_2 caps.api_version
    then ok (place vulkan12 spirv15 d)
    else if not r.require_shader_compatibility
    then ok (place vulkan11_extensions spirv14 d)
    else (do
      reject (not caps.spirv14_extension) lacks_spirv14 d
      reject (not caps.shader_float_controls_extension) lacks_float_controls d
      reject (not caps.vulkan_memory_model_extension) lacks_memory_model_extension d
      ok (place vulkan11_extensions spirv14 d))

unfoldable pub check_shader_features :
    VulkanCapabilities
    → SupportRequirements
    → SupportDecision
    → Result SupportDecision SupportDecision
check_shader_features caps r d = if not r.require_shader_compatibility then ok d else (do
  reject (r.require_vulkan_memory_model && not caps.vulkan_memory_model) lacks_memory_model d
  reject
      (r.require_storage_image_write_without_format
        && not caps.shader_storage_image_write_without_format)
      lacks_write_without_format d
  reject
      (r.require_storage_image_extended_formats && not caps.shader_storage_image_extended_formats)
      lacks_extended_formats d)

abbrev pub is_external : AhbFormatClass → Bool
is_external no_format = false
is_external defined_format = false
is_external external_format_sampled_only = true

abbrev pub is_defined : AhbFormatClass → Bool
is_defined no_format = false
is_defined defined_format = true
is_defined external_format_sampled_only = false

unfoldable pub check_buffers :
    VulkanCapabilities
    → SupportRequirements
    → SupportDecision
    → Result SupportDecision SupportDecision
check_buffers caps r d = do
  reject (r.require_ahb && not caps.android_hardware_buffer) needs_ahb d
  reject (r.require_writable_ahb_format && is_external caps.ahb_format_class) external_only_ahb d
  reject (r.require_writable_ahb_format && not (is_defined caps.ahb_format_class)) unknown_ahb d

-- Whether some of the required flags are missing.
abbrev pub lacks : ℕ → ℕ → Bool
lacks flags required = not (bit_and flags required == required)

unfoldable pub check_subgroups :
    VulkanCapabilities
    → SupportRequirements
    → SupportDecision
    → Result SupportDecision SupportDecision
check_subgroups caps r d = do
  reject (lacks caps.subgroup_stages r.required_subgroup_stages) lacks_stages d
  reject (lacks caps.subgroup_operations r.required_subgroup_operations) lacks_operations d
  reject
      ((not (r.required_subgroup_stages == 0) || not (r.required_subgroup_operations == 0))
        && caps.subgroup_size == 0)
      no_subgroup_size d

unfoldable pub place_synchronization :
    VulkanCapabilities → SupportDecision → Result SupportDecision SupportDecision
place_synchronization caps d =
    if leb version_1_3 caps.api_version
      && caps.synchronization2_core
      && caps.synchronization2_feature
    then ok (record d { synchronization_path = core13_sync2 })
    else if caps.synchronization2_extension && caps.synchronization2_feature
    then ok (record d { synchronization_path = khr_sync2 })
    else if caps.legacy_barrier
    then ok (record d { synchronization_path = legacy_pipeline_barrier })
    else err (record d { rejection_reason = no_sync_path })

abbrev pub initial_decision : VulkanCapabilities → SupportDecision
initial_decision caps = record {
  supported = false;
  vulkan_path = no_vulkan;
  spirv_target = no_spirv;
  synchronization_path = no_synchronization;
  shader_precision = fp32;
  has_fp16 = caps.shader_float16;
  null_descriptor = caps.null_descriptor;
  external_opaque_fd = caps.external_semaphore_opaque_fd;
  external_sync_fd = caps.external_semaphore_sync_fd;
  rejection_reason = no_reason;
}

-- The decision of an evaluation that is over.
abbrev pub decision_of : Result SupportDecision SupportDecision → SupportDecision
decision_of (ok d) = d
decision_of (err d) = d

unfoldable pub evaluate_stages :
    VulkanCapabilities → SupportRequirements → Result SupportDecision SupportDecision
evaluate_stages caps r =
    reject (ltb caps.api_version version_1_1) needs_vulkan11 (initial_decision caps)
    >>= place_path caps r
    >>= check_shader_features caps r
    >>= check_buffers caps r
    >>= check_subgroups caps r
    >>= place_synchronization caps

abbrev pub support : VulkanCapabilities → SupportDecision → SupportDecision
support caps d = record d {
  shader_precision = if caps.shader_float16 then fp16 else fp32;
  supported = true;
}

unfoldable pub evaluate_capabilities : VulkanCapabilities → SupportRequirements → SupportDecision
evaluate_capabilities caps r = decision_of (evaluate_stages caps r >>= λ d. ok (support caps d))
