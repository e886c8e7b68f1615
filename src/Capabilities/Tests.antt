-- ===== src/Capabilities/Tests.antt =====
-- The verdict on concrete devices.
use lsfg_vk_android.Common.{◌≡◌, refl, true, false, ◌↔◌}
use lsfg_vk_android.Capabilities.{
  VulkanCapabilities, evaluate_capabilities, evaluate_stages, place_path, check_shader_features,
  check_buffers, check_subgroups, place_synchronization, default_requirements, defined_format,
  lacks_spirv14, spirv15, version_1_1, version_1_2,
}
use lsfg_vk_android.Capabilities.Verdict.{Suffices, supported_iff}

abbrev device : VulkanCapabilities
device = record {
  api_version = version_1_2;
  android_hardware_buffer = true;
  ahb_format_class = defined_format;
  spirv14_extension = false;
  shader_float_controls_extension = true;
  vulkan_memory_model_extension = true;
  vulkan_memory_model = true;
  vulkan_memory_model_device_scope = true;
  shader_storage_image_write_without_format = true;
  shader_storage_image_extended_formats = true;
  synchronization2_core = false;
  synchronization2_extension = false;
  synchronization2_feature = false;
  legacy_barrier = true;
  timeline_semaphore = false;
  shader_float16 = true;
  null_descriptor = false;
  external_semaphore_opaque_fd = true;
  external_semaphore_sync_fd = false;
  subgroup_stages = 32;
  subgroup_operations = 1;
  subgroup_size = 64;
}

abbrev old_device : VulkanCapabilities
old_device = record device { api_version = version_1_1 }

supported_iff_example :
    (evaluate_capabilities device default_requirements).supported ≡ true
    ↔ Suffices device default_requirements
supported_iff_example = supported_iff device default_requirements

accepted : (evaluate_capabilities device default_requirements).spirv_target ≡ spirv15
unfolding evaluate_capabilities evaluate_stages place_path check_shader_features check_buffers
    check_subgroups place_synchronization
accepted = refl

refused : (evaluate_capabilities old_device default_requirements).rejection_reason ≡ lacks_spirv14
unfolding evaluate_capabilities evaluate_stages place_path check_shader_features check_buffers
    check_subgroups place_synchronization
refused = refl
