-- ===== src/Spirv.antt =====
-- framegen/include/core/spirv_compat.hpp and framegen/src/core/spirv_compat.cpp: the shader modules
-- for a device of an older SPIR-V version. This file has the numbers of the format and what they
-- stand for.
pub mod Words
pub mod Walk
pub mod Prepare
pub mod Scans
pub mod Lowering
pub mod Version
mod Tests
use lsfg_vk_android.Common.{ℕ, Bool, true, false, ◌&&◌, ◌||◌, leb, ◌==◌}

abbrev pub magic : ℕ
magic = 0x07230203

abbrev pub header_words : ℕ
header_words = 5

abbrev pub spirv_14 : ℕ
spirv_14 = 0x00010400

abbrev pub spirv_15 : ℕ
spirv_15 = 0x00010500

abbrev pub spirv_16 : ℕ
spirv_16 = 0x00010600

-- The opcodes OpExtension, OpExtInstImport, OpMemoryModel, OpCapability and OpFunction.
abbrev pub op_extension : ℕ
op_extension = 10

abbrev pub op_ext_inst_import : ℕ
op_ext_inst_import = 11

abbrev pub op_memory_model : ℕ
op_memory_model = 14

abbrev pub op_capability : ℕ
op_capability = 17

abbrev pub op_function : ℕ
op_function = 54

unfoldable pub valid_target : ℕ → Bool
valid_target target = target == spirv_14 || target == spirv_15 || target == spirv_16

-- DemoteToHelperInvocation, and the four from DotProductInputAll to DotProduct.
unfoldable pub is_spirv16_only_capability : ℕ → Bool
is_spirv16_only_capability capability =
    capability == 5379 || (leb 6016 capability && leb capability 6019)

-- The 8-bit storage capabilities (4448 to 4450), the descriptor-indexing ones (5301 to 5312) and
-- PhysicalStorageBufferAddresses (5347).
unfoldable pub is_spirv15_promoted_capability_without_compat_path : ℕ → Bool
is_spirv15_promoted_capability_without_compat_path capability =
    capability == 4448
    || capability == 4449
    || capability == 4450
    || capability == 5301
    || capability == 5302
    || capability == 5303
    || capability == 5304
    || capability == 5305
    || capability == 5306
    || capability == 5307
    || capability == 5308
    || capability == 5309
    || capability == 5310
    || capability == 5311
    || capability == 5312
    || capability == 5347

-- VulkanMemoryModel and VulkanMemoryModelDeviceScope.
abbrev pub is_memory_model_capability : ℕ → Bool
is_memory_model_capability capability = capability == 5345 || capability == 5346

-- OpTerminateInvocation, OpDemoteToHelperInvocation, and the six dot products.
unfoldable pub is_spirv16_only_opcode : ℕ → Bool
is_spirv16_only_opcode opcode =
    opcode == 4416 || opcode == 5380 || (leb 4450 opcode && leb opcode 4455)
