-- ===== src/Capabilities/Verdict.antt =====
-- Which devices framegen/src/core/capabilities.cpp supports.
use lsfg_vk_android.Common.{
  zero, ◌≡◌, refl, Bool, true, false, ltb, bit_and, arith, ◌⊎◌, Result, ok, err, ◌↔◌, ◌≢◌, ◌∙◌,
  ◌>>=◌, ◌<◌, ◌≤◌,
}
use lsfg_vk_android.Capabilities.{
  VulkanCapabilities, SupportRequirements, SupportDecision, no_reason, version_1_1, version_1_2,
  version_1_3, place_path, check_shader_features, check_buffers, check_subgroups, is_defined,
  place_synchronization, evaluate_stages, evaluate_capabilities, decision_of, support, reject,
  initial_decision, needs_vulkan11,
}

-- Where the shaders count, Vulkan 1.2 or the three extensions.
abbrev pub HasTarget : VulkanCapabilities → SupportRequirements → Type 0
HasTarget caps r =
    (r.require_shader_compatibility ≡ false)
    ⊎ (version_1_2 ≤ caps.api_version)
    ⊎ ((caps.spirv14_extension ≡ true)
        × (caps.shader_float_controls_extension ≡ true)
        × (caps.vulkan_memory_model_extension ≡ true))

-- A feature that is there unless it is not asked for.
abbrev pub HasFeature : Bool → Bool → Type 0
HasFeature required present = (required ≡ false) ⊎ (present ≡ true)

-- Where the shaders count, the features that are asked for.
abbrev pub HasFeatures : VulkanCapabilities → SupportRequirements → Type 0
HasFeatures caps r =
    (r.require_shader_compatibility ≡ false)
    ⊎ (HasFeature r.require_vulkan_memory_model caps.vulkan_memory_model
        × HasFeature r.require_storage_image_write_without_format
            caps.shader_storage_image_write_without_format
        × HasFeature r.require_storage_image_extended_formats
            caps.shader_storage_image_extended_formats)

abbrev pub HasBuffers : VulkanCapabilities → SupportRequirements → Type 0
HasBuffers caps r =
    HasFeature r.require_ahb caps.android_hardware_buffer
    × HasFeature r.require_writable_ahb_format (is_defined caps.ahb_format_class)

-- All the flags that are asked for, and a subgroup size where one is.
abbrev pub HasSubgroups : VulkanCapabilities → SupportRequirements → Type 0
HasSubgroups caps r =
    (bit_and caps.subgroup_stages r.required_subgroup_stages ≡ r.required_subgroup_stages)
    × (bit_and caps.subgroup_operations r.required_subgroup_operations
        ≡ r.required_subgroup_operations)
    × (((r.required_subgroup_stages ≡ zero) × (r.required_subgroup_operations ≡ zero))
        ⊎ (0 < caps.subgroup_size))

abbrev pub HasSynchronization : VulkanCapabilities → Type 0
HasSynchronization caps =
    ((version_1_3 ≤ caps.api_version)
      × (caps.synchronization2_core ≡ true)
      × (caps.synchronization2_feature ≡ true))
    ⊎ ((caps.synchronization2_extension ≡ true) × (caps.synchronization2_feature ≡ true))
    ⊎ (caps.legacy_barrier ≡ true)

-- What a device needs.
abbrev pub Suffices : VulkanCapabilities → SupportRequirements → Type 0
Suffices caps r =
    (version_1_1 ≤ caps.api_version)
    × HasTarget caps r
    × HasFeatures caps r
    × HasBuffers caps r
    × HasSubgroups caps r
    × HasSynchronization caps

-- A stage that goes on exactly under a condition, and otherwise gives a reason.
abbrev Decides : Type 0 → SupportDecision → Result SupportDecision SupportDecision → Type 0
Decides C d (ok e) = C × (e.supported ≡ d.supported) × (e.rejection_reason ≡ d.rejection_reason)
Decides C d (err e) = (C → ⊥) × (e.supported ≡ d.supported) × (e.rejection_reason ≢ no_reason)

then-Decides :
    (C D : Type 0) (d : SupportDecision) (m : Result SupportDecision SupportDecision)
    (k : SupportDecision → Result SupportDecision SupportDecision)
    → Decides C d m
    → ((e : SupportDecision) → Decides D e (k e))
    → Decides (C × D) d (m >>= k)
then-Decides C D d (ok e) k h next = after (k e) (next e)
  where
    after : (m : Result SupportDecision SupportDecision) → Decides D e m → Decides (C × D) d m
    after (ok g) n = ((h.0, n.0), n.1 ∙ h.1, n.2 ∙ h.2)
    after (err g) n = (λ c. n.0 c.1, n.1 ∙ h.1, n.2)
then-Decides C D d (err e) k h next = (λ c. h.0 c.0, h.1, h.2)

place_path-Decides :
    (caps : VulkanCapabilities) (r : SupportRequirements) (d : SupportDecision)
    → Decides (HasTarget caps r) d (place_path caps r d)
unfolding place_path
place_path-Decides caps r d = ground arith

features-Decides :
    (caps : VulkanCapabilities) (r : SupportRequirements) (d : SupportDecision)
    → Decides (HasFeatures caps r) d (check_shader_features caps r d)
unfolding check_shader_features
features-Decides caps r d = ground arith

buffers-Decides :
    (caps : VulkanCapabilities) (r : SupportRequirements) (d : SupportDecision)
    → Decides (HasBuffers caps r) d (check_buffers caps r d)
unfolding check_buffers
buffers-Decides caps r d = ground arith

subgroups-Decides :
    (caps : VulkanCapabilities) (r : SupportRequirements) (d : SupportDecision)
    → Decides (HasSubgroups caps r) d (check_subgroups caps r d)
unfolding check_subgroups
subgroups-Decides caps r d = ground arith

synchronization-Decides :
    (caps : VulkanCapabilities) (d : SupportDecision)
    → Decides (HasSynchronization caps) d (place_synchronization caps d)
unfolding place_synchronization
synchronization-Decides caps d = ground arith

started-Decides :
    (caps : VulkanCapabilities) (d : SupportDecision)
    → Decides
        (version_1_1 ≤ caps.api_version)
        d
        (reject (ltb caps.api_version version_1_1) needs_vulkan11 d)
started-Decides caps d = ground arith

stages-Decides :
    (caps : VulkanCapabilities) (r : SupportRequirements)
    → Decides
        ((((((version_1_1 ≤ caps.api_version) × HasTarget caps r) × HasFeatures caps r)
              × HasBuffers caps r)
            × HasSubgroups caps r)
          × HasSynchronization caps)
        (initial_decision caps)
        (evaluate_stages caps r)
unfolding evaluate_stages
stages-Decides caps r =
    let d = initial_decision caps in
    then-Decides _ _ d _ _
      (then-Decides _ _ d _ _
        (then-Decides _ _ d _ _
          (then-Decides _ _ d _ _
            (then-Decides _ _ d _ _ (started-Decides caps d) (place_path-Decides caps r))
            (features-Decides caps r))
          (buffers-Decides caps r))
        (subgroups-Decides caps r))
      (synchronization-Decides caps)

-- A device is supported exactly if it has all of what Suffices lists: Vulkan 1.1; where the
-- shaders count, Vulkan 1.2 or the three extensions, and the features asked for; the buffers
-- asked for; all the subgroup flags asked for, with a subgroup size; and a way to synchronize.
pub supported_iff :
    (caps : VulkanCapabilities) (r : SupportRequirements)
    → (evaluate_capabilities caps r).supported ≡ true ↔ Suffices caps r
unfolding evaluate_capabilities
supported_iff caps r = verdict (evaluate_stages caps r) (stages-Decides caps r)
  where
    verdict :
        (m : Result SupportDecision SupportDecision)
        → Decides
            ((((((version_1_1 ≤ caps.api_version) × HasTarget caps r) × HasFeatures caps r)
                  × HasBuffers caps r)
                × HasSubgroups caps r)
              × HasSynchronization caps)
            (initial_decision caps)
            m
        → (decision_of (m >>= λ d. ok (support caps d))).supported ≡ true ↔ Suffices caps r
    verdict (ok e) (c, same, kept) =
        let ((((before, target), features), buffers), subgroups) = c.0 in
        (λ _. (before, target, features, buffers, subgroups, c.1), λ _. refl)
    verdict (err e) (fails, same, reason) = (
      λ yes. absurd (ground arith),
      λ (before, target, features, buffers, subgroups, sync).
          absurd (fails (((((before, target), features), buffers), subgroups), sync)),
    )

-- A device is refused exactly with a reason.
pub reason_iff :
    (caps : VulkanCapabilities) (r : SupportRequirements)
    → (evaluate_capabilities caps r).supported ≡ true
      ↔ (evaluate_capabilities caps r).rejection_reason ≡ no_reason
unfolding evaluate_capabilities
reason_iff caps r = verdict _ (evaluate_stages caps r) (stages-Decides caps r)
  where
    verdict :
        (C : Type 0) (m : Result SupportDecision SupportDecision)
        → Decides C (initial_decision caps) m
        → (decision_of (m >>= λ d. ok (support caps d))).supported ≡ true
          ↔ (decision_of (m >>= λ d. ok (support caps d))).rejection_reason ≡ no_reason
    verdict C (ok e) (c, same, kept) = (λ _. kept, λ _. refl)
    verdict C (err e) (fails, same, reason) =
        (λ yes. absurd (ground arith), λ none. absurd (reason none))
