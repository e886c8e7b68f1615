-- ===== src/Policy/Swapchain.antt =====
-- include/swapchain_policy.hpp: the present mode of a swapchain, over any type of modes with a test
-- for equality.
use lsfg_vk_android.Common.{Bool, true, false, not, ◌&&◌, if◌then◌else◌, ◌≡◌, Bool-cases, inl, inr}

module _ {M : Type 0} (same : M → M → Bool) where
  unfoldable pub mode_request_for_create : Bool → M → M → M → M
  mode_request_for_create has_old_swapchain previous configured requested =
      if has_old_swapchain && same previous configured then requested else configured

  unfoldable pub apply_resident_fifo_backend : M → Bool → M → M → M → Bool → M
  apply_resident_fifo_backend effective targeted_android configured fifo mailbox mailbox_supported =
      if targeted_android && same configured fifo && mailbox_supported then mailbox else effective

  unfoldable pub needs_physical_recreation : M → M → Bool
  needs_physical_recreation current desired = not (same current desired)

  -- Where equality is reflexive, a swapchain that already has the resident backend is not made again:
  -- applying the backend twice asks for no recreation.
  pub apply_resident_fifo_backend-settles :
      (effective configured fifo mailbox : M) (targeted_android mailbox_supported : Bool)
      → ((m : M) → same m m ≡ true)
      → needs_physical_recreation
          (apply_resident_fifo_backend effective targeted_android configured fifo mailbox
            mailbox_supported)
          (apply_resident_fifo_backend
            (apply_resident_fifo_backend effective targeted_android configured fifo mailbox
              mailbox_supported)
            targeted_android
            configured
            fifo
            mailbox
            mailbox_supported)
        ≡ false
  unfolding needs_physical_recreation apply_resident_fifo_backend
  apply_resident_fifo_backend-settles effective configured fifo mailbox targeted_android
        mailbox_supported reflexive =
      elim (Bool-cases (targeted_android && same configured fifo && mailbox_supported)) [
        | inl e ↦ rw (e, reflexive mailbox)
        | inr e ↦ rw (e, reflexive effective)
      ]
