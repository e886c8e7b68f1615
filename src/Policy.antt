-- ===== src/Policy.antt =====
-- The pure policies of the layer: what a new configuration may keep, which driver family takes which
-- path, and which present mode a swapchain gets.
pub mod Handoff
pub mod Handoffs
pub mod Sync
pub mod Swapchain
pub mod Names
mod Tests
