-- ===== src/Flow.antt =====
-- include/adaptive_flow_controller.hpp and src/adaptive_flow_controller.cpp: the governor of
-- the optical-flow scale. It keeps an index into the scales of a preset and moves it on
-- completed timing samples.
pub mod Types
pub mod Presets
pub mod Constants
pub mod Lifecycle
pub mod Signals
pub mod Observe
pub mod Invariant
pub mod Entry
pub mod Moves
pub mod Barriers
pub mod Runs
pub mod Tables
pub mod Benefits
pub mod Trials
mod Tests
