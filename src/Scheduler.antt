-- ===== src/Scheduler.antt =====
-- The scheduling components of include/adaptive_scheduler.hpp and src/adaptive_scheduler.cpp.
pub mod Guard
pub mod Timeline
pub mod Deadline
pub mod Cadence
pub mod Baseline
pub mod Capacity
pub mod Frame
mod Tests
