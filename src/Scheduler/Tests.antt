-- ===== src/Scheduler/Tests.antt =====
-- Runs of the scheduling components in fixed-point arithmetic, and the theorems at concrete
-- inputs.
mod Clock
mod Admission
mod Demand
mod Cadence
