-- ===== src/Orchestrator.antt =====
-- The package engine/orchestrator.
pub mod Tests
pub mod Ports
pub mod Conditions
pub mod Skips
pub mod Loops
