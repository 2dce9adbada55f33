-- ===== src/Executors.antt =====
-- The node executors: engine/executor.
pub mod Conditional
pub mod ForEach
pub mod ToolLoop
pub mod Transform
mod Tests
