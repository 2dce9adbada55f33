-- ===== src/Superagent.antt =====
-- The built-in tools of a superagent node: engine/executor/superagent_builtin_tools.go.
pub mod Tasks
pub mod Buffers
pub mod Memory
pub mod Tools
mod Tests
