-- ===== src/Graph/Validate.antt =====
-- engine/graph/validate.go
pub mod Report
pub mod Schema
pub mod Nodes
pub mod Edges
pub mod States
pub mod Wiring
pub mod Reachable
pub mod Configs
pub mod Run
pub mod Lemmas
pub mod Sound
