-- ===== src/Graph/Topo.antt =====
-- engine/graph/topo.go
pub mod Sort
pub mod Degrees
pub mod Invariant
pub mod Fuel
pub mod Order
pub mod Groups
pub mod Entries
pub mod Levels
pub mod Waves
