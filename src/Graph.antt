-- ===== src/Graph.antt =====
-- The package engine/graph.
pub mod Tests
pub mod Shape
pub mod Topo
pub mod Cycles
pub mod Validate
