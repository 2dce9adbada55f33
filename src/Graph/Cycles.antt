-- ===== src/Graph/Cycles.antt =====
-- The depth-first search of validateNoCycles in engine/graph/validate.go.
pub mod Search
pub mod Cases
pub mod Fuel
pub mod Gray
pub mod Finish
pub mod Ranking
