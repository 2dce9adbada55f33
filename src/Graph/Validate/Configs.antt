-- ===== src/Graph/Validate/Configs.antt =====
-- The checks of node configurations in engine/graph/validate.go. Decoding a configuration
-- (`json.Unmarshal`), the matches of the template pattern and `strings.ToUpper` are given from outside.
pub mod ToolLoop
pub mod ApiTool
pub mod CodeExecution
pub mod Superagent
pub mod Strict
