-- ===== src/Configs.antt =====
-- The node configurations of internal/model/node_configs.go: the fields that validation reads. A pointer is
-- an option, and a map lists its entries, each key once.
use brockleyai.Prelude.{ℕ, ℤ, Str, Bool, Option, List}

pub record ToolRoute : Type 0 where
  pub mcp_url : Str
  pub api_tool_id : Str
  pub api_endpoint : Str
  pub timeout_seconds : Option ℤ
  pub compacted : Bool

pub record ApiToolRef : Type 0 where
  pub api_tool_id : Str
  pub endpoint : Str

pub record LlmNodeConfig : Type 0 where
  pub system_prompt : Str
  -- The names of the tool definitions.
  pub tools : List Str
  pub tool_choice : Str
  pub tool_loop : Bool
  pub max_tool_calls : Option ℤ
  pub max_loop_iterations : Option ℤ
  pub tool_routing : List (Str × ToolRoute)
  pub tool_routing_from_state : Str
  pub tool_routing_from_input : Bool
  pub api_tools : List ApiToolRef

pub record InlineApiEndpoint : Type 0 where
  pub base_url : Str
  pub method : Str
  pub path : Str

pub record ApiToolNodeConfig : Type 0 where
  pub api_tool_id : Str
  pub endpoint : Str
  pub inline_endpoint : Option InlineApiEndpoint

pub record SuperagentSkill : Type 0 where
  pub name : Str
  pub description : Str
  pub mcp_url : Str
  pub api_tool_id : Str
  pub endpoints : List Str
  pub tools : List Str
  pub compacted : Bool

pub record CodeExecutionConfig : Type 0 where
  pub enabled : Bool
  pub max_execution_time_sec : Option ℤ
  pub max_memory_mb : Option ℤ
  pub max_output_bytes : Option ℤ
  pub max_code_bytes : Option ℤ
  pub max_tool_calls_per_execution : Option ℤ
  pub max_executions_per_run : Option ℤ

-- A finite float64, which is what JSON can carry: mantissa / 2 ^ scale.
pub record Dyadic : Type 0 where
  pub mantissa : ℤ
  pub scale : ℕ

-- The four overrides that name a model of their own share these fields.
pub record ModelOverride : Type 0 where
  pub provider : Str
  pub model : Str
  pub api_key : Str
  pub api_key_ref : Str

pub record SuperagentOverrides : Type 0 where
  pub evaluator : Option ModelOverride
  pub reflection : Option ModelOverride
  pub context_compaction : Option ModelOverride
  pub output_extraction : Option ModelOverride
  -- `StuckDetection.WindowSize` and `ContextCompaction.CompactionThreshold`, where both pointers are set.
  pub stuck_window_size : Option ℤ
  pub compaction_threshold : Option Dyadic

pub record SuperagentNodeConfig : Type 0 where
  pub prompt : Str
  pub skills : List SuperagentSkill
  pub provider : Str
  pub model : Str
  pub api_key : Str
  pub api_key_ref : Str
  pub max_iterations : Option ℤ
  pub max_total_tool_calls : Option ℤ
  pub max_tool_calls_per_iteration : Option ℤ
  pub timeout_seconds : Option ℤ
  -- `SharedMemory != nil && SharedMemory.Enabled`
  pub shared_memory : Bool
  pub conversation_history_from_input : Str
  pub overrides : Option SuperagentOverrides
  pub code_execution : Option CodeExecutionConfig
