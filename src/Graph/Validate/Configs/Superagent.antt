-- ===== src/Graph/Validate/Configs/Superagent.antt =====
-- validateSuperagentConfigs and the checks that it calls in engine/graph/validate.go.
use Prim.Native.String.{String}
use brockleyai.Prelude.{
  ℕ, is_positive, ◌^◌, Bool, false, not, ◌||◌, ◌&&◌, Option, none, some, List, [], ◌∷◌, Str, str_eq,
  codes, if◌then◌else◌, any,
}
use brockleyai.Model.{Port, StateBinding, StateField, GraphState, Node, Graph}
use brockleyai.Configs.{
  SuperagentNodeConfig, SuperagentSkill, SuperagentOverrides, ModelOverride, Dyadic,
}
use brockleyai.Graph.Validate.Report.{
  Report, text, number, add_error, error_if, warn_if, for_each, for_each_at,
}
use brockleyai.Graph.Validate.Nodes.{is_empty, has_port}
use brockleyai.Graph.Validate.Configs.ToolLoop.{is_nil, is_bad_limit}
use brockleyai.Graph.Validate.Configs.CodeExecution.{exceeds, validate_code_execution_config}

abbrev pub memory_field : Str
memory_field = codes "_superagent_memory"

-- Rule 2.
unfoldable pub validate_skill : Str → ℕ → SuperagentSkill → Report → Report
validate_skill id j skill r =
    let has_mcp = not (is_empty skill.mcp_url) in
    let has_api = not (is_empty skill.api_tool_id) in
    warn_if (skill.compacted && is_empty skill.description && is_nil skill.tools)
      "SUPERAGENT_COMPACTED_NO_CONTEXT" id
      (error_if (skill.compacted && not has_mcp) "SUPERAGENT_COMPACTED_NO_MCP" id []
        (text "config.skills[" ∷ number j ∷ text "]" ∷ [])
        (error_if (has_api && is_nil skill.endpoints) "SUPERAGENT_API_SKILL_NO_ENDPOINTS" id []
          (text "config.skills[" ∷ number j ∷ text "].endpoints" ∷ [])
          (error_if (has_mcp && has_api) "SUPERAGENT_INVALID_SKILL" id []
            (text "config.skills[" ∷ number j ∷ text "]" ∷ [])
            (error_if (not has_mcp && not has_api) "SUPERAGENT_INVALID_SKILL" id []
              (text "config.skills[" ∷ number j ∷ text "]" ∷ [])
              (error_if (is_empty skill.description) "SUPERAGENT_INVALID_SKILL" id []
                (text "config.skills[" ∷ number j ∷ text "].description" ∷ [])
                (error_if (is_empty skill.name) "SUPERAGENT_INVALID_SKILL" id []
                  (text "config.skills[" ∷ number j ∷ text "].name" ∷ []) r))))))

-- Rules 1, 3 and 3b: the fields that must be set, and the limits that must be positive where they are.
unfoldable pub validate_fields : Str → SuperagentNodeConfig → Report → Report
unfolding validate_skill
validate_fields id cfg r =
    let missing = λ (bad : Bool) (field : String) (r : Report).
      error_if bad "SUPERAGENT_MISSING_CONFIG" id [] (text field ∷ []) r in
    let required = missing (is_empty cfg.model) "config.model" (
      missing (is_empty cfg.provider) "config.provider" (
        missing (is_nil cfg.skills) "config.skills"
          (missing (is_empty cfg.prompt) "config.prompt" r))) in
    let skilled = for_each_at (λ j skill. validate_skill id j skill) 0 cfg.skills required in
    let keyed =
      missing (is_empty cfg.api_key && is_empty cfg.api_key_ref) "config.api_key" skilled in
    missing (is_bad_limit cfg.timeout_seconds) "config.timeout_seconds" (
      missing (is_bad_limit cfg.max_tool_calls_per_iteration) "config.max_tool_calls_per_iteration"
        (missing (is_bad_limit cfg.max_total_tool_calls) "config.max_total_tool_calls"
          (missing (is_bad_limit cfg.max_iterations) "config.max_iterations" keyed)))

-- Whether the graph declares the memory field with a merge reducer.
unfoldable pub declares_memory : Option GraphState → Bool
declares_memory none = false
declares_memory (some s) =
    any (λ (f : StateField). str_eq f.name memory_field && str_eq f.reducer (codes "merge"))
      s.fields

abbrev pub binds_memory : List StateBinding → Bool
binds_memory bs = any (λ (b : StateBinding). str_eq b.state_field memory_field) bs

-- Rule 5.
unfoldable pub validate_shared_memory : Graph → Node → Report → Report
unfolding declares_memory
validate_shared_memory g n r =
    error_if (not (binds_memory n.state_reads) || not (binds_memory n.state_writes))
      "SUPERAGENT_MISSING_SHARED_MEMORY_STATE" n.id [] (text "state_reads/state_writes" ∷ [])
      (error_if (not (declares_memory g.state)) "SUPERAGENT_MISSING_SHARED_MEMORY_STATE" n.id []
        (text "config.shared_memory" ∷ []) r)

unfoldable pub check_provider_model : Str → Str → String → Option ModelOverride → Report → Report
check_provider_model id main name none r = r
check_provider_model id main name (some o) r =
    warn_if
      (not (is_empty o.provider)
        && not (str_eq o.provider main)
        && is_empty o.api_key
        && is_empty o.api_key_ref)
      "SUPERAGENT_INVALID_OVERRIDE" id
      (error_if (not (is_empty o.provider) && is_empty o.model) "SUPERAGENT_INVALID_OVERRIDE" id []
        (text "config.overrides." ∷ text name ∷ []) r)

-- `t <= 0 || t > 1.0`
unfoldable pub is_bad_threshold : Option Dyadic → Bool
is_bad_threshold none = false
is_bad_threshold (some t) = not (is_positive t.mantissa) || exceeds t.mantissa (2 ^ t.scale)

-- Rule 7.
unfoldable pub validate_superagent_overrides :
    Str → Str → Option SuperagentOverrides → Report → Report
unfolding check_provider_model is_bad_threshold
validate_superagent_overrides id main none r = r
validate_superagent_overrides id main (some o) r =
    error_if (is_bad_threshold o.compaction_threshold) "SUPERAGENT_INVALID_OVERRIDE" id []
      (text "config.overrides.context_compaction.compaction_threshold" ∷ [])
      (error_if (is_bad_limit o.stuck_window_size) "SUPERAGENT_INVALID_OVERRIDE" id []
        (text "config.overrides.stuck_detection.window_size" ∷ [])
        (check_provider_model id main "output_extraction" o.output_extraction (
          check_provider_model id main "context_compaction" o.context_compaction (
            check_provider_model id main "reflection" o.reflection
              (check_provider_model id main "evaluator" o.evaluator r)))))

module _ (template_vars : Str → List Str) (decode : Str → Option SuperagentNodeConfig) where
  -- Rule 8: `template_vars` finds the names in `{{input.name}}`.
  unfoldable pub validate_superagent_template_vars : Str → Str → List Port → Report → Report
  validate_superagent_template_vars id prompt ports r =
      for_each (λ v. warn_if (not (has_port ports v)) "SUPERAGENT_TEMPLATE_VAR_MISSING" id)
        (template_vars prompt) r

  unfoldable pub validate_superagent : Graph → Node → SuperagentNodeConfig → Report → Report
  unfolding validate_fields validate_shared_memory validate_superagent_overrides
      validate_superagent_template_vars validate_code_execution_config
  validate_superagent g n cfg r =
      let checked = validate_fields n.id cfg r in
      let output =
        error_if (is_nil n.output_ports) "SUPERAGENT_NO_OUTPUT" n.id [] (text "output_ports" ∷ [])
          checked in
      let memory = if cfg.shared_memory then validate_shared_memory g n output else output in
      let history =
        error_if
          (not (is_empty cfg.conversation_history_from_input)
            && not (has_port n.input_ports cfg.conversation_history_from_input))
          "SUPERAGENT_MISSING_CONFIG" n.id [] (text "config.conversation_history_from_input" ∷ [])
          memory in
      validate_code_execution_config n.id cfg.code_execution (
        validate_superagent_template_vars n.id cfg.prompt n.input_ports
          (validate_superagent_overrides n.id cfg.provider cfg.overrides history))

  unfoldable pub validate_superagent_config : Graph → Node → Report → Report
  unfolding validate_superagent
  validate_superagent_config g n r =
      if str_eq n.node_type (codes "superagent")
      then elim (decode n.config) [
        | none ↦ add_error "SUPERAGENT_MISSING_CONFIG" n.id [] (text "config" ∷ []) r
        | some cfg ↦ validate_superagent g n cfg r
      ]
      else r

  unfoldable pub validate_superagent_configs : Graph → Report → Report
  unfolding validate_superagent_config
  validate_superagent_configs g r = for_each (λ n. validate_superagent_config g n) g.nodes r
