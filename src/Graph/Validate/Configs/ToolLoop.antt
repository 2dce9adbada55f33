-- ===== src/Graph/Validate/Configs/ToolLoop.antt =====
-- validateToolLoopConfigs of engine/graph/validate.go.
use brockleyai.Prelude.{
  ℕ, ℤ, is_positive, Bool, true, false, not, ◌||◌, ◌&&◌, Option, none, some, List, [], ◌∷◌, Str,
  str_eq, codes, if◌then◌else◌, mem, any,
}
use brockleyai.Model.{Node, Graph}
use brockleyai.Configs.{LlmNodeConfig, ToolRoute, ApiToolRef}
use brockleyai.Graph.Validate.Report.{
  Report, text, number, name, error_if, warn_if, for_each, for_each_at,
}
use brockleyai.Graph.Validate.Nodes.{is_empty, has_port}

abbrev pub is_nil {ℓ} : {A : Type ℓ} → List A → Bool
is_nil [] = true
is_nil _ = false

-- `p != nil && *p <= 0`
abbrev pub is_bad_limit : Option ℤ → Bool
is_bad_limit none = false
is_bad_limit (some n) = not (is_positive n)

unfoldable pub validate_tool_ref : Str → ℕ → ApiToolRef → Report → Report
validate_tool_ref id j ref r =
    error_if (is_empty ref.endpoint) "API_TOOL_REF_NO_ENDPOINT" id []
      (text "config.api_tools[" ∷ number j ∷ text "].endpoint" ∷ [])
      (error_if (is_empty ref.api_tool_id) "API_TOOL_REF_NO_ID" id []
        (text "config.api_tools[" ∷ number j ∷ text "].api_tool_id" ∷ []) r)

unfoldable pub validate_route : Str → Str × ToolRoute → Report → Report
validate_route id (tool, route) r =
    let has_mcp = not (is_empty route.mcp_url) in
    let has_api = not (is_empty route.api_tool_id) || not (is_empty route.api_endpoint) in
    error_if (route.compacted && is_empty route.mcp_url) "TOOL_ROUTE_COMPACTED_NO_MCP" id []
      (text "config.tool_routing." ∷ name tool ∷ [])
      (error_if (is_bad_limit route.timeout_seconds) "TOOL_ROUTE_BAD_TIMEOUT" id []
        (text "config.tool_routing." ∷ name tool ∷ text ".timeout_seconds" ∷ [])
        (error_if (not (is_empty route.api_tool_id) && is_empty route.api_endpoint)
          "TOOL_ROUTE_INCOMPLETE" id []
          (text "config.tool_routing." ∷ name tool ∷ text ".api_endpoint" ∷ [])
          (error_if (has_mcp && has_api) "TOOL_ROUTE_AMBIGUOUS" id []
            (text "config.tool_routing." ∷ name tool ∷ [])
            (error_if (not has_mcp && not has_api) "TOOL_ROUTE_NO_TARGET" id []
              (text "config.tool_routing." ∷ name tool ∷ []) r))))

abbrev pub is_routed : List (Str × ToolRoute) → Str → Bool
is_routed routes tool = any (λ (k, _). str_eq tool k) routes

-- A choice is one of the three words or the name of a tool.
unfoldable pub is_valid_choice : LlmNodeConfig → Bool
is_valid_choice cfg =
    str_eq cfg.tool_choice (codes "auto")
    || str_eq cfg.tool_choice (codes "none")
    || str_eq cfg.tool_choice (codes "required")
    || mem cfg.tool_choice cfg.tools

unfoldable pub validate_tool_loop : Node → LlmNodeConfig → Report → Report
unfolding validate_tool_ref validate_route is_valid_choice
validate_tool_loop n cfg r =
    let routing =
      error_if
        (is_nil cfg.tool_routing
          && is_empty cfg.tool_routing_from_state
          && not cfg.tool_routing_from_input
          && is_nil cfg.api_tools)
        "TOOL_LOOP_NO_ROUTING" n.id [] (text "config.tool_routing" ∷ []) r in
    let refs = for_each_at (λ j ref. validate_tool_ref n.id j ref) 0 cfg.api_tools routing in
    let input =
      error_if (cfg.tool_routing_from_input && not (has_port n.input_ports (codes "tool_routing")))
        "TOOL_ROUTING_INPUT_PORT_MISSING" n.id [] (text "config.tool_routing_from_input" ∷ [])
        refs in
    let defined =
      if not (is_nil cfg.tools) && not (is_nil cfg.tool_routing)
      then for_each (λ tool. warn_if (not (is_routed cfg.tool_routing tool)) "TOOL_NO_ROUTING" n.id)
          cfg.tools input
      else input in
    let routes = for_each (λ route. validate_route n.id route) cfg.tool_routing defined in
    let compacted =
      warn_if (any (λ (_, route). route.compacted) cfg.tool_routing && is_empty cfg.system_prompt)
        "TOOL_COMPACTED_NO_CONTEXT" n.id routes in
    let calls =
      error_if (is_bad_limit cfg.max_tool_calls) "TOOL_LOOP_BAD_LIMIT" n.id []
        (text "config.max_tool_calls" ∷ []) compacted in
    let iterations =
      error_if (is_bad_limit cfg.max_loop_iterations) "TOOL_LOOP_BAD_LIMIT" n.id []
        (text "config.max_loop_iterations" ∷ []) calls in
    error_if (not (is_empty cfg.tool_choice) && not (is_valid_choice cfg)) "TOOL_CHOICE_INVALID"
      n.id [] (text "config.tool_choice" ∷ []) iterations

module _ (decode : Str → Option LlmNodeConfig) where
  unfoldable pub validate_tool_loop_config : Node → Report → Report
  unfolding validate_tool_loop
  validate_tool_loop_config n r =
      if str_eq n.node_type (codes "llm")
      then elim (decode n.config) [
        | none ↦ r
        | some cfg ↦ if cfg.tool_loop then validate_tool_loop n cfg r else r
      ]
      else r

  unfoldable pub validate_tool_loop_configs : Graph → Report → Report
  unfolding validate_tool_loop_config
  validate_tool_loop_configs g r = for_each (λ n. validate_tool_loop_config n) g.nodes r
