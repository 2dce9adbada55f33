-- ===== src/Graph/Validate/Run.antt =====
-- Validate of engine/graph/validate.go: the checks in the order in which the source makes them.
use brockleyai.Prelude.{Option, List, [], ◌∷◌, Str}
use brockleyai.Model.{Node, Graph}
use brockleyai.Configs.{LlmNodeConfig, SuperagentNodeConfig, ApiToolNodeConfig}
use brockleyai.Graph.Validate.Report.{Report, fresh, text, add_error, for_each}
use brockleyai.Graph.Validate.Schema.{Unmarshal}
use brockleyai.Graph.Validate.Nodes.{
  register, no_nodes, NodeMap, validate_has_input_node, validate_node,
}
use brockleyai.Graph.Validate.Edges.{validate_edge, validate_back_edge, validate_no_cycles}
use brockleyai.Graph.Validate.States.{validate_state, validate_state_bindings}
use brockleyai.Graph.Validate.Wiring.{
  validate_exclusive_fan_in, validate_reachability, validate_required_ports,
}
use brockleyai.Graph.Validate.Configs.ToolLoop.{validate_tool_loop_configs}
use brockleyai.Graph.Validate.Configs.Superagent.{validate_superagent_configs}
use brockleyai.Graph.Validate.Configs.ApiTool.{validate_api_tool_node_configs}

-- What validation calls of the standard library: `json.Unmarshal` into a map and into the three
-- configuration types, the matches of the template pattern, and `strings.ToUpper`.
pub record Library : Type 0 where
  pub unmarshal : Unmarshal
  pub decode_llm : Str → Option LlmNodeConfig
  pub decode_superagent : Str → Option SuperagentNodeConfig
  pub decode_api_tool : Str → Option ApiToolNodeConfig
  pub template_vars : Str → List Str
  pub to_upper : Str → Str

module _ (lib : Library) where
  unfoldable pub validate_configs : Graph → Report → Report
  unfolding validate_tool_loop_configs validate_superagent_configs validate_api_tool_node_configs
  validate_configs g r = validate_api_tool_node_configs lib.to_upper lib.decode_api_tool g (
      validate_superagent_configs lib.template_vars lib.decode_superagent g
        (validate_tool_loop_configs lib.decode_llm g r))

  -- Behind the test for an empty graph.
  unfoldable pub validate_graph : Graph → NodeMap → Report → Report
  unfolding validate_configs validate_edge validate_back_edge validate_no_cycles validate_state
      validate_state_bindings validate_required_ports
  validate_graph g m r =
      let input = validate_has_input_node g.nodes r in
      let nodes = for_each (λ n. validate_node lib.unmarshal n) g.nodes input in
      let configs = validate_configs g nodes in
      let edges = for_each (λ e. validate_edge m e) g.edges configs in
      let state = validate_state lib.unmarshal g.state edges in
      let bindings = validate_state_bindings g state in
      let back_edges = for_each (λ e. validate_back_edge e) g.edges bindings in
      let cycles = validate_no_cycles g back_edges in
      let fan_in = validate_exclusive_fan_in g cycles in
      let reached = validate_reachability g fan_in in validate_required_ports g reached

  unfoldable pub validate_nodes : Graph → List Node → NodeMap → Report → Report
  unfolding validate_graph
  validate_nodes g [] m r = add_error "EMPTY_GRAPH" [] [] (text "nodes" ∷ []) r
  validate_nodes g (_ ∷ _) m r = validate_graph g m r

  unfoldable pub validate : Graph → Report
  unfolding validate_nodes register
  validate g = let (m, r) = register g.nodes no_nodes fresh in validate_nodes g g.nodes m r
