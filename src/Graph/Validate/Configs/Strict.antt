-- ===== src/Graph/Validate/Configs/Strict.antt =====
-- No check of a node's configuration makes an invalid report valid.
use Prim.Native.String.{String}
use brockleyai.Prelude.{ℕ, Option-cases, Option, none, some, inl, inr, List, Str, str_eq, codes}
use brockleyai.Model.{Node, Graph}
use brockleyai.Configs.{
  LlmNodeConfig, SuperagentNodeConfig, ApiToolNodeConfig, InlineApiEndpoint, CodeExecutionConfig,
  SuperagentSkill, SuperagentOverrides, ModelOverride, ToolRoute, ApiToolRef,
}
use brockleyai.Graph.Validate.Report.{
  IsStrict, strictness, for_each-IsStrict, for_each_at-IsStrict, if-invalid, if-IsStrict,
  add_error-IsStrict, error_if-IsStrict,
}
use brockleyai.Graph.Validate.Nodes.{is_empty}
use brockleyai.Graph.Validate.Configs.CodeExecution.{
  check_limit, check_limits, validate_code_execution_config,
}
use brockleyai.Graph.Validate.Configs.ApiTool.{
  validate_inline_endpoint, validate_definition, validate_api_tool_config,
  validate_api_tool_node_configs,
}
use brockleyai.Graph.Validate.Configs.ToolLoop.{
  validate_tool_ref, validate_route, validate_tool_loop, validate_tool_loop_config,
  validate_tool_loop_configs,
}
use brockleyai.Graph.Validate.Configs.Superagent.{
  validate_skill, validate_fields, validate_shared_memory, check_provider_model,
  validate_superagent_overrides, validate_superagent_template_vars, validate_superagent,
  validate_superagent_config, validate_superagent_configs,
}

check_limits-IsStrict : (id : Str) (ce : CodeExecutionConfig) → IsStrict (check_limits id ce)
unfolding check_limits check_limit
check_limits-IsStrict id ce r h = search strictness depth 12

validate_code_execution_config-IsStrict :
    (id : Str) (ce : Option CodeExecutionConfig) → IsStrict (validate_code_execution_config id ce)
unfolding validate_code_execution_config
validate_code_execution_config-IsStrict id none r h = h
validate_code_execution_config-IsStrict id (some ce) r h =
    if-invalid ce.enabled _ _ (check_limits-IsStrict id ce r h) h

validate_route-IsStrict : (id : Str) (route : Str × ToolRoute) → IsStrict (validate_route id route)
unfolding validate_route
validate_route-IsStrict id (tool, route) r h = search strictness depth 12

validate_tool_ref-IsStrict :
    (id : Str) (j : ℕ) (ref : ApiToolRef) → IsStrict (validate_tool_ref id j ref)
unfolding validate_tool_ref
validate_tool_ref-IsStrict id j ref r h = search strictness depth 12

validate_skill-IsStrict :
    (id : Str) (j : ℕ) (skill : SuperagentSkill) → IsStrict (validate_skill id j skill)
unfolding validate_skill
validate_skill-IsStrict id j skill r h = search strictness depth 12

validate_tool_loop-IsStrict : (n : Node) (cfg : LlmNodeConfig) → IsStrict (validate_tool_loop n cfg)
unfolding validate_tool_loop
validate_tool_loop-IsStrict n cfg r h =
    search
      (
        strictness,
        for_each-IsStrict,
        for_each_at-IsStrict,
        validate_route-IsStrict n.id,
        validate_tool_ref-IsStrict n.id,
      )
      depth 16

validate_fields-IsStrict :
    (id : Str) (cfg : SuperagentNodeConfig) → IsStrict (validate_fields id cfg)
unfolding validate_fields
validate_fields-IsStrict id cfg r h =
    search (strictness, for_each_at-IsStrict, validate_skill-IsStrict id) depth 20

validate_shared_memory-IsStrict : (g : Graph) (n : Node) → IsStrict (validate_shared_memory g n)
unfolding validate_shared_memory
validate_shared_memory-IsStrict g n r h = search strictness depth 12

check_provider_model-IsStrict :
    (id main : Str) (name : String) (o : Option ModelOverride)
    → IsStrict (check_provider_model id main name o)
unfolding check_provider_model
check_provider_model-IsStrict id main name none r h = h
check_provider_model-IsStrict id main name (some o) r h = search strictness depth 12

validate_superagent_overrides-IsStrict :
    (id main : Str) (o : Option SuperagentOverrides)
    → IsStrict (validate_superagent_overrides id main o)
unfolding validate_superagent_overrides
validate_superagent_overrides-IsStrict id main none r h = h
validate_superagent_overrides-IsStrict id main (some o) r h =
    search (strictness, check_provider_model-IsStrict) depth 16

validate_inline_endpoint-IsStrict :
    (to_upper : Str → Str) (decode : Str → Option ApiToolNodeConfig) (id : Str)
    (ep : InlineApiEndpoint)
    → IsStrict (validate_inline_endpoint to_upper decode id ep)
unfolding validate_inline_endpoint
validate_inline_endpoint-IsStrict to_upper decode id ep r h = error_if-IsStrict _ _ _ _ _ _ (
    if-IsStrict (is_empty ep.method) _ _ (λ r h. add_error-IsStrict _ _ _ _ r h)
      (λ r h. error_if-IsStrict _ _ _ _ _ r h) _
      (if-IsStrict (is_empty ep.base_url) _ _ (λ r h. add_error-IsStrict _ _ _ _ r h)
        (λ r h. error_if-IsStrict _ _ _ _ _ r h) r h))

module _ (to_upper : Str → Str) (decode : Str → Option ApiToolNodeConfig) where
  validate_definition-IsStrict :
      (id : Str) (cfg : ApiToolNodeConfig) → IsStrict (validate_definition to_upper decode id cfg)
  unfolding validate_definition
  validate_definition-IsStrict id cfg r h = elim (Option-cases cfg.inline_endpoint) [
    | inl absent ↦ rw (absent, validate_definition) (search strictness depth 12)
    | inr (ep, found) ↦
        rw (found, validate_definition)
          (validate_inline_endpoint-IsStrict to_upper decode id ep _ (search strictness depth 12))
  ]

  pub validate_api_tool_node_configs-IsStrict :
      (g : Graph) → IsStrict (validate_api_tool_node_configs to_upper decode g)
  unfolding validate_api_tool_node_configs validate_api_tool_config
  validate_api_tool_node_configs-IsStrict g =
      for_each-IsStrict _ g.nodes
        λ n r h. if-invalid (str_eq n.node_type (codes "api_tool")) _ _ (one n r h) h
    where
      one : (n : Node) → IsStrict (validate_api_tool_config to_upper decode n)
      one n r h = elim (Option-cases (decode n.config)) [
        | inl broken ↦ rw (broken, validate_api_tool_config) (add_error-IsStrict _ _ _ _ r h)
        | inr (cfg, found) ↦
            rw (found, validate_api_tool_config)
              (if-invalid _ _ _ (add_error-IsStrict _ _ _ _ r h)
                (validate_definition-IsStrict n.id cfg r h))
      ]

pub validate_tool_loop_configs-IsStrict :
    (decode : Str → Option LlmNodeConfig) (g : Graph)
    → IsStrict (validate_tool_loop_configs decode g)
unfolding validate_tool_loop_configs validate_tool_loop_config
validate_tool_loop_configs-IsStrict decode g = for_each-IsStrict _ g.nodes one
  where
    one : (n : Node) → IsStrict (validate_tool_loop_config decode n)
    one n r h =
        if-invalid (str_eq n.node_type (codes "llm")) _ _
          (elim (Option-cases (decode n.config)) [
            | inl broken ↦ rw broken h
            | inr (cfg, found) ↦
                rw found (if-invalid cfg.tool_loop _ _ (validate_tool_loop-IsStrict n cfg r h) h)
          ])
          h

module _ (template_vars : Str → List Str) (decode : Str → Option SuperagentNodeConfig) where
  validate_superagent-IsStrict :
      (g : Graph) (n : Node) (cfg : SuperagentNodeConfig)
      → IsStrict (validate_superagent template_vars decode g n cfg)
  unfolding validate_superagent validate_superagent_template_vars
  validate_superagent-IsStrict g n cfg r h =
      search
        (
          strictness, for_each-IsStrict, validate_fields-IsStrict, validate_shared_memory-IsStrict,
          validate_superagent_overrides-IsStrict, validate_code_execution_config-IsStrict,
        )
        depth 16

  pub validate_superagent_configs-IsStrict :
      (g : Graph) → IsStrict (validate_superagent_configs template_vars decode g)
  unfolding validate_superagent_configs validate_superagent_config
  validate_superagent_configs-IsStrict g = for_each-IsStrict _ g.nodes one
    where
      one : (n : Node) → IsStrict (validate_superagent_config template_vars decode g n)
      one n r h =
          if-invalid (str_eq n.node_type (codes "superagent")) _ _
            (elim (Option-cases (decode n.config)) [
              | inl broken ↦ rw broken (add_error-IsStrict _ _ _ _ r h)
              | inr (cfg, found) ↦ rw found (validate_superagent-IsStrict g n cfg r h)
            ])
            h
