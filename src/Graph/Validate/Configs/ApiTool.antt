-- ===== src/Graph/Validate/Configs/ApiTool.antt =====
-- validateAPIToolNodeConfigs of engine/graph/validate.go.
use brockleyai.Prelude.{
  Bool, true, false, not, ◌||◌, ◌&&◌, Option, none, some, List, [], ◌∷◌, Str, str_eq, codes,
  if◌then◌else◌, mem, ◌==◌,
}
use brockleyai.Model.{Node, Graph}
use brockleyai.Configs.{ApiToolNodeConfig, InlineApiEndpoint}
use brockleyai.Graph.Validate.Report.{Report, text, add_error, error_if, for_each}
use brockleyai.Graph.Validate.Nodes.{is_empty}

unfoldable pub has_prefix : Str → Str → Bool
has_prefix s [] = true
has_prefix [] (c ∷ cs) = false
has_prefix (d ∷ s) (c ∷ cs) = (d == c) && has_prefix s cs

abbrev pub valid_methods : List Str
valid_methods = codes "GET" ∷ codes "POST" ∷ codes "PUT" ∷ codes "PATCH" ∷ codes "DELETE" ∷ []

module _ (to_upper : Str → Str) (decode : Str → Option ApiToolNodeConfig) where
  unfoldable pub validate_inline_endpoint : Str → InlineApiEndpoint → Report → Report
  unfolding has_prefix
  validate_inline_endpoint id ep r =
      error_if (is_empty ep.path) "API_TOOL_INLINE_NO_PATH" id []
        (text "config.inline_endpoint.path" ∷ [])
        ((if is_empty ep.method
            then add_error "API_TOOL_INLINE_NO_METHOD" id []
                (text "config.inline_endpoint.method" ∷ [])
            else error_if (not (mem (to_upper ep.method) valid_methods))
                "API_TOOL_INLINE_BAD_METHOD" id [] (text "config.inline_endpoint.method" ∷ []))
          ((if is_empty ep.base_url
              then add_error "API_TOOL_INLINE_NO_BASE_URL" id []
                  (text "config.inline_endpoint.base_url" ∷ [])
              else error_if
                  (not (has_prefix ep.base_url (codes "http://"))
                    && not (has_prefix ep.base_url (codes "https://")))
                  "API_TOOL_INLINE_BAD_URL" id [] (text "config.inline_endpoint.base_url" ∷ []))
            r))

  abbrev pub has_ref : ApiToolNodeConfig → Bool
  has_ref cfg = not (is_empty cfg.api_tool_id) || not (is_empty cfg.endpoint)

  abbrev pub has_inline : ApiToolNodeConfig → Bool
  has_inline cfg = elim cfg.inline_endpoint [ none ↦ false | some _ ↦ true ]

  -- Behind the test that there is a definition at all.
  unfoldable pub validate_definition : Str → ApiToolNodeConfig → Report → Report
  unfolding validate_inline_endpoint
  validate_definition id cfg r =
      let ambiguous =
        error_if (has_ref cfg && has_inline cfg) "API_TOOL_AMBIGUOUS" id [] (text "config" ∷ [])
          r in
      let referred =
        if has_ref cfg
        then error_if (is_empty cfg.endpoint) "API_TOOL_REF_NO_ENDPOINT" id []
            (text "config.endpoint" ∷ [])
            (error_if (is_empty cfg.api_tool_id) "API_TOOL_REF_NO_ID" id []
              (text "config.api_tool_id" ∷ []) ambiguous)
        else ambiguous in
      elim cfg.inline_endpoint [
        | none ↦ referred
        | some ep ↦ validate_inline_endpoint id ep referred
      ]

  unfoldable pub validate_api_tool_config : Node → Report → Report
  unfolding validate_definition
  validate_api_tool_config n r = elim (decode n.config) [
    | none ↦ add_error "API_TOOL_INVALID_CONFIG" n.id [] (text "config" ∷ []) r
    | some cfg ↦
        if not (has_ref cfg) && not (has_inline cfg)
        then add_error "API_TOOL_NO_DEFINITION" n.id [] (text "config" ∷ []) r
        else validate_definition n.id cfg r
  ]

  unfoldable pub validate_api_tool_node_configs : Graph → Report → Report
  unfolding validate_api_tool_config
  validate_api_tool_node_configs g r =
      for_each
        (λ n r. if str_eq n.node_type (codes "api_tool") then validate_api_tool_config n r else r)
        g.nodes r
