-- ===== src/Graph/Validate/Edges.antt =====
-- validateEdge, validateBackEdges and validateNoCycles of engine/graph/validate.go.
use brockleyai.Prelude.{
  Bool, true, not, ◌&&◌, none, some, [], ◌∷◌, str_eq, if◌then◌else◌, is_positive,
}
use brockleyai.Model.{Node, Edge, Graph}
use brockleyai.Graph.Cycles.Search.{find_cycle}
use brockleyai.Graph.Validate.Report.{Report, text, add_error, error_if}
use brockleyai.Graph.Validate.Nodes.{NodeMap, is_empty, has_port}

-- Behind the early returns: the source node `src` and the target node `tgt` are found.
unfoldable pub validate_ends : Edge → Node → Node → Report → Report
unfolding has_port
validate_ends e src tgt r =
    error_if (not (has_port tgt.input_ports e.target_port)) "INVALID_TARGET_PORT" e.target_node_id
      e.id (text "target_port" ∷ [])
      (error_if (not (has_port src.output_ports e.source_port)) "INVALID_SOURCE_PORT"
        e.source_node_id e.id (text "source_port" ∷ [])
        (error_if (str_eq e.source_node_id e.target_node_id && not e.back_edge) "SELF_REFERENCE" []
          e.id [] r))

unfoldable pub validate_edge : NodeMap → Edge → Report → Report
unfolding validate_ends
validate_edge m e r =
    if is_empty e.id
    then add_error "EMPTY_EDGE_ID" [] [] (text "id" ∷ []) r
    else elim (m e.source_node_id) [
      | none ↦ add_error "INVALID_SOURCE_NODE" [] e.id (text "source_node_id" ∷ []) r
      | some src ↦ elim (m e.target_node_id) [
        | none ↦ add_error "INVALID_TARGET_NODE" [] e.id (text "target_node_id" ∷ []) r
        | some tgt ↦ validate_ends e src tgt r
      ]
    ]

-- `edge.MaxIterations == nil || *edge.MaxIterations <= 0`
unfoldable pub is_unbounded : Edge → Bool
is_unbounded e = elim e.max_iterations [ none ↦ true | some n ↦ not (is_positive n) ]

unfoldable pub validate_back_edge : Edge → Report → Report
unfolding is_unbounded
validate_back_edge e r =
    if not e.back_edge
    then r
    else error_if (is_unbounded e) "BACKEDGE_NO_MAX_ITERATIONS" [] e.id (text "max_iterations" ∷ [])
        (error_if (is_empty e.condition) "BACKEDGE_NO_CONDITION" [] e.id (text "condition" ∷ []) r)

-- `none` is a search that ran out of fuel.
unfoldable pub validate_no_cycles : Graph → Report → Report
validate_no_cycles g r = elim (find_cycle g) [
  | some true ↦ add_error "UNGUARDED_CYCLE" [] [] (text "edges" ∷ []) r
  | _ ↦ r
]
