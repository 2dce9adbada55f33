-- ===== src/Graph/Validate/Nodes.antt =====
-- The node map and the checks of single nodes in engine/graph/validate.go.
use brockleyai.Prelude.{
  ◌==◌, Bool, true, false, not, ◌||◌, Option, none, some, List, [], ◌∷◌, ◌++◌, Str, str_eq, codes,
  if◌then◌else◌, update, any, mem, length,
}
use brockleyai.Model.{Port, Node}
use brockleyai.Graph.Validate.Report.{Report, Field, text, number, add_error, error_if, for_each_at}
use brockleyai.Graph.Validate.Schema.{Unmarshal, validate_strong_typing}

abbrev pub NodeMap : Type 0
NodeMap = Str → Option Node

abbrev pub no_nodes : NodeMap
no_nodes _ = none

-- The first loop of `validate`: a node whose identifier is taken is reported and not entered.
unfoldable pub register : List Node → NodeMap → Report → NodeMap × Report
register [] m r = (m, r)
register (n ∷ ns) m r = elim (m n.id) [
  | some _ ↦ register ns m (add_error "DUPLICATE_NODE_ID" n.id [] (text "id" ∷ []) r)
  | none ↦ register ns (update m n.id (some n)) r
]

abbrev pub is_empty : Str → Bool
is_empty [] = true
is_empty _ = false

unfoldable pub has_port : List Port → Str → Bool
has_port [] wanted = false
has_port (p ∷ ps) wanted = str_eq p.name wanted || has_port ps wanted

unfoldable pub is_input : Node → Bool
is_input n = str_eq n.node_type (codes "input")

unfoldable pub validate_has_input_node : List Node → Report → Report
unfolding error_if
validate_has_input_node nodes r =
    error_if (not (any (λ n. is_input n) nodes)) "NO_INPUT_NODE" [] [] (text "nodes" ∷ []) r

-- One of the two loops of validateUniquePortNames, with the names seen so far.
unfoldable pub unique_port_names : Str → Field → List Port → List Str → Report → Report
unique_port_names node_id field [] seen r = r
unique_port_names node_id field (p ∷ ps) seen r =
    unique_port_names node_id field ps (p.name ∷ seen)
      (error_if (mem p.name seen) "DUPLICATE_PORT_NAME" node_id [] field r)

unfoldable pub validate_unique_port_names : Node → Report → Report
unfolding unique_port_names
validate_unique_port_names n r =
    unique_port_names n.id (text "output_ports" ∷ []) n.output_ports []
      (unique_port_names n.id (text "input_ports" ∷ []) n.input_ports [] r)

module _ (unmarshal : Unmarshal) where
  unfoldable pub validate_port_schema : Str → Field → Port → Report → Report
  validate_port_schema node_id field p r =
      if is_empty p.name
      then add_error "EMPTY_PORT_NAME" node_id [] (field ++ text ".name" ∷ []) r
      else if length p.schema == 0
      then add_error "MISSING_PORT_SCHEMA" node_id [] (field ++ text ".schema" ∷ []) r
      else validate_strong_typing unmarshal node_id (field ++ text ".schema" ∷ []) p.schema r

  unfoldable pub validate_node : Node → Report → Report
  unfolding validate_port_schema validate_unique_port_names
  validate_node n r =
      let named =
        error_if (is_empty n.name) "EMPTY_NODE_NAME" n.id [] (text "name" ∷ [])
          (error_if (is_empty n.id) "EMPTY_NODE_ID" [] [] (text "id" ∷ []) r) in
      let inputs =
        for_each_at
          (λ j p. validate_port_schema n.id (text "input_ports[" ∷ number j ∷ text "]" ∷ []) p) 0
          n.input_ports named in
      let outputs =
        for_each_at
          (λ j p. validate_port_schema n.id (text "output_ports[" ∷ number j ∷ text "]" ∷ []) p) 0
          n.output_ports inputs in
      validate_unique_port_names n outputs
