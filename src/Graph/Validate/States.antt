-- ===== src/Graph/Validate/States.antt =====
-- validateState and validateStateBindings of engine/graph/validate.go.
use Prim.Native.String.{String}
use brockleyai.Prelude.{
  ℕ, ◌+◌, not, ◌||◌, Option, none, some, List, [], ◌∷◌, Str, if◌then◌else◌, mem, map,
}
use brockleyai.Model.{StateBinding, StateField, GraphState, Port, Node, Graph}
use brockleyai.Graph.Validate.Report.{Report, text, number, add_error, error_if, for_each}
use brockleyai.Graph.Validate.Schema.{Unmarshal, validate_strong_typing, validate_reducer_compat}
use brockleyai.Graph.Validate.Nodes.{is_empty, has_port}

module _ (unmarshal : Unmarshal) where
  -- One round of the loop over the fields; a field with no name or a name seen before is not looked into.
  unfoldable pub validate_field : ℕ → List Str → StateField → Report → Report
  validate_field i seen f r =
      if is_empty f.name
      then add_error "EMPTY_STATE_FIELD" [] []
          (text "state.fields[" ∷ number i ∷ text "].name" ∷ []) r
      else if mem f.name seen
      then add_error "DUPLICATE_STATE_FIELD" [] [] (text "state.fields" ∷ []) r
      else validate_reducer_compat unmarshal f i (
          validate_strong_typing unmarshal []
            (text "state.fields[" ∷ number i ∷ text "].schema" ∷ []) f.schema r)

  -- `seen` holds the names of the fields that were looked into.
  unfoldable pub validate_fields : ℕ → List Str → List StateField → Report → Report
  unfolding validate_field
  validate_fields i seen [] r = r
  validate_fields i seen (f ∷ fs) r =
      validate_fields (i + 1) (if is_empty f.name || mem f.name seen then seen else f.name ∷ seen)
        fs (validate_field i seen f r)

  unfoldable pub validate_state : Option GraphState → Report → Report
  unfolding validate_fields
  validate_state none r = r
  validate_state (some s) r = validate_fields 0 [] s.fields r

-- The names of the declared state fields.
abbrev pub state_names : Graph → List Str
state_names g = elim g.state [ none ↦ [] | some s ↦ map (λ (f : StateField). f.name) s.fields ]

unfoldable pub validate_binding :
    List Str → List Port → Str → String → StateBinding → Report → Report
validate_binding declared ports node_id where_from b r =
    error_if (not (has_port ports b.port)) "INVALID_STATE_PORT" node_id [] (text where_from ∷ []) (
      error_if (not (mem b.state_field declared)) "INVALID_STATE_REF" node_id []
        (text where_from ∷ []) r)

unfoldable pub validate_bindings : List Str → Node → Report → Report
unfolding validate_binding
validate_bindings declared n r =
    for_each (λ b. validate_binding declared n.output_ports n.id "state_writes" b) n.state_writes
      (for_each (λ b. validate_binding declared n.input_ports n.id "state_reads" b) n.state_reads r)

unfoldable pub validate_state_bindings : Graph → Report → Report
unfolding validate_bindings
validate_state_bindings g r = for_each (λ n. validate_bindings (state_names g) n) g.nodes r
