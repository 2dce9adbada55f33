-- ===== src/Graph/Validate/Sound.antt =====
-- What a valid report means, and that the planners succeed on a valid graph.
use brockleyai.Prelude.{
  ℕ, ◌+◌, ◌<◌, ◌≡◌, Bool, true, false, Option-cases, Option, none, some, inl, inr, List, [], ◌∷◌,
  ◌++◌, map, Str, str_eq_refl, codes, not, ◌||◌, arith, count, IsDistinct, In, here, there, All,
  All-In, any, ◌↔◌,
}
use brockleyai.Json.{Json, null, obj, Members, no_members, member, has}
use brockleyai.Model.{Port, StateField, GraphState, Node, Graph}
use brockleyai.Graph.Shape.{ids, IsWired}
use brockleyai.Graph.Cycles.Search.{find_cycle}
use brockleyai.Graph.Cycles.Ranking.{find_cycle_complete, find_cycle_sound}
use brockleyai.Graph.Topo.Sort.{topological_sort, sorted}
use brockleyai.Graph.Topo.Order.{topological_sort_complete, topological_sort_sound}
use brockleyai.Graph.Topo.Groups.{parallel_groups, grouped}
use brockleyai.Graph.Topo.Levels.{IsShuffle}
use brockleyai.Graph.Topo.Waves.{parallel_groups_complete}
use brockleyai.Graph.Validate.Report.{
  Report, fresh, Demands, IsStrict, strictness, valid_before, for_each-IsStrict,
  for_each_at-IsStrict, add_error-IsStrict, error_if-IsStrict, warn_if-IsStrict, error_if-Demands,
  for_each, for_each-Demands, add_error-invalid, Field, text,
}
use brockleyai.Graph.Validate.Schema.{
  Unmarshal, validate_json, validate_member, validate_properties, validate_each,
  validate_strong_typing, validate_reducer_compat,
}
use brockleyai.Graph.Validate.Nodes.{
  NodeMap, no_nodes, register, is_input, validate_has_input_node, unique_port_names,
  validate_unique_port_names, validate_port_schema, validate_node,
}
use brockleyai.Graph.Validate.States.{state_names, validate_field, validate_fields, validate_state}
use brockleyai.Graph.Validate.Wiring.{
  validate_exclusive_fan_in, validate_reachability, reachable_from_inputs, port_edges,
}
use brockleyai.Graph.Validate.Configs.ToolLoop.{validate_tool_loop_configs}
use brockleyai.Graph.Validate.Configs.Superagent.{validate_superagent_configs}
use brockleyai.Graph.Validate.Configs.ApiTool.{validate_api_tool_node_configs}
use brockleyai.Graph.Validate.Configs.Strict.{
  validate_api_tool_node_configs-IsStrict, validate_tool_loop_configs-IsStrict,
  validate_superagent_configs-IsStrict,
}
use brockleyai.Graph.Validate.Run.{
  Library, validate_configs, validate_graph, validate_nodes, validate,
}
use brockleyai.Graph.Validate.Lemmas.{
  IsEntry, register_lem, register_entries, IsJoined, edge-Demands, IsGuarded, back_edge-Demands,
  no_cycles-Demands, BindsState, state_bindings-Demands, PortsSupplied, required_ports-Demands,
}

clash : {b : Bool} → b ≡ false → b ≡ true → ⊥
clash p q = cc

module _ (id : Str) where
  mutual
    unfolding validate_json

    validate_json-invalid :
        (field : Field) (j : Json) (r : Report)
        → r.valid ≡ false
        → (validate_json id field j r).valid ≡ false
    validate_json-invalid field null r h = add_error-IsStrict _ _ _ _ r h
    validate_json-invalid field (obj ms) r h = ground (
      arith,
      validate_member-invalid ms (codes "properties") field r h,
      validate_member-invalid ms (codes "items") field r h,
      error_if-IsStrict (not (has (codes "oneOf") ms || has (codes "anyOf") ms)) "SCHEMA_VIOLATION"
          id [] field r h,
      error_if-IsStrict
          (not (has (codes "oneOf") ms || has (codes "anyOf") ms || has (codes "enum") ms))
          "MISSING_TYPE" id [] field r h,
      add_error-IsStrict "SCHEMA_VIOLATION" id [] field r h,
    )
    validate_json-invalid field _ r h = add_error-IsStrict _ _ _ _ r h

    validate_member-invalid :
        (ms : Members) (key : Str) (field : Field) (r : Report)
        → r.valid ≡ false
        → (validate_member id key field ms r).valid ≡ false
    validate_member-invalid no_members key field r h = h
    validate_member-invalid (member k v ms) key field r h = ground (
      arith,
      validate_json-invalid (field ++ text ".items" ∷ []) v r h,
      validate_properties-invalid field v r h,
      validate_member-invalid ms key field r h,
    )

    validate_properties-invalid :
        (field : Field) (j : Json) (r : Report)
        → r.valid ≡ false
        → (validate_properties id field j r).valid ≡ false
    validate_properties-invalid field (obj ms) r h = validate_each-invalid field ms r h
    validate_properties-invalid field _ r h = h

    validate_each-invalid :
        (field : Field) (ms : Members) (r : Report)
        → r.valid ≡ false
        → (validate_each id field ms r).valid ≡ false
    validate_each-invalid field no_members r h = h
    validate_each-invalid field (member k v ms) r h =
        validate_each-invalid field ms _ (validate_json-invalid _ v r h)

module _ (unmarshal : Unmarshal) where
  validate_strong_typing-IsStrict :
      (id : Str) (field : Field) (schema : Str)
      → IsStrict (validate_strong_typing unmarshal id field schema)
  unfolding validate_strong_typing
  validate_strong_typing-IsStrict id field schema r h = elim (Option-cases (unmarshal schema)) [
    | inl broken ↦ rw (broken, validate_strong_typing) (add_error-IsStrict _ _ _ _ r h)
    | inr (j, found) ↦ rw (found, validate_strong_typing) (validate_json-invalid id field j r h)
  ]

  validate_port_schema-IsStrict :
      (id : Str) (field : Field) (p : Port) → IsStrict (validate_port_schema unmarshal id field p)
  unfolding validate_port_schema
  validate_port_schema-IsStrict id field p r h =
      search (strictness, validate_strong_typing-IsStrict) depth 8

  unique_port_names-invalid :
      (id : Str) (field : Field) (ps : List Port) (seen : List Str) (r : Report)
      → r.valid ≡ false
      → (unique_port_names id field ps seen r).valid ≡ false
  unfolding unique_port_names
  unique_port_names-invalid id field [] seen r h = h
  unique_port_names-invalid id field (p ∷ ps) seen r h =
      unique_port_names-invalid id field ps _ _ (error_if-IsStrict _ _ _ _ _ r h)

  validate_node-IsStrict : (n : Node) → IsStrict (validate_node unmarshal n)
  unfolding validate_node validate_unique_port_names
  validate_node-IsStrict n r h =
      search
        (strictness, for_each_at-IsStrict, unique_port_names-invalid, validate_port_schema-IsStrict)
        depth 16

  validate_fields-invalid :
      (i : ℕ) (seen : List Str) (fs : List StateField) (r : Report)
      → r.valid ≡ false
      → (validate_fields unmarshal i seen fs r).valid ≡ false
  unfolding validate_fields validate_field validate_reducer_compat
  validate_fields-invalid i seen [] r h = h
  validate_fields-invalid i seen (f ∷ fs) r h =
      validate_fields-invalid (i + 1) _ fs _
        (search (strictness, validate_strong_typing-IsStrict) depth 8)

  validate_state-IsStrict : (s : Option GraphState) → IsStrict (validate_state unmarshal s)
  unfolding validate_state
  validate_state-IsStrict none r h = h
  validate_state-IsStrict (some s) r h = validate_fields-invalid 0 [] s.fields r h

validate_exclusive_fan_in-IsStrict : (g : Graph) → IsStrict (validate_exclusive_fan_in g)
unfolding validate_exclusive_fan_in
validate_exclusive_fan_in-IsStrict g =
    for_each-IsStrict _ (port_edges g.edges []) λ (k, n) r h. warn_if-IsStrict _ _ _ r h

validate_reachability-IsStrict : (g : Graph) → IsStrict (validate_reachability g)
unfolding validate_reachability
validate_reachability-IsStrict g r h = elim (Option-cases (reachable_from_inputs g)) [
  | inl lost ↦ rw (lost, validate_reachability) h
  | inr (found, e) ↦
      rw (e, validate_reachability)
        (for_each-IsStrict _ g.nodes (λ n r h. warn_if-IsStrict _ _ _ r h) r h)
]

-- What validation promises of a graph.
pub record IsSound (g : Graph) : Type 0 where
  pub distinct : IsDistinct (ids g)
  pub has_input : any (λ n. is_input n) g.nodes ≡ true
  pub joined : All (IsJoined g.nodes) g.edges
  pub bound : All (BindsState (state_names g)) g.nodes
  pub guarded : All IsGuarded g.edges
  pub acyclic : find_cycle g ≡ some false
  pub supplied : All (PortsSupplied g) g.nodes

module _ (lib : Library) where
  validate_graph-Demands :
      (g : Graph) (m : NodeMap)
      → ((t : Str) (n : Node) → m t ≡ some n → IsEntry g.nodes t n)
      → Demands (validate_graph lib g m) (IsDistinct (ids g) → IsSound g)
  unfolding validate_graph validate_configs validate_has_input_node
  validate_graph-Demands g m entries r h =
      let (h1, supplied) = required_ports-Demands g _ h in
      let h2 = valid_before (validate_reachability g) (validate_reachability-IsStrict g) _ h1 in
      let h3 =
        valid_before (validate_exclusive_fan_in g) (validate_exclusive_fan_in-IsStrict g) _ h2 in
      let (h4, acyclic) = no_cycles-Demands g _ h3 in
      let (h5, guarded) = for_each-Demands IsGuarded _ g.edges back_edge-Demands _ h4 in
      let (h6, bound) = state_bindings-Demands g _ h5 in
      let h7 =
        valid_before (validate_state lib.unmarshal g.state)
          (validate_state-IsStrict lib.unmarshal g.state) _ h6 in
      let (h8, joined) =
        for_each-Demands (IsJoined g.nodes) _ g.edges (edge-Demands g.nodes m entries) _ h7 in
      let h9 =
        valid_before (validate_api_tool_node_configs lib.to_upper lib.decode_api_tool g)
          (validate_api_tool_node_configs-IsStrict lib.to_upper lib.decode_api_tool g) _ h8 in
      let h10 =
        valid_before (validate_superagent_configs lib.template_vars lib.decode_superagent g)
          (validate_superagent_configs-IsStrict lib.template_vars lib.decode_superagent g) _ h9 in
      let h11 =
        valid_before (validate_tool_loop_configs lib.decode_llm g)
          (validate_tool_loop_configs-IsStrict lib.decode_llm g) _ h10 in
      let h12 =
        valid_before (for_each (λ n. validate_node lib.unmarshal n) g.nodes)
          (for_each-IsStrict _ g.nodes (validate_node-IsStrict lib.unmarshal)) _ h11 in
      let (h13, input) = error_if-Demands _ _ _ _ _ _ h12 in
      (
        h13,
        λ distinct. record {
          distinct = distinct;
          has_input = ground arith;
          joined = joined;
          bound = bound;
          guarded = guarded;
          acyclic = acyclic;
          supplied = supplied;
        },
      )

  behind_empty :
      (g : Graph) (ns : List Node) (m : NodeMap) (r : Report)
      → (validate_nodes lib g ns m r).valid ≡ true
      → (validate_graph lib g m r).valid ≡ true
  unfolding validate_nodes
  behind_empty g [] m r h =
      let bad = add_error-invalid "EMPTY_GRAPH" [] [] (text "nodes" ∷ []) r in absurd (clash bad h)
  behind_empty g (n ∷ ns) m r h = h

  entry :
      (g : Graph) (t : Str) (n : Node)
      → (register g.nodes no_nodes fresh).0 t ≡ some n
      → IsEntry g.nodes t n
  entry g t n e = elim (register_entries g.nodes no_nodes fresh t n e) [
    | inl held ↦ absurd (cc)
    | inr found ↦ found
  ]

  pub validate-IsSound : (g : Graph) → (validate lib g).valid ≡ true → IsSound g
  unfolding validate validate_nodes
  validate-IsSound g h =
      let h1 : (validate_nodes lib g g.nodes (register g.nodes no_nodes fresh).0
            (register g.nodes no_nodes fresh).1).valid
          ≡ true =
        h in
      let h2 =
        behind_empty g g.nodes (register g.nodes no_nodes fresh).0
          (register g.nodes no_nodes fresh).1 h1 in
      let (h3, sound) =
        validate_graph-Demands g (register g.nodes no_nodes fresh).0 (λ t n e. entry g t n e)
          (register g.nodes no_nodes fresh).1 h2 in
      sound (register_lem g.nodes no_nodes fresh h3).1

count-entry : (ns : List Node) (n : Node) → In n ns → 0 < count n.id (map (λ (n : Node). n.id) ns)
count-entry [] n i = elim i [ ]
count-entry (x ∷ ns) n here = ground (arith, str_eq_refl x.id)
count-entry (x ∷ ns) n (there i) = ground (arith, count-entry ns n i)

pub IsSound-IsWired : (g : Graph) → IsSound g → IsWired g
IsSound-IsWired g s = record {
  distinct = s.distinct;
  source_known = λ e f.
      let j = All-In (IsJoined g.nodes) s.joined f.listed in
      rw (← j.source_entry.1) (count-entry g.nodes j.source j.source_entry.0);
  target_known = λ e f.
      let j = All-In (IsJoined g.nodes) s.joined f.listed in
      rw (← j.target_entry.1) (count-entry g.nodes j.target j.target_entry.0);
}

-- On a valid graph both planners succeed, so that an execution is never refused for its order:
-- TopologicalSort returns an order, and ParallelGroups returns groups in whatever order the maps are
-- visited.
pub validate-plans :
    (lib : Library) (g : Graph) (arrange : ℕ → List Str → List Str)
    → IsShuffle arrange
    → (validate lib g).valid ≡ true
    → ((order : List Str) × (topological_sort g ≡ sorted order))
      × ((groups : List (List Str)) × (parallel_groups arrange g ≡ grouped groups))
validate-plans lib g arrange fair h =
    let sound = validate-IsSound lib g h in
    let wired = IsSound-IsWired g sound in
    let (rank, ranked) = find_cycle_complete g wired sound.acyclic in
    (
      topological_sort_complete g rank wired ranked,
      parallel_groups_complete arrange g rank fair wired ranked,
    )

-- Two independent algorithms agree on a graph whose identifiers are distinct and whose forward edges join
-- its nodes: the depth-first search of Validate reports no cycle exactly when Kahn's algorithm in
-- TopologicalSort returns an order.
pub find_cycle-iff-topological_sort :
    (g : Graph)
    → IsWired g
    → (find_cycle g ≡ some false) ↔ ((order : List Str) × (topological_sort g ≡ sorted order))
find_cycle-iff-topological_sort g w = (
  (λ quiet.
      let (rank, ranked) = find_cycle_complete g w quiet in
      topological_sort_complete g rank w ranked),
  λ (order, e). find_cycle_sound g _ (topological_sort_sound g order w e).1,
)
