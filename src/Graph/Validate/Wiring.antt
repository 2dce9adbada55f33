-- ===== src/Graph/Validate/Wiring.antt =====
-- validateExclusiveFanIn, validateReachability and validateRequiredPorts of engine/graph/validate.go.
use brockleyai.Prelude.{
  ℕ, zero, suc, ◌+◌, ltb, Bool, true, false, not, ◌||◌, ◌&&◌, Option, none, some, List, [], ◌∷◌,
  ◌++◌, Str, str_eq, if◌then◌else◌, length, mem, any, update,
}
use brockleyai.Model.{Port, Node, Edge, Graph, is_required}
use brockleyai.Graph.Validate.Report.{Report, text, error_if, warn_if, for_each}
use brockleyai.Graph.Validate.Nodes.{is_input}

-- A key of the maps by port.
pub record PortKey : Type 0 where
  pub node_id : Str
  pub port : Str

abbrev pub target_key : Edge → PortKey
target_key e = record { node_id = e.target_node_id; port = e.target_port }

unfoldable pub key_eq : PortKey → PortKey → Bool
key_eq a b = str_eq a.node_id b.node_id && str_eq a.port b.port

-- `portEdges`: the number of edges to each port, in the order of the first edge to it.
unfoldable pub count_key : PortKey → List (PortKey × ℕ) → List (PortKey × ℕ)
unfolding key_eq
count_key k [] = (k, 1) ∷ []
count_key k ((j, n) ∷ m) = if key_eq k j then (j, n + 1) ∷ m else (j, n) ∷ count_key k m

unfoldable pub port_edges : List Edge → List (PortKey × ℕ) → List (PortKey × ℕ)
unfolding count_key
port_edges [] m = m
port_edges (e ∷ es) m = port_edges es (count_key (target_key e) m)

unfoldable pub validate_exclusive_fan_in : Graph → Report → Report
unfolding port_edges
validate_exclusive_fan_in g r =
    for_each (λ (k, n). warn_if (ltb 1 n) "MULTI_EDGE_FAN_IN" k.node_id) (port_edges g.edges []) r

-- The breadth-first search from the input nodes, over all edges.
unfoldable pub all_adj : List Edge → (Str → List Str) → Str → List Str
all_adj [] adj = adj
all_adj (e ∷ es) adj =
    all_adj es (update adj e.source_node_id (adj e.source_node_id ++ e.target_node_id ∷ []))

unfoldable pub input_ids : List Node → List Str
input_ids [] = []
input_ids (n ∷ ns) = if is_input n then n.id ∷ input_ids ns else input_ids ns

-- `reachable` and the queue.
unfoldable pub mark_new : List Str → List Str → List Str → List Str × List Str
mark_new [] reachable queue = (reachable, queue)
mark_new (t ∷ ts) reachable queue =
    mark_new ts (if mem t reachable then reachable else t ∷ reachable)
      (if mem t reachable then queue else queue ++ t ∷ [])

unfoldable pub reach : ℕ → (Str → List Str) → List Str → List Str → Option (List Str)
unfolding mark_new
reach fuel adj reachable [] = some reachable
reach zero adj reachable (current ∷ queue) = none
reach (suc fuel) adj reachable (current ∷ queue) =
    let (reachable', queue') = mark_new (adj current) reachable queue in
    reach fuel adj reachable' queue'

unfoldable pub reachable_from_inputs : Graph → Option (List Str)
unfolding reach all_adj input_ids
reachable_from_inputs g =
    reach (length g.nodes + length g.edges) (all_adj g.edges (λ _. [])) (input_ids g.nodes)
      (input_ids g.nodes)

unfoldable pub validate_reachability : Graph → Report → Report
unfolding reachable_from_inputs
validate_reachability g r = elim (reachable_from_inputs g) [
  | none ↦ r
  | some reachable ↦
      for_each (λ n. warn_if (not (mem n.id reachable)) "UNREACHABLE_NODE" n.id) g.nodes r
]

-- Whether an edge or a state read leads to the port.
unfoldable pub is_wired : Graph → PortKey → Bool
unfolding key_eq
is_wired g k =
    any (λ e. key_eq (target_key e) k) g.edges
    || any (λ n. any (λ b. key_eq (record { node_id = n.id; port = b.port }) k) n.state_reads)
        g.nodes

abbrev pub has_default : Port → Bool
has_default p = elim p.default_value [ none ↦ false | some _ ↦ true ]

unfoldable pub validate_required_port : Graph → Node → Port → Report → Report
unfolding is_wired is_required
validate_required_port g n p r =
    if not (is_required p)
    then r
    else if has_default p
    then r
    else error_if (not (is_wired g (record { node_id = n.id; port = p.name })))
        "UNWIRED_REQUIRED_PORT" n.id [] (text "input_ports" ∷ []) r

unfoldable pub validate_required_ports : Graph → Report → Report
unfolding validate_required_port
validate_required_ports g r =
    for_each
      (λ n.
        λ r. if is_input n then r else for_each (λ p. validate_required_port g n p) n.input_ports r)
      g.nodes r
