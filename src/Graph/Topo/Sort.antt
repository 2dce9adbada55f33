-- ===== src/Graph/Topo/Sort.antt =====
-- TopologicalSort of engine/graph/topo.go: Kahn's algorithm over the forward edges.
use brockleyai.Prelude.{
  ℕ, zero, suc, ◌+◌, ◌==◌, Option, none, some, List, [], ◌∷◌, ◌++◌, if◌then◌else◌, length, Str,
  update, ℤ, pos, succ_ℤ, pred_ℤ, is_zero,
}
use brockleyai.Model.{Node, Edge, Graph}

-- The maps `adj` and `inDegree`; a missing key reads as nil and as 0.
pub record Adjacency : Type 0 where
  pub adj : Str → List Str
  pub in_degree : Str → ℤ

abbrev pub no_edges : Adjacency
no_edges = record { adj = λ _. []; in_degree = λ _. pos 0 }

-- `for _, node := range g.Nodes { inDegree[node.ID] = 0 }`
abbrev pub add_nodes : List Node → Adjacency → Adjacency
add_nodes [] a = a
add_nodes (n ∷ ns) a = add_nodes ns (record a { in_degree = update a.in_degree n.id (pos 0) })

abbrev pub add_edge : Edge → Adjacency → Adjacency
add_edge e a = if e.back_edge then a else record a {
  adj = update a.adj e.source_node_id (a.adj e.source_node_id ++ e.target_node_id ∷ []);
  in_degree = update a.in_degree e.target_node_id (succ_ℤ (a.in_degree e.target_node_id));
}

unfoldable pub add_edges : List Edge → Adjacency → Adjacency
add_edges [] a = a
add_edges (e ∷ es) a = add_edges es (add_edge e a)

-- The nodes that wait for nothing.
unfoldable pub initial_queue : List Node → (Str → ℤ) → List Str
initial_queue [] d = []
initial_queue (n ∷ ns) d =
    if is_zero (d n.id) then n.id ∷ initial_queue ns d else initial_queue ns d

-- The inner loop: one decrement for each neighbour, which joins the queue when it reaches 0.
unfoldable pub relax : List Str → (Str → ℤ) → List Str → (Str → ℤ) × List Str
relax [] d queue = (d, queue)
relax (n ∷ ns) d queue =
    relax ns (update d n (pred_ℤ (d n))) (if is_zero (pred_ℤ (d n)) then queue ++ n ∷ [] else queue)

-- The outer loop; `none` means that the fuel ran out.
unfoldable pub kahn : ℕ → (Str → List Str) → (Str → ℤ) → List Str → List Str → Option (List Str)
kahn fuel adj d [] order = some order
kahn zero adj d (current ∷ queue) order = none
kahn (suc fuel) adj d (current ∷ queue) order =
    let (d', queue') = relax (adj current) d queue in
    kahn fuel adj d' queue' (order ++ current ∷ [])

pub data SortResult : Type 0 where
  sorted : List Str → SortResult
  -- "graph has a cycle (processed %d of %d nodes)"
  cycle : ℕ → ℕ → SortResult
  out_of_fuel : SortResult

unfoldable pub check_order : ℕ → Option (List Str) → SortResult
check_order total none = out_of_fuel
check_order total (some order) =
    if length order == total then sorted order else cycle (length order) total

unfoldable pub topological_sort : Graph → SortResult
unfolding add_edges initial_queue kahn relax check_order
topological_sort g =
    let a = add_edges g.edges (add_nodes g.nodes no_edges) in
    check_order (length g.nodes) (
      kahn (length g.nodes + length g.edges) a.adj a.in_degree (initial_queue g.nodes a.in_degree)
        [])
