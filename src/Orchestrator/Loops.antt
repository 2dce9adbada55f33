-- ===== src/Orchestrator/Loops.antt =====
-- executeLoops of engine/orchestrator/loops.go, which runs when no other goroutine does. The executors of the
-- nodes are given from outside, conditions are evaluated by EvalCondition; log output, events and durations
-- are left out.
pub mod Bounds
use brockleyai.Prelude.{
  Str, str_eq, codes, ℕ, zero, suc, ◌+◌, ℤ, pos, negsuc, Bool, true, false, not, ◌&&◌, ◌||◌, leb,
  ◌==◌, Option, none, some, List, [], ◌∷◌, ◌++◌, if◌then◌else◌, length, select, map, mem, update,
}
use brockleyai.Model.{Node, Edge, Graph}
use brockleyai.Value.{Value, Table, Entries}
use brockleyai.Expression.Outcome as Evaluation
use brockleyai.Expression.Values.{Library}
use brockleyai.Graph.Topo.Sort.{topological_sort, sorted, SortResult}
use brockleyai.Graph.Validate.Nodes.{is_input}
use brockleyai.Graph.Validate.Wiring.{mark_new, reach}
use brockleyai.Orchestrator.Ports.{empty, resolve_inputs, apply_state_writes}
use brockleyai.Orchestrator.Skips.{out_edges, in_edges}
use brockleyai.Orchestrator.Conditions.{eval_condition}

-- What a call of an executor ends with, if it ends; a nil result without an error is `returned_nil`.
pub data Execution (F : Type 0) : Type 0 where
  no_executor : Execution F
  execution_failed : Execution F
  returned_nil : Execution F
  execution_panicked : Execution F
  never_returned : Execution F
  returned : Table F → Execution F

-- StepRecord, less the error text and the duration.
pub record StepRecord (F : Type 0) : Type 0 where
  pub node_id : Str
  pub is_completed : Bool
  pub iteration : ℕ
  pub inputs : Table F
  pub outputs : Table F

-- What an execution changes.
pub record Run (F : Type 0) : Type 0 where
  pub outputs : Str → Option (Table F)
  pub state : Table F
  pub iteration_counts : Str → ℕ
  pub skipped : Str → Bool
  pub steps : List (StepRecord F)

-- `stopped` is the return of an error. `panicked` is the read of a nil result's outputs, or a panic of a
-- condition or an executor. `unfinished` is the end of the fuel, also that of a condition, or an executor that
-- does not return.
pub data Outcome (F : Type 0) : Type 0 where
  continued : Run F → Outcome F
  stopped : Run F → Outcome F
  panicked : Outcome F
  unfinished : Outcome F

pub record Engine (F : Type 0) : Type 0 where
  pub decode : Str → Value F
  -- The library, the fuel and the listing of a map that conditions are evaluated with.
  pub library : Library F
  pub fuel : ℕ
  pub listing : Table F → Entries F
  -- The executor of the node's type, on the inputs, the state and the iteration of the node's context; the number
  -- of steps before it tells calls apart, which may end otherwise on the same inputs.
  pub execute : ℕ → Node → Table F → Table F → Option ℕ → Execution F

unfoldable pub then_run : {F : Type 0} → Outcome F → (Run F → Outcome F) → Outcome F
then_run (continued run) k = k run
then_run (stopped run) k = stopped run
then_run panicked k = panicked
then_run unfinished k = unfinished

-- `nodeMap[id]`: of two nodes with the identifier the later one.
unfoldable pub find_node : List Node → Str → Option Node → Option Node
find_node [] id found = found
find_node (n ∷ ns) id found = find_node ns id (if str_eq n.id id then some n else found)

-- `maxIter`
unfoldable pub max_iter : Edge → ℕ
max_iter e = elim e.max_iterations [
  | some (pos (suc n)) ↦ suc n
  | some (pos zero) ↦ 10
  | some (negsuc n) ↦ 10
  | none ↦ 10
]

-- `topoIndex`: of an identifier that the order repeats the later index.
unfoldable pub topo_index : List Str → ℕ → (Str → Option ℕ) → Str → Option ℕ
topo_index [] i found = found
topo_index (id ∷ ids) i found = topo_index ids (suc i) (update found id (some i))

abbrev pub is_between : ℕ → ℕ → Option ℕ → Bool
is_between low high none = false
is_between low high (some i) = leb low i && leb i high

-- The nodes from the target to the source of a back-edge, where both stand in the order.
unfoldable pub loop_body : List Str → Edge → Option (List Str)
unfolding topo_index
loop_body order e =
    let indices = topo_index order 0 (λ _. none) in
    elim (indices e.target_node_id) [
      | none ↦ none
      | some target ↦ elim (indices e.source_node_id) [
        | none ↦ none
        | some source ↦ some (select (λ id. is_between target source (indices id)) order)
      ]
    ]

-- Where the forward edges from a node lead outside the loop body.
abbrev pub exits : List Edge → List Str → Str → List Str
exits edges body id =
    map (λ (e : Edge). e.target_node_id)
      (select (λ e. not e.back_edge && not (mem e.target_node_id body)) (out_edges edges id))

-- The marks that the loop over the body leaves: `visited` and the queue.
unfoldable pub first_exits :
    List Edge → List Str → List Str → List Str → List Str → List Str × List Str
unfolding mark_new
first_exits edges body [] visited queue = (visited, queue)
first_exits edges body (id ∷ ids) visited queue =
    let (visited', queue') = mark_new (exits edges body id) visited queue in
    first_exits edges body ids visited' queue'

-- findDownstream, in as many rounds as there are edges.
unfoldable pub find_downstream : List Edge → List Str → List Str → Option (List Str)
unfolding first_exits reach
find_downstream edges order body =
    let (visited, queue) = first_exits edges body body [] [] in
    elim (reach (length edges) (exits edges body) visited queue) [
      | none ↦ none
      | some found ↦ some (select (λ id. mem id found) order)
    ]

module _ {F : Type 0} where
  -- `resolvedInputs[loop.edge.TargetPort] = backEdgeValue`
  abbrev pub with_back_edge : Edge → Option (Value F) → Str → Table F → Table F
  with_back_edge e none id inputs = inputs
  with_back_edge e (some v) id inputs =
      if str_eq e.target_node_id id then update inputs e.target_port (some v) else inputs

  abbrev pub port_value : Option (Table F) → Str → Option (Value F)
  port_value none port = none
  port_value (some t) port = t port

  abbrev pub listed : (Table F → Entries F) → Option (Table F) → Option (Entries F)
  listed listing none = none
  listed listing (some t) = some (listing t)

  -- `iterationCounts` is set, and the outputs and skip marks of the body are deleted.
  abbrev pub clear : Edge → ℕ → List Str → Run F → Run F
  clear e iteration body run = record run {
    outputs = λ id. if mem id body then none else run.outputs id;
    iteration_counts = update run.iteration_counts e.id iteration;
    skipped = λ id. if mem id body then false else run.skipped id;
  }

module _ {F : Type 0} (engine : Engine F) (g : Graph) where
  -- A node is executed on inputs that are given, and its result recorded.
  unfoldable pub run_node : Node → Table F → Option ℕ → Run F → Outcome F
  unfolding apply_state_writes
  run_node n inputs iteration run =
      let number : ℕ = elim iteration [ none ↦ 0 | some i ↦ i ] in
      elim (engine.execute (length run.steps) n inputs run.state iteration) [
        | no_executor ↦ stopped run
        | execution_failed ↦ stopped (record run {
          steps =
              run.steps
              ++ record {
                node_id = n.id;
                is_completed = false;
                iteration = number;
                inputs = inputs;
                outputs = empty;
              }
                ∷ [];
        })
        | returned_nil ↦ panicked
        | execution_panicked ↦ panicked
        | never_returned ↦ unfinished
        | returned outputs ↦ continued (record run {
          outputs = update run.outputs n.id (some outputs);
          state = apply_state_writes n.state_writes outputs run.state;
          steps =
              run.steps
              ++ record {
                node_id = n.id;
                is_completed = true;
                iteration = number;
                inputs = inputs;
                outputs = outputs;
              }
                ∷ [];
        })
      ]

  abbrev pub inputs_of : Node → Run F → Table F
  inputs_of n run = resolve_inputs engine.decode n run.outputs (in_edges g.edges n.id) run.state

  unfoldable pub run_body : Edge → Option (Value F) → ℕ → List Str → Run F → Outcome F
  unfolding run_node find_node then_run resolve_inputs
  run_body e value iteration [] run = continued run
  run_body e value iteration (id ∷ ids) run = elim (find_node g.nodes id none) [
    | none ↦ run_body e value iteration ids run
    | some n ↦ elim (is_input n) [
      | true ↦ run_body e value iteration ids run
      | false ↦
          then_run (run_node n (with_back_edge e value id (inputs_of n run)) (some iteration) run)
            λ run'. run_body e value iteration ids run'
    ]
  ]

  -- EvalCondition on the outputs of the edge's source and on the state.
  unfoldable pub test_condition : Edge → Run F → Evaluation.Outcome Bool
  unfolding eval_condition
  test_condition e run =
      eval_condition engine.library engine.fuel e.condition
        (listed engine.listing (run.outputs e.source_node_id)) (some (engine.listing run.state))

  -- The iterations that are left, from `iteration` on; `k` is what follows when the condition fails or none
  -- is left, and is told whether an iteration ran.
  unfoldable pub iterate :
      Edge → List Str → (Bool → Run F → Outcome F) → ℕ → ℕ → Bool → Run F → Outcome F
  unfolding run_body test_condition
  iterate e body k zero iteration ran run = k ran run
  iterate e body k (suc left) iteration ran run = elim (test_condition e run) [
    | Evaluation.failed _ ↦ stopped run
    | Evaluation.panicked ↦ panicked
    | Evaluation.unfinished ↦ unfinished
    | Evaluation.evaluated false ↦ k ran run
    | Evaluation.evaluated true ↦
        then_run
          (run_body e (port_value (run.outputs e.source_node_id) e.source_port) iteration body
            (clear e iteration body run))
          λ run'. iterate e body k left (suc iteration) true run'
  ]

  unfoldable pub run_downstream : List Str → Run F → Outcome F
  unfolding run_node find_node then_run
  run_downstream [] run = continued run
  run_downstream (id ∷ ids) run = elim (find_node g.nodes id none) [
    | none ↦ run_downstream ids run
    | some n ↦ then_run (run_node n (inputs_of n run) none run) λ run'. run_downstream ids run'
  ]

  -- Behind the last iteration: the nodes downstream run again if the body ran.
  unfoldable pub finish_loop : List Str → List Str → Bool → Run F → Outcome F
  unfolding run_downstream find_downstream
  finish_loop order body false run = continued run
  finish_loop order body true run = elim (find_downstream g.edges order body) [
    | none ↦ unfinished
    | some ids ↦ run_downstream ids run
  ]

  unfoldable pub run_loop : List Str → Edge → Run F → Outcome F
  unfolding iterate finish_loop loop_body max_iter
  run_loop order e run = elim (loop_body order e) [
    | none ↦ continued run
    | some body ↦ iterate e body (finish_loop order body) (max_iter e) 1 false run
  ]

  unfoldable pub run_loops : List Str → List Edge → Run F → Outcome F
  unfolding run_loop then_run
  run_loops order [] run = continued run
  run_loops order (e ∷ es) run = then_run (run_loop order e run) λ run'. run_loops order es run'

  unfoldable pub execute_loops : Run F → Outcome F
  unfolding run_loops topological_sort
  execute_loops run =
      let back_edges = select (λ (e : Edge). e.back_edge) g.edges in
      if length back_edges == 0 then continued run else elim (topological_sort g) [
        | sorted order ↦ run_loops order back_edges run
        | SortResult.cycle _ _ ↦ stopped run
        | SortResult.out_of_fuel ↦ unfinished
      ]
