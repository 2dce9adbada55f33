-- ===== src/Orchestrator/Loops/Bounds.antt =====
-- How much work the loops over back-edges do.
use brockleyai.Prelude.{
  Str, In, here, there, ℕ, zero, suc, ◌+◌, ◌*◌, ◌≤◌, ◌≡◌, ◌≢◌, ◌==◌, refl, Bool, true, false,
  Option, none, some, List, [], ◌∷◌, length, length-append, map, length-map, select, mem, arith,
  Bool-cases, Option-cases, inl, inr,
}
use brockleyai.Model.{Node, Edge, Graph}
use brockleyai.Value.{Value, Table}
use brockleyai.Expression.Outcome as Evaluation
use brockleyai.Orchestrator.Conditions.{eval_condition}
use brockleyai.Graph.Validate.Nodes.{is_input}
use brockleyai.Graph.Topo.Sort.{topological_sort, SortResult, sorted}
use brockleyai.Graph.Topo.Fuel.{topological_sort-ne-out_of_fuel}
use brockleyai.Graph.Validate.Wiring.{mark_new}
use brockleyai.Graph.Validate.Reachable.{unseen, unseen-le, mark_new-shrinks, reach-total}
use brockleyai.Orchestrator.Skips.Reasons.{In-selected}
use brockleyai.Orchestrator.Loops.{
  exits, first_exits, run_loops, execute_loops, Execution, no_executor, execution_failed,
  returned_nil, returned, execution_panicked, never_returned, test_condition, listed, Run, Outcome,
  continued, stopped, panicked, unfinished, Engine, then_run, port_value, find_node, max_iter,
  loop_body, find_downstream, run_node, run_body, iterate, run_downstream, finish_loop, run_loop,
  clear,
}

-- The call came to an end with at most `n` steps recorded, unless it panicked.
abbrev pub IsBounded : {F : Type 0} → ℕ → Outcome F → Type 0
IsBounded n (continued run) = length run.steps ≤ n
IsBounded n (stopped run) = length run.steps ≤ n
IsBounded n panicked = Unit
IsBounded n unfinished = ⊥

IsBounded-weaken : {F : Type 0} (n m : ℕ) (r : Outcome F) → n ≤ m → IsBounded n r → IsBounded m r
IsBounded-weaken n m (continued run) h k = omega arith
IsBounded-weaken n m (stopped run) h k = omega arith
IsBounded-weaken n m panicked h k = tt
IsBounded-weaken n m unfinished h k = k

then_run-IsBounded :
    {F : Type 0} (n m : ℕ) (r : Outcome F) (k : Run F → Outcome F)
    → n ≤ m
    → IsBounded n r
    → ((run : Run F) → length run.steps ≤ n → IsBounded m (k run))
    → IsBounded m (then_run r k)
unfolding then_run
then_run-IsBounded n m (continued run) k le h next = next run h
then_run-IsBounded n m (stopped run) k le h next = omega arith
then_run-IsBounded n m panicked k le h next = tt
then_run-IsBounded n m unfinished k le h next = h

-- Every call of an executor ends.
abbrev pub ExecutorsEnd : {F : Type 0} → Engine F → Type 0
ExecutorsEnd {F = F} engine =
    (call : ℕ) (n : Node) (inputs state : Table F) (iteration : Option ℕ)
    → engine.execute call n inputs state iteration ≢ never_returned

-- The evaluation of the condition ends within the fuel, on all outputs and states.
abbrev pub ConditionEnds : {F : Type 0} → Engine F → Edge → Type 0
ConditionEnds {F = F} engine e =
    (outputs : Option (Table F)) (state : Table F)
    → eval_condition engine.library engine.fuel e.condition (listed engine.listing outputs)
        (some (engine.listing state))
      ≢ Evaluation.unfinished

module _ {F : Type 0} (engine : Engine F) (g : Graph) (executors_end : ExecutorsEnd engine) where
  run_node-IsBounded :
      (n : Node) (inputs : Table F) (iteration : Option ℕ) (run : Run F)
      → IsBounded (length run.steps + 1) (run_node engine g n inputs iteration run)
  unfolding run_node
  run_node-IsBounded n inputs iteration run =
      by_result (engine.execute (length run.steps) n inputs run.state iteration) refl
    where
      by_result :
          (r : Execution F)
          → engine.execute (length run.steps) n inputs run.state iteration ≡ r
          → IsBounded (length run.steps + 1) (run_node engine g n inputs iteration run)
      by_result no_executor e = rw (e, run_node) (omega arith)
      by_result execution_failed e = rw (e, run_node) (omega (arith, length-append run.steps _))
      by_result returned_nil e = rw (e, run_node) tt
      by_result execution_panicked e = rw (e, run_node) tt
      by_result never_returned e =
          absurd (executors_end (length run.steps) n inputs run.state iteration e)
      by_result (returned outputs) e = rw (e, run_node) (omega (arith, length-append run.steps _))

  run_body-IsBounded :
      (e : Edge) (value : Option (Value F)) (iteration : ℕ) (ids : List Str) (run : Run F)
      → IsBounded (length run.steps + length ids) (run_body engine g e value iteration ids run)
  unfolding run_body
  run_body-IsBounded e value iteration [] run = omega arith
  run_body-IsBounded e value iteration (id ∷ ids) run =
      let skipping =
        IsBounded-weaken _ (length run.steps + suc (length ids)) _ (omega arith)
          (run_body-IsBounded e value iteration ids run) in
      elim (Option-cases (find_node g.nodes id none)) [
        | inl missing ↦ rw (missing, run_body) skipping
        | inr (n, found) ↦ elim (Bool-cases (is_input n)) [
          | inl input ↦ rw (found, input, run_body) skipping
          | inr other ↦
              rw (found, other, run_body)
                (then_run-IsBounded (length run.steps + 1) _ _ _ (omega arith)
                  (run_node-IsBounded n _ (some iteration) run)
                  λ run' h.
                    IsBounded-weaken _ _ _ (omega arith)
                      (run_body-IsBounded e value iteration ids run'))
        ]
      ]

  run_downstream-IsBounded :
      (ids : List Str) (run : Run F)
      → IsBounded (length run.steps + length ids) (run_downstream engine g ids run)
  unfolding run_downstream
  run_downstream-IsBounded [] run = omega arith
  run_downstream-IsBounded (id ∷ ids) run = elim (Option-cases (find_node g.nodes id none)) [
    | inl missing ↦
        rw (missing, run_downstream)
          (IsBounded-weaken _ (length run.steps + suc (length ids)) _ (omega arith)
            (run_downstream-IsBounded ids run))
    | inr (n, found) ↦
        rw (found, run_downstream)
          (then_run-IsBounded (length run.steps + 1) _ _ _ (omega arith)
            (run_node-IsBounded n _ none run)
            λ run' h. IsBounded-weaken _ _ _ (omega arith) (run_downstream-IsBounded ids run'))
  ]

  iterate-IsBounded :
      (e : Edge) (body : List Str) (k : Bool → Run F → Outcome F) (extra : ℕ)
      → ConditionEnds engine e
      → ((ran : Bool) (run : Run F) → IsBounded (length run.steps + extra) (k ran run))
      → (left iteration : ℕ) (ran : Bool) (run : Run F)
      → IsBounded
          (length run.steps + left * length body + extra)
          (iterate engine g e body k left iteration ran run)
  unfolding iterate test_condition
  iterate-IsBounded e body k extra condition_ends ends zero iteration ran run =
      IsBounded-weaken _ _ _ (omega arith) (ends ran run)
  iterate-IsBounded e body k extra condition_ends ends (suc left) iteration ran run =
      by_condition (test_condition engine g e run) refl (
        then_run-IsBounded (length run.steps + length body) _ _ _ (omega arith)
          (run_body-IsBounded e _ iteration body (clear e iteration body run))
          λ run' h.
            IsBounded-weaken _ _ _ (omega (arith, h))
              (iterate-IsBounded e body k extra condition_ends ends left (suc iteration) true run'))
    where
      bound : ℕ
      bound = length run.steps + suc left * length body + extra

      by_condition :
          (r : Evaluation.Outcome Bool)
          → test_condition engine g e run ≡ r
          → IsBounded bound (
              then_run
                (run_body engine g e
                  (port_value (run.outputs e.source_node_id) e.source_port)
                  iteration
                  body
                  (clear e iteration body run))
                λ run'. iterate engine g e body k left (suc iteration) true run')
          → IsBounded bound (iterate engine g e body k (suc left) iteration ran run)
      by_condition (Evaluation.failed d) t turn = rw (t, iterate) (omega arith)
      by_condition Evaluation.panicked t turn = rw (t, iterate) tt
      by_condition Evaluation.unfinished t turn =
          absurd (condition_ends (run.outputs e.source_node_id) run.state t)
      by_condition (Evaluation.evaluated true) t turn = rw (t, iterate) turn
      by_condition (Evaluation.evaluated false) t turn =
          rw (t, iterate) (IsBounded-weaken _ _ _ (omega arith) (ends ran run))

length-select : (p : Str → Bool) (xs : List Str) → length (select p xs) ≤ length xs
length-select p [] = omega arith
length-select p (x ∷ xs) = ground (arith, length-select p xs)

exits-mem :
    (edges : List Edge) (body : List Str) (c t : Str)
    → mem t (exits edges body c) ≡ true
    → mem t (map (λ (e : Edge). e.target_node_id) edges) ≡ true
exits-mem [] body c t h = h
exits-mem (e ∷ edges) body c t h = ground (arith, h, exits-mem edges body c t)

first_exits-shrinks :
    (edges : List Edge) (body ids visited queue : List Str)
    → length (first_exits edges body ids visited queue).1
        + unseen
            (first_exits edges body ids visited queue).0
            (map (λ (e : Edge). e.target_node_id) edges)
      ≤ length queue + unseen visited (map (λ (e : Edge). e.target_node_id) edges)
unfolding first_exits
first_exits-shrinks edges body [] visited queue = omega arith
first_exits-shrinks edges body (id ∷ ids) visited queue =
    let us = map (λ (e : Edge). e.target_node_id) edges in
    omega (
      arith,
      mark_new-shrinks us (exits edges body id) visited queue (exits-mem edges body id),
      first_exits-shrinks edges body ids (mark_new (exits edges body id) visited queue).0
          (mark_new (exits edges body id) visited queue).1,
    )

find_downstream-total :
    (edges : List Edge) (order body : List Str)
    → (ids : List Str) × (find_downstream edges order body ≡ some ids) × (length ids ≤ length order)
unfolding find_downstream
find_downstream-total edges order body =
    let us = map (λ (e : Edge). e.target_node_id) edges in
    let (found, ran) =
      reach-total us (exits edges body) (exits-mem edges body) (length edges)
        (first_exits edges body body [] []).0 (first_exits edges body body [] []).1
        (omega (
          arith,
          first_exits-shrinks edges body body [] [],
          unseen-le [] us,
          length-map (λ (e : Edge). e.target_node_id) edges,
        )) in
    (
      select (λ id. mem id found) order,
      rw (ran, find_downstream),
      length-select (λ id. mem id found) order,
    )

IsBounded-ends : {F : Type 0} (n : ℕ) (r : Outcome F) → IsBounded n r → r ≢ unfinished
IsBounded-ends n (continued run) h e = absurd (cc e)
IsBounded-ends n (stopped run) h e = absurd (cc e)
IsBounded-ends n panicked h e = absurd (cc e)
IsBounded-ends n unfinished h e = h

then_run-ends :
    {F : Type 0} (r : Outcome F) (k : Run F → Outcome F)
    → r ≢ unfinished
    → ((run : Run F) → k run ≢ unfinished)
    → then_run r k ≢ unfinished
unfolding then_run
then_run-ends (continued run) k h next = next run
then_run-ends (stopped run) k h next = λ e. absurd (cc e)
then_run-ends panicked k h next = λ e. absurd (cc e)
then_run-ends unfinished k h next = h

module _ {F : Type 0} (engine : Engine F) (g : Graph) (executors_end : ExecutorsEnd engine) where
  finish_loop-IsBounded :
      (order body : List Str) (ran : Bool) (run : Run F)
      → IsBounded (length run.steps + length order) (finish_loop engine g order body ran run)
  unfolding finish_loop
  finish_loop-IsBounded order body false run = omega arith
  finish_loop-IsBounded order body true run =
      let (ids, found, le) = find_downstream-total g.edges order body in
      rw (found, finish_loop)
        (IsBounded-weaken _ _ _ (omega arith)
          (run_downstream-IsBounded engine g executors_end ids run))

  pub run_loop-IsBounded :
      (order body : List Str) (e : Edge) (run : Run F)
      → ConditionEnds engine e
      → loop_body order e ≡ some body
      → IsBounded
          (length run.steps + max_iter e * length body + length order)
          (run_loop engine g order e run)
  unfolding run_loop
  run_loop-IsBounded order body e run condition_ends h =
      rw (h, run_loop)
        (iterate-IsBounded engine g executors_end e body (finish_loop engine g order body)
          (length order) condition_ends (finish_loop-IsBounded order body) (max_iter e) 1 false run)

  run_loop-ends :
      (order : List Str) (e : Edge) (run : Run F)
      → ConditionEnds engine e
      → run_loop engine g order e run ≢ unfinished
  unfolding run_loop
  run_loop-ends order e run condition_ends = elim (Option-cases (loop_body order e)) [
    | inl absent ↦ rw (absent, run_loop) (λ h. absurd (cc h))
    | inr (body, found) ↦
        IsBounded-ends _ _ (run_loop-IsBounded order body e run condition_ends found)
  ]

  run_loops-ends :
      (order : List Str) (es : List Edge) (run : Run F)
      → ((e : Edge) → In e es → ConditionEnds engine e)
      → run_loops engine g order es run ≢ unfinished
  unfolding run_loops
  run_loops-ends order [] run conditions_end = λ h. absurd (cc h)
  run_loops-ends order (e ∷ es) run conditions_end =
      then_run-ends (run_loop engine g order e run) _
        (run_loop-ends order e run (conditions_end e here))
        (λ run'. run_loops-ends order es run' (λ e' i. conditions_end e' (there i)))

  -- If every call of an executor ends, and so does the evaluation of the condition of every back-edge, then the
  -- execution of the loops ends on every graph: the search for downstream nodes and the sort never lack fuel.
  pub execute_loops-ne-unfinished :
      (run : Run F)
      → ((e : Edge) → In e g.edges → e.back_edge ≡ true → ConditionEnds engine e)
      → execute_loops engine g run ≢ unfinished
  unfolding execute_loops
  execute_loops-ne-unfinished run conditions_end =
      elim (Bool-cases (length (select (λ (e : Edge). e.back_edge) g.edges) == 0)) [
        | inl none_there ↦ rw (none_there, execute_loops) (λ h. absurd (cc h))
        | inr some_there ↦
            rw (some_there, execute_loops)
              (by_order (topological_sort g) (topological_sort-ne-out_of_fuel g))
      ]
    where
      by_order :
          (r : SortResult)
          → r ≢ SortResult.out_of_fuel
          → elim r [
            | sorted order ↦
                run_loops engine g order (select (λ (e : Edge). e.back_edge) g.edges) run
            | SortResult.cycle _ _ ↦ stopped run
            | SortResult.out_of_fuel ↦ unfinished
          ]
            ≢ unfinished
      by_order (sorted order) h = run_loops-ends order _ run (λ e i.
          let (among, back) = In-selected (λ (e : Edge). e.back_edge) g.edges e i in
          conditions_end e among back)
      by_order (SortResult.cycle _ _) h = λ e. absurd (cc e)
      by_order SortResult.out_of_fuel h = λ e. h refl
