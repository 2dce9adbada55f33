-- ===== src/Lib.antt =====
-- A model of the engine that validates and executes workflow graphs, with proofs of what it promises.
--
-- A graph has nodes with typed ports, edges between ports, and state fields. An edge is a forward edge or a
-- back-edge; the forward edges give the order of execution, and a back-edge repeats a part of the graph.
-- Validate (engine/graph/validate.go) checks a graph; the planners TopologicalSort and
-- ParallelGroups (engine/graph/topo.go) order its nodes; the orchestrator (engine/orchestrator) feeds each
-- node from defaults, state and edges, writes its results back, and skips the branches that a conditional
-- node does not take. Conditions are expressions (engine/expression), read byte by byte by a lexer and
-- parsed by recursive descent, and evaluated over the values that flow through the graph. A superagent node
-- works with built-in tools for tasks, buffers and memory (engine/executor/superagent_builtin_tools.go).
--
-- Model, Configs: the records of internal/model/model.go and internal/model/node_configs.go, as far as
--   validation and in-process execution read them. Json: a decoded JSON document. Value: the values that
--   flow through a graph, Go's `any`.
-- Graph.Topo: TopologicalSort in Sort, ParallelGroups in Groups. Degrees, Invariant, Fuel and Order prove
--   what the first does, Entries, Levels and Waves what the second does. Graph.Shape has the vocabulary of
--   both: identifiers, forward edges, rankings.
-- Graph.Cycles: the three-colour search of validateNoCycles in Search; Fuel, Gray, Finish and Ranking prove
--   what it finds.
-- Graph.Validate: the checks of validate.go, one function per function of the source, over an explicit report
--   (Report). Nodes, Edges, States, Wiring, Schema and Configs hold the checks, Run their order; Lemmas and
--   Sound what a valid report means, and Reachable what the search from the input nodes finds.
-- Orchestrator.Ports: initState, resolveInputs, applyStateWrites, isTruthy and the collection of outputs.
-- Orchestrator.Skips: propagateSkips and markSkipped.
-- Orchestrator.Conditions: EvalCondition.
-- Orchestrator.Loops: executeLoops (engine/orchestrator/loops.go), which runs alone; the executors are
--   parameters.
-- Expression.Token, Expression.Lexer: engine/expression/token.go and lexer.go. Expression.Syntax and
--   Expression.Parser: ast.go and parser.go, one function per level of the grammar, on lists of tokens.
-- Expression.Values, Filters, Operators, Outcome, Eval: engine/expression/eval.go. Values has the helpers on
--   values, Filters the filters that evaluate nothing, Operators the operators, Eval the evaluation itself and
--   the filters map and filter, which apply a lambda. Eval.Fuel, Plain, Results and Tame prove when it ends.
-- Expression.Template: engine/expression/template.go. The parser keeps positions in the text, because an error
--   can set them back.
-- Executors.Conditional: engine/executor/conditional.go. Executors.Transform: engine/executor/transform.go.
--   Executors.ForEach: engine/executor/foreach.go, where
--   the goroutines of the items interleave as steps of a relation; Results, Bounded and Progress prove what all
--   orders of steps have in common.
-- Executors.ToolLoop: RunToolLoop of engine/executor/llm_tool_loop.go; Limits proves what every run keeps.
-- Providers.Retry: RetryableProvider of engine/provider/retry.go, over a provider, a clock and a cancellation
--   that are a parameter (Inner).
-- Superagent: BuiltInToolDispatcher. Tasks, Buffers and Memory hold the state and its operations, Tools the
--   handlers and the dispatcher. Buffers.Frozen, Contents and Refinement, Memory.Keys, Memory.RoundTrip and
--   Tasks.Numbered prove what an operation does, Tools.Steps and Tools.Calls what calls do.
-- Prelude: the names of the libraries that the modules share, with tests, lists, text, counts and maps.
--
-- A Go string is the list of its bytes. A map is the function that reads it, or the list of its entries where
-- the source visits them; the order in which Go visits a map is a parameter. `int` is ℤ where it can be
-- negative, without a bound: the counters stay below the size of the graph.
--
-- Loops and recursive calls without a bound in the source run on fuel. TopologicalSort has as much as the
-- graph has nodes and edges: each round takes a node off the queue, and a node joins it once per incoming
-- edge or at the start. ParallelGroups has as much as the graph has nodes, since each round groups a node. The
-- cycle search has as much as the graph has nodes and edges, since each call colours a node. Skip propagation
-- has one unit more than the graph has edges, since each call skips a node that an edge leads to. The search for
-- unreachable nodes has as much as the graph has nodes and edges, the search for nodes downstream of a loop as
-- much as the graph has edges. The lexer has one unit more than the input has bytes, the parser one more than
-- there are tokens: each nested expression and each turn of a loop consumes one. Evaluation is structural but
-- for the body of a lambda, which costs a unit: one more than the lambdas nest is enough where lambdas are only
-- arguments of map and filter, and no number is enough in general. The parser of templates runs on fuel as well;
-- on templates with two #else in one #if no number is enough. The tool loop has one unit more than
-- max_iterations, since each iteration but the last counts towards it. The loops over back-edges need none of their
-- own; they end where the fuel of their Engine is enough for the conditions, and the executors return.
--
-- Parameters stand for what is not in the repository: decoding of JSON (`json.Unmarshal`), matches of the template
-- pattern (`regexp`), `strings.ToUpper`, `strconv.ParseInt` and `strconv.ParseFloat`; for evaluation also float64
-- arithmetic, printing, encoding and sorting (Library), for the tools of a superagent decoding and
-- `strings.Replace` (ToolLibrary), and for LoadFromState an encoding to JSON and back that keeps text in UTF-8.
-- The loops have the node executors as a parameter (Engine), which may fail, panic or not return, foreach the run
-- of an inner graph, and the tool loop a World of the provider, the interceptor, the tools and the cancellation. A
-- nil slice is an empty list, although Go encodes it as null.
--
-- Not modelled: the concurrent rounds of Execute, the node executors but for conditional, transform, foreach, the
-- tool loop and the built-in tools, the worker, and everything that only talks to services: providers but for
-- their retries, MCP, tracing, store, server and clients. The text of messages and log output is left out.
pub mod Prelude
pub mod Json
pub mod Model
pub mod Configs
pub mod Graph
pub mod Value
pub mod Orchestrator
pub mod Providers
pub mod Expression
pub mod Superagent
pub mod Executors
