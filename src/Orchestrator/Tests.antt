-- ===== src/Orchestrator/Tests.antt =====
-- A node with a default, a state read and an edge, and a conditional node whose branch is not taken, on which
-- the theorems about execution apply.
use brockleyai.Prelude.{
  ◌≢◌, true, Str, codes, ℕ, pos, ◌≡◌, refl, false, Option, none, some, List, [], ◌∷◌, suc, length,
  In, here, there, update, if◌then◌else◌,
}
use brockleyai.Prelude.Text.{str_eq}
use brockleyai.Model.{Graph, StateBinding, Node, Edge}
use brockleyai.Value.{
  int64, nil, int, arr, no_items, item, Table, Value, Entries, no_entries, entry,
}
use brockleyai.Expression.Values
use brockleyai.Expression.Eval.Tests.{library}
use brockleyai.Expression.Parser.{
  is_factor_op, is_sum_op, is_comparison_op, is_equality_op, is_and, is_or, is_coalesce,
}
use brockleyai.Orchestrator.Conditions.{eval_condition, differ, is_truthy-differ}
use brockleyai.Orchestrator.Ports.{is_truthy, empty, resolve_inputs, apply_state_writes}
use brockleyai.Orchestrator.Ports.Priority.{
  from_edges, from_reads, from_defaults, ◌orelse◌, append_items, written, resolve_inputs_priority,
  apply_state_writes_appends, apply_state_writes_frame,
}
use brockleyai.Orchestrator.Loops.{Engine, Run, returned, execute_loops, unfinished}
use brockleyai.Orchestrator.Loops.Bounds.{ExecutorsEnd, ConditionEnds, execute_loops-ne-unfinished}
use brockleyai.Orchestrator.Skips.Reasons.{IsExplained}
use brockleyai.Orchestrator.Skips.{Skips, propagate_skips}
use brockleyai.Orchestrator.Skips.Justified.{
  Grows, AreKilled, IsValueless, IsJustified, propagate_skips-IsJustified,
}

abbrev edge : Str → Str → Str → Edge
edge id source target = record {
  id = id;
  source_node_id = source;
  source_port = codes "out";
  target_node_id = target;
  target_port = codes "in";
  back_edge = false;
  condition = [];
  max_iterations = none;
}

-- b depends on the conditional node a, and c on b.
abbrev chain : List Edge
chain = edge (codes "e1") (codes "a") (codes "b") ∷ edge (codes "e2") (codes "b") (codes "c") ∷ []

abbrev branch : List Edge
branch = edge (codes "e1") (codes "a") (codes "b") ∷ []

abbrev unskipped : Skips
unskipped = record { dead = λ _. false; skipped = λ _. false }

In-head : (x e : Edge) (es : List Edge) → In e (x ∷ []) → In e (x ∷ es)
In-head x e es here = here
In-head x e es (there i) = elim i [ ]

propagate_skips-IsJustified_example :
    (s' : Skips) × (propagate_skips chain (suc (length chain)) (empty {F = ℕ}) branch unskipped
      ≡ some s')
    × Grows unskipped s'
    × AreKilled (empty {F = ℕ}) branch s'
    × IsExplained chain (IsValueless (empty {F = ℕ}) branch) unskipped s'
    × (IsJustified chain unskipped → IsJustified chain s')
propagate_skips-IsJustified_example =
    propagate_skips-IsJustified chain (empty {F = ℕ}) branch unskipped (λ e i. In-head _ e _ i)

abbrev binding : StateBinding
binding = record { state_field = codes "log"; port = codes "out" }

abbrev reader : Node
reader = record {
  id = codes "b";
  name = codes "b";
  node_type = codes "transform";
  input_ports =
      record { name = codes "in"; schema = []; required = none; default_value = some (codes "0") }
      ∷ [];
  output_ports = [];
  state_reads = record { state_field = codes "log"; port = codes "in" } ∷ [];
  state_writes = binding ∷ [];
  config = [];
}

abbrev log_state : Table ℕ
log_state = update empty (codes "log") (some (arr (item (int (pos 1)) no_items)))

abbrev results : Table ℕ
results = update empty (codes "out") (some (int (pos 2)))

abbrev node_outputs : Str → Option (Table ℕ)
node_outputs id = if str_eq id (codes "a") then some results else none

resolve_inputs_priority_example :
    resolve_inputs (λ _. nil) reader node_outputs branch log_state (codes "in") ≡ (
      from_edges node_outputs (codes "in") branch
      orelse (from_reads log_state (codes "in") reader.state_reads
          orelse from_defaults (λ _. nil) (codes "in") reader.input_ports))
resolve_inputs_priority_example =
    resolve_inputs_priority (λ _. nil) reader node_outputs branch log_state (codes "in")

logged : log_state (codes "log") ≡ some (arr (item (int (pos 1)) no_items))
unfolding str_eq
logged = refl

apply_state_writes_appends_example :
    apply_state_writes (binding ∷ []) results log_state (codes "log")
    ≡ some (
        arr (
          append_items
            (item (int (pos 1)) no_items)
            (written (binding ∷ []) results (codes "log"))))
apply_state_writes_appends_example =
    apply_state_writes_appends (binding ∷ []) results log_state (codes "log")
      (item (int (pos 1)) no_items) logged

-- An array that is written to an array becomes one item of it.
written_array :
    apply_state_writes
      (binding ∷ [])
      (update empty (codes "out") (some (arr (item (int (pos 3)) no_items))))
      log_state
      (codes "log")
    ≡ some (arr (item (int (pos 1)) (item (arr (item (int (pos 3)) no_items)) no_items)))
unfolding apply_state_writes str_eq
written_array = refl

-- `reader` is skipped, although its port gets a value from the state.
skipped_reader :
    elim (propagate_skips chain 3 (empty {F = ℕ}) branch unskipped) [
      | none ↦ false
      | some s ↦ s.skipped reader.id
    ]
    ≡ true
unfolding propagate_skips str_eq
skipped_reader = refl

unwritten : written (binding ∷ []) results (codes "other") ≡ no_items
unfolding str_eq
unwritten = refl

apply_state_writes_frame_example :
    apply_state_writes (binding ∷ []) results log_state (codes "other") ≡ log_state (codes "other")
apply_state_writes_frame_example =
    apply_state_writes_frame (binding ∷ []) results log_state (codes "other") unwritten

-- b returns to a while its condition holds, which it always does.
abbrev repeat_edge : Edge
repeat_edge = record {
  id = codes "e3";
  source_node_id = codes "b";
  source_port = codes "out";
  target_node_id = codes "a";
  target_port = codes "in";
  back_edge = true;
  condition = codes "true";
  max_iterations = some (pos 3);
}

abbrev worker : Str → Node
worker id = record {
  id = id;
  name = id;
  node_type = codes "transform";
  input_ports = [];
  output_ports = [];
  state_reads = [];
  state_writes = [];
  config = [];
}

abbrev looping : Graph
looping = record {
  id = codes "g";
  name = codes "g";
  nodes = worker (codes "a") ∷ worker (codes "b") ∷ worker (codes "c") ∷ [];
  edges = repeat_edge ∷ chain;
  state = none;
}

-- The maps of this graph have no other key than `log`.
abbrev log_listing : Option (Value ℕ) → Entries ℕ
log_listing none = no_entries
log_listing (some v) = entry (codes "log") v no_entries

abbrev engine : Engine ℕ
engine = record {
  decode = λ _. nil;
  library = library;
  fuel = 1;
  listing = λ t. log_listing (t (codes "log"));
  execute = λ _ _ _ _ _. returned results;
}

abbrev start : Run ℕ
start = record {
  outputs = λ _. none;
  state = empty;
  iteration_counts = λ _. 0;
  skipped = λ _. false;
  steps = [];
}

abbrev sequence : List Str
sequence = codes "a" ∷ codes "b" ∷ codes "c" ∷ []

abbrev repeated : List Str
repeated = codes "a" ∷ codes "b" ∷ []

executors_end : ExecutorsEnd engine
executors_end call n inputs state iteration e = absurd (cc e)

condition_ends : ConditionEnds engine repeat_edge
unfolding eval_condition str_eq is_factor_op is_sum_op is_comparison_op is_equality_op is_and is_or
    is_coalesce
condition_ends outputs state e = absurd (cc e)

conditions_end : (e : Edge) → In e looping.edges → e.back_edge ≡ true → ConditionEnds engine e
conditions_end e here back = condition_ends
conditions_end e (there here) back = absurd (cc back)
conditions_end e (there (there here)) back = absurd (cc back)
conditions_end e (there (there (there i))) back = elim i [ ]

execute_loops-ne-unfinished_example : execute_loops engine looping start ≢ unfinished
execute_loops-ne-unfinished_example =
    execute_loops-ne-unfinished engine looping executors_end start conditions_end

is_truthy-differ_example :
    differ library (is_truthy {F = ℕ} (int64 (pos 0))) (Values.is_truthy library (int64 (pos 0)))
    ≡ true
is_truthy-differ_example = is_truthy-differ library (int64 (pos 0))
