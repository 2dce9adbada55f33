-- ===== src/Executors/Tests.antt =====
-- A conditional node with two branches, of which the first does not hold, a foreach over two items, a tool loop, and a
-- transform node with two expressions.
use brockleyai.Prelude.{
  some, suc, List, true, Str, codes, ℕ, ◌≡◌, refl, false, Option, none, [], ◌∷◌, pos, ◌<◌, ◌⊎◌, ◌≤◌,
  ◌==◌, if◌then◌else◌, ok, err, arith,
}
use brockleyai.Prelude.Text.{str_eq}
use brockleyai.Value.{bool, no_items, item, Entries, int64, no_entries, entry}
use brockleyai.Expression.Values.{find_key}
use brockleyai.Expression.Outcome.{evaluated}
use brockleyai.Expression.Eval.Tests.{library}
use brockleyai.Expression.Parser.{
  is_factor_op, is_sum_op, is_comparison_op, is_equality_op, is_and, is_or, is_coalesce,
}
use brockleyai.Executors.Conditional.{ConditionalNodeConfig, expr_context, execute_conditional}
use brockleyai.Executors.Conditional.Taken.{IsFirst, Carries, Prunes, execute_conditional-fires}
use brockleyai.Executors.ForEach.Progress.{left, AllOver, CanStep, Step-ends}
use brockleyai.Executors.Transform.{OutputExpression, execute_transform}
use brockleyai.Executors.Transform.Outputs.{is_named, execute_transform_lem}
use brockleyai.Executors.ToolLoop.{CompletionResponse, World, ToolLoopConfig}
use brockleyai.Executors.ForEach.{
  Step, executing, holding, waiting, over, Loop, ForEach, start, set_phase, in_flight, finish,
  spawn, acquire, begin, complete, Reach, begun, after, count_items, item_of, conclude,
}
use brockleyai.Executors.ForEach.Results.{in_order, count_errors, failures, conclude_lem}
use brockleyai.Executors.ForEach.Bounded.{in_flight-le-concurrency}

abbrev config : ConditionalNodeConfig
config = record {
  branches =
      record { label = codes "yes"; condition = codes "false" }
      ∷ record { label = codes "no"; condition = codes "true" }
      ∷ [];
  default_label = [];
}

abbrev inputs : Entries ℕ
inputs = entry (codes "value") (int64 (pos 7)) no_entries

abbrev outputs : Entries ℕ
outputs = entry (codes "no") (int64 (pos 7)) no_entries

runs : execute_conditional library 1 config inputs none ≡ evaluated outputs
unfolding execute_conditional str_eq is_factor_op is_sum_op is_comparison_op is_equality_op is_and
    is_or is_coalesce
runs = refl

execute_conditional-fires_example :
    (o : Option Str) × IsFirst library 1 (expr_context inputs none) config.branches o
    × Carries library 1 config inputs o outputs
    × Prunes library 1 config inputs o outputs
execute_conditional-fires_example =
    execute_conditional-fires library 1 config inputs none outputs runs

-- Two items, of which the second fails and is over first.
abbrev two : ForEach ℕ
two = record {
  items = item (int64 (pos 1)) (item (int64 (pos 2)) no_items);
  concurrency = pos 2;
  abort = false;
  run = λ i v. if i == 0 then ok no_entries else err (codes "bad");
}

abbrev both_started : Loop ℕ
both_started = set_phase 1 executing (
    set_phase 1 holding (
      set_phase 0 executing (
        set_phase 0 holding (
          set_phase 1 waiting
            (record (set_phase 0 waiting (record (start {F = ℕ}) { next = 1 })) { next = 2 })))))

abbrev ended : Loop ℕ
ended = finish two 0 (ok no_entries) (finish two 1 (err (codes "bad")) both_started)

Reach-started : Reach two both_started
unfolding in_flight
Reach-started =
    after
      (after
        (after
          (after (after (after begun (spawn start (omega arith) refl)) (spawn _ (omega arith) refl))
            (acquire _ 0 (omega arith) refl (omega arith)))
          (begin _ 0 (omega arith) refl refl))
        (acquire _ 1 (omega arith) refl (omega arith)))
      (begin _ 1 (omega arith) refl refl)

Reach-ended : Reach two ended
unfolding finish
Reach-ended =
    after (after Reach-started (complete both_started 1 (omega arith) refl))
      (complete (finish two 1 (err (codes "bad")) both_started) 0 (omega arith) refl)

ended_over : (i : ℕ) → i < count_items two → ended.phase i ≡ over
unfolding finish
ended_over i h = ground (arith, h)

conclude_lem_example :
    (conclude two ended ≡ ok (in_order two two.items 0, ended.errors))
    × ((i : ℕ)
        → i < count_items two
        → count_errors i ended.errors ≡ failures (two.run i (item_of two i)))
conclude_lem_example = conclude_lem two ended refl Reach-ended ended_over

in_flight-le-concurrency_example : in_flight both_started.phase (count_items two) ≤ 2
in_flight-le-concurrency_example = in_flight-le-concurrency two 1 both_started refl Reach-started

Step-ends_example :
    ((t : Loop ℕ) → Step two both_started t → left two t < left two both_started)
    × (AllOver two both_started ⊎ CanStep two both_started)
Step-ends_example = Step-ends two both_started refl Reach-started

-- The model calls two tools in its first answer, of which one is intercepted and one is unknown.
abbrev first_answer : CompletionResponse
first_answer = record {
  content = [];
  finish_reason = codes "tool_calls";
  tool_calls =
      record { id = codes "1"; name = codes "_task_list"; arguments = [] }
      ∷ record { id = codes "2"; name = codes "search"; arguments = [] }
      ∷ [];
}

abbrev last_answer : CompletionResponse
last_answer = record { content = codes "done"; finish_reason = codes "stop"; tool_calls = [] }

abbrev service : World ℕ
service = record {
  is_cancelled = λ w. false;
  complete = λ w messages. (ok (if w == 0 then first_answer else last_answer), suc w);
  intercept =
      λ w name args. (if str_eq name (codes "_task_list") then some (codes "[]") else none, w);
  call_endpoint = λ w route name args. (err [], w);
  resolve_client = λ w route. (none, w);
  call_tool = λ w route name args. (err [], w);
  unmarshal = λ text. none;
  not_available = λ name. codes "Error";
}

abbrev loop_config : ToolLoopConfig
loop_config = record { routing = λ name. none; max_calls = pos 25; max_iterations = pos 10 }

abbrev transforms : List OutputExpression
transforms =
    record { name = codes "a"; expression = codes "true" }
    ∷ record { name = codes "b"; expression = codes "true" }
    ∷ []

execute_transform_lem_example :
    (outs : Entries ℕ) × (execute_transform library 1 transforms inputs none ≡ evaluated outs)
    × ((name : Str)
        → find_key name outs ≡ (if is_named name transforms then some (bool true) else none))
unfolding execute_transform str_eq is_factor_op is_sum_op is_comparison_op is_equality_op is_and
    is_or is_coalesce
execute_transform_lem_example =
    execute_transform_lem library 1 transforms inputs none (λ name. bool true) (refl, (refl, tt))
