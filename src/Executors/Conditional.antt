-- ===== src/Executors/Conditional.antt =====
-- engine/executor/conditional.go: the branches are tried in order, and the port of the first whose condition
-- holds gets the input `value`.
pub mod Taken
use brockleyai.Prelude.{
  Str, codes, ℕ, Bool, true, false, Option, none, some, List, [], ◌∷◌, if◌then◌else◌,
}
use brockleyai.Value.{Value, Entries, Table, no_entries, entry}
use brockleyai.Expression.Values.{Library, find_key, or_nil, is_truthy}
use brockleyai.Expression.Outcome.{Context, Outcome, evaluated, failed, panicked, unfinished, ◌>>=◌}
use brockleyai.Expression.Eval.{eval}

pub record Branch : Type 0 where
  pub label : Str
  pub condition : Str

pub record ConditionalNodeConfig : Type 0 where
  pub branches : List Branch
  pub default_label : Str

-- The state and the metadata of a node, and the context of its conditions.
pub record NodeContext (F : Type 0) : Type 0 where
  pub state : Option (Entries F)
  pub meta : Option (Entries F)

unfoldable pub expr_context : {F : Type 0} → Entries F → Option (NodeContext F) → Context F
expr_context inputs none = record {
  input = some inputs;
  state = none;
  meta = none;
  vars = λ _. none;
}
expr_context inputs (some nctx) = record {
  input = some inputs;
  state = nctx.state;
  meta = nctx.meta;
  vars = λ _. none;
}

module _ {F : Type 0} (lib : Library F) (fuel : ℕ) where
  -- The loop over the branches: the label of the first that matches.
  unfoldable pub first_match : Context F → List Branch → Outcome (Option Str)
  unfolding eval is_truthy
  first_match ctx [] = evaluated none
  first_match ctx (b ∷ bs) = eval lib fuel b.condition ctx >>= λ v. elim (is_truthy lib v) [
    | true ↦ evaluated (some b.label)
    | false ↦ first_match ctx bs
  ]

  unfoldable pub fired : ConditionalNodeConfig → Value F → Option Str → Entries F
  fired cfg value (some label) = entry label value no_entries
  fired cfg value none = elim cfg.default_label [
    | [] ↦ no_entries
    | c ∷ s ↦ entry (c ∷ s) value no_entries
  ]

  -- Execute, behind the decoding of the configuration: the outputs of the node.
  unfoldable pub execute_conditional :
      ConditionalNodeConfig → Entries F → Option (NodeContext F) → Outcome (Entries F)
  unfolding expr_context first_match fired find_key
  execute_conditional cfg inputs nctx =
      first_match (expr_context inputs nctx) cfg.branches >>= λ label.
      evaluated (fired cfg (or_nil (find_key (codes "value") inputs)) label)
