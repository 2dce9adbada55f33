-- ===== src/Executors/Transform.antt =====
-- engine/executor/transform.go: one output port for each expression. The order in which the map of expressions
-- is visited is the order of the list.
pub mod Outputs
use brockleyai.Prelude.{Str, ℕ, Option, List, [], ◌∷◌}
use brockleyai.Value.{Entries, no_entries}
use brockleyai.Expression.Values.{Library, put_key}
use brockleyai.Expression.Outcome.{Context, Outcome, evaluated, ◌>>=◌}
use brockleyai.Expression.Eval.{eval}
use brockleyai.Executors.Conditional.{NodeContext, expr_context}

-- An entry of `Expressions` of TransformNodeConfig.
pub record OutputExpression : Type 0 where
  pub name : Str
  pub expression : Str

module _ {F : Type 0} (lib : Library F) (fuel : ℕ) where
  unfoldable pub transform_outputs :
      Context F → List OutputExpression → Entries F → Outcome (Entries F)
  unfolding eval put_key
  transform_outputs ctx [] outputs = evaluated outputs
  transform_outputs ctx (e ∷ es) outputs = eval lib fuel e.expression ctx >>= λ result.
      transform_outputs ctx es (put_key e.name result outputs)

  -- Execute, behind the decoding of the configuration.
  unfoldable pub execute_transform :
      List OutputExpression → Entries F → Option (NodeContext F) → Outcome (Entries F)
  unfolding expr_context transform_outputs
  execute_transform expressions inputs nctx =
      transform_outputs (expr_context inputs nctx) expressions no_entries
