-- ===== src/Expression/Outcome.antt =====
-- The context and the outcome of an evaluation, engine/expression/eval.go.
use brockleyai.Prelude.{Str, Option}
use brockleyai.Value.{Value, Entries}
use brockleyai.Expression.Syntax.{Expr}

-- A nil map is `none`. A variable that a lambda binds is looked up first.
pub record Context (F : Type 0) : Type 0 where
  pub input : Option (Entries F)
  pub state : Option (Entries F)
  pub meta : Option (Entries F)
  pub vars : Str → Option (Value F)

pub data EvalError : Type 0 where
  unknown_binary : Str → EvalError
  unknown_unary : Str → EvalError
  unknown_filter : Str → EvalError
  marshal_error : EvalError
  parse_error : EvalError
  -- Of a template: `{{` or `{{raw}}` without an end, and a block without its end tag.
  unclosed_tag : EvalError
  unclosed_raw : EvalError
  missing_end : Str → EvalError

-- What an evaluation ends with; `unfinished` is the end of the fuel.
pub data Outcome {ℓ} (A : Type ℓ) : Type ℓ where
  evaluated : A → Outcome A
  failed : EvalError → Outcome A
  panicked : Outcome A
  unfinished : Outcome A

infixl 5 ◌>>=◌
abbrev pub ◌>>=◌ {ℓ κ} : {A : Type ℓ} {B : Type κ} → Outcome A → (A → Outcome B) → Outcome B
evaluated a >>= f = f a
failed e >>= f = failed e
panicked >>= f = panicked
unfinished >>= f = unfinished

-- The evaluation of an expression.
abbrev pub Evaluator : Type 0 → Type 0
Evaluator F = Context F → Expr F → Outcome (Value F)
