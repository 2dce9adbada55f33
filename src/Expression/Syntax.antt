-- ===== src/Expression/Syntax.antt =====
-- engine/expression/ast.go. `F` stands for float64.
use brockleyai.Prelude.{Str, ℤ, Bool}

-- What a LiteralExpr holds.
pub data Literal (F : Type 0) : Type 0 where
  null : Literal F
  bool : Bool → Literal F
  int : ℤ → Literal F
  float : F → Literal F
  str : Str → Literal F

mutual
  pub data Expr (F : Type 0) : Type 0 where
    literal : Literal F → Expr F
    ident : Str → Expr F
    dot : Expr F → Str → Expr F
    index : Expr F → Expr F → Expr F
    optional_chain : Expr F → Str → Expr F
    binary : Str → Expr F → Expr F → Expr F
    unary : Str → Expr F → Expr F
    ternary : Expr F → Expr F → Expr F → Expr F
    null_coalesce : Expr F → Expr F → Expr F
    call : Expr F → Exprs F → Expr F
    piped : Expr F → Str → Exprs F → Expr F
    lambda : Str → Expr F → Expr F
    array : Exprs F → Expr F
    object : Fields F → Expr F

  pub data Exprs (F : Type 0) : Type 0 where
    no_exprs : Exprs F
    expr : Expr F → Exprs F → Exprs F

  -- The keys and values of an ObjectExpr, pair by pair.
  pub data Fields (F : Type 0) : Type 0 where
    no_fields : Fields F
    field : Str → Expr F → Fields F → Fields F
