-- ===== src/Expression/Parser.antt =====
-- engine/expression/parser.go. The state of the parser is the list of the tokens from its position on.
-- parseExpression calls itself through the levels below it; here each such call costs a unit of fuel, and
-- `go` is the call. The loops inside a level have fuel of their own.
pub mod Within
pub mod Termination
use brockleyai.Prelude.{
  Str, str_eq, codes, ℕ, ℤ, zero, suc, Bool, true, false, ◌||◌, ◌==◌, Option, none, some, List, [],
  ◌∷◌, if◌then◌else◌, length,
}
use brockleyai.Expression.Token.{
  TokenType, Token, code_of, string_token, int_token, float_token, bool_token, null_token, ident,
  dot, l_bracket, r_bracket, l_paren, r_paren, l_brace, r_brace, comma, colon, pipe, arrow, equals,
  not_equals, greater, greater_equals, less, less_equals, and_token, or_token, not_token, plus,
  minus, star, slash, percent, null_coalesce, optional_chain, question, eof,
}
use brockleyai.Expression.Lexer.{LexResult, lex, lexed}
use brockleyai.Expression.Syntax
use brockleyai.Expression.Syntax.{Literal, Expr, Exprs, Fields, no_exprs, expr, no_fields, field}

-- A value with the tokens behind it, or an error; `unfinished` is the end of the fuel.
pub data ParseResult {ℓ} (A : Type ℓ) : Type ℓ where
  parsed : A → List Token → ParseResult A
  failed : ParseResult A
  unfinished : ParseResult A

-- `x, err := p(...); if err != nil { return nil, err }`
unfoldable pub then_parse {ℓ κ} :
    {A : Type ℓ} {B : Type κ} → ParseResult A → (A → List Token → ParseResult B) → ParseResult B
then_parse (parsed a ts) k = k a ts
then_parse failed k = failed
then_parse unfinished k = unfinished

-- peek: behind the last token stands an EOF at position 0.
abbrev pub peek : List Token → Token
peek [] = record { kind = eof; value = []; pos = 0 }
peek (t ∷ ts) = t

abbrev pub advance : List Token → List Token
advance [] = []
advance (t ∷ ts) = ts

-- `p.peek().Type == kind`
abbrev pub at : TokenType → List Token → Bool
at kind ts = code_of (peek ts).kind == code_of kind

unfoldable pub expect : TokenType → List Token → ParseResult Token
unfolding code_of
expect kind ts = if at kind ts then parsed (peek ts) (advance ts) else failed

abbrev pub Level : Type 0 → Type 0
Level A = List Token → ParseResult A

unfoldable pub is_factor_op : TokenType → Bool
is_factor_op star = true
is_factor_op slash = true
is_factor_op percent = true
is_factor_op _ = false

unfoldable pub is_sum_op : TokenType → Bool
is_sum_op plus = true
is_sum_op minus = true
is_sum_op _ = false

unfoldable pub is_comparison_op : TokenType → Bool
is_comparison_op greater = true
is_comparison_op greater_equals = true
is_comparison_op less = true
is_comparison_op less_equals = true
is_comparison_op _ = false

unfoldable pub is_equality_op : TokenType → Bool
is_equality_op equals = true
is_equality_op not_equals = true
is_equality_op _ = false

unfoldable pub is_and : TokenType → Bool
is_and and_token = true
is_and _ = false

unfoldable pub is_or : TokenType → Bool
is_or or_token = true
is_or _ = false

unfoldable pub is_coalesce : TokenType → Bool
is_coalesce null_coalesce = true
is_coalesce _ = false

module _ {F : Type 0} where
  -- parseArgList, and the same loop in parseArrayLiteral.
  unfoldable pub parse_arg_list : Level (Expr F) → ℕ → Level (Exprs F)
  unfolding then_parse code_of
  parse_arg_list go zero ts = unfinished
  parse_arg_list go (suc n) ts = then_parse (go ts) λ arg rest. elim (at comma rest) [
    | true ↦
        then_parse (parse_arg_list go n (advance rest)) λ args rest'. parsed (expr arg args) rest'
    | false ↦ parsed (expr arg no_exprs) rest
  ]

  -- The arguments up to a closing token, which is consumed.
  unfoldable pub parse_args : TokenType → Level (Expr F) → ℕ → Level (Exprs F)
  unfolding parse_arg_list expect
  parse_args close go n ts =
      then_parse (elim (at close ts) [ true ↦ parsed no_exprs ts | false ↦ parse_arg_list go n ts ])
        λ args rest. then_parse (expect close rest) λ _ rest'. parsed args rest'

  -- The loop of parseObjectLiteral.
  unfoldable pub parse_fields : Level (Expr F) → ℕ → Level (Fields F)
  unfolding expect then_parse code_of
  parse_fields go zero ts = unfinished
  parse_fields go (suc n) ts = elim (at ident ts || at string_token ts) [
    | false ↦ failed
    | true ↦ then_parse (expect colon (advance ts)) λ _ behind. then_parse (go behind) λ v rest.
        elim (at comma rest) [
          | true ↦
              then_parse (parse_fields go n (advance rest))
                λ fs rest'. parsed (field (peek ts).value v fs) rest'
          | false ↦ parsed (field (peek ts).value v no_fields) rest
        ]
  ]

  unfoldable pub parse_object_literal : Level (Expr F) → ℕ → Level (Expr F)
  unfolding parse_fields
  parse_object_literal go n ts =
      then_parse
        (elim (at r_brace ts) [ true ↦ parsed no_fields ts | false ↦ parse_fields go n ts ])
        λ fs rest. then_parse (expect r_brace rest) λ _ rest'. parsed (Syntax.object fs) rest'

  abbrev pub number : {A : Type 0} → Option A → (A → Literal F) → List Token → ParseResult (Expr F)
  number none make rest = failed
  number (some v) make rest = parsed (Syntax.literal (make v)) rest

  -- An identifier, which may be the parameter of a lambda.
  unfoldable pub parse_ident : Level (Expr F) → Level (Expr F)
  unfolding then_parse code_of
  parse_ident go ts = elim (at arrow (advance ts)) [
    | true ↦
        then_parse (go (advance (advance ts)))
          λ body rest. parsed (Syntax.lambda (peek ts).value body) rest
    | false ↦ parsed (Syntax.ident (peek ts).value) (advance ts)
  ]

  unfoldable pub parse_parens : Level (Expr F) → Level (Expr F)
  unfolding expect then_parse
  parse_parens go ts =
      then_parse (go (advance ts))
        λ e rest. then_parse (expect r_paren rest) λ _ rest'. parsed e rest'

  unfoldable pub parse_array_literal : Level (Expr F) → ℕ → Level (Expr F)
  unfolding parse_args
  parse_array_literal go n ts =
      then_parse (parse_args r_bracket go n (advance ts)) λ es rest. parsed (Syntax.array es) rest

  -- `strconv.ParseInt` and `strconv.ParseFloat`; `none` is an error.
  module _ (parse_int : Str → Option ℤ) (parse_float : Str → Option F) where
    unfoldable pub parse_primary : Level (Expr F) → ℕ → Level (Expr F)
    unfolding parse_ident parse_parens parse_array_literal parse_object_literal
    parse_primary go n ts = elim (peek ts).kind [
      | string_token ↦ parsed (Syntax.literal (Syntax.str (peek ts).value)) (advance ts)
      | int_token ↦ number (parse_int (peek ts).value) Syntax.int (advance ts)
      | float_token ↦ number (parse_float (peek ts).value) Syntax.float (advance ts)
      | bool_token ↦
          parsed (Syntax.literal (Syntax.bool (str_eq (peek ts).value (codes "true")))) (advance ts)
      | null_token ↦ parsed (Syntax.literal Syntax.null) (advance ts)
      | ident ↦ parse_ident go ts
      | l_paren ↦ parse_parens go ts
      | l_bracket ↦ parse_array_literal go n ts
      | l_brace ↦ parse_object_literal go n (advance ts)
      | _ ↦ failed
    ]

    -- What stands behind a point: a field, or a call, which is a filter.
    unfoldable pub parse_member : Level (Expr F) → ℕ → Expr F → Level (Expr F)
    unfolding parse_args expect
    parse_member go n e ts = then_parse (expect ident ts) λ name rest. elim (at l_paren rest) [
      | true ↦
          then_parse (parse_args r_paren go n (advance rest))
            λ args rest'. parsed (Syntax.piped e name.value args) rest'
      | false ↦ parsed (Syntax.dot e name.value) rest
    ]

    -- One turn of the loop of parsePostfix; `none` where no postfix follows.
    unfoldable pub parse_suffix :
        Level (Expr F) → ℕ → Expr F → List Token → Option (ParseResult (Expr F))
    unfolding parse_member
    parse_suffix go n e ts = elim (peek ts).kind [
      | dot ↦ some (parse_member go n e (advance ts))
      | optional_chain ↦ some (
          then_parse (expect ident (advance ts))
            λ name rest. parsed (Syntax.optional_chain e name.value) rest)
      | l_bracket ↦ some (
          then_parse (go (advance ts))
            λ i rest. then_parse (expect r_bracket rest) λ _ rest'. parsed (Syntax.index e i) rest')
      | l_paren ↦ some (
          then_parse (parse_args r_paren go n (advance ts))
            λ args rest. parsed (Syntax.call e args) rest)
      | _ ↦ none
    ]

    -- `m` is the fuel of the loop, `n` that of the loops over arguments.
    unfoldable pub postfix_loop : Level (Expr F) → ℕ → ℕ → Expr F → Level (Expr F)
    unfolding parse_suffix
    postfix_loop go n zero e ts = unfinished
    postfix_loop go n (suc m) e ts = elim (parse_suffix go n e ts) [
      | none ↦ parsed e ts
      | some r ↦ then_parse r λ e' rest. postfix_loop go n m e' rest
    ]

    unfoldable pub parse_postfix : Level (Expr F) → ℕ → Level (Expr F)
    unfolding parse_primary postfix_loop
    parse_postfix go n ts = then_parse (parse_primary go n ts) λ e rest. postfix_loop go n n e rest

    -- `m` is the fuel for the signs, `n` that for the loops below.
    unfoldable pub parse_unary : Level (Expr F) → ℕ → ℕ → Level (Expr F)
    unfolding parse_postfix
    parse_unary go n zero ts = unfinished
    parse_unary go n (suc m) ts = elim (at not_token ts) [
      | true ↦
          then_parse (parse_unary go n m (advance ts))
            λ e rest. parsed (Syntax.unary (codes "!") e) rest
      | false ↦ parse_postfix go n ts
    ]

    -- The loop of the levels of binary operators: `is_op` tells the level's operators, `sub` is the next level.
    unfoldable pub binary_loop :
        (TokenType → Bool)
        → (Str → Expr F → Expr F → Expr F)
        → Level (Expr F)
        → ℕ
        → Expr F
        → Level (Expr F)
    unfolding then_parse
    binary_loop is_op make sub zero left ts = unfinished
    binary_loop is_op make sub (suc n) left ts = elim (is_op (peek ts).kind) [
      | true ↦
          then_parse (sub (advance ts))
            λ right rest. binary_loop is_op make sub n (make (peek ts).value left right) rest
      | false ↦ parsed left ts
    ]

    unfoldable pub binary_level :
        (TokenType → Bool) → (Str → Expr F → Expr F → Expr F) → Level (Expr F) → ℕ → Level (Expr F)
    unfolding binary_loop
    binary_level is_op make sub n ts =
        then_parse (sub ts) λ left rest. binary_loop is_op make sub n left rest

    unfoldable pub parse_multiplication : Level (Expr F) → ℕ → Level (Expr F)
    unfolding parse_unary binary_level
    parse_multiplication go n = binary_level is_factor_op Syntax.binary (parse_unary go n n) n

    unfoldable pub parse_addition : Level (Expr F) → ℕ → Level (Expr F)
    unfolding parse_multiplication
    parse_addition go n = binary_level is_sum_op Syntax.binary (parse_multiplication go n) n

    unfoldable pub parse_comparison : Level (Expr F) → ℕ → Level (Expr F)
    unfolding parse_addition
    parse_comparison go n = binary_level is_comparison_op Syntax.binary (parse_addition go n) n

    unfoldable pub parse_equality : Level (Expr F) → ℕ → Level (Expr F)
    unfolding parse_comparison
    parse_equality go n = binary_level is_equality_op Syntax.binary (parse_comparison go n) n

    unfoldable pub parse_and : Level (Expr F) → ℕ → Level (Expr F)
    unfolding parse_equality
    parse_and go n = binary_level is_and (λ _. Syntax.binary (codes "&&")) (parse_equality go n) n

    unfoldable pub parse_or : Level (Expr F) → ℕ → Level (Expr F)
    unfolding parse_and
    parse_or go n = binary_level is_or (λ _. Syntax.binary (codes "||")) (parse_and go n) n

    unfoldable pub parse_null_coalesce : Level (Expr F) → ℕ → Level (Expr F)
    unfolding parse_or
    parse_null_coalesce go n =
        binary_level is_coalesce (λ _. Syntax.null_coalesce) (parse_or go n) n

    unfoldable pub parse_ternary : Level (Expr F) → ℕ → Level (Expr F)
    unfolding parse_null_coalesce
    parse_ternary go n ts = then_parse (parse_null_coalesce go n ts) λ e rest.
        elim (at question rest) [
          | true ↦ then_parse (go (advance rest)) λ yes behind.
              then_parse (expect colon behind) λ _ behind'.
                then_parse (go behind')
                  λ other end_rest. parsed (Syntax.ternary e yes other) end_rest
          | false ↦ parsed e rest
        ]

    -- The arguments of a filter, which may be left out.
    unfoldable pub parse_filter_args : Level (Expr F) → ℕ → Level (Exprs F)
    unfolding parse_args
    parse_filter_args go n ts = elim (at l_paren ts) [
      | true ↦ parse_args r_paren go n (advance ts)
      | false ↦ parsed no_exprs ts
    ]

    unfoldable pub pipe_loop : Level (Expr F) → ℕ → ℕ → Expr F → Level (Expr F)
    unfolding parse_filter_args expect
    pipe_loop go n zero e ts = unfinished
    pipe_loop go n (suc m) e ts = elim (at pipe ts) [
      | true ↦ then_parse (expect ident (advance ts)) λ name rest.
          then_parse (parse_filter_args go n rest)
            λ args rest'. pipe_loop go n m (Syntax.piped e name.value args) rest'
      | false ↦ parsed e ts
    ]

    unfoldable pub parse_pipe : Level (Expr F) → ℕ → Level (Expr F)
    unfolding parse_ternary pipe_loop
    parse_pipe go n ts = then_parse (parse_ternary go n ts) λ e rest. pipe_loop go n n e rest

    unfoldable pub parse_expression : ℕ → Level (Expr F)
    unfolding parse_pipe
    parse_expression zero ts = unfinished
    parse_expression (suc fuel) ts = parse_pipe (parse_expression fuel) (suc fuel) ts

    -- Parse behind the lexer: the whole list is one expression.
    unfoldable pub parse_tokens : Level (Expr F)
    unfolding parse_expression
    parse_tokens ts =
        then_parse (parse_expression (suc (length ts)) ts)
          λ e rest. if at eof rest then parsed e rest else failed

    unfoldable pub parse : Str → ParseResult (Expr F)
    unfolding parse_tokens lex
    parse input = elim (lex input) [
      | lexed ts ↦ parse_tokens ts
      | LexResult.unfinished ↦ unfinished
      | _ ↦ failed
    ]
