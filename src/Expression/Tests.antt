-- ===== src/Expression/Tests.antt =====
-- Inputs of the lexer and the parser on which their theorems apply.
use brockleyai.Prelude.{codes, Str, ℕ, ℤ, pos, ◌≢◌, ◌≡◌, refl, Option, none, some, [], ◌∷◌}
use brockleyai.Prelude.Text.{str_eq}
use brockleyai.Expression.Token.{eof}
use brockleyai.Expression.Syntax
use brockleyai.Expression.Parser.{
  parse, parsed, unfinished, is_factor_op, is_sum_op, is_comparison_op, is_equality_op, is_and,
  is_or, is_coalesce,
}
use brockleyai.Expression.Parser.Termination.{parse-ne-unfinished}
use brockleyai.Expression.Lexer.{lex}
use brockleyai.Expression.Lexer.Spelling.{IsReading, lex_lem}

lex_lem_example :
    IsReading (codes "input.count + -12.5 >= 3") (lex (codes "input.count + -12.5 >= 3"))
lex_lem_example = lex_lem (codes "input.count + -12.5 >= 3")

-- Numbers whose values do not matter.
abbrev some_int : Str → Option ℤ
some_int digits = some (pos 7)

abbrev no_float : Str → Option ℕ
no_float digits = none

parse-ne-unfinished_example :
    parse some_int no_float (codes "items[0]?.name | default('x') ?? a.b(c, d => !d)") ≢ unfinished
parse-ne-unfinished_example =
    parse-ne-unfinished some_int no_float (codes "items[0]?.name | default('x') ?? a.b(c, d => !d)")

-- `*` binds closer than `+`, and `+` associates to the left.
precedence :
    parse some_int no_float (codes "a + b * c + d")
    ≡ parsed
        (Syntax.binary
          (codes "+")
          (Syntax.binary
            (codes "+")
            (Syntax.ident (codes "a"))
            (Syntax.binary (codes "*") (Syntax.ident (codes "b")) (Syntax.ident (codes "c"))))
          (Syntax.ident (codes "d")))
        (record { kind = eof; value = []; pos = 13 } ∷ [])
unfolding parse str_eq is_factor_op is_sum_op is_comparison_op is_equality_op is_and is_or
    is_coalesce
precedence = refl
