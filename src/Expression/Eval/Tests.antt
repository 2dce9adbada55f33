-- ===== src/Expression/Eval/Tests.antt =====
-- Small expressions over a library of natural numbers, on which the theorems about evaluation apply; and one
-- whose evaluation does not end.
use brockleyai.Prelude.{
  Str, codes, ℕ, zero, suc, ◌+◌, ◌-◌, ◌*◌, ◌/◌, ◌==◌, ltb, count, ◌≡◌, ◌≢◌, refl, false, none, [],
  ◌∷◌, ℤ, pos, negsuc,
}
use brockleyai.Prelude.Text.{str_eq}
use brockleyai.Value.{Value, Items, int64, arr, no_items, item}
use brockleyai.Expression.Syntax
use brockleyai.Expression.Syntax.{
  Expr, Exprs, no_exprs, expr, literal, ident, piped, lambda, array, binary,
}
use brockleyai.Expression.Values.{Library, to_slice}
use brockleyai.Expression.Outcome.{Context, evaluated, unfinished}
use brockleyai.Expression.Eval.{
  eval_expr, eval_step, eval_ident, run_filter, filter_map, map_items, bind_var, literal_value,
}
use brockleyai.Expression.Eval.Plain.{IsPlain}
use brockleyai.Expression.Eval.Results.{Ends, SortsPlain}
use brockleyai.Expression.Eval.Tame.{PlainContext, applies, eval_expr-Ends}

abbrev pub to_ℕ : ℤ → ℕ
to_ℕ (pos n) = n
to_ℕ (negsuc n) = 0

abbrev pub library : Library ℕ
library = record {
  of_int = to_ℕ;
  to_int = pos;
  add = λ a b. a + b;
  sub = λ a b. a - b;
  mul = λ a b. a * b;
  div = λ a b. a / b;
  eq = λ a b. a == b;
  lt = ltb;
  trunc = λ a. a;
  round = λ a. a;
  pow = λ a b. a;
  rem = λ a b. a;
  parse_int = λ s. (pos 0, false);
  parse_float = λ s. none;
  format_int = λ n. [];
  format_float = λ x. [];
  sprint = λ v. [];
  marshal = λ v. none;
  stable_sort = λ before vs. vs;
  to_upper = λ s. s;
  to_lower = λ s. s;
  trim_space = λ s. s;
  split = λ s sep. s ∷ [];
  replace = λ s before after count. s;
  to_runes = λ s. s;
  of_runes = λ s. s;
}

abbrev context : Context ℕ
context = record { input = none; state = none; meta = none; vars = λ name. none }

abbrev x : Str
x = codes "x"

-- `[1] | map(x => x)`
abbrev mapped : Expr ℕ
mapped =
    piped (array (expr (literal (Syntax.int (pos 1))) no_exprs)) (codes "map")
      (expr (lambda x (ident x)) no_exprs)

mapped_value : eval_expr library 2 context mapped ≡ evaluated (arr (item (int64 (pos 1)) no_items))
unfolding eval_expr eval_step eval_ident run_filter filter_map map_items bind_var literal_value
    to_slice str_eq
mapped_value = refl

mapped-ne-unfinished : eval_expr library 2 context mapped ≢ unfinished
mapped-ne-unfinished e = absurd (cc (mapped_value, e))

sorts : SortsPlain library
sorts before vs h = h

plain_context : PlainContext context
plain_context = record { input = tt; state = tt; meta = tt; vars = λ name. tt }

eval_expr-Ends_example : Ends IsPlain (eval_expr library 2 context mapped)
unfolding applies str_eq
eval_expr-Ends_example =
    eval_expr-Ends library sorts 1 context plain_context mapped
      ((tt, tt), ((0, refl, refl, tt), tt))

-- `[x] | map(x)`
abbrev again : Expr ℕ
again = piped (array (expr (ident x) no_exprs)) (codes "map") (expr (ident x) no_exprs)

-- `[x => [x] | map(x)] | map(x => [x] | map(x))`
abbrev self_application : Expr ℕ
self_application =
    piped (array (expr (lambda x again) no_exprs)) (codes "map") (expr (lambda x again) no_exprs)

bound : Context ℕ → Context ℕ
bound ctx = bind_var ctx x (Value.lambda x again)

again-unfinished :
    (fuel : ℕ) (ctx : Context ℕ) → eval_expr library fuel (bound ctx) again ≡ unfinished
unfolding bound eval_expr eval_step eval_ident run_filter filter_map map_items bind_var to_slice
    str_eq
again-unfinished zero ctx = refl
again-unfinished (suc fuel) ctx = rw (again-unfinished fuel (bound ctx)) refl

-- No fuel is enough: in the source the recursion has no end.
self_application-unfinished :
    (fuel : ℕ) (ctx : Context ℕ) → eval_expr library fuel ctx self_application ≡ unfinished
unfolding bound eval_expr eval_step eval_ident run_filter filter_map map_items to_slice str_eq
self_application-unfinished zero ctx = refl
self_application-unfinished (suc fuel) ctx = rw (again-unfinished fuel ctx) refl

abbrev three : Items ℕ
three = item (int64 (pos 1)) (item (int64 (pos 2)) (item (int64 (pos 3)) no_items))
