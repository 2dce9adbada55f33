-- ===== src/Expression/Eval.antt =====
-- EvalExpr of engine/expression/eval.go. It is structural in the expression but for the body of a lambda, which
-- comes out of a value: `go` evaluates that, with a unit of fuel less. Lambdas are not closures: a body is
-- evaluated with the variables of the place where the lambda is applied.
pub mod Fuel
pub mod Plain
pub mod Results
pub mod Tame
pub mod Tests
use brockleyai.Prelude.{
  Str, codes, str_eq, ℕ, zero, suc, ◌==◌, leb, Bool, true, false, not, ◌&&◌, ◌||◌, Option, none,
  some, List, [], ◌∷◌, ◌++◌, ℤ, pos, negsuc, is_zero, length, take, update, if◌then◌else◌,
}
use brockleyai.Value
use brockleyai.Value.{
  is_nil, Value, Items, Entries, nil, bool, int64, float, str, arr, obj, no_items, item, no_entries,
  entry,
}
use brockleyai.Expression.Syntax
use brockleyai.Expression.Syntax.{
  Literal, Expr, Exprs, Fields, no_exprs, expr, no_fields, field, literal, ident, dot,
  optional_chain, index, binary, unary, ternary, null_coalesce, call, piped, lambda, array, object,
}
use brockleyai.Expression.Parser
use brockleyai.Expression.Parser.{parse, parsed}
use brockleyai.Expression.Outcome.{
  Context, EvalError, marshal_error, parse_error, unknown_filter, Outcome, evaluated, failed,
  panicked, unfinished, ◌>>=◌, Evaluator,
}
use brockleyai.Expression.Operators.{binary_op, unary_op, index_value}
use brockleyai.Expression.Values.{
  Library, find_key, put_key, or_nil, item_at, index_items, field_access, is_truthy, to_float,
  to_int, is_int_val, as_string, string_or_empty, to_string_val, to_slice, equals, Comparison, less,
  same, more, Order, compare_ord, numeric_bin_op, whole_or_float,
}
use brockleyai.Expression.Filters.{
  all_of, on_slice, filter_length, filter_first, filter_last, filter_reverse, filter_flatten,
  filter_keys, filter_values, filter_has, filter_concat, filter_default, filter_join,
  filter_contains, filter_sum, filter_min_max, filter_sort, filter_slice, filter_unique,
  filter_to_int, filter_to_float, filter_round, filter_split, filter_replace, filter_is_empty,
  filter_token_estimate,
}

unfoldable pub literal_value : {F : Type 0} → Literal F → Value F
literal_value Literal.null = nil
literal_value (Literal.bool b) = bool b
literal_value (Literal.int n) = int64 n
literal_value (Literal.float x) = float x
literal_value (Literal.str s) = str s

abbrev pub any_map : {F : Type 0} → Option (Entries F) → Value F
any_map none = nil
any_map (some es) = obj es

unfoldable pub eval_ident : {F : Type 0} → Str → Context F → Value F
eval_ident name ctx = elim (ctx.vars name) [
  | some v ↦ v
  | none ↦
      if str_eq name (codes "input")
      then any_map ctx.input
      else if str_eq name (codes "state")
      then any_map ctx.state
      else if str_eq name (codes "meta")
      then any_map ctx.meta
      else if str_eq name (codes "true")
      then bool true
      else if str_eq name (codes "false")
      then bool false
      else nil
]

unfoldable pub bind_var : {F : Type 0} → Context F → Str → Value F → Context F
bind_var ctx param v = record ctx { vars = update ctx.vars param (some v) }

unfoldable pub map_items :
    {F : Type 0} → Evaluator F → Context F → Str → Expr F → Items F → Outcome (Items F)
unfolding bind_var
map_items go ctx param body no_items = evaluated no_items
map_items go ctx param body (item v vs) = go (bind_var ctx param v) body >>= λ w.
    map_items go ctx param body vs >>= λ ws. evaluated (item w ws)

unfoldable pub filter_map :
    {F : Type 0} → Evaluator F → Context F → Value F → Items F → Outcome (Value F)
unfolding map_items field_access
filter_map go ctx (arr vs) (item (Value.lambda param body) args) =
    map_items go ctx param body vs >>= λ ws. evaluated (arr ws)
filter_map go ctx (arr vs) (item (str key) args) =
    evaluated (arr (all_of (λ v. field_access v key) vs))
filter_map go ctx (arr vs) args = evaluated (arr vs)
filter_map go ctx v args = evaluated nil

module _ {F : Type 0} (lib : Library F) where
  unfoldable pub select_items : Evaluator F → Context F → Str → Expr F → Items F → Outcome (Items F)
  unfolding bind_var is_truthy
  select_items go ctx param body no_items = evaluated no_items
  select_items go ctx param body (item v vs) = go (bind_var ctx param v) body >>= λ w.
      select_items go ctx param body vs >>= λ ws.
      evaluated (if is_truthy lib w then item v ws else ws)

  unfoldable pub filter_filter : Evaluator F → Context F → Value F → Items F → Outcome (Value F)
  unfolding select_items
  filter_filter go ctx (arr vs) (item (Value.lambda param body) args) =
      select_items go ctx param body vs >>= λ ws. evaluated (arr ws)
  filter_filter go ctx (arr vs) args = evaluated (arr vs)
  filter_filter go ctx v args = evaluated nil

  -- `string(runes[:n]) + "..."`: an n below 0 is out of range.
  unfoldable pub truncate_to : Str → ℤ → Outcome (Value F)
  truncate_to s (pos n) =
      let runes = lib.to_runes s in
      evaluated
        (str (if leb (length runes) n then s else lib.of_runes (take n runes) ++ codes "..."))
  truncate_to s (negsuc n) = panicked

  unfoldable pub filter_truncate : Value F → Items F → Outcome (Value F)
  unfolding truncate_to to_int
  filter_truncate (str s) no_items = evaluated (str s)
  filter_truncate (str s) (item v args) = elim (to_int lib v) [
    | none ↦ evaluated (str s)
    | some n ↦ truncate_to s n
  ]
  filter_truncate _ args = evaluated nil

  unfoldable pub filter_json : Value F → Outcome (Value F)
  filter_json v = elim (lib.marshal v) [ none ↦ failed marshal_error | some s ↦ evaluated (str s) ]

  -- The filters that always give a value.
  unfoldable pub pure_filter : Str → Value F → Items F → Option (Value F)
  unfolding filter_length filter_first filter_last filter_reverse filter_flatten filter_keys
      filter_values filter_has filter_concat filter_default filter_join filter_contains filter_sum
      filter_min_max filter_sort filter_slice filter_unique filter_to_int filter_to_float
      filter_round filter_split filter_replace filter_is_empty filter_token_estimate to_string_val
      is_truthy string_or_empty
  pure_filter name v args =
      if str_eq name (codes "length")
      then some (filter_length v)
      else if str_eq name (codes "first")
      then some (filter_first v)
      else if str_eq name (codes "last")
      then some (filter_last v)
      else if str_eq name (codes "join")
      then some (filter_join lib v args)
      else if str_eq name (codes "contains")
      then some (filter_contains lib v args)
      else if str_eq name (codes "sum")
      then some (filter_sum lib v)
      else if str_eq name (codes "min")
      then some (filter_min_max lib false v)
      else if str_eq name (codes "max")
      then some (filter_min_max lib true v)
      else if str_eq name (codes "sort")
      then some (filter_sort lib v)
      else if str_eq name (codes "reverse")
      then some (filter_reverse v)
      else if str_eq name (codes "flatten")
      then some (filter_flatten v)
      else if str_eq name (codes "slice")
      then some (filter_slice lib v args)
      else if str_eq name (codes "unique")
      then some (filter_unique lib v)
      else if str_eq name (codes "keys")
      then some (filter_keys v)
      else if str_eq name (codes "values")
      then some (filter_values v)
      else if str_eq name (codes "has")
      then some (filter_has v args)
      else if str_eq name (codes "toInt")
      then some (filter_to_int lib v)
      else if str_eq name (codes "toFloat")
      then some (filter_to_float lib v)
      else if str_eq name (codes "toString")
      then some (str (to_string_val lib v))
      else if str_eq name (codes "toBool")
      then some (bool (is_truthy lib v))
      else if str_eq name (codes "round")
      then some (filter_round lib v args)
      else if str_eq name (codes "upper")
      then some (str (lib.to_upper (string_or_empty v)))
      else if str_eq name (codes "lower")
      then some (str (lib.to_lower (string_or_empty v)))
      else if str_eq name (codes "trim")
      then some (str (lib.trim_space (string_or_empty v)))
      else if str_eq name (codes "split")
      then some (filter_split lib v args)
      else if str_eq name (codes "replace")
      then some (filter_replace lib (pos 1) v args)
      else if str_eq name (codes "replaceAll")
      then some (filter_replace lib (negsuc 0) v args)
      else if str_eq name (codes "concat")
      then some (filter_concat v args)
      else if str_eq name (codes "isEmpty")
      then some (bool (filter_is_empty lib v))
      else if str_eq name (codes "default")
      then some (filter_default v args)
      else if str_eq name (codes "tokenEstimate")
      then some (filter_token_estimate lib v)
      else none

  -- The switch of applyFilter. Its cases exclude each other, so that their order is free.
  unfoldable pub run_filter : Evaluator F → Context F → Str → Value F → Items F → Outcome (Value F)
  unfolding pure_filter filter_map filter_filter filter_json filter_truncate
  run_filter go ctx name v args =
      if str_eq name (codes "map")
      then filter_map go ctx v args
      else if str_eq name (codes "filter")
      then filter_filter go ctx v args
      else if str_eq name (codes "json")
      then filter_json v
      else if str_eq name (codes "truncate")
      then filter_truncate v args
      else elim (pure_filter name v args) [
        | none ↦ failed (unknown_filter name)
        | some w ↦ evaluated w
      ]

  -- The filter that a call names; without arguments it is none.
  abbrev pub called_filter : Expr F → Exprs F → Option Str
  called_filter (ident name) (expr e es) = some name
  called_filter f args = none

  module _ (go : Evaluator F) where
    unfoldable mutual
      unfolding literal_value eval_ident field_access binary_op is_truthy run_filter to_slice to_int
          index_items put_key

      pub eval_step : Context F → Expr F → Outcome (Value F)
      eval_step ctx (literal l) = evaluated (literal_value l)
      eval_step ctx (ident name) = evaluated (eval_ident name ctx)
      eval_step ctx (dot e key) = eval_step ctx e >>= λ v. evaluated (field_access v key)
      eval_step ctx (optional_chain e key) = eval_step ctx e >>= λ v. evaluated (field_access v key)
      eval_step ctx (index e i) =
          eval_step ctx e >>= λ v. eval_step ctx i >>= λ w. evaluated (index_value lib v w)
      eval_step ctx (binary op left right) =
          if str_eq op (codes "&&")
          then (eval_step ctx left >>= λ v.
              if is_truthy lib v then eval_step ctx right else evaluated v)
          else if str_eq op (codes "||")
          then (eval_step ctx left >>= λ v.
              if is_truthy lib v then evaluated v else eval_step ctx right)
          else (eval_step ctx left >>= λ v. eval_step ctx right >>= λ w. binary_op lib op v w)
      eval_step ctx (unary op e) = eval_step ctx e >>= λ v. unary_op lib op v
      eval_step ctx (ternary c this that) = eval_step ctx c >>= λ v.
          if is_truthy lib v then eval_step ctx this else eval_step ctx that
      eval_step ctx (null_coalesce left right) =
          eval_step ctx left >>= λ v. if is_nil v then eval_step ctx right else evaluated v
      eval_step ctx (call f args) = elim (called_filter f args) [
        | none ↦ evaluated nil
        | some name ↦ eval_args ctx args >>= λ vs. run_filter go ctx name nil vs
      ]
      eval_step ctx (piped e name args) =
          eval_step ctx e >>= λ v. eval_args ctx args >>= λ vs. run_filter go ctx name v vs
      eval_step ctx (lambda param body) = evaluated (Value.lambda param body)
      eval_step ctx (array es) = eval_args ctx es >>= λ vs. evaluated (arr vs)
      eval_step ctx (object fs) = eval_fields ctx fs no_entries >>= λ es. evaluated (obj es)

      pub eval_args : Context F → Exprs F → Outcome (Items F)
      eval_args ctx no_exprs = evaluated no_items
      eval_args ctx (expr e es) =
          eval_step ctx e >>= λ v. eval_args ctx es >>= λ vs. evaluated (item v vs)

      -- A later field of the same key replaces the value.
      pub eval_fields : Context F → Fields F → Entries F → Outcome (Entries F)
      eval_fields ctx no_fields found = evaluated found
      eval_fields ctx (field key e fs) found =
          eval_step ctx e >>= λ v. eval_fields ctx fs (put_key key v found)

  unfoldable pub eval_expr : ℕ → Evaluator F
  unfolding eval_step
  eval_expr zero ctx e = unfinished
  eval_expr (suc fuel) ctx e = eval_step (eval_expr fuel) ctx e

  -- Eval: the expression is parsed and evaluated.
  unfoldable pub eval : ℕ → Str → Context F → Outcome (Value F)
  unfolding parse eval_expr
  eval fuel input ctx =
      elim (parse (λ s. let (n, is_int) = lib.parse_int s in if is_int then some n else none)
        lib.parse_float input) [
          | parsed e rest ↦ eval_expr fuel ctx e
          | Parser.failed ↦ failed parse_error
          | Parser.unfinished ↦ unfinished
        ]
