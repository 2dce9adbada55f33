-- ===== src/Expression/Operators.antt =====
-- The operators of engine/expression/eval.go on values.
use brockleyai.Prelude.{
  Str, codes, str_eq, true, false, not, none, some, ◌++◌, pos, is_zero, if◌then◌else◌,
}
use brockleyai.Value.{Value, nil, bool, int64, str}
use brockleyai.Expression.Outcome.{unknown_binary, unknown_unary, Outcome, evaluated, failed}
use brockleyai.Expression.Values.{
  Library, to_float, to_int, to_slice, index_items, is_truthy, equals, less, more, Order,
  compare_ord, numeric_bin_op, whole_or_float,
}

module _ {F : Type 0} (lib : Library F) where
  unfoldable pub divide : Value F → Value F → Value F
  unfolding to_float whole_or_float
  divide left right = elim (to_float lib right) [
    | none ↦ nil
    | some y ↦ if lib.eq y (lib.of_int (pos 0)) then nil else elim (to_float lib left) [
      | none ↦ nil
      | some x ↦ whole_or_float lib left right (lib.div x y)
    ]
  ]

  unfoldable pub remainder : Value F → Value F → Value F
  unfolding to_int
  remainder left right = elim (to_int lib left) [
    | none ↦ nil
    | some m ↦ elim (to_int lib right) [
      | none ↦ nil
      | some n ↦ if is_zero n then nil else int64 (lib.rem m n)
    ]
  ]

  unfoldable pub add_values : Value F → Value F → Value F
  unfolding numeric_bin_op
  add_values (str s) (str t) = str (s ++ t)
  add_values left right = numeric_bin_op lib left right lib.add

  abbrev pub is_more : Order
  is_more more = true
  is_more _ = false

  abbrev pub is_at_least : Order
  is_at_least less = false
  is_at_least _ = true

  abbrev pub is_less : Order
  is_less less = true
  is_less _ = false

  abbrev pub is_at_most : Order
  is_at_most more = false
  is_at_most _ = true

  -- The operators that evaluate both sides.
  unfoldable pub binary_op : Str → Value F → Value F → Outcome (Value F)
  unfolding add_values numeric_bin_op divide remainder equals compare_ord
  binary_op op left right =
      if str_eq op (codes "+")
      then evaluated (add_values left right)
      else if str_eq op (codes "-")
      then evaluated (numeric_bin_op lib left right lib.sub)
      else if str_eq op (codes "*")
      then evaluated (numeric_bin_op lib left right lib.mul)
      else if str_eq op (codes "/")
      then evaluated (divide left right)
      else if str_eq op (codes "%")
      then evaluated (remainder left right)
      else if str_eq op (codes "==")
      then evaluated (bool (equals lib left right))
      else if str_eq op (codes "!=")
      then evaluated (bool (not (equals lib left right)))
      else if str_eq op (codes ">")
      then evaluated (bool (compare_ord lib left right is_more))
      else if str_eq op (codes ">=")
      then evaluated (bool (compare_ord lib left right is_at_least))
      else if str_eq op (codes "<")
      then evaluated (bool (compare_ord lib left right is_less))
      else if str_eq op (codes "<=")
      then evaluated (bool (compare_ord lib left right is_at_most))
      else failed (unknown_binary op)

  abbrev pub unary_op : Str → Value F → Outcome (Value F)
  unary_op op v =
      if str_eq op (codes "!")
      then evaluated (bool (not (is_truthy lib v)))
      else failed (unknown_unary op)

  abbrev pub index_value : Value F → Value F → Value F
  index_value v i = elim (to_slice v) [
    | none ↦ nil
    | some vs ↦ elim (to_int lib i) [ none ↦ nil | some n ↦ index_items vs n ]
  ]
