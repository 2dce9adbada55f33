-- ===== src/Expression/Values.antt =====
-- The helpers on values of engine/expression/eval.go. A nil slice is an empty list; an object lists its keys,
-- each once, in some order.
use brockleyai.Prelude.{
  Str, codes, str_eq, str_lt, ℕ, zero, suc, ◌-◌, ◌==◌, ltb, Bool, true, false, not, ◌&&◌, ◌||◌,
  Option, none, some, List, [], ℤ, pos, negsuc, is_zero, length, if◌then◌else◌,
}
use brockleyai.Value
use brockleyai.Value.{
  is_nil, Value, Items, Entries, nil, bool, int, int64, float, str, arr, obj, no_items, item,
  no_entries, entry,
}

-- What evaluation calls of the standard library, on float64, int64, strings and values.
pub record Library (F : Type 0) : Type 0 where
  -- `float64(n)` and `int64(f)`
  pub of_int : ℤ → F
  pub to_int : F → ℤ
  pub add : F → F → F
  pub sub : F → F → F
  pub mul : F → F → F
  pub div : F → F → F
  pub eq : F → F → Bool
  pub lt : F → F → Bool
  -- `math.Trunc`, `math.Round`, `math.Pow`
  pub trunc : F → F
  pub round : F → F
  pub pow : F → F → F
  -- `%` on int64, for a divisor that is not 0
  pub rem : ℤ → ℤ → ℤ
  -- `strconv.ParseInt`, with whether the error is nil, and `strconv.ParseFloat`
  pub parse_int : Str → ℤ × Bool
  pub parse_float : Str → Option F
  pub format_int : ℤ → Str
  pub format_float : F → Str
  -- `fmt.Sprintf("%v", v)`, and `json.Marshal`
  pub sprint : Value F → Str
  pub marshal : Value F → Option Str
  -- `sort.SliceStable` by a comparison
  pub stable_sort : (Value F → Value F → Bool) → Items F → Items F
  pub to_upper : Str → Str
  pub to_lower : Str → Str
  pub trim_space : Str → Str
  pub split : Str → Str → List Str
  pub replace : Str → Str → Str → ℤ → Str
  pub to_runes : Str → List ℕ
  pub of_runes : List ℕ → Str

-- `m[key]` and `m[key] = v`
unfoldable pub find_key : {F : Type 0} → Str → Entries F → Option (Value F)
find_key key no_entries = none
find_key key (entry k v es) = if str_eq k key then some v else find_key key es

unfoldable pub put_key : {F : Type 0} → Str → Value F → Entries F → Entries F
put_key key v no_entries = entry key v no_entries
put_key key v (entry k w es) = if str_eq k key then entry k v es else entry k w (put_key key v es)

abbrev pub or_nil : {F : Type 0} → Option (Value F) → Value F
or_nil none = nil
or_nil (some v) = v

unfoldable pub field_access : {F : Type 0} → Value F → Str → Value F
unfolding find_key
field_access (obj es) key = or_nil (find_key key es)
field_access _ key = nil

abbrev pub append_items : {F : Type 0} → Items F → Items F → Items F
append_items no_items ws = ws
append_items (item v vs) ws = item v (append_items vs ws)

-- `arr[i]`
unfoldable pub item_at : {F : Type 0} → Items F → ℕ → Option (Value F)
item_at no_items i = none
item_at (item v vs) zero = some v
item_at (item v vs) (suc i) = item_at vs i

-- The index -(n + 1) counts from the end.
unfoldable pub index_items : {F : Type 0} → Items F → ℤ → Value F
unfolding item_at
index_items vs (pos i) = or_nil (item_at vs i)
index_items vs (negsuc n) =
    let k = Value.items_length vs in if ltb n k then or_nil (item_at vs (k - suc n)) else nil

unfoldable pub is_truthy : {F : Type 0} → Library F → Value F → Bool
is_truthy lib nil = false
is_truthy lib (bool b) = b
is_truthy lib (str s) = not (length s == 0)
is_truthy lib (int64 n) = not (is_zero n)
is_truthy lib (float x) = not (lib.eq x (lib.of_int (pos 0)))
is_truthy lib (arr vs) = ltb 0 (Value.items_length vs)
is_truthy lib (obj es) = true
is_truthy lib _ = true

unfoldable pub to_float : {F : Type 0} → Library F → Value F → Option F
to_float lib (int n) = some (lib.of_int n)
to_float lib (int64 n) = some (lib.of_int n)
to_float lib (float x) = some x
to_float lib (str s) = lib.parse_float s
to_float lib _ = none

unfoldable pub to_int : {F : Type 0} → Library F → Value F → Option ℤ
to_int lib (int n) = some n
to_int lib (int64 n) = some n
to_int lib (float x) = some (lib.to_int x)
to_int lib (str s) = let (n, is_int) = lib.parse_int s in if is_int then some n else none
to_int lib _ = none

unfoldable pub is_int_val : {F : Type 0} → Value F → Bool
is_int_val (int n) = true
is_int_val (int64 n) = true
is_int_val _ = false

unfoldable pub as_string : {F : Type 0} → Value F → Option Str
as_string (str s) = some s
as_string _ = none

-- `s, _ := toString(v)`
unfoldable pub string_or_empty : {F : Type 0} → Value F → Str
string_or_empty (str s) = s
string_or_empty _ = []

unfoldable pub to_string_val : {F : Type 0} → Library F → Value F → Str
to_string_val lib nil = []
to_string_val lib (str s) = s
to_string_val lib (int64 n) = lib.format_int n
to_string_val lib (float x) = lib.format_float x
to_string_val lib (bool true) = codes "true"
to_string_val lib (bool false) = codes "false"
to_string_val lib v = elim (lib.marshal v) [ none ↦ [] | some s ↦ s ]

unfoldable pub to_slice : {F : Type 0} → Value F → Option (Items F)
to_slice (arr vs) = some vs
to_slice _ = none

unfoldable pub is_string : {F : Type 0} → Value F → Bool
is_string (str s) = true
is_string _ = false

unfoldable pub equals : {F : Type 0} → Library F → Value F → Value F → Bool
unfolding to_float is_string
equals lib a b =
    let texts = str_eq (lib.sprint a) (lib.sprint b) in
    if is_nil a && is_nil b
    then true
    else if is_nil a || is_nil b
    then false
    else elim (to_float lib a) [
      | none ↦ texts
      | some x ↦ elim (to_float lib b) [
        | none ↦ texts
        | some y ↦ if is_string a || is_string b then texts else lib.eq x y
      ]
    ]

-- The three numbers that `pred` is called with: -1, 0 and 1.
pub data Comparison : Type 0 where
  less same more : Comparison

abbrev pub Order : Type 0
Order = Comparison → Bool

unfoldable pub compare_floats : {F : Type 0} → Library F → F → F → Comparison
compare_floats lib x y = if lib.lt x y then less else if lib.lt y x then more else same

unfoldable pub compare_strings : Str → Str → Comparison
compare_strings s t = if str_lt s t then less else if str_lt t s then more else same

unfoldable pub compare_values : {F : Type 0} → Library F → Value F → Value F → Option Comparison
unfolding to_float as_string compare_floats compare_strings
compare_values lib a b =
    let texts : Option Comparison = elim (as_string a) [
      | none ↦ none
      | some s ↦ elim (as_string b) [ none ↦ none | some t ↦ some (compare_strings s t) ]
    ] in
    elim (to_float lib a) [
      | none ↦ texts
      | some x ↦ elim (to_float lib b) [ none ↦ texts | some y ↦ some (compare_floats lib x y) ]
    ]

unfoldable pub compare_ord : {F : Type 0} → Library F → Value F → Value F → Order → Bool
unfolding compare_values
compare_ord lib a b pred = elim (compare_values lib a b) [ none ↦ false | some c ↦ pred c ]

-- An int64 if both operands are integers and the result is whole.
unfoldable pub whole_or_float : {F : Type 0} → Library F → Value F → Value F → F → Value F
unfolding is_int_val
whole_or_float lib left right result =
    if is_int_val left && is_int_val right && lib.eq result (lib.trunc result)
    then int64 (lib.to_int result)
    else float result

unfoldable pub numeric_bin_op : {F : Type 0} → Library F → Value F → Value F → (F → F → F) → Value F
unfolding to_float whole_or_float
numeric_bin_op lib left right op = elim (to_float lib left) [
  | none ↦ nil
  | some x ↦ elim (to_float lib right) [
    | none ↦ nil
    | some y ↦ whole_or_float lib left right (op x y)
  ]
]
