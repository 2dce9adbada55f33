-- ===== src/Expression/Filters.antt =====
-- The filters of engine/expression/eval.go that evaluate nothing.
pub mod Positions
pub mod Unique
use brockleyai.Prelude.{
  Str, codes, str_eq, str_lt, contains, join, mem, ℕ, zero, suc, ◌+◌, ◌-◌, ◌/◌, ◌==◌, ltb, leb,
  Bool, true, false, not, ◌&&◌, ◌||◌, Option, none, some, List, [], ◌∷◌, ◌++◌, ℤ, pos, negsuc,
  is_zero, length, take, if◌then◌else◌,
}
use brockleyai.Value
use brockleyai.Value.{
  is_nil, Value, Items, Entries, nil, bool, int, int64, float, str, arr, obj, no_items, item,
  no_entries, entry, items_length,
}
use brockleyai.Expression.Values.{
  Library, find_key, or_nil, append_items, item_at, is_truthy, to_float, to_int, is_int_val,
  as_string, string_or_empty, to_string_val, to_slice, equals,
}

abbrev pub all_of : {F : Type 0} → (Value F → Value F) → Items F → Items F
all_of f no_items = no_items
all_of f (item v vs) = item (f v) (all_of f vs)

-- `arr, ok := toSlice(val)`, and nil if it is not a slice.
abbrev pub on_slice : {F : Type 0} → Value F → (Items F → Value F) → Value F
on_slice v f = elim (to_slice v) [ none ↦ nil | some vs ↦ f vs ]

-- `args[i]`, if there are so many.
abbrev pub arg_at : {F : Type 0} → ℕ → Items F → Option (Value F)
arg_at i args = item_at args i

abbrev pub string_arg : {F : Type 0} → ℕ → Items F → Str
string_arg i args = elim (item_at args i) [ none ↦ [] | some v ↦ string_or_empty v ]

unfoldable pub filter_length : {F : Type 0} → Value F → Value F
filter_length (str s) = int64 (pos (length s))
filter_length (arr vs) = int64 (pos (items_length vs))
filter_length nil = int64 (pos 0)
filter_length _ = nil

unfoldable pub filter_first : {F : Type 0} → Value F → Value F
unfolding to_slice item_at
filter_first v = on_slice v (λ vs. or_nil (item_at vs 0))

unfoldable pub filter_last : {F : Type 0} → Value F → Value F
unfolding to_slice item_at
filter_last v = on_slice v (λ vs. or_nil (item_at vs (items_length vs - 1)))

unfoldable pub reverse_onto : {F : Type 0} → Items F → Items F → Items F
reverse_onto no_items acc = acc
reverse_onto (item v vs) acc = reverse_onto vs (item v acc)

unfoldable pub filter_reverse : {F : Type 0} → Value F → Value F
unfolding to_slice reverse_onto
filter_reverse v = on_slice v (λ vs. arr (reverse_onto vs no_items))

unfoldable pub flatten_items : {F : Type 0} → Items F → Items F
flatten_items no_items = no_items
flatten_items (item (arr vs) ws) = append_items vs (flatten_items ws)
flatten_items (item v ws) = item v (flatten_items ws)

unfoldable pub filter_flatten : {F : Type 0} → Value F → Value F
unfolding to_slice flatten_items
filter_flatten v = on_slice v (λ vs. arr (flatten_items vs))

abbrev pub take_items : {F : Type 0} → ℕ → Items F → Items F
take_items zero vs = no_items
take_items (suc n) no_items = no_items
take_items (suc n) (item v vs) = item v (take_items n vs)

abbrev pub drop_items : {F : Type 0} → ℕ → Items F → Items F
drop_items zero vs = vs
drop_items (suc n) no_items = no_items
drop_items (suc n) (item v vs) = drop_items n vs

-- `start` and `end` clipped to the list, the start from below and the end from above.
unfoldable pub clip_start : ℤ → ℕ
clip_start (pos n) = n
clip_start (negsuc n) = 0

-- An end below 0 is below every start.
unfoldable pub clip_end : ℤ → ℕ → ℕ
clip_end (pos n) k = if ltb k n then k else n
clip_end (negsuc n) k = 0

unfoldable pub slice_items : {F : Type 0} → ℕ → ℕ → Items F → Items F
slice_items start end vs = if leb end start then no_items else drop_items start (take_items end vs)

unfoldable pub put_entry : {F : Type 0} → Str → Value F → Entries F → Entries F
put_entry k v no_entries = entry k v no_entries
put_entry k v (entry j w es) =
    if str_lt j k then entry j w (put_entry k v es) else entry k v (entry j w es)

-- The entries in the order of their keys.
unfoldable pub sort_entries : {F : Type 0} → Entries F → Entries F
unfolding put_entry
sort_entries no_entries = no_entries
sort_entries (entry k v es) = put_entry k v (sort_entries es)

unfoldable pub key_items : {F : Type 0} → Entries F → Items F
key_items no_entries = no_items
key_items (entry k v es) = item (str k) (key_items es)

unfoldable pub value_items : {F : Type 0} → Entries F → Items F
value_items no_entries = no_items
value_items (entry k v es) = item v (value_items es)

unfoldable pub filter_keys : {F : Type 0} → Value F → Value F
unfolding sort_entries key_items
filter_keys (obj es) = arr (key_items (sort_entries es))
filter_keys _ = nil

unfoldable pub filter_values : {F : Type 0} → Value F → Value F
unfolding sort_entries value_items
filter_values (obj es) = arr (value_items (sort_entries es))
filter_values _ = nil

unfoldable pub filter_has : {F : Type 0} → Value F → Items F → Value F
unfolding find_key string_or_empty
filter_has (obj es) (item v vs) = elim (find_key (string_or_empty v) es) [
  | none ↦ bool false
  | some _ ↦ bool true
]
filter_has _ _ = bool false

-- The slices among the arguments, one after the other.
unfoldable pub join_slices : {F : Type 0} → Items F → Items F
join_slices no_items = no_items
join_slices (item (arr vs) ws) = append_items vs (join_slices ws)
join_slices (item v ws) = join_slices ws

unfoldable pub filter_concat : {F : Type 0} → Value F → Items F → Value F
unfolding to_slice join_slices
filter_concat v args = on_slice v (λ vs. arr (append_items vs (join_slices args)))

unfoldable pub filter_default : {F : Type 0} → Value F → Items F → Value F
unfolding item_at
filter_default nil args = or_nil (item_at args 0)
filter_default v args = v

unfoldable pub strings_items : {F : Type 0} → List Str → Items F
strings_items [] = no_items
strings_items (s ∷ ss) = item (str s) (strings_items ss)

-- The length of what counts as text in a message: a string, or the content of an object.
unfoldable pub text_length : {F : Type 0} → Value F → ℕ
unfolding find_key
text_length (obj es) = elim (find_key (codes "content") es) [ some (str s) ↦ length s | _ ↦ 0 ]
text_length (str s) = length s
text_length _ = 0

unfoldable pub total_length : {F : Type 0} → Items F → ℕ
unfolding text_length
total_length no_items = 0
total_length (item v vs) = text_length v + total_length vs

module _ {F : Type 0} (lib : Library F) where
  unfoldable pub strings_of : Items F → List Str
  unfolding to_string_val
  strings_of no_items = []
  strings_of (item v vs) = to_string_val lib v ∷ strings_of vs

  unfoldable pub filter_join : Value F → Items F → Value F
  unfolding to_slice strings_of join item_at string_or_empty
  filter_join v args = on_slice v (λ vs. str (join (strings_of vs) (string_arg 0 args)))

  unfoldable pub has_equal : Value F → Items F → Bool
  unfolding equals
  has_equal needle no_items = false
  has_equal needle (item v vs) = if equals lib v needle then true else has_equal needle vs

  unfoldable pub filter_contains : Value F → Items F → Value F
  unfolding has_equal string_or_empty contains
  filter_contains v no_items = bool false
  filter_contains (str s) (item needle args) = bool (contains s (string_or_empty needle))
  filter_contains (arr vs) (item needle args) = bool (has_equal needle vs)
  filter_contains _ (item needle args) = bool false

  -- The sum so far, and whether a number was not an integer.
  unfoldable pub sum_items : Items F → F → Bool → F × Bool
  unfolding to_float is_int_val
  sum_items no_items sum has_float = (sum, has_float)
  sum_items (item v vs) sum has_float = elim (to_float lib v) [
    | none ↦ sum_items vs sum has_float
    | some x ↦ sum_items vs (lib.add sum x) (has_float || not (is_int_val v))
  ]

  abbrev pub number : F × Bool → Value F
  number (x, has_float) = if has_float then float x else int64 (lib.to_int x)

  unfoldable pub filter_sum : Value F → Value F
  unfolding to_slice sum_items
  filter_sum v = on_slice v (λ vs. number (sum_items vs (lib.of_int (pos 0)) false))

  -- The better of two by the sense of the search.
  abbrev pub better : Bool → F → F → F
  better is_max x best =
      if is_max && lib.lt best x then x else if not is_max && lib.lt x best then x else best

  unfoldable pub best_of : Bool → Items F → F → Bool → F × Bool
  unfolding to_float is_int_val
  best_of is_max no_items best has_float = (best, has_float)
  best_of is_max (item v vs) best has_float = elim (to_float lib v) [
    | none ↦ best_of is_max vs best has_float
    | some x ↦ best_of is_max vs (better is_max x best) (has_float || not (is_int_val v))
  ]

  unfoldable pub filter_min_max : Bool → Value F → Value F
  unfolding to_float is_int_val best_of
  filter_min_max is_max (arr (item v vs)) = elim (to_float lib v) [
    | none ↦ nil
    | some best ↦ number (best_of is_max vs best (not (is_int_val v)))
  ]
  filter_min_max is_max _ = nil

  unfoldable pub sorts_before : Value F → Value F → Bool
  unfolding to_float as_string
  sorts_before a b =
      let texts : Bool = elim (as_string a) [
        | none ↦ false
        | some s ↦ elim (as_string b) [ none ↦ false | some t ↦ str_lt s t ]
      ] in
      elim (to_float lib a) [
        | none ↦ texts
        | some x ↦ elim (to_float lib b) [ none ↦ texts | some y ↦ lib.lt x y ]
      ]

  unfoldable pub filter_sort : Value F → Value F
  unfolding to_slice sorts_before
  filter_sort v = on_slice v (λ vs. arr (lib.stable_sort sorts_before vs))

  abbrev pub int_arg : ℕ → Items F → ℤ → ℤ
  int_arg i args default = elim (item_at args i) [
    | none ↦ default
    | some v ↦ elim (to_int lib v) [ none ↦ default | some n ↦ n ]
  ]

  unfoldable pub filter_slice : Value F → Items F → Value F
  unfolding to_slice item_at to_int clip_start clip_end slice_items
  filter_slice v args = on_slice v (λ vs.
      let k = items_length vs in
      arr (
        slice_items (clip_start (int_arg 0 args (pos 0))) (clip_end (int_arg 1 args (pos k)) k) vs))

  unfoldable pub unique_items : List Str → Items F → Items F
  unique_items seen no_items = no_items
  unique_items seen (item v vs) =
      let key = lib.sprint v in
      if mem key seen then unique_items seen vs else item v (unique_items (key ∷ seen) vs)

  unfoldable pub filter_unique : Value F → Value F
  unfolding to_slice unique_items
  filter_unique v = on_slice v (λ vs. arr (unique_items [] vs))

  unfoldable pub filter_to_int : Value F → Value F
  filter_to_int (int64 n) = int64 n
  filter_to_int (float x) = int64 (lib.to_int x)
  filter_to_int (str s) =
      let (n, is_int) = lib.parse_int s in
      if is_int
      then int64 n
      else elim (lib.parse_float s) [ none ↦ nil | some x ↦ int64 (lib.to_int x) ]
  filter_to_int (bool b) = int64 (pos (if b then 1 else 0))
  filter_to_int _ = nil

  unfoldable pub filter_to_float : Value F → Value F
  unfolding to_float
  filter_to_float v = elim (to_float lib v) [ none ↦ nil | some x ↦ float x ]

  -- `n, _ := toInt(v)`
  unfoldable pub int_or_zero : Value F → ℤ
  int_or_zero (int n) = n
  int_or_zero (int64 n) = n
  int_or_zero (float x) = lib.to_int x
  int_or_zero (str s) = (lib.parse_int s).0
  int_or_zero _ = pos 0

  unfoldable pub filter_round : Value F → Items F → Value F
  unfolding to_float int_or_zero item_at
  filter_round v args = elim (to_float lib v) [
    | none ↦ nil
    | some x ↦
        let n : ℤ = elim (item_at args 0) [ none ↦ pos 0 | some v ↦ int_or_zero v ] in
        let pow = lib.pow (lib.of_int (pos 10)) (lib.of_int n) in
        let result = lib.div (lib.round (lib.mul x pow)) pow in
        if is_zero n then int64 (lib.to_int result) else float result
  ]

  unfoldable pub filter_split : Value F → Items F → Value F
  unfolding as_string item_at string_or_empty strings_items
  filter_split v args = elim (as_string v) [
    | none ↦ nil
    | some s ↦ arr (strings_items (lib.split s (string_arg 0 args)))
  ]

  -- `count` is 1, or -1 for all.
  unfoldable pub filter_replace : ℤ → Value F → Items F → Value F
  unfolding string_or_empty
  filter_replace count (str s) (item before (item after args)) =
      str (lib.replace s (string_or_empty before) (string_or_empty after) count)
  filter_replace count (str s) _ = str s
  filter_replace count _ _ = nil

  unfoldable pub filter_is_empty : Value F → Bool
  unfolding to_float
  filter_is_empty nil = true
  filter_is_empty (str s) = length s == 0
  filter_is_empty (arr vs) = items_length vs == 0
  filter_is_empty (bool b) = not b
  filter_is_empty v = elim (to_float lib v) [
    | none ↦ false
    | some x ↦ lib.eq x (lib.of_int (pos 0))
  ]

  unfoldable pub filter_token_estimate : Value F → Value F
  unfolding total_length
  filter_token_estimate (str s) = int64 (pos (length s / 4))
  filter_token_estimate (arr vs) = int64 (pos (total_length vs / 4))
  filter_token_estimate nil = int64 (pos 0)
  filter_token_estimate v = int64 (pos (length (lib.sprint v) / 4))
