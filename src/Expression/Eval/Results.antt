-- ===== src/Expression/Eval/Results.antt =====
-- The filters that read numbers and texts give values without lambdas, and so do the operators.
use brockleyai.Prelude.{
  Str, codes, str_eq, mem, Bool, true, false, not, Option, none, some, ℤ, pos, negsuc, is_zero,
  if◌then◌else◌, List, [], ◌∷◌,
}
use brockleyai.Value.{Value, Items, nil, bool, int64, float, str, arr, obj, no_items, item}
use brockleyai.Expression.Values.{
  Library, find_key, string_or_empty, to_float, to_int, to_slice, as_string, is_int_val,
  numeric_bin_op, whole_or_float,
}
use brockleyai.Expression.Filters.{
  filter_has, filter_join, filter_contains, sum_items, filter_sum, number, best_of, filter_min_max,
  filter_sort, sorts_before, filter_slice, unique_items, filter_unique, filter_to_int,
  filter_to_float, filter_round, filter_split, filter_replace, filter_token_estimate,
}
use brockleyai.Expression.Operators.{add_values, divide, remainder, index_value, binary_op}
use brockleyai.Expression.Outcome.{Outcome, evaluated, failed, panicked, unfinished}
use brockleyai.Expression.Eval.{pure_filter}
use brockleyai.Expression.Eval.Plain.{
  IsPlain, ArePlain, PlainIfSome, if-Plain, if-IsPlain, if-ArePlain, on_slice-IsPlain,
  slice_items-ArePlain, strings_items-ArePlain, index_items-IsPlain, filter_length-IsPlain,
  filter_first-IsPlain, filter_last-IsPlain, filter_reverse-IsPlain, filter_flatten-IsPlain,
  filter_keys-IsPlain, filter_values-IsPlain, filter_concat-IsPlain, filter_default-IsPlain,
}

-- An evaluation is not out of fuel, and a value that it gives satisfies the predicate.
abbrev pub Ends {ℓ} : {A : Type ℓ} → (A → Type 0) → Outcome A → Type 0
Ends P (evaluated a) = P a
Ends P (failed e) = Unit
Ends P panicked = Unit
Ends P unfinished = ⊥

pub if-Ends {ℓ} :
    {A : Type ℓ} (P : A → Type 0) (b : Bool) (r s : Outcome A)
    → Ends P r
    → Ends P s
    → Ends P (if b then r else s)
if-Ends P true r s h k = h
if-Ends P false r s h k = k

is_some-IsPlain :
    {F : Type 0} (o : Option (Value F))
    → IsPlain {F = F} (elim o [ none ↦ bool false | some _ ↦ bool true ])
is_some-IsPlain none = tt
is_some-IsPlain (some w) = tt

filter_has-IsPlain : {F : Type 0} (v : Value F) (args : Items F) → IsPlain (filter_has v args)
unfolding filter_has
filter_has-IsPlain (obj es) (item v vs) = is_some-IsPlain (find_key (string_or_empty v) es)
filter_has-IsPlain (obj es) no_items = tt
filter_has-IsPlain v args = tt

module _ {F : Type 0} (lib : Library F) where
  -- Sorting keeps a list free of lambdas: what it gives is what it was given, in another order.
  abbrev pub SortsPlain : Type 0
  SortsPlain =
      (before : Value F → Value F → Bool) (vs : Items F)
      → ArePlain vs
      → ArePlain (lib.stable_sort before vs)

  if_number-IsPlain : (b : Bool) (n : ℤ) (x : F) → IsPlain (if b then int64 n else float x)
  if_number-IsPlain true n x = tt
  if_number-IsPlain false n x = tt

  if_nil-IsPlain : (b : Bool) (v : Value F) → IsPlain v → IsPlain (if b then nil else v)
  if_nil-IsPlain true v h = tt
  if_nil-IsPlain false v h = h

  number-IsPlain : (p : F × Bool) → IsPlain (number lib p)
  number-IsPlain (x, true) = tt
  number-IsPlain (x, false) = tt

  filter_join-IsPlain : (v : Value F) (args : Items F) → IsPlain (filter_join lib v args)
  unfolding filter_join to_slice
  filter_join-IsPlain (arr vs) args = tt
  filter_join-IsPlain v args = tt

  filter_contains-IsPlain : (v : Value F) (args : Items F) → IsPlain (filter_contains lib v args)
  unfolding filter_contains
  filter_contains-IsPlain v no_items = tt
  filter_contains-IsPlain (str s) (item needle args) = tt
  filter_contains-IsPlain (arr vs) (item needle args) = tt
  filter_contains-IsPlain v (item needle args) = tt

  filter_sum-IsPlain : (v : Value F) → IsPlain (filter_sum lib v)
  unfolding filter_sum to_slice
  filter_sum-IsPlain (arr vs) = number-IsPlain (sum_items lib vs (lib.of_int (pos 0)) false)
  filter_sum-IsPlain v = tt

  filter_min_max-IsPlain : (is_max : Bool) (v : Value F) → IsPlain (filter_min_max lib is_max v)
  unfolding filter_min_max
  filter_min_max-IsPlain is_max (arr (item v vs)) = from (to_float lib v)
    where
      from :
          (o : Option F)
          → IsPlain (elim o [
            | none ↦ nil
            | some best ↦ number lib (best_of lib is_max vs best (not (is_int_val v)))
          ])
      from none = tt
      from (some best) = number-IsPlain (best_of lib is_max vs best (not (is_int_val v)))
  filter_min_max-IsPlain is_max (arr no_items) = tt
  filter_min_max-IsPlain is_max v = tt

  filter_slice-IsPlain :
      (v : Value F) (args : Items F) → IsPlain v → IsPlain (filter_slice lib v args)
  unfolding filter_slice
  filter_slice-IsPlain v args h = on_slice-IsPlain v _ h (λ vs p. slice_items-ArePlain _ _ vs p)

  unique_items-ArePlain :
      (seen : List Str) (vs : Items F) → ArePlain vs → ArePlain (unique_items lib seen vs)
  unfolding unique_items
  unique_items-ArePlain seen no_items h = tt
  unique_items-ArePlain seen (item v vs) h =
      if-ArePlain (mem (lib.sprint v) seen) _ _ (unique_items-ArePlain seen vs h.1)
        (h.0, unique_items-ArePlain (lib.sprint v ∷ seen) vs h.1)

  filter_unique-IsPlain : (v : Value F) → IsPlain v → IsPlain (filter_unique lib v)
  unfolding filter_unique
  filter_unique-IsPlain v h = on_slice-IsPlain v _ h (λ vs p. unique_items-ArePlain [] vs p)

  -- A number that is read by a parser or a conversion.
  of_option-IsPlain :
      {A : Type 0} (o : Option A) (f : A → Value F)
      → ((a : A) → IsPlain (f a))
      → IsPlain (elim o [ none ↦ nil | some a ↦ f a ])
  of_option-IsPlain none f h = tt
  of_option-IsPlain (some a) f h = h a

  filter_to_int-IsPlain : (v : Value F) → IsPlain (filter_to_int lib v)
  unfolding filter_to_int
  filter_to_int-IsPlain (int64 n) = tt
  filter_to_int-IsPlain (float x) = tt
  filter_to_int-IsPlain (str s) =
      if-IsPlain (lib.parse_int s).1 _ _ tt (of_option-IsPlain (lib.parse_float s) _ (λ x. tt))
  filter_to_int-IsPlain (bool b) = tt
  filter_to_int-IsPlain v = tt

  filter_to_float-IsPlain : (v : Value F) → IsPlain (filter_to_float lib v)
  unfolding filter_to_float
  filter_to_float-IsPlain v = of_option-IsPlain (to_float lib v) _ (λ x. tt)

  filter_round-IsPlain : (v : Value F) (args : Items F) → IsPlain (filter_round lib v args)
  unfolding filter_round
  filter_round-IsPlain v args = of_option-IsPlain (to_float lib v) _ (λ x. if_number-IsPlain _ _ _)

  filter_split-IsPlain : (v : Value F) (args : Items F) → IsPlain (filter_split lib v args)
  unfolding filter_split
  filter_split-IsPlain v args = of_option-IsPlain (as_string v) _ (λ s. strings_items-ArePlain F _)

  filter_replace-IsPlain :
      (count : ℤ) (v : Value F) (args : Items F) → IsPlain (filter_replace lib count v args)
  unfolding filter_replace
  filter_replace-IsPlain count (str s) (item before (item after args)) = tt
  filter_replace-IsPlain count (str s) (item before no_items) = tt
  filter_replace-IsPlain count (str s) no_items = tt
  filter_replace-IsPlain count v args = tt

  filter_token_estimate-IsPlain : (v : Value F) → IsPlain (filter_token_estimate lib v)
  unfolding filter_token_estimate
  filter_token_estimate-IsPlain (str s) = tt
  filter_token_estimate-IsPlain (arr vs) = tt
  filter_token_estimate-IsPlain nil = tt
  filter_token_estimate-IsPlain v = tt

  whole_or_float-IsPlain : (v w : Value F) (x : F) → IsPlain (whole_or_float lib v w x)
  unfolding whole_or_float
  whole_or_float-IsPlain v w x = if_number-IsPlain _ _ _

  numeric_bin_op-IsPlain : (v w : Value F) (op : F → F → F) → IsPlain (numeric_bin_op lib v w op)
  unfolding numeric_bin_op
  numeric_bin_op-IsPlain v w op =
      of_option-IsPlain (to_float lib v) _
        (λ x. of_option-IsPlain (to_float lib w) _ (λ y. whole_or_float-IsPlain v w (op x y)))

  divide-IsPlain : (v w : Value F) → IsPlain (divide lib v w)
  unfolding divide
  divide-IsPlain v w = of_option-IsPlain (to_float lib w) _ (λ y.
      if_nil-IsPlain _ _
        (of_option-IsPlain (to_float lib v) _ (λ x. whole_or_float-IsPlain v w (lib.div x y))))

  remainder-IsPlain : (v w : Value F) → IsPlain (remainder lib v w)
  unfolding remainder
  remainder-IsPlain v w = of_option-IsPlain (to_int lib v) _ (λ m.
      of_option-IsPlain (to_int lib w) _ (λ n. if_nil-IsPlain (is_zero n) (int64 (lib.rem m n)) tt))

  add_values-IsPlain : (v w : Value F) → IsPlain (add_values lib v w)
  unfolding add_values
  add_values-IsPlain (str s) (str t) = tt
  add_values-IsPlain v w = numeric_bin_op-IsPlain v w lib.add

  pub index_value-IsPlain : (v i : Value F) → IsPlain v → IsPlain (index_value lib v i)
  unfolding to_slice
  index_value-IsPlain (arr vs) i h =
      of_option-IsPlain (to_int lib i) _ (λ n. index_items-IsPlain vs n h)
  index_value-IsPlain v i h = tt

  pub binary_op-Ends : (op : Str) (v w : Value F) → Ends IsPlain (binary_op lib op v w)
  unfolding binary_op
  binary_op-Ends op v w = if-Ends IsPlain (str_eq op (codes "+")) _ _ (add_values-IsPlain v w) (
      if-Ends IsPlain (str_eq op (codes "-")) _ _ (numeric_bin_op-IsPlain v w lib.sub) (
        if-Ends IsPlain (str_eq op (codes "*")) _ _ (numeric_bin_op-IsPlain v w lib.mul) (
          if-Ends IsPlain (str_eq op (codes "/")) _ _ (divide-IsPlain v w) (
            if-Ends IsPlain (str_eq op (codes "%")) _ _ (remainder-IsPlain v w) (
              if-Ends IsPlain (str_eq op (codes "==")) _ _ tt (
                if-Ends IsPlain (str_eq op (codes "!=")) _ _ tt (
                  if-Ends IsPlain (str_eq op (codes ">")) _ _ tt (
                    if-Ends IsPlain (str_eq op (codes ">=")) _ _ tt (
                      if-Ends IsPlain (str_eq op (codes "<")) _ _ tt
                        (if-Ends IsPlain (str_eq op (codes "<=")) _ _ tt tt))))))))))

  filter_sort-IsPlain : SortsPlain → (v : Value F) → IsPlain v → IsPlain (filter_sort lib v)
  unfolding filter_sort
  filter_sort-IsPlain sorts v h = on_slice-IsPlain v _ h (λ vs p. sorts (sorts_before lib) vs p)

  pub pure_filter-Plain :
      SortsPlain
      → (name : Str) (v : Value F) (args : Items F) → IsPlain v
      → ArePlain args
      → PlainIfSome (pure_filter lib name v args)
  unfolding pure_filter
  pure_filter-Plain sorts name v args h k =
      if-Plain (str_eq name (codes "length")) _ _ (filter_length-IsPlain v) (
        if-Plain (str_eq name (codes "first")) _ _ (filter_first-IsPlain v h) (
          if-Plain (str_eq name (codes "last")) _ _ (filter_last-IsPlain v h) (
            if-Plain (str_eq name (codes "join")) _ _ (filter_join-IsPlain v args) (
              if-Plain (str_eq name (codes "contains")) _ _ (filter_contains-IsPlain v args) (
                if-Plain (str_eq name (codes "sum")) _ _ (filter_sum-IsPlain v) (
                  if-Plain (str_eq name (codes "min")) _ _ (filter_min_max-IsPlain false v) (
                    if-Plain (str_eq name (codes "max")) _ _ (filter_min_max-IsPlain true v) (
                      if-Plain (str_eq name (codes "sort")) _ _ (filter_sort-IsPlain sorts v h) (
                        if-Plain (str_eq name (codes "reverse")) _ _ (filter_reverse-IsPlain v h) (
                          if-Plain (str_eq name (codes "flatten")) _ _ (filter_flatten-IsPlain v h)
                            (if-Plain (str_eq name (codes "slice")) _ _
                              (filter_slice-IsPlain v args h)
                              (if-Plain (str_eq name (codes "unique")) _ _
                                (filter_unique-IsPlain v h)
                                (if-Plain (str_eq name (codes "keys")) _ _ (filter_keys-IsPlain v) (
                                  if-Plain (str_eq name (codes "values")) _ _
                                    (filter_values-IsPlain v h)
                                    (if-Plain (str_eq name (codes "has")) _ _
                                      (filter_has-IsPlain v args)
                                      (if-Plain (str_eq name (codes "toInt")) _ _
                                        (filter_to_int-IsPlain v)
                                        (if-Plain (str_eq name (codes "toFloat")) _ _
                                          (filter_to_float-IsPlain v)
                                          (if-Plain (str_eq name (codes "toString")) _ _ tt (
                                            if-Plain (str_eq name (codes "toBool")) _ _ tt (
                                              if-Plain (str_eq name (codes "round")) _ _
                                                (filter_round-IsPlain v args)
                                                (if-Plain (str_eq name (codes "upper")) _ _ tt (
                                                  if-Plain (str_eq name (codes "lower")) _ _ tt (
                                                    if-Plain (str_eq name (codes "trim")) _ _ tt (
                                                      if-Plain (str_eq name (codes "split")) _ _
                                                        (filter_split-IsPlain v args)
                                                        (if-Plain (str_eq name (codes "replace")) _
                                                          _ (filter_replace-IsPlain (pos 1) v args)
                                                          (if-Plain
                                                            (str_eq name (codes "replaceAll")) _ _
                                                            (filter_replace-IsPlain (negsuc 0) v
                                                            args)
                                                            (if-Plain (str_eq name (codes "concat"))
                                                            _ _ (filter_concat-IsPlain v h args k)
                                                            (if-Plain
                                                            (str_eq name (codes "isEmpty")) _ _ tt
                                                            (if-Plain
                                                            (str_eq name (codes "default")) _ _
                                                            (filter_default-IsPlain v args h k)
                                                            (if-Plain
                                                            (str_eq name (codes "tokenEstimate")) _
                                                            _ (filter_token_estimate-IsPlain v)
                                                            tt))))))))))))))))))))))))))))))
