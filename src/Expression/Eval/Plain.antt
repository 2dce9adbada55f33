-- ===== src/Expression/Eval/Plain.antt =====
-- Values without lambdas: JSON data. The operators and the filters that evaluate nothing give such values for
-- such values.
use brockleyai.Prelude.{
  Str, str_eq, str_lt, ℕ, zero, suc, ◌-◌, ltb, leb, Bool, true, false, Option, none, some, ℤ, pos,
  negsuc, if◌then◌else◌, List, [], ◌∷◌,
}
use brockleyai.Value.{
  Value, Items, Entries, nil, str, arr, obj, no_items, item, no_entries, entry, items_length,
}
use brockleyai.Expression.Values.{
  find_key, put_key, or_nil, append_items, item_at, index_items, field_access, to_slice,
}
use brockleyai.Expression.Filters.{
  all_of, on_slice, filter_length, filter_first, filter_last, reverse_onto, filter_reverse,
  flatten_items, filter_flatten, take_items, drop_items, slice_items, put_entry, sort_entries,
  key_items, value_items, filter_keys, filter_values, join_slices, filter_concat, filter_default,
  strings_items,
}

abbrev mutual
  pub IsPlain : {F : Type 0} → Value F → Type 0
  IsPlain (arr vs) = ArePlain vs
  IsPlain (obj es) = EntriesPlain es
  IsPlain (Value.lambda param body) = ⊥
  IsPlain _ = Unit

  pub ArePlain : {F : Type 0} → Items F → Type 0
  ArePlain no_items = Unit
  ArePlain (item v vs) = IsPlain v × ArePlain vs

  pub EntriesPlain : {F : Type 0} → Entries F → Type 0
  EntriesPlain no_entries = Unit
  EntriesPlain (entry k v es) = IsPlain v × EntriesPlain es

abbrev pub PlainIfSome : {F : Type 0} → Option (Value F) → Type 0
PlainIfSome none = Unit
PlainIfSome (some v) = IsPlain v

or_nil-IsPlain : {F : Type 0} (o : Option (Value F)) → PlainIfSome o → IsPlain (or_nil o)
or_nil-IsPlain none h = tt
or_nil-IsPlain (some v) h = h

item_at-Plain : {F : Type 0} (vs : Items F) (i : ℕ) → ArePlain vs → PlainIfSome (item_at vs i)
unfolding item_at
item_at-Plain no_items i h = tt
item_at-Plain (item v vs) zero h = h.0
item_at-Plain (item v vs) (suc i) h = item_at-Plain vs i h.1

nth-IsPlain : {F : Type 0} (vs : Items F) (i : ℕ) → ArePlain vs → IsPlain (or_nil (item_at vs i))
nth-IsPlain vs i h = or_nil-IsPlain (item_at vs i) (item_at-Plain vs i h)

pub if-Plain :
    {F : Type 0} (b : Bool) (o p : Option (Value F))
    → PlainIfSome o
    → PlainIfSome p
    → PlainIfSome (if b then o else p)
if-Plain true o p h k = h
if-Plain false o p h k = k

pub if-IsPlain :
    {F : Type 0} (b : Bool) (v w : Value F) → IsPlain v → IsPlain w → IsPlain (if b then v else w)
if-IsPlain true v w h k = h
if-IsPlain false v w h k = k

pub if-ArePlain :
    {F : Type 0} (b : Bool) (v w : Items F)
    → ArePlain v
    → ArePlain w
    → ArePlain (if b then v else w)
if-ArePlain true v w h k = h
if-ArePlain false v w h k = k

if-EntriesPlain :
    {F : Type 0} (b : Bool) (v w : Entries F)
    → EntriesPlain v
    → EntriesPlain w
    → EntriesPlain (if b then v else w)
if-EntriesPlain true v w h k = h
if-EntriesPlain false v w h k = k

find_key-Plain :
    {F : Type 0} (k : Str) (es : Entries F) → EntriesPlain es → PlainIfSome (find_key k es)
unfolding find_key
find_key-Plain k no_entries h = tt
find_key-Plain k (entry j v es) h = if-Plain (str_eq j k) _ _ h.0 (find_key-Plain k es h.1)

pub field_access-IsPlain :
    {F : Type 0} (v : Value F) (k : Str) → IsPlain v → IsPlain (field_access v k)
unfolding field_access
field_access-IsPlain (obj es) k h = or_nil-IsPlain (find_key k es) (find_key-Plain k es h)
field_access-IsPlain v k h = tt

pub put_key-EntriesPlain :
    {F : Type 0} (k : Str) (v : Value F) (es : Entries F)
    → IsPlain v
    → EntriesPlain es
    → EntriesPlain (put_key k v es)
unfolding put_key
put_key-EntriesPlain k v no_entries p h = (p, tt)
put_key-EntriesPlain k v (entry j w es) p h =
    if-EntriesPlain (str_eq j k) _ _ (p, h.1) (h.0, put_key-EntriesPlain k v es p h.1)

pub index_items-IsPlain :
    {F : Type 0} (vs : Items F) (n : ℤ) → ArePlain vs → IsPlain (index_items vs n)
unfolding index_items
index_items-IsPlain vs (pos i) h = nth-IsPlain vs i h
index_items-IsPlain vs (negsuc n) h =
    if-IsPlain (ltb n (items_length vs)) _ nil (nth-IsPlain vs (items_length vs - suc n) h) tt

pub append_items-ArePlain :
    {F : Type 0} (vs ws : Items F) → ArePlain vs → ArePlain ws → ArePlain (append_items vs ws)
append_items-ArePlain no_items ws h k = k
append_items-ArePlain (item v vs) ws h k = (h.0, append_items-ArePlain vs ws h.1 k)

reverse_onto-ArePlain :
    {F : Type 0} (vs ws : Items F) → ArePlain vs → ArePlain ws → ArePlain (reverse_onto vs ws)
unfolding reverse_onto
reverse_onto-ArePlain no_items ws h k = k
reverse_onto-ArePlain (item v vs) ws h k = reverse_onto-ArePlain vs (item v ws) h.1 (h.0, k)

-- A filter on slices.
pub on_slice-IsPlain :
    {F : Type 0} (v : Value F) (f : Items F → Value F)
    → IsPlain v
    → ((vs : Items F) → ArePlain vs → IsPlain (f vs))
    → IsPlain (on_slice v f)
unfolding to_slice
on_slice-IsPlain (arr vs) f h k = k vs h
on_slice-IsPlain v f h k = tt

flatten_items-ArePlain : {F : Type 0} (vs : Items F) → ArePlain vs → ArePlain (flatten_items vs)
unfolding flatten_items
flatten_items-ArePlain no_items h = tt
flatten_items-ArePlain (item (arr vs) ws) h =
    append_items-ArePlain vs _ h.0 (flatten_items-ArePlain ws h.1)
flatten_items-ArePlain (item v ws) h = (h.0, flatten_items-ArePlain ws h.1)

join_slices-ArePlain : {F : Type 0} (vs : Items F) → ArePlain vs → ArePlain (join_slices vs)
unfolding join_slices
join_slices-ArePlain no_items h = tt
join_slices-ArePlain (item (arr vs) ws) h =
    append_items-ArePlain vs _ h.0 (join_slices-ArePlain ws h.1)
join_slices-ArePlain (item v ws) h = join_slices-ArePlain ws h.1

take_items-ArePlain : {F : Type 0} (n : ℕ) (vs : Items F) → ArePlain vs → ArePlain (take_items n vs)
take_items-ArePlain zero vs h = tt
take_items-ArePlain (suc n) no_items h = tt
take_items-ArePlain (suc n) (item v vs) h = (h.0, take_items-ArePlain n vs h.1)

drop_items-ArePlain : {F : Type 0} (n : ℕ) (vs : Items F) → ArePlain vs → ArePlain (drop_items n vs)
drop_items-ArePlain zero vs h = h
drop_items-ArePlain (suc n) no_items h = tt
drop_items-ArePlain (suc n) (item v vs) h = drop_items-ArePlain n vs h.1

pub slice_items-ArePlain :
    {F : Type 0} (a b : ℕ) (vs : Items F) → ArePlain vs → ArePlain (slice_items a b vs)
unfolding slice_items
slice_items-ArePlain a b vs h =
    if-ArePlain (leb b a) _ _ tt
      (drop_items-ArePlain a (take_items b vs) (take_items-ArePlain b vs h))

put_entry-EntriesPlain :
    {F : Type 0} (k : Str) (v : Value F) (es : Entries F)
    → IsPlain v
    → EntriesPlain es
    → EntriesPlain (put_entry k v es)
unfolding put_entry
put_entry-EntriesPlain k v no_entries p h = (p, tt)
put_entry-EntriesPlain k v (entry j w es) p h =
    if-EntriesPlain (str_lt j k) _ _ (h.0, put_entry-EntriesPlain k v es p h.1) (p, h)

sort_entries-EntriesPlain :
    {F : Type 0} (es : Entries F) → EntriesPlain es → EntriesPlain (sort_entries es)
unfolding sort_entries
sort_entries-EntriesPlain no_entries h = tt
sort_entries-EntriesPlain (entry k v es) h =
    put_entry-EntriesPlain k v _ h.0 (sort_entries-EntriesPlain es h.1)

key_items-ArePlain : {F : Type 0} (es : Entries F) → ArePlain (key_items es)
unfolding key_items
key_items-ArePlain no_entries = tt
key_items-ArePlain (entry k v es) = (tt, key_items-ArePlain es)

value_items-ArePlain : {F : Type 0} (es : Entries F) → EntriesPlain es → ArePlain (value_items es)
unfolding value_items
value_items-ArePlain no_entries h = tt
value_items-ArePlain (entry k v es) h = (h.0, value_items-ArePlain es h.1)

pub strings_items-ArePlain : (F : Type 0) (ss : List Str) → ArePlain {F = F} (strings_items ss)
unfolding strings_items
strings_items-ArePlain F [] = tt
strings_items-ArePlain F (s ∷ ss) = (tt, strings_items-ArePlain F ss)

pub all_of-ArePlain :
    {F : Type 0} (f : Value F → Value F) (vs : Items F)
    → ((v : Value F) → IsPlain v → IsPlain (f v))
    → ArePlain vs
    → ArePlain (all_of f vs)
all_of-ArePlain f no_items k h = tt
all_of-ArePlain f (item v vs) k h = (k v h.0, all_of-ArePlain f vs k h.1)

-- The filters on one value.
module _ {F : Type 0} (v : Value F) (h : IsPlain v) where
  pub filter_first-IsPlain : IsPlain (filter_first v)
  unfolding filter_first
  filter_first-IsPlain = on_slice-IsPlain v _ h (λ vs p. nth-IsPlain vs 0 p)

  pub filter_last-IsPlain : IsPlain (filter_last v)
  unfolding filter_last
  filter_last-IsPlain = on_slice-IsPlain v _ h (λ vs p. nth-IsPlain vs (items_length vs - 1) p)

  pub filter_reverse-IsPlain : IsPlain (filter_reverse v)
  unfolding filter_reverse
  filter_reverse-IsPlain = on_slice-IsPlain v _ h (λ vs p. reverse_onto-ArePlain vs no_items p tt)

  pub filter_flatten-IsPlain : IsPlain (filter_flatten v)
  unfolding filter_flatten
  filter_flatten-IsPlain = on_slice-IsPlain v _ h (λ vs p. flatten_items-ArePlain vs p)

  pub filter_concat-IsPlain : (args : Items F) → ArePlain args → IsPlain (filter_concat v args)
  unfolding filter_concat
  filter_concat-IsPlain args q =
      on_slice-IsPlain v _ h (λ vs p. append_items-ArePlain vs _ p (join_slices-ArePlain args q))

pub filter_length-IsPlain : {F : Type 0} (v : Value F) → IsPlain (filter_length v)
unfolding filter_length
filter_length-IsPlain (str s) = tt
filter_length-IsPlain (arr vs) = tt
filter_length-IsPlain nil = tt
filter_length-IsPlain _ = tt

pub filter_keys-IsPlain : {F : Type 0} (v : Value F) → IsPlain (filter_keys v)
unfolding filter_keys
filter_keys-IsPlain (obj es) = key_items-ArePlain (sort_entries es)
filter_keys-IsPlain _ = tt

pub filter_values-IsPlain : {F : Type 0} (v : Value F) → IsPlain v → IsPlain (filter_values v)
unfolding filter_values
filter_values-IsPlain (obj es) h =
    value_items-ArePlain (sort_entries es) (sort_entries-EntriesPlain es h)
filter_values-IsPlain v h = tt

pub filter_default-IsPlain :
    {F : Type 0} (v : Value F) (args : Items F)
    → IsPlain v
    → ArePlain args
    → IsPlain (filter_default v args)
unfolding filter_default
filter_default-IsPlain nil args h k = nth-IsPlain args 0 k
filter_default-IsPlain (arr vs) args h k = h
filter_default-IsPlain (obj es) args h k = h
filter_default-IsPlain v args h k = h
