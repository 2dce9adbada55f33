-- ===== src/Superagent/Memory/RoundTrip.antt =====
-- The state value of a memory, loaded again: sorted by key, with the same entry under every key.
use brockleyai.Prelude.{
  Bool, true, ◌&&◌, all, str_lt, str_lt_irrefl, str_lt_asym, Str, str_eq, str_eq_iff, ◌≡◌, refl,
  ◌∙◌, false, Option, none, some, List, [], ◌∷◌, if◌then◌else◌, arith, count, IsDistinct,
  Bool-cases, inl, inr,
}
use brockleyai.Superagent.Memory.{
  MemoryEntry, MemoryStore, to_state_value, insert_by_key, sort_by_key, load_from_state,
}
use brockleyai.Superagent.Memory.Keys.{entry_keys, find_entry}

abbrev pub no_state : Str → Option MemoryEntry
no_state k = none

abbrev NotBelow : MemoryEntry → List MemoryEntry → Type 0
NotBelow e [] = Unit
NotBelow e (x ∷ xs) = str_lt x.key e.key ≡ false

-- No entry has a smaller key than the one before it.
abbrev pub IsSorted : List MemoryEntry → Type 0
IsSorted [] = Unit
IsSorted (e ∷ es) = NotBelow e es × IsSorted es

insert_by_key-NotBelow :
    (x e : MemoryEntry) (es : List MemoryEntry)
    → str_lt e.key x.key ≡ false
    → NotBelow x es
    → NotBelow x (insert_by_key e es)
unfolding insert_by_key
insert_by_key-NotBelow x e [] h b = h
insert_by_key-NotBelow x e (y ∷ es) h b = elim (Bool-cases (str_lt y.key e.key)) [
  | inl below ↦ rw below b
  | inr above ↦ rw above h
]

insert_by_key-IsSorted :
    (e : MemoryEntry) (es : List MemoryEntry) → IsSorted es → IsSorted (insert_by_key e es)
unfolding insert_by_key
insert_by_key-IsSorted e [] h = (tt, tt)
insert_by_key-IsSorted e (x ∷ es) h = elim (Bool-cases (str_lt x.key e.key)) [
  | inl below ↦ rw below (
    insert_by_key-NotBelow x e es (str_lt_asym x.key e.key below) h.0,
    insert_by_key-IsSorted e es h.1,
  )
  | inr above ↦ rw above (above, h)
]

sort_by_key-IsSorted : (es : List MemoryEntry) → IsSorted (sort_by_key es)
unfolding sort_by_key
sort_by_key-IsSorted [] = tt
sort_by_key-IsSorted (e ∷ es) = insert_by_key-IsSorted e (sort_by_key es) (sort_by_key-IsSorted es)

find_entry-insert_by_key :
    (e : MemoryEntry) (es : List MemoryEntry) (k : Str)
    → find_entry k (insert_by_key e es) ≡ (if str_eq e.key k then some e else find_entry k es)
unfolding insert_by_key find_entry
find_entry-insert_by_key e [] k = refl
find_entry-insert_by_key e (x ∷ es) k = ground (
  arith,
  find_entry-insert_by_key e es k,
  str_eq_iff x.key k,
  str_eq_iff e.key k,
  str_lt_irrefl k,
)

find_entry-sort_by_key :
    (es : List MemoryEntry) (k : Str) → find_entry k (sort_by_key es) ≡ find_entry k es
unfolding sort_by_key find_entry
find_entry-sort_by_key [] k = refl
find_entry-sort_by_key (e ∷ es) k =
    find_entry-insert_by_key e (sort_by_key es) k ∙ rw (find_entry-sort_by_key es k) refl

find_entry-fresh :
    (k : Str) (es : List MemoryEntry) → count k (entry_keys es) ≡ 0 → find_entry k es ≡ none
unfolding find_entry
find_entry-fresh k [] h = refl
find_entry-fresh k (e ∷ es) h =
    ground (arith, find_entry-fresh k es, str_eq_iff k e.key, str_eq_iff e.key k)

abbrev or_before : Option MemoryEntry → Option MemoryEntry → Option MemoryEntry
or_before none later = later
or_before (some e) later = some e

tail-IsDistinct :
    (e : MemoryEntry) (es : List MemoryEntry)
    → IsDistinct (entry_keys (e ∷ es))
    → IsDistinct (entry_keys es)
tail-IsDistinct e es d k = ground (arith, d k)

to_state_value-distinct :
    (es : List MemoryEntry) (m : Str → Option MemoryEntry) (k : Str)
    → IsDistinct (entry_keys es)
    → to_state_value es m k ≡ or_before (find_entry k es) (m k)
unfolding to_state_value find_entry
to_state_value-distinct [] m k d = refl
to_state_value-distinct (e ∷ es) m k d =
    to_state_value-distinct es (λ j. if str_eq j e.key then some e else m j) k
      (tail-IsDistinct e es d)
    ∙ elim (Bool-cases (str_eq e.key k)) [
      | inl same ↦
          let once : count k (entry_keys es) ≡ 0 =
            ground (arith, d k, same, str_eq_iff e.key k, str_eq_iff k e.key) in
          ground (arith, same, find_entry-fresh k es once, str_eq_iff e.key k, str_eq_iff k e.key)
      | inr other ↦ ground (arith, other, str_eq_iff e.key k, str_eq_iff k e.key)
    ]

-- Every text of the entry passes the test.
abbrev pub is_text : (Str → Bool) → MemoryEntry → Bool
is_text is_utf8 e = is_utf8 e.key && is_utf8 e.content && is_utf8 e.namespace && all is_utf8 e.tags

-- What encoding/json documents: text in UTF-8 is read back as it was written, so that a map of entries whose
-- texts are UTF-8 is read back as the same map.
abbrev pub Recodes : (Str → Bool) → (List MemoryEntry → Option (List MemoryEntry)) → Type 0
Recodes is_utf8 recode =
    (state : List MemoryEntry)
    → IsDistinct (entry_keys state)
    → all (is_text is_utf8) state ≡ true
    → (found : List MemoryEntry) × (recode state ≡ some found)
      × ((k : Str) → find_entry k found ≡ find_entry k state)

-- A memory whose keys are distinct is written as a state value, and loaded again from any listing of that map,
-- all texts of which are UTF-8, through an encoding that reads such texts back as they were. The memory that
-- results is sorted by key and has the same entry, or none, under every key.
pub load_from_state-to_state_value :
    (is_utf8 : Str → Bool) (recode : List MemoryEntry → Option (List MemoryEntry))
    → Recodes is_utf8 recode
    → (ms : MemoryStore) (state : List MemoryEntry) (target : MemoryStore)
    → IsDistinct (entry_keys ms.entries)
    → ((k : Str) → find_entry k state ≡ to_state_value ms.entries no_state k)
    → IsDistinct (entry_keys state)
    → all (is_text is_utf8) state ≡ true
    → IsSorted (load_from_state recode (some state) target).entries
      × ((k : Str)
          → find_entry k (load_from_state recode (some state) target).entries
            ≡ find_entry k ms.entries)
unfolding load_from_state
load_from_state-to_state_value is_utf8 recode recodes ms state target d lists once texts =
    let (found, ran, same) = recodes state once texts in
    rw (ran, load_from_state)
      (
        sort_by_key-IsSorted found,
        λ k.
            find_entry-sort_by_key found k
            ∙ (same k
                ∙ (lists k
                    ∙ (to_state_value-distinct ms.entries no_state k d
                        ∙ or_none (find_entry k ms.entries)))),
      )
  where
    or_none : (o : Option MemoryEntry) → or_before o none ≡ o
    or_none none = refl
    or_none (some e) = refl
