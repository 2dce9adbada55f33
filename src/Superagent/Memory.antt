-- ===== src/Superagent/Memory.antt =====
-- MemoryStore of engine/executor/superagent_builtin_tools.go.
pub mod Keys
pub mod RoundTrip
use brockleyai.Prelude.{
  contains, str_lt, Str, codes, str_eq, ℕ, ◌==◌, ltb, Bool, true, false, not, ◌&&◌, ◌||◌, Option,
  none, some, List, [], ◌∷◌, ◌++◌, if◌then◌else◌, length, select, any, mem,
}
use brockleyai.Json.{Json, Items, Members, obj, str, arr, member, no_members, item, no_items}

pub record MemoryEntry : Type 0 where
  pub key : Str
  pub content : Str
  pub tags : List Str
  pub namespace : Str

pub record MemoryStore : Type 0 where
  pub entries : List MemoryEntry
  pub namespace : Str

abbrev pub new_memory_store : Str → MemoryStore
new_memory_store namespace = record { entries = []; namespace = namespace }

-- The first entry of the key is overwritten; without one the entry is appended.
unfoldable pub put_entry : MemoryEntry → List MemoryEntry → List MemoryEntry
put_entry e [] = e ∷ []
put_entry e (x ∷ xs) =
    if str_eq x.key e.key
    then record x { content = e.content; tags = e.tags } ∷ xs
    else x ∷ put_entry e xs

-- `ms.namespace + "/" + key`
abbrev pub full_key : Str → Str → Str
full_key namespace key = namespace ++ (b'/' ∷ key)

unfoldable pub store_memory : Str → Str → List Str → MemoryStore → MemoryStore
unfolding put_entry
store_memory key content tags ms = record ms {
  entries =
      put_entry
        (record {
          key = full_key ms.namespace key;
          content = content;
          tags = tags;
          namespace = ms.namespace;
        })
        ms.entries;
}

unfoldable pub has_tag_intersection : List Str → List Str → Bool
has_tag_intersection a [] = false
has_tag_intersection a (t ∷ b) = mem t a || has_tag_intersection a b

abbrev pub has_tags : List Str → MemoryEntry → Bool
has_tags tags e = length tags == 0 || has_tag_intersection e.tags tags

unfoldable pub recall_memory : Str → List Str → MemoryStore → List MemoryEntry
unfolding contains has_tag_intersection
recall_memory query tags ms = select (λ e. contains e.content query && has_tags tags e) ms.entries

unfoldable pub list_memory : List Str → MemoryStore → List MemoryEntry
unfolding has_tag_intersection
list_memory tags ms = select (has_tags tags) ms.entries

-- ToStateValue: the map by key, as the function that reads it. A later entry replaces an earlier one.
unfoldable pub to_state_value :
    List MemoryEntry → (Str → Option MemoryEntry) → Str → Option MemoryEntry
to_state_value [] m k = m k
to_state_value (e ∷ es) m k = to_state_value es (λ j. if str_eq j e.key then some e else m j) k

-- `sort.Slice` by key.
unfoldable pub insert_by_key : MemoryEntry → List MemoryEntry → List MemoryEntry
unfolding str_lt
insert_by_key e [] = e ∷ []
insert_by_key e (x ∷ xs) = if str_lt x.key e.key then x ∷ insert_by_key e xs else e ∷ x ∷ xs

unfoldable pub sort_by_key : List MemoryEntry → List MemoryEntry
unfolding insert_by_key
sort_by_key [] = []
sort_by_key (e ∷ es) = insert_by_key e (sort_by_key es)

-- LoadFromState of nil, or of a state that lists entries, each under its key. `recode` is json.Marshal and then
-- json.Unmarshal: the entries that are read back, in the order in which their map is visited, or `none` if
-- either fails.
unfoldable pub load_from_state :
    (List MemoryEntry → Option (List MemoryEntry))
    → Option (List MemoryEntry)
    → MemoryStore
    → MemoryStore
unfolding sort_by_key
load_from_state recode none ms = ms
load_from_state recode (some state) ms = elim (recode state) [
  | none ↦ ms
  | some found ↦ record ms { entries = sort_by_key found }
]

abbrev pub tag_items : List Str → Items
tag_items [] = no_items
tag_items (t ∷ ts) = item (str t) (tag_items ts)

-- `tags` is left out if it is empty.
abbrev pub with_tags : List Str → Members → Members
with_tags [] ms = ms
with_tags (t ∷ ts) ms = member (codes "tags") (arr (tag_items (t ∷ ts))) ms

abbrev pub entry_json : MemoryEntry → Json
entry_json e = obj (
    member (codes "key") (str e.key) (
      member (codes "content") (str e.content)
        (with_tags e.tags (member (codes "namespace") (str e.namespace) no_members))))

abbrev pub entry_items : List MemoryEntry → Items
entry_items [] = no_items
entry_items (e ∷ es) = item (entry_json e) (entry_items es)
