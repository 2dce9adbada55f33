-- ===== src/Superagent/Memory/Keys.antt =====
-- The entries of a memory by their key: an entry that is stored is found under its key and recalled, the
-- others stay, and no two entries share a key.
use brockleyai.Prelude.{
  contains, Str, str_eq, str_eq_iff, ◌==◌, ◌≡◌, refl, Bool, true, ◌&&◌, ◌||◌, Option, none, some,
  List, [], ◌∷◌, map, select, length, if◌then◌else◌, arith, count, IsDistinct, In, here, there,
  Bool-cases, inl, inr,
}
use brockleyai.Superagent.Memory.{
  MemoryEntry, MemoryStore, put_entry, store_memory, full_key, has_tags, has_tag_intersection,
  recall_memory,
}

abbrev pub entry_keys : List MemoryEntry → List Str
entry_keys es = map (λ (e : MemoryEntry). e.key) es

unfoldable pub find_entry : Str → List MemoryEntry → Option MemoryEntry
find_entry k [] = none
find_entry k (e ∷ es) = if str_eq e.key k then some e else find_entry k es

abbrev pub entry_content : MemoryEntry → Str × List Str
entry_content e = (e.content, e.tags)

abbrev pub content_of : Option MemoryEntry → Option (Str × List Str)
content_of none = none
content_of (some e) = some (entry_content e)

-- What a key holds after an entry is put.
pub content-find_entry-put_entry :
    (e : MemoryEntry) (es : List MemoryEntry) (k : Str)
    → content_of (find_entry k (put_entry e es))
      ≡ (if str_eq e.key k then some (entry_content e) else content_of (find_entry k es))
unfolding put_entry find_entry
content-find_entry-put_entry e [] k = ground arith
content-find_entry-put_entry e (x ∷ es) k = ground (
  arith,
  content-find_entry-put_entry e es k,
  str_eq_iff x.key e.key,
  str_eq_iff x.key k,
  str_eq_iff e.key k,
)

count-put_entry :
    (e : MemoryEntry) (es : List MemoryEntry) (k : Str)
    → count k (entry_keys (put_entry e es)) ≡ (
        if str_eq k e.key
        then (if count k (entry_keys es) == 0 then 1 else count k (entry_keys es))
        else count k (entry_keys es))
unfolding put_entry
count-put_entry e [] k = ground arith
count-put_entry e (x ∷ es) k =
    ground (
      arith,
      count-put_entry e es k,
      str_eq_iff x.key e.key,
      str_eq_iff k x.key,
      str_eq_iff k e.key,
    )

pub put_entry-IsDistinct :
    (e : MemoryEntry) (es : List MemoryEntry)
    → IsDistinct (entry_keys es)
    → IsDistinct (entry_keys (put_entry e es))
put_entry-IsDistinct e es d k = ground (arith, count-put_entry e es k, d k)

-- Storing changes what its key holds, and nothing else.
pub find_entry-store_memory :
    (key content : Str) (tags : List Str) (ms : MemoryStore) (k : Str)
    → content_of (find_entry k (store_memory key content tags ms).entries) ≡ (
        if str_eq (full_key ms.namespace key) k
        then some (content, tags)
        else content_of (find_entry k ms.entries))
unfolding store_memory
find_entry-store_memory key content tags ms k =
    content-find_entry-put_entry
      (record {
        key = full_key ms.namespace key;
        content = content;
        tags = tags;
        namespace = ms.namespace;
      })
      ms.entries k

In-select :
    (p : MemoryEntry → Bool) (e : MemoryEntry) (es : List MemoryEntry)
    → In e es
    → p e ≡ true
    → In e (select p es)
In-select p e [] i h = elim i [ ]
In-select p e (x ∷ es) here h = rw h here
In-select p e (x ∷ es) (there i) h = elim (Bool-cases (p x)) [
  | inl passes ↦ rw passes (there (In-select p e es i h))
  | inr fails ↦ rw fails (In-select p e es i h)
]

-- An entry that holds what was put.
abbrev pub Holds : Str → Str → List Str → List MemoryEntry → Type 0
Holds key content tags es =
    (e : MemoryEntry) × In e es × (e.key ≡ key) × (e.content ≡ content) × (e.tags ≡ tags)

Holds-put_entry :
    (e : MemoryEntry) (es : List MemoryEntry) → Holds e.key e.content e.tags (put_entry e es)
unfolding put_entry
Holds-put_entry e [] = (e, here, refl, refl, refl)
Holds-put_entry e (x ∷ es) = elim (Bool-cases (str_eq x.key e.key)) [
  | inl same ↦ rw same (
    record x { content = e.content; tags = e.tags },
    here,
    (str_eq_iff x.key e.key).0 same,
    refl,
    refl,
  )
  | inr other ↦ rw other (let (f, i, k, c, t) = Holds-put_entry e es in (f, there i, k, c, t))
]

-- What was stored is recalled by any query that its content contains and any tags it shares.
pub recall_memory-store_memory :
    (key content query : Str) (tags wanted : List Str) (ms : MemoryStore)
    → contains content query ≡ true
    → (length wanted == 0 || has_tag_intersection tags wanted) ≡ true
    → Holds
        (full_key ms.namespace key)
        content
        tags
        (recall_memory query wanted (store_memory key content tags ms))
unfolding recall_memory store_memory
recall_memory-store_memory key content query tags wanted ms matches tagged =
    let stored : MemoryEntry = record {
      key = full_key ms.namespace key;
      content = content;
      tags = tags;
      namespace = ms.namespace;
    } in
    let (e, i, k, c, t) = Holds-put_entry stored ms.entries in
    let p : MemoryEntry → Bool = λ e. contains e.content query && has_tags wanted e in
    (e, In-select p e (put_entry stored ms.entries) i (rw (c, t, matches, tagged) refl), k, c, t)
