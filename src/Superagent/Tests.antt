-- ===== src/Superagent/Tests.antt =====
-- A buffer that is finalized, two memory entries and a few calls, on which the theorems about the built-in
-- tools apply.
use brockleyai.Prelude.{
  contains, starts_with, Bool, true, ltb, map, all, ap, Option, Str, codes, str_eq_iff, pos, ◌≡◌,
  refl, false, none, some, List, [], ◌∷◌, IsDistinct, In, here, there, if◌then◌else◌, arith,
}
use brockleyai.Prelude.Text.{str_eq}
use brockleyai.Json.{obj, str, member, no_members, get}
use brockleyai.Superagent.Tasks.Numbered.{task_ids}
use brockleyai.Superagent.Buffers.{
  Buffer, is_finalized, find_buffer, is_open, get_writable, edit_buffer, append_buffer,
  get_finalized_buffers,
}
use brockleyai.Superagent.Buffers.Finalized.{get_finalized_buffers_complete}
use brockleyai.Superagent.Memory.{
  MemoryEntry, MemoryStore, to_state_value, load_from_state, store_memory, full_key, recall_memory,
  has_tag_intersection, new_memory_store,
}
use brockleyai.Superagent.Memory.Keys.{
  Holds, entry_keys, content_of, find_entry, find_entry-store_memory, recall_memory-store_memory,
}
use brockleyai.Superagent.Memory.RoundTrip.{
  is_text, Recodes, IsSorted, no_state, load_from_state-to_state_value,
}
use brockleyai.Superagent.Tools.{
  ToolLibrary, Tools, buffer_error, dispatch, with_buffers, handle_buffer_append, run_tool, tool_of,
  params_of, string_param,
}
use brockleyai.Superagent.Tools.Calls.{
  new_tools, after_calls, IsValid, dispatch-error, find_buffer-after_calls, after_calls-IsValid,
}

-- All arguments decode to `{"name": "a", "content": "b"}`.
abbrev library : ToolLibrary
library = record {
  unmarshal = λ s. some (
      obj (
        member (codes "name") (str (codes "a"))
          (member (codes "content") (str (codes "b")) no_members)));
  to_int = λ s. pos 0;
  replace = λ s before after count. s;
}

abbrev report : Buffer
report = record { name = codes "a"; content = codes "x"; finalized_to = codes "out" }

abbrev draft : Buffer
draft = record { name = codes "a"; content = codes "xy"; finalized_to = [] }

abbrev reported : Tools
reported = record (new_tools (codes "ns")) { buffers = report ∷ [] }

abbrev append_call : Str × Str
append_call = (codes "_buffer_append", codes "{}")

dispatch-error_example : (dispatch library append_call.0 append_call.1 reported).0 ≡ reported
unfolding dispatch params_of tool_of run_tool handle_buffer_append with_buffers string_param
    append_buffer edit_buffer get_writable find_buffer get str_eq
dispatch-error_example =
    dispatch-error library append_call.0 append_call.1 reported (buffer_error is_finalized) refl

find_buffer-after_calls_example :
    find_buffer (codes "a") (after_calls library (append_call ∷ append_call ∷ []) reported).buffers
    ≡ some report
unfolding find_buffer str_eq
find_buffer-after_calls_example =
    find_buffer-after_calls library (append_call ∷ append_call ∷ []) reported (codes "a") report
      refl refl

after_calls-IsValid_example :
    let t =
      after_calls library
        ((codes "_buffer_create", codes "{}") ∷ append_call ∷ [])
        (new_tools (codes "ns")) in
    IsValid t × IsDistinct (task_ids t.tasks.tasks)
after_calls-IsValid_example =
    after_calls-IsValid library ((codes "_buffer_create", codes "{}") ∷ append_call ∷ [])
      (codes "ns")

alone :
    (c : Buffer)
    → In c (report ∷ [])
    → is_open c ≡ false
    → c.finalized_to ≡ codes "out"
    → c.content ≡ codes "x"
alone c here closed port = refl
alone c (there i) closed port = elim i [ ]

get_finalized_buffers_complete_example :
    get_finalized_buffers (report ∷ []) (λ _. none) (codes "out") ≡ some (codes "x")
get_finalized_buffers_complete_example =
    get_finalized_buffers_complete report (report ∷ []) (λ _. none) here refl alone

abbrev later : MemoryEntry
later = record {
  key = codes "ns/b";
  content = codes "two";
  tags = codes "t" ∷ [];
  namespace = codes "ns";
}

abbrev earlier : MemoryEntry
earlier = record { key = codes "ns/a"; content = codes "one"; tags = []; namespace = codes "ns" }

abbrev memory : MemoryStore
memory = record { entries = later ∷ earlier ∷ []; namespace = codes "ns" }

find_entry-store_memory_example :
    content_of
      (find_entry (codes "ns/a") (store_memory (codes "b") (codes "new") [] memory).entries)
    ≡ (if str_eq (full_key (codes "ns") (codes "b")) (codes "ns/a")
        then some (codes "new", [])
        else content_of (find_entry (codes "ns/a") memory.entries))
find_entry-store_memory_example =
    find_entry-store_memory (codes "b") (codes "new") [] memory (codes "ns/a")

recall_memory-store_memory_example :
    Holds (full_key (codes "ns") (codes "b")) (codes "new") (codes "t" ∷ []) (
      recall_memory
        (codes "ew")
        (codes "t" ∷ [])
        (store_memory (codes "b") (codes "new") (codes "t" ∷ []) memory))
unfolding contains has_tag_intersection starts_with str_eq
recall_memory-store_memory_example =
    recall_memory-store_memory (codes "b") (codes "new") (codes "ew") (codes "t" ∷ [])
      (codes "t" ∷ []) memory refl refl

two_keys : str_eq later.key earlier.key ≡ false
unfolding str_eq
two_keys = refl

memory-IsDistinct : IsDistinct (entry_keys memory.entries)
memory-IsDistinct a = ground (
  arith,
  two_keys,
  str_eq_iff later.key earlier.key,
  str_eq_iff a later.key,
  str_eq_iff a earlier.key,
)

-- The map of `memory`, visited in some order.
abbrev visited : List MemoryEntry
visited = earlier ∷ later ∷ []

visited-to_state_value : (k : Str) → find_entry k visited ≡ to_state_value memory.entries no_state k
unfolding find_entry to_state_value
visited-to_state_value k = ground (
  arith,
  str_eq_iff later.key k,
  str_eq_iff k later.key,
  str_eq_iff earlier.key k,
  str_eq_iff k earlier.key,
)

abbrev is_ascii : Str → Bool
is_ascii s = all (λ c. ltb c 128) s

-- An encoding that replaces every byte beyond ASCII by U+FFFD.
abbrev sanitize : Str → Str
sanitize [] = []
sanitize (c ∷ s) = if ltb c 128 then c ∷ sanitize s else 239 ∷ 191 ∷ 189 ∷ sanitize s

abbrev sanitize_all : List Str → List Str
sanitize_all ts = map sanitize ts

abbrev sanitize_entries : List MemoryEntry → List MemoryEntry
sanitize_entries [] = []
sanitize_entries (e ∷ es) =
    record {
      key = sanitize e.key;
      content = sanitize e.content;
      tags = sanitize_all e.tags;
      namespace = sanitize e.namespace;
    }
    ∷ sanitize_entries es

sanitize-ascii : (s : Str) → is_ascii s ≡ true → sanitize s ≡ s
sanitize-ascii [] h = refl
sanitize-ascii (c ∷ s) h = ground (arith, h, sanitize-ascii s)

sanitize_all-ascii : (ts : List Str) → all is_ascii ts ≡ true → sanitize_all ts ≡ ts
sanitize_all-ascii [] h = refl
sanitize_all-ascii (t ∷ ts) h = ground (arith, h, sanitize-ascii t, sanitize_all-ascii ts)

sanitize_entries-ascii :
    (es : List MemoryEntry) → all (is_text is_ascii) es ≡ true → sanitize_entries es ≡ es
sanitize_entries-ascii [] h = refl
sanitize_entries-ascii (e ∷ es) h = ground (
  arith,
  h,
  sanitize-ascii e.key,
  sanitize-ascii e.content,
  sanitize-ascii e.namespace,
  sanitize_all-ascii e.tags,
  sanitize_entries-ascii es,
)

abbrev sanitizing : List MemoryEntry → Option (List MemoryEntry)
sanitizing es = some (sanitize_entries es)

sanitizing-Recodes : Recodes is_ascii sanitizing
sanitizing-Recodes state once texts =
    (sanitize_entries state, refl, λ k. ap (find_entry k) (sanitize_entries-ascii state texts))

visited-IsDistinct : IsDistinct (entry_keys visited)
visited-IsDistinct a = ground (
  arith,
  two_keys,
  str_eq_iff later.key earlier.key,
  str_eq_iff a later.key,
  str_eq_iff a earlier.key,
)

load_from_state-to_state_value_example :
    IsSorted (load_from_state sanitizing (some visited) (new_memory_store (codes "ns"))).entries
    × ((k : Str)
        → find_entry k
            (load_from_state sanitizing (some visited) (new_memory_store (codes "ns"))).entries
          ≡ find_entry k memory.entries)
load_from_state-to_state_value_example =
    load_from_state-to_state_value is_ascii sanitizing sanitizing-Recodes memory visited
      (new_memory_store (codes "ns")) memory-IsDistinct visited-to_state_value visited-IsDistinct
      refl
