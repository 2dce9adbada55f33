-- ===== src/Superagent/Tools.antt =====
-- BuiltInToolDispatcher of engine/executor/superagent_builtin_tools.go: a call by name with JSON arguments
-- changes the tasks, the buffers or the memory, and replies with a JSON document or an error.
pub mod Steps
pub mod Calls
use Prim.Native.String.{String}
use brockleyai.Prelude.{
  starts_with, Str, codes, str_eq, ℕ, zero, suc, ℤ, pos, Bool, true, false, ◌||◌, Option, none,
  some, List, [], ◌∷◌, if◌then◌else◌, length, decimal, Result, ok, err, ◌==◌,
}
use brockleyai.Json.{
  Json, null, num, str, arr, obj, Items, no_items, item, Members, no_members, member, get,
}
use brockleyai.Superagent.Tasks.{TaskTracker, create_task, update_task, task_json, task_items}
use brockleyai.Superagent.Buffers
use brockleyai.Superagent.Buffers.{
  BufferManager, BufferError, create_buffer, append_buffer, prepend_buffer, insert_buffer,
  replace_buffer, delete_buffer, read_buffer, finalize_buffer,
}
use brockleyai.Superagent.Memory.{
  MemoryStore, MemoryEntry, store_memory, recall_memory, list_memory, entry_items,
}

-- What the tools call of the standard library: `json.Unmarshal` of arguments, `int(f)` of a decoded number
-- and `strings.Replace`.
pub record ToolLibrary : Type 0 where
  pub unmarshal : Str → Option Json
  pub to_int : Str → ℤ
  pub replace : Str → Str → Str → ℤ → Str

pub record Tools : Type 0 where
  pub tasks : TaskTracker
  pub buffers : BufferManager
  pub memory : MemoryStore

pub data ToolError : Type 0 where
  invalid_arguments : ToolError
  unknown_tool : ToolError
  -- The parameter of the name is required.
  missing : Str → ToolError
  task_not_found : ToolError
  buffer_error : BufferError → ToolError

pub data Tool : Type 0 where
  task_create task_update task_list : Tool
  buffer_create buffer_append buffer_prepend buffer_insert buffer_replace : Tool
  buffer_delete buffer_read buffer_length buffer_finalize : Tool
  memory_store memory_recall memory_list : Tool

-- The cases of the switch on the name.
unfoldable pub tool_of : Str → Option Tool
tool_of name =
    if str_eq name (codes "_task_create")
    then some task_create
    else if str_eq name (codes "_task_update")
    then some task_update
    else if str_eq name (codes "_task_list")
    then some task_list
    else if str_eq name (codes "_buffer_create")
    then some buffer_create
    else if str_eq name (codes "_buffer_append")
    then some buffer_append
    else if str_eq name (codes "_buffer_prepend")
    then some buffer_prepend
    else if str_eq name (codes "_buffer_insert")
    then some buffer_insert
    else if str_eq name (codes "_buffer_replace")
    then some buffer_replace
    else if str_eq name (codes "_buffer_delete")
    then some buffer_delete
    else if str_eq name (codes "_buffer_read")
    then some buffer_read
    else if str_eq name (codes "_buffer_length")
    then some Tool.buffer_length
    else if str_eq name (codes "_buffer_finalize")
    then some buffer_finalize
    else if str_eq name (codes "_memory_store")
    then some memory_store
    else if str_eq name (codes "_memory_recall")
    then some memory_recall
    else if str_eq name (codes "_memory_list")
    then some memory_list
    else none

unfoldable pub is_built_in : Str → Bool
unfolding starts_with
is_built_in name =
    starts_with name (codes "_task_")
    || starts_with name (codes "_buffer_")
    || starts_with name (codes "_memory_")

-- `s, _ := params[key].(string)`
unfoldable pub string_param : String → Members → Str
string_param key params = elim (get (codes key) params) [ some (str s) ↦ s | _ ↦ [] ]

unfoldable pub strings_of : Items → List Str
strings_of no_items = []
strings_of (item (str s) js) = s ∷ strings_of js
strings_of (item _ js) = strings_of js

-- The `tags` of the memory tools: the strings of an array.
unfoldable pub tags_param : Members → List Str
unfolding strings_of
tags_param params = elim (get (codes "tags") params) [ some (arr js) ↦ strings_of js | _ ↦ [] ]

abbrev pub Outcome : Type 0
Outcome = Tools × Result ToolError Json

abbrev pub Call : Type 0
Call = Members → Tools → Outcome

-- `{"status": …}`
abbrev pub status_json : String → Json
status_json s = obj (member (codes "status") (str (codes s)) no_members)

unfoldable pub handle_task_create : Call
unfolding create_task string_param
handle_task_create params t =
    let description = string_param "description" params in
    if length description == 0
    then (t, err (missing (codes "description")))
    else (let (tasks, task) = create_task description (string_param "priority" params) t.tasks in
        (record t { tasks = tasks }, ok (task_json task)))

unfoldable pub handle_task_update : Call
unfolding update_task string_param
handle_task_update params t =
    let id = string_param "id" params in
    let status = string_param "status" params in
    if length id == 0
    then (t, err (missing (codes "id")))
    else if length status == 0
    then (t, err (missing (codes "status")))
    else elim (update_task id status t.tasks) [
      | none ↦ (t, err task_not_found)
      | some tasks ↦ (record t { tasks = tasks }, ok (status_json "updated"))
    ]

unfoldable pub handle_task_list : Call
handle_task_list params t = (t, ok (arr (task_items t.tasks.tasks)))

-- The end of a handler that changes the buffers.
unfoldable pub with_buffers : Tools → Result BufferError BufferManager → Json → Outcome
with_buffers t (ok bm) reply = (record t { buffers = bm }, ok reply)
with_buffers t (err e) reply = (t, err (buffer_error e))

unfoldable pub handle_buffer_create : Call
unfolding create_buffer with_buffers string_param
handle_buffer_create params t =
    let name = string_param "name" params in
    if length name == 0
    then (t, err (missing (codes "name")))
    else with_buffers t (create_buffer name t.buffers) (
        obj (
          member (codes "status") (str (codes "created"))
            (member (codes "name") (str name) no_members)))

unfoldable pub handle_buffer_append : Call
unfolding append_buffer with_buffers string_param
handle_buffer_append params t =
    with_buffers t
      (append_buffer (string_param "name" params) (string_param "content" params) t.buffers)
      (status_json "appended")

unfoldable pub handle_buffer_prepend : Call
unfolding prepend_buffer with_buffers string_param
handle_buffer_prepend params t =
    with_buffers t
      (prepend_buffer (string_param "name" params) (string_param "content" params) t.buffers)
      (status_json "prepended")

unfoldable pub handle_buffer_insert : Call
unfolding insert_buffer with_buffers string_param
handle_buffer_insert params t =
    with_buffers t
      (insert_buffer (string_param "name" params) (string_param "after" params)
        (string_param "content" params) t.buffers)
      (status_json "inserted")

unfoldable pub handle_buffer_finalize : Call
unfolding finalize_buffer with_buffers string_param
handle_buffer_finalize params t =
    let output_port = string_param "output_port" params in
    with_buffers t (finalize_buffer (string_param "name" params) output_port t.buffers) (
      obj (
        member (codes "status") (str (codes "finalized"))
          (member (codes "output_port") (str output_port) no_members)))

unfoldable pub handle_buffer_length : Call
unfolding Buffers.buffer_length string_param
handle_buffer_length params t =
    elim (Buffers.buffer_length (string_param "name" params) t.buffers) [
      | err e ↦ (t, err (buffer_error e))
      | ok n ↦ (t, ok (obj (member (codes "length") (num (decimal n)) no_members)))
    ]

unfoldable pub handle_memory_store : Call
unfolding store_memory string_param tags_param
handle_memory_store params t =
    let key = string_param "key" params in
    let content = string_param "content" params in
    if length key == 0
    then (t, err (missing (codes "key")))
    else if length content == 0
    then (t, err (missing (codes "content")))
    else (
      record t { memory = store_memory key content (tags_param params) t.memory },
      ok (status_json "stored"),
    )

-- A nil slice is encoded as null.
abbrev pub entries_or_null : List MemoryEntry → Json
entries_or_null [] = null
entries_or_null (e ∷ es) = arr (entry_items (e ∷ es))

unfoldable pub handle_memory_recall : Call
unfolding recall_memory string_param tags_param
handle_memory_recall params t = (
  t,
  ok (entries_or_null (recall_memory (string_param "query" params) (tags_param params) t.memory)),
)

unfoldable pub handle_memory_list : Call
unfolding list_memory tags_param
handle_memory_list params t =
    let tags = tags_param params in
    let found = list_memory tags t.memory in
    (t, ok (if length tags == 0 then arr (entry_items found) else entries_or_null found))

module _ (lib : ToolLibrary) where
  -- `params[key].(float64)` as an int.
  unfoldable pub int_param : String → Members → Option ℤ
  int_param key params = elim (get (codes key) params) [
    | some (num n) ↦ some (lib.to_int n)
    | _ ↦ none
  ]

  unfoldable pub handle_buffer_replace : Call
  unfolding replace_buffer with_buffers string_param int_param
  handle_buffer_replace params t =
      with_buffers t
        (replace_buffer lib.replace (string_param "name" params) (string_param "old" params)
          (string_param "new" params) (Buffers.or_else (int_param "count" params) (pos 0))
          t.buffers)
        (status_json "replaced")

  unfoldable pub handle_buffer_delete : Call
  unfolding delete_buffer with_buffers string_param int_param
  handle_buffer_delete params t =
      with_buffers t
        (delete_buffer (string_param "name" params)
          (Buffers.or_else (int_param "start" params) (pos 0))
          (Buffers.or_else (int_param "end" params) (pos 0)) t.buffers)
        (status_json "deleted")

  unfoldable pub handle_buffer_read : Call
  unfolding read_buffer string_param int_param
  handle_buffer_read params t =
      elim (read_buffer (string_param "name" params) (int_param "start" params)
        (int_param "end" params) t.buffers) [
          | err e ↦ (t, err (buffer_error e))
          | ok content ↦ (t, ok (obj (member (codes "content") (str content) no_members)))
        ]

  unfoldable pub run_tool : Tool → Call
  unfolding handle_task_create handle_task_update handle_task_list handle_buffer_create
      handle_buffer_append handle_buffer_prepend handle_buffer_insert handle_buffer_replace
      handle_buffer_delete handle_buffer_read handle_buffer_length handle_buffer_finalize
      handle_memory_store handle_memory_recall handle_memory_list
  run_tool task_create = handle_task_create
  run_tool task_update = handle_task_update
  run_tool task_list = handle_task_list
  run_tool buffer_create = handle_buffer_create
  run_tool buffer_append = handle_buffer_append
  run_tool buffer_prepend = handle_buffer_prepend
  run_tool buffer_insert = handle_buffer_insert
  run_tool buffer_replace = handle_buffer_replace
  run_tool buffer_delete = handle_buffer_delete
  run_tool buffer_read = handle_buffer_read
  run_tool Tool.buffer_length = handle_buffer_length
  run_tool buffer_finalize = handle_buffer_finalize
  run_tool memory_store = handle_memory_store
  run_tool memory_recall = handle_memory_recall
  run_tool memory_list = handle_memory_list

  -- No arguments and null are an empty object.
  unfoldable pub params_of : Str → Option Members
  params_of [] = some no_members
  params_of (c ∷ s) = elim (lib.unmarshal (c ∷ s)) [
    | some (obj params) ↦ some params
    | some null ↦ some no_members
    | _ ↦ none
  ]

  unfoldable pub dispatch : Str → Str → Tools → Outcome
  unfolding params_of run_tool tool_of
  dispatch name args t = elim (params_of args) [
    | none ↦ (t, err invalid_arguments)
    | some params ↦ elim (tool_of name) [
      | none ↦ (t, err unknown_tool)
      | some tool ↦ run_tool tool params t
    ]
  ]

  -- AsInterceptor: a call that is not built in is left to others.
  unfoldable pub intercept : Str → Str → Tools → Tools × Option (Result ToolError Json)
  unfolding dispatch is_built_in
  intercept name args t =
      if is_built_in name then (let (t', r) = dispatch name args t in (t', some r)) else (t, none)
