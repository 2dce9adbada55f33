-- ===== src/Superagent/Tools/Steps.antt =====
-- What a call of a built-in tool can do to the tasks, the buffers and the memory.
use brockleyai.Prelude.{
  Str, ◌==◌, ◌≡◌, refl, Bool, true, false, length, if◌then◌else◌, Result, ok, err, IsDistinct,
  Option-cases, inl, inr,
}
use brockleyai.Json.{Json, Members}
use brockleyai.Superagent.Tasks.{create_task, update_task}
use brockleyai.Superagent.Tasks.Numbered.{
  IsNumbered, create_task-IsNumbered, update_task-IsNumbered,
}
use brockleyai.Superagent.Buffers.{BufferManager, BufferError, create_buffer}
use brockleyai.Superagent.Buffers.Frozen.{
  Preserves, OnOk, create_buffer-Preserves, append_buffer-Preserves, prepend_buffer-Preserves,
  insert_buffer-Preserves, replace_buffer-Preserves, delete_buffer-Preserves,
  finalize_buffer-Preserves,
}
use brockleyai.Superagent.Memory.{store_memory}
use brockleyai.Superagent.Memory.Keys.{entry_keys, put_entry-IsDistinct}
use brockleyai.Superagent.Tools.{
  ToolLibrary, Tools, ToolError, invalid_arguments, unknown_tool, task_not_found, buffer_error,
  Tool, task_create, task_update, task_list, buffer_create, buffer_append, buffer_prepend,
  buffer_insert, buffer_replace, buffer_delete, buffer_read, buffer_length, buffer_finalize,
  memory_store, memory_recall, memory_list, string_param, tags_param, params_of, tool_of, Outcome,
  status_json, with_buffers, handle_task_create, handle_task_update, handle_task_list,
  handle_buffer_create, handle_buffer_append, handle_buffer_prepend, handle_buffer_insert,
  handle_buffer_replace, handle_buffer_delete, handle_buffer_read, handle_buffer_length,
  handle_buffer_finalize, handle_memory_store, handle_memory_recall, handle_memory_list, run_tool,
  dispatch,
}

-- From `t` to `t'`: finalized buffers stay as they are, and the identifiers stay unique.
pub record IsStep (t t' : Tools) : Type 0 where
  pub buffers : Preserves t.buffers t'.buffers
  pub tasks : IsNumbered t.tasks → IsNumbered t'.tasks
  pub memory : IsDistinct (entry_keys t.memory.entries) → IsDistinct (entry_keys t'.memory.entries)

-- A step, and no change at all if the reply is an error.
pub record IsOutcome (t : Tools) (o : Outcome) : Type 0 where
  pub step : IsStep t o.0
  pub on_error : (e : ToolError) → o.1 ≡ err e → o.0 ≡ t

Preserves-refl : (bm : BufferManager) → Preserves bm bm
Preserves-refl bm = record { frozen = λ name b h closed. h; distinct = λ d. d }

pub IsStep-refl : (t : Tools) → IsStep t t
IsStep-refl t = record { buffers = Preserves-refl t.buffers; tasks = λ h. h; memory = λ h. h }

pub IsStep-trans : (t t' t'' : Tools) → IsStep t t' → IsStep t' t'' → IsStep t t''
IsStep-trans t t' t'' p q = record {
  buffers = record {
    frozen = λ name b h closed. q.buffers.frozen name b (p.buffers.frozen name b h closed) closed;
    distinct = λ d. q.buffers.distinct (p.buffers.distinct d);
  };
  tasks = λ h. q.tasks (p.tasks h);
  memory = λ h. q.memory (p.memory h);
}

kept : (t : Tools) (r : Result ToolError Json) → IsOutcome t (t, r)
kept t r = record { step = IsStep-refl t; on_error = λ e h. refl }

replied : (t t' : Tools) (reply : Json) → IsStep t t' → IsOutcome t (t', ok reply)
replied t t' reply s = record { step = s; on_error = λ e h. absurd (cc h) }

guarded :
    (t : Tools) (b : Bool) (e : ToolError) (o : Outcome)
    → IsOutcome t o
    → IsOutcome t (if b then (t, err e) else o)
guarded t true e o h = kept t (err e)
guarded t false e o h = h

with_buffers-IsOutcome :
    (t : Tools) (r : Result BufferError BufferManager) (reply : Json)
    → OnOk (Preserves t.buffers) r
    → IsOutcome t (with_buffers t r reply)
unfolding with_buffers
with_buffers-IsOutcome t (ok bm) reply h =
    replied t (record t { buffers = bm }) reply
      (record { buffers = h; tasks = λ h. h; memory = λ h. h })
with_buffers-IsOutcome t (err e) reply h = kept t (err (buffer_error e))

task_create-IsOutcome : (params : Members) (t : Tools) → IsOutcome t (handle_task_create params t)
unfolding handle_task_create
task_create-IsOutcome params t =
    let description = string_param "description" params in
    let created = create_task description (string_param "priority" params) t.tasks in
    guarded t (length description == 0) _ _ (
      replied t (record t { tasks = created.0 }) _
        (record {
          buffers = Preserves-refl t.buffers;
          tasks = create_task-IsNumbered description (string_param "priority" params) t.tasks;
          memory = λ h. h;
        }))

task_update-IsOutcome : (params : Members) (t : Tools) → IsOutcome t (handle_task_update params t)
unfolding handle_task_update
task_update-IsOutcome params t =
    let id = string_param "id" params in
    let status = string_param "status" params in
    guarded t (length id == 0) _ _ (
      guarded t (length status == 0) _ _ (elim (Option-cases (update_task id status t.tasks)) [
        | inl absent ↦ rw absent (kept t (err task_not_found))
        | inr (tasks, found) ↦ rw found (
            replied t (record t { tasks = tasks }) (status_json "updated")
              (record {
                buffers = Preserves-refl t.buffers;
                tasks = update_task-IsNumbered id status t.tasks tasks found;
                memory = λ h. h;
              }))
      ]))

memory_store-IsOutcome : (params : Members) (t : Tools) → IsOutcome t (handle_memory_store params t)
unfolding handle_memory_store store_memory
memory_store-IsOutcome params t =
    let key = string_param "key" params in
    let content = string_param "content" params in
    guarded t (length key == 0) _ _ (
      guarded t (length content == 0) _ _ (
        replied t (record t { memory = store_memory key content (tags_param params) t.memory })
          (status_json "stored")
          (record {
            buffers = Preserves-refl t.buffers;
            tasks = λ h. h;
            memory = put_entry-IsDistinct _ t.memory.entries;
          })))

-- A handler that only reads a buffer.
reads-IsOutcome :
    {A : Type 0} (t : Tools) (r : Result BufferError A) (reply : A → Json)
    → IsOutcome t (elim r [ err e ↦ (t, err (buffer_error e)) | ok a ↦ (t, ok (reply a)) ])
reads-IsOutcome t (ok a) reply = kept t (ok (reply a))
reads-IsOutcome t (err e) reply = kept t (err (buffer_error e))

buffer_create-IsOutcome :
    (params : Members) (t : Tools) → IsOutcome t (handle_buffer_create params t)
unfolding handle_buffer_create
buffer_create-IsOutcome params t =
    let name = string_param "name" params in
    guarded t (length name == 0) _ _ (
      with_buffers-IsOutcome t (create_buffer name t.buffers) _
        (create_buffer-Preserves name t.buffers))

-- Every tool.
pub run_tool-IsOutcome :
    (lib : ToolLibrary) (tool : Tool) (params : Members) (t : Tools)
    → IsOutcome t (run_tool lib tool params t)
unfolding run_tool handle_task_list handle_memory_recall handle_memory_list handle_buffer_append
    handle_buffer_prepend handle_buffer_insert handle_buffer_replace handle_buffer_delete
    handle_buffer_read handle_buffer_length handle_buffer_finalize
run_tool-IsOutcome lib task_create params t = task_create-IsOutcome params t
run_tool-IsOutcome lib task_update params t = task_update-IsOutcome params t
run_tool-IsOutcome lib task_list params t = kept t _
run_tool-IsOutcome lib buffer_create params t = buffer_create-IsOutcome params t
run_tool-IsOutcome lib buffer_append params t =
    with_buffers-IsOutcome t _ _ (append_buffer-Preserves (string_param "name" params) t.buffers _)
run_tool-IsOutcome lib buffer_prepend params t =
    with_buffers-IsOutcome t _ _ (prepend_buffer-Preserves (string_param "name" params) t.buffers _)
run_tool-IsOutcome lib buffer_insert params t =
    with_buffers-IsOutcome t _ _
      (insert_buffer-Preserves (string_param "name" params) t.buffers _ _)
run_tool-IsOutcome lib buffer_replace params t =
    with_buffers-IsOutcome t _ _
      (replace_buffer-Preserves (string_param "name" params) t.buffers lib.replace _ _ _)
run_tool-IsOutcome lib buffer_delete params t =
    with_buffers-IsOutcome t _ _
      (delete_buffer-Preserves (string_param "name" params) t.buffers _ _)
run_tool-IsOutcome lib buffer_read params t = reads-IsOutcome t _ _
run_tool-IsOutcome lib buffer_length params t = reads-IsOutcome t _ _
run_tool-IsOutcome lib buffer_finalize params t = with_buffers-IsOutcome t _ _ (
    finalize_buffer-Preserves (string_param "name" params) (string_param "output_port" params)
      t.buffers)
run_tool-IsOutcome lib memory_store params t = memory_store-IsOutcome params t
run_tool-IsOutcome lib memory_recall params t = kept t _
run_tool-IsOutcome lib memory_list params t = kept t _

pub dispatch-IsOutcome :
    (lib : ToolLibrary) (name args : Str) (t : Tools) → IsOutcome t (dispatch lib name args t)
unfolding dispatch
dispatch-IsOutcome lib name args t = elim (Option-cases (params_of lib args)) [
  | inl bad ↦ rw (bad, dispatch) (kept t (err invalid_arguments))
  | inr (params, good) ↦ elim (Option-cases (tool_of name)) [
    | inl unknown ↦ rw (good, unknown, dispatch) (kept t (err unknown_tool))
    | inr (tool, known) ↦ rw (good, known, dispatch) (run_tool-IsOutcome lib tool params t)
  ]
]
