-- ===== src/Superagent/Tools/Calls.antt =====
-- Calls of the built-in tools one after the other, as the loop of a superagent makes them.
use brockleyai.Prelude.{Str, ◌≡◌, refl, false, some, List, [], ◌∷◌, err, IsDistinct, arith}
use brockleyai.Superagent.Tasks.{new_task_tracker}
use brockleyai.Superagent.Tasks.Numbered
use brockleyai.Superagent.Tasks.Numbered.{IsNumbered, IsDistinct-IsNumbered, task_ids}
use brockleyai.Superagent.Buffers.{Buffer, find_buffer, is_open}
use brockleyai.Superagent.Buffers.Frozen.{names}
use brockleyai.Superagent.Memory.{new_memory_store}
use brockleyai.Superagent.Memory.Keys.{entry_keys}
use brockleyai.Superagent.Tools.{ToolLibrary, Tools, ToolError, dispatch}
use brockleyai.Superagent.Tools.Steps.{IsStep, IsStep-refl, IsStep-trans, dispatch-IsOutcome}

abbrev pub new_tools : Str → Tools
new_tools namespace = record {
  tasks = new_task_tracker;
  buffers = [];
  memory = new_memory_store namespace;
}

-- The state after calls by name with their arguments.
unfoldable pub after_calls : ToolLibrary → List (Str × Str) → Tools → Tools
unfolding dispatch
after_calls lib [] t = t
after_calls lib ((name, args) ∷ calls) t = after_calls lib calls (dispatch lib name args t).0

after_calls-IsStep :
    (lib : ToolLibrary) (calls : List (Str × Str)) (t : Tools) → IsStep t (after_calls lib calls t)
unfolding after_calls
after_calls-IsStep lib [] t = IsStep-refl t
after_calls-IsStep lib ((name, args) ∷ calls) t =
    let next = (dispatch lib name args t).0 in
    IsStep-trans t next (after_calls lib calls next) (dispatch-IsOutcome lib name args t).step
      (after_calls-IsStep lib calls next)

-- A call that is answered with an error has changed nothing.
pub dispatch-error :
    (lib : ToolLibrary) (name args : Str) (t : Tools) (e : ToolError)
    → (dispatch lib name args t).1 ≡ err e
    → (dispatch lib name args t).0 ≡ t
dispatch-error lib name args t = (dispatch-IsOutcome lib name args t).on_error

-- A finalized buffer is the same after any calls.
pub find_buffer-after_calls :
    (lib : ToolLibrary) (calls : List (Str × Str)) (t : Tools) (name : Str) (b : Buffer)
    → find_buffer name t.buffers ≡ some b
    → is_open b ≡ false
    → find_buffer name (after_calls lib calls t).buffers ≡ some b
find_buffer-after_calls lib calls t = (after_calls-IsStep lib calls t).buffers.frozen

-- What holds of the state of the tools at any time.
pub record IsValid (t : Tools) : Type 0 where
  pub buffers : IsDistinct (names t.buffers)
  pub tasks : IsNumbered t.tasks
  pub memory : IsDistinct (entry_keys t.memory.entries)

new_tools-IsValid : (namespace : Str) → IsValid (new_tools namespace)
unfolding Numbered.decimals
new_tools-IsValid namespace = record {
  buffers = λ a. omega arith;
  tasks = record { ids = refl; next = omega arith };
  memory = λ a. omega arith;
}

-- After any calls from the start, no two buffers have one name, no two memory entries one key, no two tasks
-- one identifier, and the tasks are numbered from 1.
pub after_calls-IsValid :
    (lib : ToolLibrary) (calls : List (Str × Str)) (namespace : Str)
    → let t = after_calls lib calls (new_tools namespace) in
      IsValid t × IsDistinct (task_ids t.tasks.tasks)
after_calls-IsValid lib calls namespace =
    let start = new_tools-IsValid namespace in
    let s = after_calls-IsStep lib calls (new_tools namespace) in
    let t = after_calls lib calls (new_tools namespace) in
    let numbered = s.tasks start.tasks in
    (
      record {
        buffers = s.buffers.distinct start.buffers;
        tasks = numbered;
        memory = s.memory start.memory;
      },
      IsDistinct-IsNumbered t.tasks numbered,
    )
