-- ===== src/Superagent/Tasks.antt =====
-- TaskTracker of engine/executor/superagent_builtin_tools.go.
pub mod Numbered
use brockleyai.Prelude.{
  Str, codes, str_eq, ℕ, suc, ◌+◌, Option, none, some, List, [], ◌∷◌, ◌++◌, if◌then◌else◌, decimal,
}
use brockleyai.Json.{Json, Items, Members, obj, str, member, no_members, item, no_items}

pub record Task : Type 0 where
  pub id : Str
  pub description : Str
  pub priority : Str
  pub status : Str

-- `nextID` starts at 1 and is only counted up.
pub record TaskTracker : Type 0 where
  pub tasks : List Task
  pub next_id : ℕ

abbrev pub new_task_tracker : TaskTracker
new_task_tracker = record { tasks = []; next_id = 1 }

unfoldable pub priority_or_medium : Str → Str
priority_or_medium [] = codes "medium"
priority_or_medium (c ∷ s) = c ∷ s

-- The task that Create appends.
unfoldable pub new_task : ℕ → Str → Str → Task
unfolding priority_or_medium
new_task n description priority = record {
  id = decimal n;
  description = description;
  priority = priority_or_medium priority;
  status = codes "pending";
}

unfoldable pub create_task : Str → Str → TaskTracker → TaskTracker × Task
unfolding new_task
create_task description priority t =
    let task = new_task t.next_id description priority in
    (record { tasks = t.tasks ++ task ∷ []; next_id = suc t.next_id }, task)

-- The first task with the identifier is changed; `none` if there is none.
unfoldable pub set_status : Str → Str → List Task → Option (List Task)
set_status id status [] = none
set_status id status (t ∷ ts) =
    if str_eq t.id id
    then some (record t { status = status } ∷ ts)
    else elim (set_status id status ts) [ none ↦ none | some ts' ↦ some (t ∷ ts') ]

unfoldable pub update_task : Str → Str → TaskTracker → Option TaskTracker
unfolding set_status
update_task id status t = elim (set_status id status t.tasks) [
  | none ↦ none
  | some ts ↦ some (record t { tasks = ts })
]

-- The JSON of a task.
abbrev pub task_json : Task → Json
task_json t = obj (
    member (codes "id") (str t.id) (
      member (codes "description") (str t.description) (
        member (codes "priority") (str t.priority)
          (member (codes "status") (str t.status) no_members))))

abbrev pub task_items : List Task → Items
task_items [] = no_items
task_items (t ∷ ts) = item (task_json t) (task_items ts)

-- The line of a task in BuildTaskReminder.
unfoldable pub task_line : Task → Str
task_line t =
    10
    ∷ (codes "- ["
        ++ (t.status
            ++ (codes "] #"
                ++ (t.id
                    ++ (codes ": "
                        ++ (t.description ++ (codes " (" ++ (t.priority ++ codes ")"))))))))

unfoldable pub task_lines : List Task → Str
unfolding task_line
task_lines [] = []
task_lines (t ∷ ts) = task_line t ++ task_lines ts

-- BuildTaskReminder
unfoldable pub task_reminder : List Task → Str
unfolding task_lines
task_reminder [] = []
task_reminder (t ∷ ts) = codes "[Tasks]" ++ task_lines (t ∷ ts)
