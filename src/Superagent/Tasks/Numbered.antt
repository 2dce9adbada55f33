-- ===== src/Superagent/Tasks/Numbered.antt =====
-- The tasks of a tracker are numbered from 1 in the order of their creation.
use brockleyai.Prelude.{
  Str, str_eq, ℕ, zero, suc, ◌+◌, ◌≡◌, refl, sym, ap, ◌∙◌, some, List, [], ◌∷◌, ◌++◌, map, length,
  decimal, decimal_injective, ◌<◌, count, IsDistinct, arith, Bool-cases, Option-cases, inl, inr,
  str_eq_iff, length-append, length-map,
}
use brockleyai.Superagent.Tasks.{Task, TaskTracker, create_task, new_task, set_status, update_task}

abbrev pub task_ids : List Task → List Str
task_ids ts = map (λ (t : Task). t.id) ts

-- The numbers from `first`, `k` of them, in decimal.
unfoldable pub decimals : ℕ → ℕ → List Str
decimals first zero = []
decimals first (suc k) = decimal first ∷ decimals (suc first) k

pub record IsNumbered (t : TaskTracker) : Type 0 where
  pub ids : task_ids t.tasks ≡ decimals 1 (length t.tasks)
  pub next : t.next_id ≡ suc (length t.tasks)

decimals-suc : (first k : ℕ) → decimals first (suc k) ≡ decimals first k ++ decimal (first + k) ∷ []
unfolding decimals
decimals-suc first zero = ap (λ n. decimal n ∷ []) (omega arith)
decimals-suc first (suc k) =
    ap (λ l. decimal first ∷ l) (decimals-suc (suc first) k)
    ∙ ap (λ n. decimal first ∷ (decimals (suc first) k ++ decimal n ∷ [])) (omega arith)

map-append_id : (xs ys : List Task) → task_ids (xs ++ ys) ≡ task_ids xs ++ task_ids ys
map-append_id [] ys = refl
map-append_id (x ∷ xs) ys = ap (λ l. x.id ∷ l) (map-append_id xs ys)

pub create_task-IsNumbered :
    (description priority : Str) (t : TaskTracker)
    → IsNumbered t
    → IsNumbered (create_task description priority t).0
unfolding create_task new_task
create_task-IsNumbered description priority t h =
    let task = new_task t.next_id description priority in
    let grown : length (t.tasks ++ task ∷ []) ≡ suc (length t.tasks) =
      omega (arith, length-append t.tasks (task ∷ [])) in
    record {
      ids =
          map-append_id t.tasks (task ∷ [])
          ∙ (ap (λ l. l ++ decimal t.next_id ∷ []) h.ids
              ∙ (ap (λ n. decimals 1 (length t.tasks) ++ decimal n ∷ []) (omega (arith, h.next))
                  ∙ (sym (decimals-suc 1 (length t.tasks)) ∙ ap (decimals 1) (sym grown))));
      next = omega (arith, h.next, grown);
    }

ids-set_status :
    (id status : Str) (ts ts' : List Task)
    → set_status id status ts ≡ some ts'
    → task_ids ts' ≡ task_ids ts
unfolding set_status
ids-set_status id status [] ts' h = cc
ids-set_status id status (t ∷ ts) ts' h = elim (Bool-cases (str_eq t.id id)) [
  | inl same ↦ ground (arith, h, same)
  | inr other ↦ elim (Option-cases (set_status id status ts)) [
    | inl absent ↦ ground (arith, h, other, absent)
    | inr (rest, e) ↦ ground (arith, h, other, e, ids-set_status id status ts rest e)
  ]
]

pub update_task-IsNumbered :
    (id status : Str) (t t' : TaskTracker)
    → update_task id status t ≡ some t'
    → IsNumbered t
    → IsNumbered t'
unfolding update_task
update_task-IsNumbered id status t t' e h = elim (Option-cases (set_status id status t.tasks)) [
  | inl absent ↦ absurd (ground (arith, e, absent))
  | inr (ts, found) ↦
      let same : task_ids ts ≡ task_ids t.tasks = ids-set_status id status t.tasks ts found in
      let size : length ts ≡ length t.tasks =
        sym (length-map (λ (t : Task). t.id) ts)
        ∙ (ap length same ∙ length-map (λ (t : Task). t.id) t.tasks) in
      let new : record t { tasks = ts } ≡ t' = ground (arith, e, found) in
      rw (sym new) (record {
        ids = same ∙ (h.ids ∙ ap (decimals 1) (sym size));
        next = h.next ∙ ap suc (sym size);
      })
]

-- No two tasks have the same identifier.
count-decimals : (n first k : ℕ) → n < first → count (decimal n) (decimals first k) ≡ 0
unfolding decimals
count-decimals n first zero h = refl
count-decimals n first (suc k) h = elim (Bool-cases (str_eq (decimal first) (decimal n))) [
  | inl same ↦ absurd (
      omega (arith, h, decimal_injective first n ((str_eq_iff (decimal first) (decimal n)).0 same)))
  | inr other ↦ ground (
    arith,
    other,
    str_eq_iff (decimal first) (decimal n),
    str_eq_iff (decimal n) (decimal first),
    count-decimals n (suc first) k (omega (arith, h)),
  )
]

decimals-IsDistinct : (first k : ℕ) → IsDistinct (decimals first k)
unfolding decimals
decimals-IsDistinct first zero a = omega arith
decimals-IsDistinct first (suc k) a = ground (
  arith,
  decimals-IsDistinct (suc first) k a,
  str_eq_iff (decimal first) a,
  str_eq_iff a (decimal first),
  count-decimals first (suc first) k (omega arith),
)

pub IsDistinct-IsNumbered : (t : TaskTracker) → IsNumbered t → IsDistinct (task_ids t.tasks)
IsDistinct-IsNumbered t h = rw h.ids (decimals-IsDistinct 1 (length t.tasks))
