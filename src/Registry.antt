-- ===== src/Registry.antt =====
-- `ActiveAnalysisRegistry` of app/application/analysis_control.py: the analysis tasks of one process.
-- Tasks run on between its calls; a task that ends is discarded by a callback that runs later.
pub mod Registered
pub mod Exclusive
mod Examples
use database_alert_agent.Prelude.{
  ℕ, Bool, true, false, not, ◌&&◌, ◌||◌, Option, none, some, List, [], ◌∷◌, map, ◌==◌,
  if◌then◌else◌, Result, ok, err, guard, ◌>>=◌, ◌>>◌, runtime_error, holds, modify,
}

-- A task, by its identity.
pub record Task : Type 0 where
  pub task_id : ℕ
  pub run_id : ℕ
  pub done : Bool
  pub cancel_requested : Bool

-- All tasks that were created, and the dictionary `_tasks` from runs to tasks.
pub record Registry : Type 0 where
  pub created : List Task
  pub tasks : ℕ → Option ℕ

abbrev pub new_registry : Registry
new_registry = record { created = []; tasks = λ run_id. none }

-- `not task.done()`
unfoldable pub is_running_task : List Task → ℕ → Bool
is_running_task [] task_id = false
is_running_task (t ∷ ts) task_id =
    (t.task_id == task_id && not t.done) || is_running_task ts task_id

abbrev pub set_task : ℕ → Option ℕ → (ℕ → Option ℕ) → ℕ → Option ℕ
set_task run_id task tasks k = if k == run_id then task else tasks k

unfoldable pub start : (run_id task_id : ℕ) → Registry → Result Registry
unfolding is_running_task
start run_id task_id r = do
  guard (not (holds (is_running_task r.created) (r.tasks run_id))) runtime_error
  ok (record {
    created =
        record { task_id = task_id; run_id = run_id; done = false; cancel_requested = false }
        ∷ r.created;
    tasks = set_task run_id (some task_id) r.tasks;
  })

-- The callback `discard` of a task.
unfoldable pub discard : (run_id task_id : ℕ) → Registry → Registry
discard run_id task_id r =
    if holds (λ k. k == task_id) (r.tasks run_id)
    then record r { tasks = set_task run_id none r.tasks }
    else r

abbrev pub task_key : Task → ℕ
task_key t = t.task_id

unfoldable pub cancel : ℕ → Registry → Bool × Registry
unfolding is_running_task
cancel run_id r = elim (r.tasks run_id) [
  | none ↦ (false, r)
  | some task_id ↦
      if is_running_task r.created task_id
      then (
        true,
        record r {
          created = modify task_key task_id (λ t. record t { cancel_requested = true }) r.created;
        },
      )
      else (false, r)
]

unfoldable pub is_active : ℕ → Registry → Bool
unfolding is_running_task
is_active run_id r = holds (is_running_task r.created) (r.tasks run_id)

-- A task ends, by itself or because it was cancelled.
abbrev pub finish : ℕ → Registry → Registry
finish task_id r = record r {
  created = modify task_key task_id (λ t. record t { done = true }) r.created;
}

-- `close`: it cancels the running tasks of the dictionary, waits for them, and clears the dictionary.
abbrev pub cancelled_by : Registry → Task → Task
cancelled_by r t =
    if holds (λ k. k == t.task_id) (r.tasks t.run_id) && not t.done
    then record t { cancel_requested = true }
    else t

-- The tasks of the dictionary that are not done.
abbrev pub waited_for : Registry → List Task → List Task
waited_for r [] = []
waited_for r (t ∷ ts) =
    let rest = waited_for r ts in
    if holds (λ k. k == t.task_id) (r.tasks t.run_id) && not t.done then t ∷ rest else rest

unfoldable pub cancel_all : Registry → Registry
cancel_all r = record r { created = map (cancelled_by r) r.created }

unfoldable pub clear : Registry → Registry
clear r = record r { tasks = λ run_id. none }
