-- ===== src/Registry/Examples.antt =====
-- Run 7 is analysed by task 1; when that has ended, task 2 is started before the callback of task 1.
use database_alert_agent.Prelude.{
  ◌≡◌, refl, subst, if◌then◌else◌, ◌==◌, none, inl, true, false, some, [], ◌∷◌, ok, err,
  runtime_error, modify,
}
use database_alert_agent.Registry.{
  Task, Registry, new_registry, is_running_task, start, discard, is_active, finish,
}
use database_alert_agent.Registry.Exclusive.{
  Events, new, starts, finishes, discards, one_task_per_run,
}

abbrev second : Task
second = record { task_id = 2; run_id = 7; done = false; cancel_requested = false }

abbrev first_started : Registry
first_started = record {
  created = record { task_id = 1; run_id = 7; done = false; cancel_requested = false } ∷ [];
  tasks = λ k. if k == 7 then some 1 else none;
}

begin : start 7 1 new_registry ≡ ok first_started
unfolding start is_running_task
begin = refl

twice : start 7 2 first_started ≡ err runtime_error
unfolding start is_running_task
twice = refl

abbrev both : Registry
both = record {
  created = second ∷ record { task_id = 1; run_id = 7; done = true; cancel_requested = false } ∷ [];
  tasks = λ k. if k == 7 then some 2 else if k == 7 then some 1 else none;
}

again : start 7 2 (finish 1 first_started) ≡ ok both
unfolding start is_running_task modify
again = refl

first_ended : is_running_task both.created 1 ≡ false
unfolding is_running_task
first_ended = refl

history : Events none (discard 7 1 both)
history = discards 7 1 (starts 7 2 (finishes 1 (starts 7 1 new begin)) again) first_ended

late_callback : discard 7 1 both ≡ both
unfolding discard
late_callback = refl

one_task_per_run_example : (second.task_id ≡ second.task_id) × (is_active second.run_id both ≡ true)
one_task_per_run_example =
    one_task_per_run {r = both} second second (subst (Events none) late_callback history) (inl refl)
      (inl refl) refl refl refl
