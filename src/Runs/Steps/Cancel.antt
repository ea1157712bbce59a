-- ===== src/Runs/Steps/Cancel.antt =====
-- The methods that cancel a run change the table of runs by a `Change`.
use database_alert_agent.Prelude.{
  ℕ, ◌≡◌, refl, true, not, Option, String, none, some, arith, ◌==◌, is_some, is_blank, holds,
  or_else, find, Result, ok, err, Ensures, Ensures-ok, Ensures-err, Ensures-guard, Ensures-if,
  Ensures-option, value_error, cancellation_conflict,
}
use database_alert_agent.Database.{RunStatus, Run, Db, is_running}
use database_alert_agent.Runs.{run_key, latest_run, set_run, get_run, get_alert}
use database_alert_agent.Runs.Cancellation.{
  marked, request_run_cancellation, cancelled_run, finalize_cancelled_row,
  finalize_requested_cancellation, for_running_run,
}
use database_alert_agent.Runs.Consistency.{Later}
use database_alert_agent.Runs.Changes.{Change, same, update}
use database_alert_agent.Runs.Steps.Start.{Changes}

marked-Later : (requested_by : String) (now : ℕ) (r : Run) → Later r (marked requested_by now r)
unfolding marked
marked-Later requested_by now r = ground arith

-- A run of the alert that runs, if the method comes to it.
for_running_run-Change :
    (alert_id run_id : ℕ) (db : Db) (action : Run → Result (Option Run × Db))
    → ((r : Run)
        → find run_key run_id db.runs ≡ some r
        → is_running r.status ≡ true
        → Ensures (Changes db) (action r))
    → Ensures (Changes db) (for_running_run alert_id run_id db action)
for_running_run-Change alert_id run_id db action h =
    Ensures-option (Changes db) (get_alert db alert_id) _ _ (λ _. Ensures-ok _ (none, db) (same _))
      λ a _.
        Ensures-option (Changes db) (get_run db run_id) _ _ (λ _. Ensures-ok _ (none, db) (same _))
          λ r e.
            Ensures-if (Changes db) (not (r.alert_id == alert_id)) _ _
              (λ _. Ensures-ok _ (none, db) (same _)) λ _. by_status r e r.status refl
  where
    by_status :
        (r : Run)
        → find run_key run_id db.runs ≡ some r
        → (s : RunStatus) → r.status ≡ s
        → Ensures (Changes db) (elim s [
          | RunStatus.cancelled ↦ ok (some r, db)
          | RunStatus.running ↦ action r
          | _ ↦ err cancellation_conflict
        ])
    by_status r e RunStatus.cancelled p = Ensures-ok (Changes db) (some r, db) (same db.runs)
    by_status r e RunStatus.running p = h r e (rw p)
    by_status r e _ p = Ensures-err (Changes db) cancellation_conflict

pub request_run_cancellation-Change :
    (alert_id run_id : ℕ) (requested_by : String) (now : ℕ) (db : Db)
    → Ensures (Changes db) (request_run_cancellation alert_id run_id requested_by now db)
unfolding request_run_cancellation
request_run_cancellation-Change alert_id run_id requested_by now db =
    Ensures-guard (Changes db) (not (is_blank requested_by)) value_error _ λ _.
      for_running_run-Change alert_id run_id db _ λ r e h.
        Ensures-ok (Changes db)
          (some (marked requested_by now r), set_run run_id (marked requested_by now) db)
          (update db.runs run_id (marked requested_by now) r
            (λ x. (marked-Later requested_by now x).same_id) e (marked-Later requested_by now r))

pub finalize_cancelled_row-Change :
    (alert_id run_id : ℕ) (requested_by : String) (progress_id now : ℕ) (db : Db) (r : Run)
    → find run_key run_id db.runs ≡ some r
    → is_running r.status ≡ true
    → Change db.runs (finalize_cancelled_row alert_id run_id requested_by progress_id now db).runs
unfolding finalize_cancelled_row
finalize_cancelled_row-Change alert_id run_id requested_by progress_id now db r e h =
    update db.runs run_id (cancelled_run now) r (λ x. refl) e (ground arith)

pub finalize_requested_cancellation-Change :
    (alert_id run_id progress_id now : ℕ) (db : Db)
    → Ensures (Changes db) (finalize_requested_cancellation alert_id run_id progress_id now db)
unfolding finalize_requested_cancellation
finalize_requested_cancellation-Change alert_id run_id progress_id now db =
    for_running_run-Change alert_id run_id db _ λ r e h.
      Ensures-guard (Changes db) (is_some r.cancel_requested_at) value_error _ λ _.
        Ensures-guard (Changes db) (holds (λ l. l.id == run_id) (latest_run alert_id db.runs))
          cancellation_conflict _
          λ _. Ensures-ok (Changes db) _ (
            finalize_cancelled_row-Change alert_id run_id (or_else r.cancel_requested_by "unknown")
              progress_id now db r e h)
