-- ===== src/Runs/Cancellation.antt =====
-- `request_run_cancellation`, `is_run_cancellation_requested`, `finalize_requested_cancellation`
-- and `_finalize_cancelled_row` of app/adapters/persistence.py.
use database_alert_agent.Prelude.{
  ℕ, suc, String, Bool, false, not, Option, none, some, ◌∷◌, Result, ok, err, guard, ◌>>◌,
  value_error, cancellation_conflict, ◌==◌, is_blank, is_some, holds, or_else, if◌then◌else◌,
}
use database_alert_agent.Database.{
  RunStatus, AlertStatus, Stage, Alert, Run, Progress, Db, is_running,
}
use database_alert_agent.Runs.{get_run, get_alert, set_run, set_alert, latest_run, latest_progress}

unfoldable pub marked : String → ℕ → Run → Run
marked requested_by now r = elim r.cancel_requested_at [
  | none ↦ record r {
    cancel_requested_at = some now;
    cancel_requested_by = some requested_by;
    updated_at = now;
  }
  | some _ ↦ r
]

-- The run of the alert, and what is done while it runs; `none` where it does not exist.
abbrev pub for_running_run :
    ℕ → ℕ → Db → (Run → Result (Option Run × Db)) → Result (Option Run × Db)
for_running_run alert_id run_id db action = elim (get_alert db alert_id) [
  | none ↦ ok (none, db)
  | some _ ↦ elim (get_run db run_id) [
    | none ↦ ok (none, db)
    | some r ↦ if not (r.alert_id == alert_id) then ok (none, db) else elim r.status [
      | RunStatus.cancelled ↦ ok (some r, db)
      | RunStatus.running ↦ action r
      | _ ↦ err cancellation_conflict
    ]
  ]
]

unfoldable pub request_run_cancellation : ℕ → ℕ → String → ℕ → Db → Result (Option Run × Db)
unfolding marked
request_run_cancellation alert_id run_id requested_by now db = do
  guard (not (is_blank requested_by)) value_error
  for_running_run alert_id run_id db
      λ r. ok (some (marked requested_by now r), set_run run_id (marked requested_by now) db)

unfoldable pub is_run_cancellation_requested : Db → ℕ → Bool
is_run_cancellation_requested db run_id =
    holds (λ r. if is_running r.status then is_some r.cancel_requested_at else false)
      (get_run db run_id)

unfoldable pub cancelled_run : ℕ → Run → Run
cancelled_run now r = record r {
  status = RunStatus.cancelled;
  current_stage = Stage.cancelled;
  cancelled_at = some now;
  lease_expires_at = none;
  error = none;
  updated_at = now;
}

unfoldable pub cancelled_alert : ℕ → Alert → Alert
cancelled_alert now a = record a { status = AlertStatus.cancelled; error = none; updated_at = now }

-- `_finalize_cancelled_row`; the identifier of the progress row is drawn by `uuid4`.
unfoldable pub finalize_cancelled_row : ℕ → ℕ → String → ℕ → ℕ → Db → Db
unfolding cancelled_run cancelled_alert
finalize_cancelled_row alert_id run_id requested_by progress_id now db =
    let entry : Progress = record {
      id = progress_id;
      alert_id = alert_id;
      run_id = run_id;
      sequence = suc (latest_progress run_id db.progress);
      stage = Stage.cancelled;
      message = "分析已主动取消。";
      details = requested_by;
      created_at = now;
    } in
    record (set_alert alert_id (cancelled_alert now) (set_run run_id (cancelled_run now) db)) {
      progress = entry ∷ db.progress;
    }

unfoldable pub finalize_requested_cancellation : ℕ → ℕ → ℕ → ℕ → Db → Result (Option Run × Db)
unfolding finalize_cancelled_row
finalize_requested_cancellation alert_id run_id progress_id now db =
    for_running_run alert_id run_id db λ r. do
      guard (is_some r.cancel_requested_at) value_error
      guard (holds (λ l. l.id == run_id) (latest_run alert_id db.runs)) cancellation_conflict
      ok (
        some (cancelled_run now r),
        finalize_cancelled_row alert_id run_id (or_else r.cancel_requested_by "unknown") progress_id
            now db,
      )
