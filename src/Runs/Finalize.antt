-- ===== src/Runs/Finalize.antt =====
-- `finalize_run` of app/adapters/persistence.py: the end of a run, the result of its alert, the
-- pause that a model failure asks for and the notice are written in one transaction.
use database_alert_agent.Prelude.{
  ℕ, suc, String, Bool, true, false, ◌&&◌, Option, none, some, ◌∷◌, Result, ok, guard, ◌>>=◌, ◌>>◌,
  value_error, runtime_error, lease_conflict, cancellation_requested, ◌==◌, str_eq, is_some,
  is_none, holds, if◌then◌else◌,
}
use database_alert_agent.Database.{
  RunStatus, AlertStatus, Stage, NotificationKind, DeliveryStatus, ModelFailure, Alert, Run,
  Dispatch, Delivery, Progress, Db, is_paused,
}
use database_alert_agent.Dispatch.{the_dispatch, pause_row}
use database_alert_agent.Runs.{
  get_alert, set_run, set_alert, latest_run, latest_progress, require_active_run_lease,
}

-- The keyword arguments of the call. The identifier of the notice is drawn by `uuid4`.
pub record Outcome : Type 0 where
  pub run_status : RunStatus
  pub final_stage : Stage
  pub alert_status : AlertStatus
  pub progress : Progress
  pub recommendation : Option String
  pub advisor_metadata : Option String
  pub error : Option String
  pub model_failure : Option ModelFailure
  pub pause_settings_revision : Option String
  pub notification : Option (NotificationKind × String)
  pub delivery_id : ℕ

-- `expected_terminal`, and the comparison with it
abbrev pub agrees : RunStatus → Stage → AlertStatus → Bool
agrees RunStatus.completed Stage.completed AlertStatus.completed = true
agrees RunStatus.inconclusive Stage.inconclusive AlertStatus.inconclusive = true
agrees RunStatus.failed Stage.failed AlertStatus.failed = true
agrees _ _ _ = false

pub stage_discrete : Discrete Stage
stage_discrete = hlevel

abbrev pub same_stage : Stage → Stage → Bool
same_stage s t = elim (stage_discrete s t) [ yes _ ↦ true | no _ ↦ false ]

unfoldable pub finalized_run : Outcome → ℕ → Run → Run
finalized_run o now r = record r {
  status = o.run_status;
  current_stage = o.final_stage;
  error = o.error;
  recommendation = o.recommendation;
  advisor_metadata = o.advisor_metadata;
  model_failure = o.model_failure;
  updated_at = now;
}

unfoldable pub finalized_alert : Outcome → ℕ → Alert → Alert
finalized_alert o now a = record a {
  status = o.alert_status;
  recommendation = o.recommendation;
  advisor_metadata = o.advisor_metadata;
  error = o.error;
  updated_at = now;
}

-- A switch that is paused already for the same settings keeps its version.
unfoldable pub paused_for : ModelFailure → ℕ → String → ℕ → Dispatch → Dispatch
unfolding pause_row
paused_for failure run_id revision now row =
    if is_paused row.state && holds (str_eq revision) row.paused_settings_revision
    then row
    else pause_row failure run_id revision now row

unfoldable pub pause_after :
    Option ModelFailure → Option String → ℕ → ℕ → Db → Result (Option Dispatch)
unfolding paused_for
pause_after (some failure) (some revision) run_id now db =
    if failure.pauses_dispatch
    then (do row ← the_dispatch db; ok (some (paused_for failure run_id revision now row)))
    else ok db.dispatch
pause_after _ _ run_id now db = ok db.dispatch

unfoldable pub notice : Option (NotificationKind × String) → ℕ → ℕ → ℕ → ℕ → Db → Db
notice none delivery_id alert_id run_id now db = db
notice (some (kind, event)) delivery_id alert_id run_id now db =
    let row : Delivery = record {
      id = delivery_id;
      alert_id = alert_id;
      run_id = run_id;
      kind = kind;
      status = DeliveryStatus.pending;
      event = event;
      attempts = 0;
      error = none;
      message_id = none;
      next_attempt_at = none;
      claim_owner = none;
      claim_expires_at = none;
      created_at = now;
      updated_at = now;
      sent_at = none;
    } in
    record db { deliveries = row ∷ db.deliveries }

unfoldable pub finalize_run : ℕ → ℕ → String → ℕ → Outcome → ℕ → Db → Result (Progress × Db)
unfolding stage_discrete pause_after notice finalized_run finalized_alert
finalize_run alert_id run_id lease_owner fencing_token o now db = do
  guard (agrees o.run_status o.final_stage o.alert_status) value_error
  guard (o.progress.run_id == run_id) value_error
  guard (same_stage o.progress.stage o.final_stage) value_error
  guard (is_some (get_alert db alert_id)) runtime_error
  r ← require_active_run_lease db run_id (some lease_owner) (some fencing_token) false now
  guard (r.alert_id == alert_id) lease_conflict
  guard (holds (λ l. l.id == run_id) (latest_run alert_id db.runs)) lease_conflict
  guard (is_none r.cancel_requested_at) cancellation_requested
  dispatch ← pause_after o.model_failure o.pause_settings_revision run_id now db
  let saved = record o.progress {
    alert_id = alert_id;
    sequence = suc (latest_progress run_id db.progress);
  }
  let db' = set_alert alert_id (finalized_alert o now) (set_run run_id (finalized_run o now) db)
  ok (
    saved,
    notice o.notification o.delivery_id alert_id run_id now
        (record db' { dispatch = dispatch; progress = saved ∷ db.progress }),
  )
