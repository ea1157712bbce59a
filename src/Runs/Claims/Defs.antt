-- ===== src/Runs/Claims/Defs.antt =====
-- How a worker gets a run: `create_run` and `create_run_for_reanalyze` of
-- app/adapters/persistence.py, with the helpers that archive and clear a result and that queue an
-- internal failure notice. Identifiers that the code draws by `uuid4` are arguments.
use database_alert_agent.Prelude.{
  ℕ, ◌+◌, String, Bool, false, not, ◌&&◌, ◌||◌, Option, none, some, List, [], ◌∷◌, Result, ok,
  ◌>>=◌, ◌==◌, ltb, is_none, holds, if◌then◌else◌,
}
use database_alert_agent.Database.{
  RunStatus, AlertStatus, Stage, NotificationKind, DeliveryStatus, FailureCategory, ModelFailure,
  Alert, Run, Manifest, Delivery, Db, is_running, is_paused, is_closed, seconds,
}
use database_alert_agent.Dispatch.{the_dispatch}
use database_alert_agent.Runs.{get_alert, set_run, set_alert, latest_run}

-- What a claim is made with.
pub record Claim : Type 0 where
  pub alert_id : ℕ
  pub lease_owner : String
  pub lease_seconds : ℕ
  pub config_snapshot : Option String
  pub manifest : Option Manifest
  pub run_id : ℕ
  pub delivery_id : ℕ
  pub progress_id : ℕ

-- `lease_expires and lease_expires > now`
abbrev pub lease_is_active : ℕ → Run → Bool
lease_is_active now r = holds (ltb now) r.lease_expires_at

-- `_archive_legacy_alert_result`
unfoldable pub archived : Alert → Run → Run
archived a r =
    if is_none r.recommendation && is_none r.advisor_metadata
    then record r { recommendation = a.recommendation; advisor_metadata = a.advisor_metadata }
    else r

-- `_clear_current_alert_result`, and the status of an alert whose run starts
unfoldable pub claimed_alert : ℕ → Alert → Alert
claimed_alert now a = record a {
  status = AlertStatus.analyzing;
  recommendation = none;
  advisor_metadata = none;
  error = none;
  updated_at = now;
}

unfoldable pub failed_run : String → ℕ → Run → Run
failed_run error now r = record r {
  status = RunStatus.failed;
  current_stage = Stage.failed;
  error = some error;
  lease_expires_at = none;
  updated_at = now;
}

unfoldable pub failed_alert : String → ℕ → Alert → Alert
failed_alert error now a = record a {
  status = AlertStatus.failed;
  error = some error;
  updated_at = now;
}

-- The failure that `_queue_internal_failure_notification` attaches to the run.
abbrev pub internal_failure : String → ModelFailure
internal_failure error = record {
  category = FailureCategory.internal;
  provider = "database-alert-agent";
  pauses_dispatch = false;
  safe_detail = error;
}

abbrev pub noted : String → Run → Run
noted error r = record r { model_failure = some (internal_failure error) }

abbrev pub failure_notice : ℕ → Run → String → ℕ → Delivery
failure_notice delivery_id r error now = record {
  id = delivery_id;
  alert_id = r.alert_id;
  run_id = r.id;
  kind = NotificationKind.analysis_failure;
  status = DeliveryStatus.pending;
  event = error;
  attempts = 0;
  error = none;
  message_id = none;
  next_attempt_at = none;
  claim_owner = none;
  claim_expires_at = none;
  created_at = now;
  updated_at = now;
  sent_at = none;
}

-- A run whose lease ended, and which cannot be resumed, fails with its alert and a notice.
unfoldable pub fail_expired : Run → String → ℕ → ℕ → Db → Db
unfolding failed_run failed_alert
fail_expired r error delivery_id now db =
    record (set_alert r.alert_id (failed_alert error now)
      (set_run r.id (λ x. noted error (failed_run error now x)) db)) {
        deliveries = failure_notice delivery_id r error now ∷ db.deliveries;
      }

-- The row of a new run. Its identifier is the manifest's, if there is one.
unfoldable pub new_run : Claim → ℕ → ℕ → Run
new_run c attempt now = record {
  id = elim c.manifest [ none ↦ c.run_id | some m ↦ m.run_id ];
  alert_id = c.alert_id;
  attempt = attempt;
  fencing_token = attempt;
  status = RunStatus.running;
  current_stage = Stage.received;
  error = none;
  lease_owner = some c.lease_owner;
  lease_expires_at = some (now + seconds c.lease_seconds);
  cancel_requested_at = none;
  cancel_requested_by = none;
  cancelled_at = none;
  config_snapshot = c.config_snapshot;
  manifest = c.manifest;
  recommendation = none;
  advisor_metadata = none;
  model_failure = none;
  created_at = now;
  updated_at = now;
}

-- The table's constraints: the primary key, and `uq_run_attempt`.
unfoldable pub is_taken : Run → List Run → Bool
is_taken n [] = false
is_taken n (r ∷ rs) =
    r.id == n.id || (r.alert_id == n.alert_id && r.attempt == n.attempt) || is_taken n rs

abbrev pub next_attempt : Option Run → ℕ
next_attempt none = 1
next_attempt (some latest) = latest.attempt + 1

abbrev pub archive_latest : Option Run → Alert → Db → Db
archive_latest none a db = db
archive_latest (some latest) a db = set_run latest.id (archived a) db

-- The end of both methods: insert, clear, commit. An IntegrityError rolls back the whole
-- transaction: `db` is the database from before it, `db'` what the method has written so far.
unfoldable pub insert_run : Claim → ℕ → Run → Db → Db → Option Run × Db
unfolding is_taken claimed_alert
insert_run c now run db db' =
    if is_taken run db'.runs
    then (none, db)
    else (some run, set_alert c.alert_id (claimed_alert now) (record db' { runs = run ∷ db'.runs }))

unfoldable pub start_run : Claim → Alert → Option Run → ℕ → Db → Db → Option Run × Db
unfolding archived new_run insert_run
start_run c a latest now db db' =
    insert_run c now (new_run c (next_attempt latest) now) db (archive_latest latest a db')

abbrev pub expired_without_checkpoint : String
expired_without_checkpoint = "Investigation lease expired without a recoverable checkpoint"

abbrev pub create_after : Claim → ℕ → Db → Alert → Option Run → Option Run × Db
create_after c now db a none = start_run c a none now db db
create_after c now db a (some latest) =
    if is_running latest.status
    then (if lease_is_active now latest
        then (none, db)
        else (none, fail_expired latest expired_without_checkpoint c.delivery_id now db))
    else start_run c a (some latest) now db db

unfoldable pub create_run : Claim → ℕ → Db → Result (Option Run × Db)
unfolding start_run fail_expired
create_run c now db = do
  dispatch ← the_dispatch db
  if is_paused dispatch.state then ok (none, db) else elim (get_alert db c.alert_id) [
    | none ↦ ok (none, db)
    | some a ↦
        if is_closed a.status
        then ok (none, db)
        else ok (create_after c now db a (latest_run c.alert_id db.runs))
  ]

-- A live run is superseded only by force; an expired one always.
abbrev pub reanalyze_after : Bool → Claim → ℕ → Db → Alert → Option Run → Option Run × Db
reanalyze_after force c now db a none = start_run c a none now db db
reanalyze_after force c now db a (some latest) =
    if is_running latest.status
    then (let active = lease_is_active now latest in
        if active && not force
        then (none, db)
        else (let error : String =
              if active
              then "Superseded by forced re-analysis"
              else "Investigation lease expired" in
            start_run c a (some (failed_run error now latest)) now db
              (set_run latest.id (failed_run error now) db)))
    else start_run c a (some latest) now db db

unfoldable pub create_run_for_reanalyze : Bool → Claim → ℕ → Db → Result (Option Run × Db)
unfolding start_run failed_run
create_run_for_reanalyze force c now db = do
  dispatch ← the_dispatch db
  if is_paused dispatch.state then ok (none, db) else elim (get_alert db c.alert_id) [
    | none ↦ ok (none, db)
    | some a ↦ ok (reanalyze_after force c now db a (latest_run c.alert_id db.runs))
  ]
