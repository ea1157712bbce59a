-- ===== src/Runs/Claims/Reclaim.antt =====
-- `reclaim_expired_run` of app/adapters/persistence.py: a worker takes over the run of an alert
-- whose lease has ended, under a new fencing token, if its checkpoint can be resumed.
use database_alert_agent.Prelude.{
  ℕ, suc, ◌+◌, String, not, ◌&&◌, Option, none, some, List, [], ◌∷◌, Result, ok, guard, ◌>>=◌, ◌>>◌,
  value_error, ◌==◌, ltb, str_eq, is_blank, is_some, or_else, if◌then◌else◌,
}
use database_alert_agent.Database.{
  Stage, Run, Progress, Checkpoint, Db, is_running, is_paused, seconds,
}
use database_alert_agent.Dispatch.{the_dispatch}
use database_alert_agent.Runs.{get_alert, set_run, latest_run, latest_progress}
use database_alert_agent.Runs.Cancellation.{finalize_cancelled_row}
use database_alert_agent.Runs.Claims.Defs.{Claim, fail_expired, expired_without_checkpoint}

abbrev pub newer : Checkpoint → Option Checkpoint → Checkpoint
newer c none = c
newer c (some d) = if ltb c.version d.version then d else c

-- `where(run_id, namespace).order_by(desc(version)).limit(1)`
unfoldable pub latest_checkpoint : ℕ → String → List Checkpoint → Option Checkpoint
latest_checkpoint run_id namespace [] = none
latest_checkpoint run_id namespace (c ∷ cs) =
    let rest = latest_checkpoint run_id namespace cs in
    if c.run_id == run_id && str_eq c.namespace namespace then some (newer c rest) else rest

-- `_decode_run_manifest`: what stops the recovery, without the identifier that the texts end with
abbrev pub manifest_error : Run → Option String
manifest_error r = elim r.manifest [
  | none ↦ some "Run does not have a frozen manifest"
  | some m ↦
      if not m.intact
      then some "Run manifest is invalid"
      else if not (m.run_id == r.id)
      then some "Run manifest identity mismatch"
      else none
]

abbrev pub manifest_digest : Run → String
manifest_digest r = elim r.manifest [ none ↦ "" | some m ↦ m.digest ]

-- `_decode_checkpoint_row`
abbrev pub checkpoint_error : Run → Checkpoint → Option String
checkpoint_error r c =
    if not c.intact
    then some "Checkpoint payload is invalid"
    else if not (str_eq c.manifest_hash (manifest_digest r))
    then some "Checkpoint manifest mismatch"
    else none

unfoldable pub recovery_error : Run → Option Checkpoint → Option String
recovery_error r none = some expired_without_checkpoint
recovery_error r (some c) = elim (manifest_error r) [
  | some e ↦ some e
  | none ↦ checkpoint_error r c
]

abbrev pub failed_progress : ℕ → Run → ℕ → Db → Progress
failed_progress progress_id r now db = record {
  id = progress_id;
  alert_id = r.alert_id;
  run_id = r.id;
  sequence = suc (latest_progress r.id db.progress);
  stage = Stage.failed;
  message = "调查运行无法安全恢复。";
  details = "unrecoverable_expired_run";
  created_at = now;
}

-- The row is taken over: another owner, another end of the lease, the next token.
unfoldable pub reclaimed : String → ℕ → ℕ → Run → Run
reclaimed lease_owner lease_seconds now r = record r {
  fencing_token = r.fencing_token + 1;
  lease_owner = some lease_owner;
  lease_expires_at = some (now + seconds lease_seconds);
  updated_at = now;
}

unfoldable pub take_over : Claim → ℕ → Db → Run → Option Run × Db
unfolding fail_expired reclaimed
take_over c now db r = elim (recovery_error r (latest_checkpoint r.id "agent" db.checkpoints)) [
  | some e ↦ (
    none,
    record (fail_expired r e c.delivery_id now db) {
      progress = failed_progress c.progress_id r now db ∷ db.progress;
    },
  )
  | none ↦ (
    some (reclaimed c.lease_owner c.lease_seconds now r),
    set_run r.id (reclaimed c.lease_owner c.lease_seconds now) db,
  )
]

abbrev pub reclaim_running : Claim → ℕ → Db → Run → Option Run × Db
reclaim_running c now db r =
    if is_some r.cancel_requested_at
    then (
      none,
      finalize_cancelled_row c.alert_id r.id (or_else r.cancel_requested_by "unknown") c.progress_id
          now db,
    )
    else elim r.lease_expires_at [
      | none ↦ (none, db)
      | some t ↦ if ltb now t then (none, db) else take_over c now db r
    ]

abbrev pub reclaim_latest : Claim → ℕ → Db → Option Run → Option Run × Db
reclaim_latest c now db none = (none, db)
reclaim_latest c now db (some r) =
    if is_running r.status then reclaim_running c now db r else (none, db)

unfoldable pub reclaim_expired_run : Claim → ℕ → Db → Result (Option Run × Db)
unfolding take_over finalize_cancelled_row
reclaim_expired_run c now db = do
  guard (not (is_blank c.lease_owner)) value_error
  guard (ltb 0 c.lease_seconds) value_error
  elim (get_alert db c.alert_id) [
    | none ↦ ok (none, db)
    | some _ ↦ do
      dispatch ← the_dispatch db
      if is_paused dispatch.state
          then ok (none, db)
          else ok (reclaim_latest c now db (latest_run c.alert_id db.runs))
  ]
