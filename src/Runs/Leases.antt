-- ===== src/Runs/Leases.antt =====
-- `renew_run_lease`, `update_run` and `append_progress` of app/adapters/persistence.py.
use database_alert_agent.Prelude.{
  ℕ, suc, ◌+◌, String, Bool, true, false, not, Option, none, some, ◌∷◌, Result, ok, err, guard,
  ◌>>=◌, ◌>>◌, value_error, lease_conflict, ◌==◌, ltb, is_blank, or_else, if◌then◌else◌,
}
use database_alert_agent.Database.{Stage, Run, Progress, Db, seconds}
use database_alert_agent.Runs.{
  get_run, set_run, holds_lease, latest_progress, require_active_run_lease,
}

-- `lease_expires_at = now + timedelta(seconds=lease_seconds)`
unfoldable pub renewed : ℕ → ℕ → Run → Run
renewed lease_seconds now r = record r {
  lease_expires_at = some (now + seconds lease_seconds);
  updated_at = now;
}

unfoldable pub renew_run_lease : ℕ → String → ℕ → ℕ → ℕ → Db → Result (Bool × Db)
renew_run_lease run_id lease_owner fencing_token lease_seconds now db = do
  guard (not (is_blank lease_owner)) value_error
  guard (ltb 0 fencing_token) value_error
  guard (ltb 0 lease_seconds) value_error
  elim (get_run db run_id) [
    | none ↦ ok (false, db)
    | some r ↦
        if holds_lease lease_owner fencing_token now r
        then ok (true, set_run run_id (renewed lease_seconds now) db)
        else ok (false, db)
  ]

-- `stage in {COMPLETED, INCONCLUSIVE, FAILED, CANCELLED}`
abbrev pub is_terminal_stage : Stage → Bool
is_terminal_stage Stage.completed = true
is_terminal_stage Stage.inconclusive = true
is_terminal_stage Stage.failed = true
is_terminal_stage Stage.cancelled = true
is_terminal_stage _ = false

abbrev pub is_terminal_request : Option Stage → Bool
is_terminal_request none = false
is_terminal_request (some s) = is_terminal_stage s

-- A value that is not given leaves the column alone.
unfoldable pub updated : Option Stage → Option String → ℕ → Run → Run
updated stage error now r = record r {
  current_stage = or_else stage r.current_stage;
  error = elim error [ none ↦ r.error | some e ↦ some e ];
  updated_at = now;
}

unfoldable pub update_run : ℕ → Option Stage → Option String → String → ℕ → ℕ → Db → Result Db
update_run run_id stage error lease_owner fencing_token now db = do
  guard (not (is_blank lease_owner)) value_error
  guard (ltb 0 fencing_token) value_error
  guard (not (is_terminal_request stage)) value_error
  elim (get_run db run_id) [
    | none ↦ err lease_conflict
    | some r ↦
        if holds_lease lease_owner fencing_token now r
        then ok (set_run run_id (updated stage error now) db)
        else err lease_conflict
  ]

-- The record's own sequence is replaced by the next of its run.
unfoldable pub append_progress : ℕ → Progress → String → ℕ → Bool → ℕ → Db → Result (Progress × Db)
append_progress alert_id entry lease_owner fencing_token allow_terminal now db = do
  r ←
      require_active_run_lease db entry.run_id (some lease_owner) (some fencing_token)
        allow_terminal now
  guard (r.alert_id == alert_id) lease_conflict
  let saved = record entry {
    alert_id = alert_id;
    sequence = suc (latest_progress entry.run_id db.progress);
  }
  ok (saved, record db { progress = saved ∷ db.progress })
