-- ===== src/Runs.antt =====
-- Investigation runs and their leases: the run methods of `SQLAlchemyAlertRepository` in
-- app/adapters/persistence.py. This file has the queries that the methods share; the methods stand
-- in the children.
pub mod Claims
pub mod Leases
pub mod Cancellation
pub mod Finalize
pub mod Consistency
pub mod Changes
pub mod Steps
pub mod Fencing
pub mod Exclusive
pub mod Takeover
pub mod Samples
mod Examples
use database_alert_agent.Prelude.{
  ℕ, zero, suc, ◌+◌, ◌<◌, String, ◌≡◌, refl, Bool, true, false, not, ◌&&◌, ◌||◌, Option, none, some,
  List, [], ◌∷◌, Result, ok, err, guard, ◌>>=◌, ◌>>◌, Error, value_error, runtime_error,
  lease_conflict, ◌==◌, ltb, str_eq, if◌then◌else◌, is_none, is_some, holds, find, modify,
}
use database_alert_agent.Database.{
  RunStatus, Alert, Run, Delivery, Progress, Checkpoint, Db, is_running,
}

abbrev pub alert_key : Alert → ℕ
alert_key a = a.id

abbrev pub run_key : Run → ℕ
run_key r = r.id

-- `session.get(InvestigationRunRow, run_id)`
abbrev pub get_run : Db → ℕ → Option Run
get_run db run_id = find run_key run_id db.runs

-- `_lock_alert_row`: the row, or `None` where it does not exist
abbrev pub get_alert : Db → ℕ → Option Alert
get_alert db alert_id = find alert_key alert_id db.alerts

-- New values for one run, for one alert.
abbrev pub set_run : ℕ → (Run → Run) → Db → Db
set_run run_id f db = record db { runs = modify run_key run_id f db.runs }

abbrev pub set_alert : ℕ → (Alert → Alert) → Db → Db
set_alert alert_id f db = record db { alerts = modify alert_key alert_id f db.alerts }

abbrev pub later : Run → Option Run → Run
later r none = r
later r (some s) = if ltb r.attempt s.attempt then s else r

-- `where(alert_id == ...).order_by(desc(attempt)).limit(1)`
unfoldable pub latest_run : ℕ → List Run → Option Run
latest_run alert_id [] = none
latest_run alert_id (r ∷ rs) =
    if r.alert_id == alert_id
    then some (later r (latest_run alert_id rs))
    else latest_run alert_id rs

-- `where(run_id == ...).order_by(desc(sequence)).limit(1)`, or 0
unfoldable pub latest_progress : ℕ → List Progress → ℕ
latest_progress run_id [] = 0
latest_progress run_id (p ∷ ps) =
    let rest = latest_progress run_id ps in
    if p.run_id == run_id && ltb rest p.sequence then p.sequence else rest

-- The lease test of every fenced write.
unfoldable pub holds_lease : String → ℕ → ℕ → Run → Bool
holds_lease lease_owner fencing_token now r =
    is_running r.status
    && holds (str_eq lease_owner) r.lease_owner
    && r.fencing_token == fencing_token
    && holds (ltb now) r.lease_expires_at

abbrev pub is_final : RunStatus → Bool
is_final RunStatus.completed = true
is_final RunStatus.inconclusive = true
is_final RunStatus.failed = true
is_final _ = false

-- The same test for a write that is made after the end of the run.
unfoldable pub held_lease : String → ℕ → Run → Bool
held_lease lease_owner fencing_token r =
    is_final r.status
    && holds (str_eq lease_owner) r.lease_owner
    && r.fencing_token == fencing_token

-- The owner and the token of a write, if it has both; `none` for an unfenced write.
pub data Fence : Type 0 where
  unfenced : Fence
  fence : String → ℕ → Fence

-- `(lease_owner is None) != (fencing_token is None)` is a ValueError.
unfoldable pub to_fence : Option String → Option ℕ → Result Fence
to_fence none none = ok unfenced
to_fence (some owner) (some token) = ok (fence owner token)
to_fence _ _ = err value_error

abbrev pub check_fence : Fence → Bool → ℕ → Option Run → Result Run
check_fence unfenced allow_terminal now none = err value_error
check_fence unfenced allow_terminal now (some r) = ok r
check_fence (fence owner token) allow_terminal now none = err lease_conflict
check_fence (fence owner token) allow_terminal now (some r) =
    if (if allow_terminal then held_lease owner token r else holds_lease owner token now r)
    then ok r
    else err lease_conflict

unfoldable pub require_active_run_lease : Db → ℕ → Option String → Option ℕ → Bool → ℕ → Result Run
unfolding to_fence
require_active_run_lease db run_id lease_owner fencing_token allow_terminal now = do
  f ← to_fence lease_owner fencing_token
  check_fence f allow_terminal now (get_run db run_id)
