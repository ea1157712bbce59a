-- ===== src/Heartbeat.antt =====
-- `RunLeaseGuard` of app/agent_runtime/leases.py: its checks, and the heartbeat that renews the lease
-- of a run while the run works. The lease manager is `renew_run_lease`. Times are microseconds.
pub mod Keeping
mod Examples
use database_alert_agent.Prelude.{
  ℕ, ◌+◌, ◌/◌, String, ◌≡◌, refl, Bool, true, false, not, Option, none, some, List, [], ◌∷◌, Result,
  ok, err, guard, ◌>>=◌, ◌>>◌, value_error, ltb, is_blank, or_else, if◌then◌else◌,
}
use database_alert_agent.Database.{Db, seconds}
use database_alert_agent.Runs.Leases.{renew_run_lease}

pub record RunLeaseGuard : Type 0 where
  pub run_id : ℕ
  pub lease_owner : String
  pub fencing_token : ℕ
  pub lease_seconds : ℕ
  pub heartbeat_interval : ℕ

-- `__init__`: a third of the lease, if no interval is given
unfoldable pub new_guard : ℕ → String → ℕ → ℕ → Option ℕ → Result RunLeaseGuard
new_guard run_id lease_owner fencing_token lease_seconds heartbeat_interval = do
  guard (not (is_blank lease_owner)) value_error
  guard (ltb 0 fencing_token) value_error
  guard (ltb 0 lease_seconds) value_error
  let interval = or_else heartbeat_interval (seconds lease_seconds / 3)
  guard (ltb 0 interval) value_error
  guard (ltb interval (seconds lease_seconds)) value_error
  ok (record {
    run_id = run_id;
    lease_owner = lease_owner;
    fencing_token = fencing_token;
    lease_seconds = lease_seconds;
    heartbeat_interval = interval;
  })

-- The heartbeat after some beats: the time of the last one and the database, or the lost lease.
pub data Heartbeat : Type 0 where
  beating : ℕ → Db → Heartbeat
  lease_lost : Heartbeat

-- What other transactions do until the time of a beat is given, and how late each beat is.
module _ (g : RunLeaseGuard) (others : ℕ → Db → Db) where
  unfoldable pub heartbeat : List ℕ → ℕ → Db → Heartbeat
  heartbeat [] last db = beating last db
  heartbeat (late ∷ lates) last db =
      let now = last + g.heartbeat_interval + late in
      elim (renew_run_lease g.run_id g.lease_owner g.fencing_token g.lease_seconds now
        (others now db)) [
          | err e ↦ lease_lost
          | ok (renewed, db') ↦ if renewed then heartbeat lates now db' else lease_lost
        ]
