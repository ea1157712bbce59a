-- ===== src/Heartbeat/Keeping.antt =====
-- A heartbeat that is in time keeps the lease.
use database_alert_agent.Prelude.{ℕ, ◌+◌, ◌<◌, ◌≡◌, true, false, some, is_blank}
use database_alert_agent.Database.{Run, Db, is_running, seconds}
use database_alert_agent.Runs.{get_run}
use database_alert_agent.Heartbeat.{RunLeaseGuard}

-- The guard's run runs under its owner and token, with the lease that a beat at `last` gives.
pub record Leased (g : RunLeaseGuard) (last : ℕ) (db : Db) : Type 0 where
  pub run : Run
  pub found : get_run db g.run_id ≡ some run
  pub runs : is_running run.status ≡ true
  pub owner : run.lease_owner ≡ some g.lease_owner
  pub token : run.fencing_token ≡ g.fencing_token
  pub expires : run.lease_expires_at ≡ some (last + seconds g.lease_seconds)

record IsGuard (g : RunLeaseGuard) : Type 0 where
  owner : is_blank g.lease_owner ≡ false
  token : 0 < g.fencing_token
  lease : 0 < g.lease_seconds
