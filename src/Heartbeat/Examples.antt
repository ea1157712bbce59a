-- ===== src/Heartbeat/Examples.antt =====
-- Worker A of Runs/Samples.antt, with two beats, the second of them late by thirty seconds.
use database_alert_agent.Prelude.{ℕ}
use database_alert_agent.Database.{Db}
use database_alert_agent.Heartbeat.{RunLeaseGuard}

abbrev guard_a : RunLeaseGuard
guard_a = record {
  run_id = 7;
  lease_owner = "A";
  fencing_token = 1;
  lease_seconds = 60;
  heartbeat_interval = 20000000;
}

abbrev nobody : ℕ → Db → Db
nobody now db = db
