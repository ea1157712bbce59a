-- ===== src/Runs/Samples.antt =====
-- One alert through a claim, the loss of the lease, a takeover and the end of the run: concrete
-- transactions, computed.
use database_alert_agent.Prelude.{
  ◌≡◌, refl, true, none, some, [], ◌∷◌, ok, err, lease_conflict, find, modify, is_blank,
}
use database_alert_agent.Database.{
  RunStatus, AlertStatus, Stage, DispatchState, NotificationKind, DeliveryStatus, Alert, Run,
  Manifest, Dispatch, Delivery, Progress, Checkpoint, Db,
}
use database_alert_agent.Runs.{holds_lease, require_active_run_lease, latest_run, latest_progress}
use database_alert_agent.Runs.Claims.Defs.{Claim, create_run}
use database_alert_agent.Runs.Claims.Reclaim.{
  reclaim_expired_run, recovery_error, latest_checkpoint,
}
use database_alert_agent.Runs.Finalize.{Outcome, finalize_run}
use database_alert_agent.Runs.Consistency.{IsConsistent}
use database_alert_agent.Runs.Steps.Relation.{
  Steps, here, next, create, reclaim, finalize, Steps-IsConsistent,
}

abbrev pub alert : Alert
alert = record {
  id = 1;
  source = "flashduty";
  external_id = "a";
  status = AlertStatus.queued;
  alert_json = "{}";
  recommendation = none;
  advisor_metadata = none;
  error = none;
  created_at = 0;
  updated_at = 0;
}

abbrev pub switch : Dispatch
switch = record {
  state = DispatchState.enabled;
  version = 1;
  reason = none;
  trigger_run_id = none;
  paused_settings_revision = none;
  last_validation = none;
  paused_at = none;
  resumed_at = none;
  resumed_by = none;
  updated_at = 0;
}

abbrev pub manifest : Manifest
manifest = record { run_id = 7; digest = "d"; intact = true }

abbrev pub checkpoint : Checkpoint
checkpoint = record {
  checkpoint_id = 3;
  run_id = 7;
  namespace = "agent";
  version = 1;
  sequence = 4;
  state = "{}";
  manifest_hash = "d";
  intact = true;
}

abbrev pub queued : Db
queued = record {
  alerts = alert ∷ [];
  runs = [];
  dispatch = some switch;
  deliveries = [];
  progress = [];
  events = [];
  checkpoints = checkpoint ∷ [];
}

-- Worker A asks for sixty seconds at time 0, worker B at the end of that lease.
abbrev pub claim_a : Claim
claim_a = record {
  alert_id = 1;
  lease_owner = "A";
  lease_seconds = 60;
  config_snapshot = none;
  manifest = some manifest;
  run_id = 7;
  delivery_id = 20;
  progress_id = 30;
}

abbrev pub claim_b : Claim
claim_b = record claim_a { lease_owner = "B" }

abbrev pub run_a : Run
run_a = record {
  id = 7;
  alert_id = 1;
  attempt = 1;
  fencing_token = 1;
  status = RunStatus.running;
  current_stage = Stage.received;
  error = none;
  lease_owner = some "A";
  lease_expires_at = some 60000000;
  cancel_requested_at = none;
  cancel_requested_by = none;
  cancelled_at = none;
  config_snapshot = none;
  manifest = some manifest;
  recommendation = none;
  advisor_metadata = none;
  model_failure = none;
  created_at = 0;
  updated_at = 0;
}

abbrev pub run_b : Run
run_b = record run_a {
  fencing_token = 2;
  lease_owner = some "B";
  lease_expires_at = some 120000000;
  updated_at = 60000000;
}

abbrev pub analyzing_alert : Alert
analyzing_alert = record alert { status = AlertStatus.analyzing }

abbrev pub held_by_a : Db
held_by_a = record queued { alerts = analyzing_alert ∷ []; runs = run_a ∷ [] }

abbrev pub held_by_b : Db
held_by_b = record held_by_a { runs = run_b ∷ [] }

pub created_by_a : create_run claim_a 0 queued ≡ ok (some run_a, held_by_a)
unfolding create_run find latest_run modify
created_by_a = refl

pub taken_over : reclaim_expired_run claim_b 60000000 held_by_a ≡ ok (some run_b, held_by_b)
unfolding reclaim_expired_run is_blank find latest_run recovery_error latest_checkpoint modify
taken_over = refl

pub queued-IsConsistent : IsConsistent []
queued-IsConsistent = record {
  one_id = λ r s i. absurd i;
  one_attempt = λ r s i. absurd i;
  running_latest = λ r s i. absurd i;
  token = λ r i. absurd i;
  leased = λ r i. absurd i;
}

pub to_a : Steps queued held_by_a
to_a = next here (create claim_a 0 created_by_a)

pub to_b : Steps queued held_by_b
to_b = next to_a (reclaim claim_b 60000000 taken_over)

pub b-IsConsistent : IsConsistent (run_b ∷ [])
b-IsConsistent = Steps-IsConsistent queued-IsConsistent to_b

abbrev pub summary : Outcome
summary = record {
  run_status = RunStatus.completed;
  final_stage = Stage.completed;
  alert_status = AlertStatus.completed;
  progress = record {
    id = 31;
    alert_id = 1;
    run_id = 7;
    sequence = 0;
    stage = Stage.completed;
    message = "done";
    details = "{}";
    created_at = 70000000;
  };
  recommendation = some "index";
  advisor_metadata = none;
  error = none;
  model_failure = none;
  pause_settings_revision = none;
  notification = some (NotificationKind.analysis_result, "{}");
  delivery_id = 21;
}

abbrev pub ended_run : Run
ended_run = record run_b {
  status = RunStatus.completed;
  current_stage = Stage.completed;
  recommendation = some "index";
  updated_at = 70000000;
}

abbrev pub notice_row : Delivery
notice_row = record {
  id = 21;
  alert_id = 1;
  run_id = 7;
  kind = NotificationKind.analysis_result;
  status = DeliveryStatus.pending;
  event = "{}";
  attempts = 0;
  error = none;
  message_id = none;
  next_attempt_at = none;
  claim_owner = none;
  claim_expires_at = none;
  created_at = 70000000;
  updated_at = 70000000;
  sent_at = none;
}

abbrev pub saved : Progress
saved = record summary.progress { sequence = 1 }

abbrev pub finished : Db
finished = record held_by_b {
  alerts =
      record analyzing_alert {
        status = AlertStatus.completed;
        recommendation = some "index";
        updated_at = 70000000;
      }
      ∷ [];
  runs = ended_run ∷ [];
  deliveries = notice_row ∷ [];
  progress = saved ∷ [];
}

pub finalized : finalize_run 1 7 "B" 2 summary 70000000 held_by_b ≡ ok (saved, finished)
unfolding finalize_run require_active_run_lease holds_lease find modify latest_run latest_progress
finalized = refl

late_a : finalize_run 1 7 "A" 1 summary 70000000 held_by_b ≡ err lease_conflict
unfolding finalize_run require_active_run_lease holds_lease find
late_a = refl

pub to_end : Steps held_by_b finished
to_end = next here (finalize 1 7 "B" 2 summary 70000000 finalized)
