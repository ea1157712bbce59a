-- ===== src/Dispatch/Examples.antt =====
-- The dispatch switch through a pause, a failed and a successful validation, and a late resume.
use database_alert_agent.Prelude.{refl, true, false, none, some, []}
use database_alert_agent.Database.{
  DispatchState, FailureCategory, ModelFailure, Validation, Dispatch, Db,
}
use database_alert_agent.Dispatch.{pause_analysis_dispatch, pause_row}
use database_alert_agent.Dispatch.Versions.{Change, pause}

abbrev failure : ModelFailure
failure = record {
  category = FailureCategory.authentication;
  provider = "minimax";
  pauses_dispatch = true;
  safe_detail = "key";
}

abbrev bad : Validation
bad = record { success = false; settings_revision = "s2"; detail = "401"; validated_by = "ann" }

abbrev good : Validation
good = record { success = true; settings_revision = "s2"; detail = "ok"; validated_by = "ann" }

abbrev running : Dispatch
running = record {
  state = DispatchState.enabled;
  version = 1;
  reason = none;
  trigger_run_id = none;
  paused_settings_revision = none;
  last_validation = none;
  paused_at = none;
  resumed_at = none;
  resumed_by = none;
  updated_at = 0;
}

abbrev held : Dispatch
held = record running {
  state = DispatchState.paused;
  version = 2;
  reason = some failure;
  trigger_run_id = some 7;
  paused_settings_revision = some "s1";
  paused_at = some 10;
  updated_at = 10;
}

abbrev checked : Dispatch
checked = record held { version = 3; last_validation = some bad; updated_at = 20 }

abbrev resumed : Dispatch
resumed = record checked {
  state = DispatchState.enabled;
  version = 4;
  last_validation = some good;
  resumed_at = some 30;
  resumed_by = some "ann";
  updated_at = 30;
}

abbrev at : Dispatch → Db
at row = record {
  alerts = [];
  runs = [];
  dispatch = some row;
  deliveries = [];
  progress = [];
  events = [];
  checkpoints = [];
}

to_held : Change (at running) (at held)
unfolding pause_analysis_dispatch pause_row
to_held = pause failure 7 "s1" 10 refl
