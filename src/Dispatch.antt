-- ===== src/Dispatch.antt =====
-- The analysis dispatch switch: `pause_analysis_dispatch`, `record_dispatch_validation` and
-- `resume_analysis_dispatch` of app/adapters/persistence.py. The row "global" is locked for the
-- whole transaction; a missing row is a RuntimeError.
pub mod Versions
mod Examples
use database_alert_agent.Prelude.{
  ℕ, ◌+◌, String, ◌≡◌, Bool, true, false, not, Option, none, some, Result, ok, err, guard, ◌>>=◌,
  ◌>>◌, Error, value_error, runtime_error, dispatch_conflict, ◌==◌, str_eq, if◌then◌else◌,
}
use database_alert_agent.Database.{DispatchState, ModelFailure, Validation, Dispatch, Db, is_paused}

-- `if row is None: raise RuntimeError(...)`
abbrev pub the_dispatch : Db → Result Dispatch
the_dispatch db = elim db.dispatch [ none ↦ err runtime_error | some row ↦ ok row ]

-- The values that a pause writes, here and in `finalize_run`.
unfoldable pub pause_row : ModelFailure → ℕ → String → ℕ → Dispatch → Dispatch
pause_row failure trigger_run_id settings_revision now row = record row {
  state = DispatchState.paused;
  version = row.version + 1;
  reason = some failure;
  trigger_run_id = some trigger_run_id;
  paused_settings_revision = some settings_revision;
  last_validation = none;
  paused_at = some now;
  resumed_at = none;
  resumed_by = none;
  updated_at = now;
}

unfoldable pub get_dispatch_control : Db → Result Dispatch
get_dispatch_control db = the_dispatch db

unfoldable pub pause_analysis_dispatch : ModelFailure → ℕ → String → ℕ → Db → Result (Dispatch × Db)
unfolding pause_row
pause_analysis_dispatch failure trigger_run_id settings_revision now db = do
  guard failure.pauses_dispatch value_error
  row ← the_dispatch db
  let row' = pause_row failure trigger_run_id settings_revision now row
  ok (row', record db { dispatch = some row' })

unfoldable pub record_dispatch_validation : ℕ → Validation → ℕ → Db → Result (Dispatch × Db)
record_dispatch_validation expected_version validation now db = do
  guard (not validation.success) value_error
  row ← the_dispatch db
  guard (row.version == expected_version) (dispatch_conflict expected_version row.version)
  guard (is_paused row.state) value_error
  let row' = record row {
    version = row.version + 1;
    last_validation = some validation;
    updated_at = now;
  }
  ok (row', record db { dispatch = some row' })

unfoldable pub resume_analysis_dispatch :
    ℕ → String → String → Validation → ℕ → Db → Result (Dispatch × Db)
resume_analysis_dispatch expected_version expected_settings_revision by validation now db = do
  guard validation.success value_error
  guard (str_eq validation.settings_revision expected_settings_revision) value_error
  row ← the_dispatch db
  guard (row.version == expected_version) (dispatch_conflict expected_version row.version)
  guard (is_paused row.state) value_error
  let row' = record row {
    state = DispatchState.enabled;
    version = row.version + 1;
    last_validation = some validation;
    resumed_at = some now;
    resumed_by = some by;
    updated_at = now;
  }
  ok (row', record db { dispatch = some row' })
