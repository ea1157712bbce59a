-- ===== src/Invocations/Store.antt =====
-- `RepositoryInvocationStore` of app/agent_runtime/persistence.py. Between its read and its write
-- other transactions may change the table: these are `others`.
use database_alert_agent.Prelude.{
  ℕ, String, Bool, false, not, Option, none, some, List, Result, ok, guard, ◌>>=◌, ◌>>◌,
  runtime_error, ◌==◌, if◌then◌else◌,
}
use database_alert_agent.Database.{Db}
use database_alert_agent.Invocations.{Status, Invocation, is_pending, is_started, is_terminal}
use database_alert_agent.Invocations.Repository.{
  Row, same_invocation, save_tool_invocation, update_tool_invocation, get_tool_invocation,
}

-- `proposed.status in allowed[existing.status]`
abbrev pub allowed : Status → Status → Bool
allowed Status.pending s = is_started s
allowed Status.started s = is_terminal s
allowed _ s = false

unfoldable pub validate_transition : Invocation → Invocation → Result (Unit {0})
validate_transition existing proposed = do
  guard (existing.identity.invocation_id == proposed.identity.invocation_id) runtime_error
  guard (not (is_terminal existing.status)) runtime_error
  guard (allowed existing.status proposed.status) runtime_error

module _ (digest : String → String → String) (lease_owner : Option String)
    (fencing_token : Option ℕ) (others : List Row → List Row) where
  unfoldable pub save : Invocation → ℕ → Db → List Row → Result (List Row)
  unfolding get_tool_invocation save_tool_invocation update_tool_invocation validate_transition
      same_invocation
  save v now db rows = do
    found ← get_tool_invocation v.identity.invocation_id rows
    elim found [
      | none ↦ do
        guard (is_pending v.status) runtime_error
        (saved, rows') ←
            save_tool_invocation digest v lease_owner fencing_token now db (others rows)
        ok rows'
      | some existing ↦ if same_invocation existing v then ok (others rows) else (do
        validate_transition existing v
        (saved, rows') ←
            update_tool_invocation digest v none (some existing.status) lease_owner fencing_token
              now db (others rows)
        ok rows')
    ]
