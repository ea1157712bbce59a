-- ===== src/Invocations/Examples.antt =====
-- One tool invocation of run 7: saved, claimed and ended by worker A; and one execution of it.
use database_alert_agent.Prelude.{
  String, ◌≡◌, refl, true, false, none, some, [], ◌∷◌, ok, find, modify, is_blank, arith,
}
use database_alert_agent.Runs.{require_active_run_lease, to_fence, holds_lease}
use database_alert_agent.Runs.Samples.{held_by_a}
use database_alert_agent.Invocations.{Status, Invocation, lifecycle_is_valid}
use database_alert_agent.Invocations.Repository.{
  Row, row_key, same_invocation, is_valid_claim, save_tool_invocation, update_tool_invocation,
  get_tool_invocation,
}
use database_alert_agent.Invocations.Store.{validate_transition, save}
use database_alert_agent.Invocations.Transitions.{Transition, save-Transition}
use database_alert_agent.Invocations.History.{Saves, here, next, IsLater, Saves-IsLater}
use database_alert_agent.Invocations.Executor.{
  Exception, Mapped, mapped, Handler, returned, dictionary, Clock, World, execute,
  effective_timeout,
}
use database_alert_agent.Invocations.Executor.Ends.{Ends}
use database_alert_agent.Invocations.Executor.Execution.{IsExecution, IsBroken, execute-Ends}
use database_alert_agent.Invocations.Executor.Total.{
  outcome, expected_outcome, execute-expected_outcome,
}

abbrev digest : String → String → String
digest name arguments = name

abbrev pending : Invocation
pending = record {
  identity = record {
    invocation_id = 5;
    run_id = 7;
    tool_name = "slow_logs";
    effective_arguments = "{}";
    request = "{}";
    fingerprint = "slow_logs";
    deadline = some 50;
    created_at = 10;
  };
  execution = record { lease_owner = none; fencing_token = none };
  status = Status.pending;
  started_at = none;
  completed_at = none;
  error = none;
  artifact_ref = none;
}

abbrev claimed : Invocation
claimed = record pending {
  execution = record { lease_owner = some "A"; fencing_token = some 1 };
  status = Status.started;
  started_at = some 20;
}

abbrev ended : Invocation
ended = record claimed { status = Status.succeeded; completed_at = some 40 }

abbrev row : Invocation → Row
row v = record { invocation = v; result = none; intact = true }

first_save :
    save digest (some "A") (some 1) (λ _. []) pending 10 held_by_a [] ≡ ok (row pending ∷ [])
unfolding save get_tool_invocation save_tool_invocation require_active_run_lease to_fence
    holds_lease find is_blank
first_save = refl

claim :
    save digest (some "A") (some 1) (λ _. row pending ∷ []) claimed 20 held_by_a (row pending ∷ [])
    ≡ ok (row claimed ∷ [])
unfolding save get_tool_invocation validate_transition update_tool_invocation is_valid_claim
    same_invocation require_active_run_lease to_fence holds_lease find modify is_blank
claim = refl

end_save :
    save digest (some "A") (some 1) (λ _. row claimed ∷ []) ended 40 held_by_a (row claimed ∷ [])
    ≡ ok (row ended ∷ [])
unfolding save get_tool_invocation validate_transition update_tool_invocation same_invocation
    require_active_run_lease to_fence holds_lease find modify is_blank
end_save = refl

save-Transition_example : Transition (row pending ∷ []) (row claimed ∷ [])
save-Transition_example =
    save-Transition digest (some "A") (some 1) (λ _. row pending ∷ []) claimed 20 held_by_a
      (row pending ∷ []) (row claimed ∷ []) claim

claimed_row : find row_key 5 (row claimed ∷ []) ≡ some (row claimed)
unfolding find
claimed_row = refl

history : Saves digest (row claimed ∷ []) (row ended ∷ [])
history = next (some "A") (some 1) ended 40 held_by_a here here end_save

Saves-IsLater_example :
    (r' : Row) × (find row_key 5 (row ended ∷ []) ≡ some r') × IsLater (row claimed) r'
Saves-IsLater_example = Saves-IsLater 5 (row claimed) claimed_row history

abbrev handler : Handler
handler = record { ends = returned (dictionary "rows"); duration = 15 }

abbrev clock : Clock
clock = record { started_at = 20; completed_at = 40; failed_at = 40 }

abbrev quiet : World
quiet = record { events = []; unconfirmed = []; answers = [] }

abbrev mapper : Exception → Mapped
mapper x = mapped (record { code = "error"; message = "error"; retryable = false })

pending_is_valid : lifecycle_is_valid pending ≡ true
unfolding lifecycle_is_valid
pending_is_valid = refl

execute-Ends_example :
    Ends
      (IsExecution pending [])
      (λ x w'. IsBroken [] w'.events)
      (execute mapper pending handler (some 25) clock quiet)
execute-Ends_example = execute-Ends mapper pending handler (some 25) clock quiet

execute-expected_outcome_example :
    outcome (execute mapper pending handler (some 25) clock quiet)
    ≡ expected_outcome mapper (effective_timeout pending (some 25) 20) handler
execute-expected_outcome_example =
    execute-expected_outcome mapper pending handler (some 25) clock quiet refl pending_is_valid refl
      (omega arith) (omega arith) (omega arith) refl

-- The deadline is 30 after the start: the limit is the smaller of both.
succeeds :
    expected_outcome mapper (effective_timeout pending (some 25) 20) handler ≡ some Status.succeeded
unfolding effective_timeout
succeeds = refl
