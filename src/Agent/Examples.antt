-- ===== src/Agent/Examples.antt =====
-- A run of the graph: the agent calls two tools, finishes, and its conclusion is accepted.
use database_alert_agent.Prelude.{
  ℕ, ◌≡◌, ◌≢◌, refl, ◌≤◌, ◌+◌, ◌-◌, true, false, Option, none, some, [], ◌∷◌, ◌==◌, str_eq,
  if◌then◌else◌, ok, lease_conflict,
}
use database_alert_agent.Database.{AlertStatus, RunStatus, Stage}
use database_alert_agent.Conclusions.Policy.{enforce_post_evidence_root_cause_policy}
use database_alert_agent.Conclusions.Samples.{
  python, is_collection, archery, prometheus, recommendation,
}
use database_alert_agent.Agent.{
  NormalizedAlert, ActiveRun, call_tool, finish, Answer, decided, advised, Call, Log, AgentState,
  NodeContext,
}
use database_alert_agent.Agent.Actions.{perform, return, raise, query, observe, ◌>>=◌}
use database_alert_agent.Agent.React.{load_react_decision, react_decide_node, with_decision}
use database_alert_agent.Agent.Graph.{
  enrich_alert, Ended, returned, raised, recursion_limit, recursion_limit_reached, invoke,
}
use database_alert_agent.Agent.Rounds.{run_ends}
use database_alert_agent.Agent.Verdict.{Concludes, run_concludes}
use database_alert_agent.Agent.Fenced.{AllFenced, invoke-AllFenced}
use database_alert_agent.Agent.Tools.{tools, tools-invoke}
use database_alert_agent.Agent.Unasked.{with_advisor}
use database_alert_agent.Agent.Replay.{Follows, react_decide_node-Follows}

abbrev run : ActiveRun
run = record { id = 1; lease_owner = some "worker-1"; fencing_token = 4 }

abbrev alert : NormalizedAlert
alert = record {
  id = 2;
  external_id = "a-2";
  is_flashduty = false;
  view = record { reason = "slow queries"; is_filtered = false };
  endpoint = none;
}

-- It asks for one tool after the other.
abbrev answer : ℕ → Answer
answer n =
    if n == 1
    then decided (call_tool (some "query_sql") "{}") (true ∷ [])
    else if n == 2
    then decided (call_tool (some "query_range") "{}") (true ∷ [])
    else decided (finish "enough") []

abbrev ctx : NodeContext
ctx = record {
  raises = λ log c. none;
  detail_id = λ id external_id. 77;
  stored_evidence = λ log. [];
  enricher = none;
  registry_search = λ log sources a. ok [];
  tool_timeout = λ name. some 30;
  available_names = "query_sql" ∷ "query_range" ∷ [];
  decide_investigation = some (λ log s n. answer n);
  execute = λ log request evidence. ok (record {
    evidence = if str_eq request.tool_name "query_sql" then archery else prometheus;
    detail = none;
  });
  advise_primary = λ log s. advised recommendation (true ∷ []);
  fallback_advisor = none;
  python = python;
  is_collection_cause = is_collection;
}

-- A repository in which the lease is lost when the evidence is saved.
abbrev lost_ctx : NodeContext
lost_ctx = record ctx {
  raises = λ log c. elim c [ Call.save_evidence _ _ ↦ some lease_conflict | _ ↦ none ];
}

abbrev start : AgentState
start = record {
  run = some run;
  alert = some alert;
  knowledge = [];
  evidence = [];
  pending_tool_requests = [];
  react_decision = none;
  recommendation = none;
  current_stage = Stage.received;
  status = AlertStatus.queued;
  run_status = RunStatus.running;
  error = none;
  advisor_degraded = false;
  react_round = 0;
  react_max_rounds = 8;
  react_finished = false;
  validation_passed = false;
  evidence_sufficient = false;
  model_failure = none;
  ai_fallback_enabled = true;
  knowledge_sources = [];
}

abbrev status_of : Ended → Option RunStatus
status_of (returned s) = some s.run_status
status_of _ = none

start-completes :
    status_of (invoke ctx (recursion_limit 8) enrich_alert start []).1 ≡ some RunStatus.completed
unfolding invoke perform return raise query observe ◌>>=◌ enforce_post_evidence_root_cause_policy
start-completes = refl

two-tools : tools (invoke ctx (recursion_limit 8) enrich_alert start []).0 ≡ 2
unfolding invoke perform return raise query observe ◌>>=◌
two-tools = refl

loses-lease : (invoke lost_ctx (recursion_limit 8) enrich_alert start []).1 ≡ raised lease_conflict
unfolding invoke perform return raise query observe ◌>>=◌
loses-lease = refl

-- The log of that run holds the decision of the first round.
abbrev decision_log : Log
decision_log =
    Call.append_decision 1 (call_tool (some "query_range") "{}") none ("worker-0", 3) ∷ []

loaded : load_react_decision 1 decision_log ≡ some (call_tool (some "query_range") "{}", none)
unfolding load_react_decision
loaded = refl

abbrev replayed_state : AgentState
replayed_state =
    with_decision ctx start (call_tool (some "query_range") "{}") none
      (record { tool_name = "query_range"; parameters = "{}"; timeout = 30 } ∷ [])

abbrev replay_log : Log
replay_log =
    Call.append_progress Stage.investigating ("worker-1", 4)
    ∷ Call.update_run Stage.investigating ("worker-1", 4)
    ∷ Call.emit ("worker-1", 4)
    ∷ Call.emit ("worker-1", 4)
    ∷ Call.read
    ∷ Call.read
    ∷ decision_log

replays : react_decide_node ctx start decision_log ≡ (replay_log, ok replayed_state)
unfolding react_decide_node perform return raise query observe ◌>>=◌
replays = refl

run_ends_example :
    (invoke ctx (recursion_limit 8) enrich_alert start []).1 ≢ recursion_limit_reached
run_ends_example = run_ends ctx enrich_alert start []

run_concludes_example : Concludes ctx (invoke ctx (recursion_limit 8) enrich_alert start []).1
run_concludes_example = run_concludes ctx start [] (refl, refl)

invoke-AllFenced_example :
    AllFenced run (invoke lost_ctx (recursion_limit 8) enrich_alert start []).0
invoke-AllFenced_example =
    invoke-AllFenced lost_ctx run (recursion_limit 8) enrich_alert start [] refl tt

tools-invoke_example :
    tools (invoke lost_ctx (recursion_limit 8) enrich_alert start []).0 ≤ 0 + (8 - 0)
tools-invoke_example = tools-invoke lost_ctx run (recursion_limit 8) start [] refl

react_decide_node-Follows_example :
    Follows ctx start (call_tool (some "query_range") "{}") none replayed_state
    × (react_decide_node (with_advisor ctx none) start decision_log
        ≡ (replay_log, ok replayed_state))
react_decide_node-Follows_example =
    react_decide_node-Follows ctx start (call_tool (some "query_range") "{}") none decision_log
      replay_log replayed_state none refl refl refl refl loaded replays
