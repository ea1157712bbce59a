-- ===== src/Agent/Conclude.antt =====
-- The nodes that conclude (app/agents/nodes.py): advise_node, validate_node and report_node. The rule
-- validator is the one of the Conclusions.
use database_alert_agent.Prelude.{
  Bool, true, false, not, ◌&&◌, Option, none, some, List, [], map, is_some, holds, if◌then◌else◌,
  ok,
}
use database_alert_agent.Database.{Stage, ModelFailure, AlertStatus, RunStatus}
use database_alert_agent.Conclusions.{EvidenceRecord}
use database_alert_agent.Conclusions.Policy.{
  Recommendation, without_causes, enforce_post_evidence_root_cause_policy,
}
use database_alert_agent.Conclusions.Rules.{validate, Validation}
use database_alert_agent.Agent.{
  NormalizedAlert, ActiveRun, LeaseFence, Observed, Advice, advised, advise_raised, Call,
  AgentState, NodeContext,
}
use database_alert_agent.Agent.Actions.{Action, ◌>>=◌, ◌>>◌, return, query, perform}
use database_alert_agent.Agent.Nodes.{with_alert, lease_fence, update_progress}
use database_alert_agent.Agent.React.{either_failure, emit_unless, is_streamed, emit_deltas}

abbrev pub advice_deltas : Advice → List Bool
advice_deltas (advised r deltas) = deltas
advice_deltas (advise_raised raised deltas) = deltas

abbrev pub records : List Observed → List EvidenceRecord
records os = map (λ o. o.evidence) os

module _ (ctx : NodeContext) where
  -- A failure that is known to stop the provider takes the place of the call.
  abbrev pub ask_advice : AgentState → LeaseFence → Action Advice
  ask_advice s fence =
      if holds (λ (f : ModelFailure). f.pauses_dispatch) s.model_failure
      then return (advise_raised s.model_failure [])
      else do
        advice ← query Call.advise (λ log. ok (ctx.advise_primary log s))
        emit_deltas ctx (advice_deltas advice) fence
        return advice

  abbrev pub advised_state :
      AgentState → NormalizedAlert → Option ModelFailure → Bool → Recommendation → AgentState
  advised_state s alert failure degraded r = record s {
    current_stage = Stage.advising;
    recommendation = some (
        enforce_post_evidence_root_cause_policy ctx.python ctx.is_collection_cause
          (records s.evidence) r (some alert.view));
    advisor_degraded = degraded;
    model_failure = failure;
  }

  abbrev pub failed_advice : AgentState → Option ModelFailure → AgentState
  failed_advice s failure = record s { error = some "AI advisor failed"; model_failure = failure }

  abbrev pub use_fallback :
      AgentState
      → NormalizedAlert
      → LeaseFence
      → Option ModelFailure
      → (deltas : List Bool) → Advice
      → Action AgentState
  use_fallback s alert fence failure deltas (advise_raised _ _) = return (failed_advice s failure)
  use_fallback s alert fence failure deltas (advised r _) = do
    perform ctx (Call.append_progress Stage.advising fence)
    emit_unless ctx (is_streamed deltas) fence
    return (advised_state s alert failure true r)

  abbrev pub conclude : AgentState → NormalizedAlert → LeaseFence → Advice → Action AgentState
  conclude s alert fence (advised r deltas) = do
    emit_unless ctx (is_streamed deltas) fence
    return (advised_state s alert s.model_failure false r)
  conclude s alert fence (advise_raised raised deltas) =
      let failure : Option ModelFailure = either_failure raised s.model_failure in
      if not s.ai_fallback_enabled
      then return (failed_advice s failure)
      else elim ctx.fallback_advisor [
        | none ↦ return (failed_advice s failure)
        | some fallback ↦
            query Call.advise_fallback (λ log. ok (fallback log s))
            >>= use_fallback s alert fence failure deltas
      ]

  unfoldable pub advise_node : AgentState → Action AgentState
  unfolding lease_fence update_progress
  advise_node s =
      if is_some s.error
      then return s
      else with_alert s "Missing run or alert in advise node" (λ run alert. do
        fence ← lease_fence run
        perform ctx Call.read
        update_progress ctx run Stage.advising
        advice ← ask_advice s fence
        conclude s alert fence advice)

  abbrev pub validated : AgentState → Validation → AgentState
  validated s v = record s {
    current_stage = Stage.validating;
    validation_passed = v.passed;
    evidence_sufficient = v.evidence_sufficient;
  }

  abbrev pub validate_recommendation :
      AgentState → ActiveRun → Option Recommendation → Action AgentState
  validate_recommendation s run none =
      return (record s { error = some "Missing run, alert, or recommendation in validate node" })
  validate_recommendation s run (some r) = do
    update_progress ctx run Stage.validating
    let v : Validation = validate ctx.python (records s.evidence) r
    fence ← lease_fence run
    perform ctx (Call.save_validation v.passed fence)
    return (validated s v)

  unfoldable pub validate_node : AgentState → Action AgentState
  unfolding lease_fence update_progress validate
  validate_node s =
      if is_some s.error
      then return s
      else with_alert s "Missing run, alert, or recommendation in validate node"
          (λ run alert. validate_recommendation s run s.recommendation)

  abbrev pub is_conclusive : AgentState → Bool
  is_conclusive s = s.validation_passed && s.evidence_sufficient && not s.advisor_degraded

  abbrev pub cleared : Option Recommendation → Option Recommendation
  cleared none = none
  cleared (some r) = some (without_causes r)

  abbrev pub reported_state : AgentState → AgentState
  reported_state s =
      if is_conclusive s
      then record s {
        current_stage = Stage.completed;
        status = AlertStatus.completed;
        run_status = RunStatus.completed;
      }
      else record s {
        current_stage = Stage.inconclusive;
        status = AlertStatus.inconclusive;
        run_status = RunStatus.inconclusive;
        recommendation = cleared s.recommendation;
      }

  abbrev pub failed_report : AgentState → AgentState
  failed_report s = record s {
    current_stage = Stage.failed;
    status = AlertStatus.failed;
    run_status = RunStatus.failed;
  }

  unfoldable pub report_node : AgentState → Action AgentState
  unfolding update_progress
  report_node s = with_alert s "Missing run or alert in report node" (λ run alert.
      if is_some s.error
      then return (failed_report s)
      else update_progress ctx run Stage.reporting >> return (reported_state s))
