-- ===== src/Agent.antt =====
-- The investigation agent: its state (app/agents/state.py), what it calls, and the actions of its nodes.
-- The nodes, the graph and what holds of its runs are in the children. Every call of the agent is written
-- to a log, newest first, and what answers a call is a function of the log: another call of the same kind
-- may be answered otherwise; an emission counts as a call also where it turns out to have nothing to emit.
-- A log that goes on is a repository that a crash of the worker leaves behind.
-- Texts of messages, the progress records and the stored alert of the state are left out.
pub mod Actions
pub mod Nodes
pub mod React
pub mod Conclude
pub mod Graph
pub mod Outcomes
pub mod Calls
pub mod NodeCalls
pub mod Runs
pub mod Fenced
pub mod Tools
pub mod Unasked
pub mod Replay
pub mod Rounds
pub mod Verdict
mod Examples
use database_alert_agent.Prelude.{
  ℕ, String, Bool, true, false, Option, none, some, List, [], ◌∷◌, Result, Error,
}
use database_alert_agent.Database.{AlertStatus, RunStatus, Stage, ModelFailure}
use database_alert_agent.Conclusions.{TextMethods, EvidenceRecord}
use database_alert_agent.Conclusions.Policy.{Recommendation, AlertView}

pub record NormalizedAlert : Type 0 where
  pub id : ℕ
  pub external_id : String
  pub is_flashduty : Bool
  pub view : AlertView
  pub endpoint : Option String

-- `run.lease_owner` (`none` for an empty one too) and `run.fencing_token`
pub record ActiveRun : Type 0 where
  pub id : ℕ
  pub lease_owner : Option String
  pub fencing_token : ℕ

-- What `_lease_fence` gives.
abbrev pub LeaseFence : Type 0
LeaseFence = String × ℕ

-- Evidence; `detail` is the alert in its data, where that is the complete authoritative detail.
pub record Observed : Type 0 where
  pub evidence : EvidenceRecord
  pub detail : Option NormalizedAlert

-- `InvestigationDecision`
pub data Decision : Type 0 where
  call_tool : (tool_name : Option String) (parameters : String) → Decision
  finish : (reason : String) → Decision

pub record ToolRequest : Type 0 where
  pub tool_name : String
  pub parameters : String
  pub timeout : ℕ

-- A result of the advisor. The deltas of reasoning that it hands to its callback come with it, each with
-- whether the emitter made an event of it; where an emission raises, it raises in the advisor.
pub data Answer : Type 0 where
  decided : Decision → (deltas : List Bool) → Answer
  decide_raised : Option ModelFailure → (deltas : List Bool) → Answer

pub data Advice : Type 0 where
  advised : Recommendation → (deltas : List Bool) → Advice
  advise_raised : Option ModelFailure → (deltas : List Bool) → Advice

pub data Call : Type 0 where
  read get_alert : Call
  update_run append_progress : Stage → LeaseFence → Call
  update_alert : NormalizedAlert → LeaseFence → Call
  save_evidence : ℕ → LeaseFence → Call
  save_validation : Bool → LeaseFence → Call
  append_decision : ℕ → Decision → Option ModelFailure → LeaseFence → Call
  emit : LeaseFence → Call
  enrich search advise advise_fallback : Call
  decide : (react_round : ℕ) → Call
  execute_tool : ToolRequest → (lease_owner : Option String) → (fencing_token : ℕ) → Call

abbrev pub Log : Type 0
Log = List Call

pub record AgentState : Type 0 where
  pub run : Option ActiveRun
  pub alert : Option NormalizedAlert
  pub knowledge : List String
  pub evidence : List Observed
  pub pending_tool_requests : List ToolRequest
  pub react_decision : Option Decision
  pub recommendation : Option Recommendation
  pub current_stage : Stage
  pub status : AlertStatus
  pub run_status : RunStatus
  pub error : Option String
  pub advisor_degraded : Bool
  pub react_round : ℕ
  pub react_max_rounds : ℕ
  pub react_finished : Bool
  pub validation_passed : Bool
  pub evidence_sufficient : Bool
  pub model_failure : Option ModelFailure
  pub ai_fallback_enabled : Bool
  pub knowledge_sources : List String

-- What the nodes call. `raises` is what a call of the repository raises, if it does; then it has written
-- nothing. `enrich` includes the preprocessing of the alert. `decide` is `none` for an advisor without it.
pub record NodeContext : Type 0 where
  pub raises : Log → Call → Option Error
  pub detail_id : ℕ → String → ℕ
  pub stored_evidence : Log → List Observed
  pub enricher : Option (Log → NormalizedAlert → Result NormalizedAlert)
  pub registry_search : Log → List String → NormalizedAlert → Result (List String)
  pub tool_timeout : String → Option ℕ
  pub available_names : List String
  pub decide_investigation : Option (Log → AgentState → (react_round : ℕ) → Answer)
  pub execute : Log → ToolRequest → List Observed → Result Observed
  pub advise_primary : Log → AgentState → Advice
  pub fallback_advisor : Option (Log → AgentState → Advice)
  pub python : TextMethods
  pub is_collection_cause : String → Bool
