-- ===== src/Agent/Nodes.antt =====
-- The nodes before the rounds (app/agents/nodes.py): enrich_alert_node, fingerprint_node and
-- knowledge_match_node, and what all nodes share. A node returns the state with its update merged.
use database_alert_agent.Prelude.{
  ℕ, String, Bool, true, false, not, ◌&&◌, Option, none, some, List, [], ◌∷◌, ◌++◌, ◌==◌, str_eq,
  is_some, if◌then◌else◌, Result, ok, err, value_error, runtime_error,
}
use database_alert_agent.Database.{Stage}
use database_alert_agent.Conclusions.{ToolStatus, is_success, one_of}
use database_alert_agent.Agent.{
  NormalizedAlert, ActiveRun, LeaseFence, Observed, Call, AgentState, NodeContext,
}
use database_alert_agent.Agent.Actions.{Action, ◌>>=◌, ◌>>◌, return, raise, observe, query, perform}

-- A node that needs the run and the alert.
abbrev pub with_alert :
    AgentState
    → (missing : String) → (ActiveRun → NormalizedAlert → Action AgentState)
    → Action AgentState
with_alert s missing k = elim s.run [
  | none ↦ return (record s { error = some missing })
  | some run ↦ elim s.alert [
    | none ↦ return (record s { error = some missing })
    | some alert ↦ k run alert
  ]
]

-- `_lease_fence`
unfoldable pub lease_fence : ActiveRun → Action LeaseFence
lease_fence run = elim run.lease_owner [
  | none ↦ raise value_error
  | some owner ↦ return (owner, run.fencing_token)
]

abbrev pub find_observed : ℕ → List Observed → Option Observed
find_observed id [] = none
find_observed id (o ∷ os) = if o.evidence.id == id then some o else find_observed id os

-- `list(dict.fromkeys(sources))`, where `seen` holds what came before
unfoldable pub distinct_sources : (seen sources : List String) → List String
distinct_sources seen [] = []
distinct_sources seen (s ∷ ss) =
    if one_of seen s then distinct_sources seen ss else s ∷ distinct_sources (s ∷ seen) ss

abbrev pub or_runtime_error : {A : Type 0} → Result A → Result A
or_runtime_error (ok a) = ok a
or_runtime_error (err e) = err runtime_error

module _ (ctx : NodeContext) where
  -- `_update_progress`
  unfoldable pub update_progress : ActiveRun → Stage → Action (Unit {0})
  unfolding lease_fence
  update_progress run stage = do
    fence ← lease_fence run
    perform ctx (Call.update_run stage fence)
    perform ctx (Call.append_progress stage fence)

  abbrev pub with_alert_of : AgentState → NormalizedAlert → AgentState
  with_alert_of s alert = record s { alert = some alert }

  abbrev pub add_evidence : AgentState → Observed → AgentState
  add_evidence s o = record s { evidence = s.evidence ++ (o ∷ []) }

  -- The detail of the alert that evidence of this run has: from the state, or from the repository.
  abbrev pub replay_detail :
      AgentState → NormalizedAlert → Observed → (is_new : Bool) → Action AgentState
  replay_detail s alert o is_new = elim o.detail [
    | none ↦ raise runtime_error
    | some detail ↦
        if not (is_success o.evidence.status)
        then raise runtime_error
        else if detail.id == alert.id
            && str_eq detail.external_id alert.external_id
            && detail.is_flashduty
        then return
            (if is_new then add_evidence (with_alert_of s detail) o else with_alert_of s detail)
        else raise runtime_error
  ]

  abbrev pub is_detail : Observed → Bool
  is_detail o =
      str_eq o.evidence.tool_name "flashduty_alert_info"
      && str_eq o.evidence.source_system "flashduty_alert_detail"

  abbrev pub find_detail : ℕ → List Observed → Option Observed
  find_detail id [] = none
  find_detail id (o ∷ os) = if o.evidence.id == id && is_detail o then some o else find_detail id os

  abbrev pub detail_evidence : ℕ → NormalizedAlert → Observed
  detail_evidence id enriched = record {
    evidence = record {
      id = id;
      is_v2 = false;
      status = ToolStatus.success;
      source_system = "flashduty_alert_detail";
      tool_name = "flashduty_alert_info";
      partial = some false;
      root_cause_eligible = none;
      truncated = false;
      source_artifact_id = none;
      evidence_units = [];
    };
    detail = some enriched;
  }

  abbrev pub load_detail : AgentState → ActiveRun → NormalizedAlert → ℕ → Action AgentState
  load_detail s run alert id = do
    fence ← lease_fence run
    let baseline : NormalizedAlert = record alert { endpoint = none }
    perform ctx (Call.update_alert baseline fence)
    enriched ← elim ctx.enricher [
      | none ↦ raise runtime_error
      | some enrich ↦ query Call.enrich (λ log. or_runtime_error (enrich log baseline))
    ]
    perform ctx (Call.update_alert enriched fence)
    perform ctx (Call.save_evidence id fence)
    perform ctx (Call.append_progress Stage.received fence)
    return (add_evidence (with_alert_of s enriched) (detail_evidence id enriched))

  unfoldable pub enrich_alert_node : AgentState → Action AgentState
  unfolding lease_fence
  enrich_alert_node s = with_alert s "Missing run or alert in alert detail node" (λ run alert.
      if not alert.is_flashduty
      then return s
      else let id : ℕ = ctx.detail_id run.id alert.external_id in
        elim (find_observed id s.evidence) [
          | some o ↦ replay_detail s alert o false
          | none ↦
              perform ctx Call.get_alert
              >> observe (λ log. find_detail id (ctx.stored_evidence log))
              >>= (λ stored. elim stored [
                | some o ↦ replay_detail s alert o true
                | none ↦ load_detail s run alert id
              ])
        ])

  unfoldable pub fingerprint_node : AgentState → Action AgentState
  unfolding update_progress
  fingerprint_node s = with_alert s "Missing run or alert in fingerprint node" (λ run alert.
      update_progress run Stage.fingerprinting
      >> return (record s { current_stage = Stage.fingerprinting }))

  unfoldable pub knowledge_match_node : AgentState → Action AgentState
  unfolding update_progress
  knowledge_match_node s =
      if is_some s.error
      then return s
      else with_alert s "Missing run or alert in knowledge match node" (λ run alert. do
        update_progress run Stage.knowledge_matching
        knowledge ←
            query Call.search
              (λ log. ctx.registry_search log (distinct_sources [] s.knowledge_sources) alert)
        update_progress run Stage.knowledge_matching
        return (record s { current_stage = Stage.knowledge_matching; knowledge = knowledge }))
