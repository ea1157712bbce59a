-- ===== src/Agent/React.antt =====
-- The rounds of the agent (app/agents/nodes.py): react_decide_node and execute_react_tool_node.
use database_alert_agent.Prelude.{
  ℕ, suc, Bool, true, false, Option, none, some, List, [], ◌∷◌, ◌++◌, ◌||◌, ◌==◌, leb, is_some,
  or_else, holds, if◌then◌else◌, ok, runtime_error,
}
use database_alert_agent.Database.{Stage, ModelFailure}
use database_alert_agent.Conclusions.{one_of}
use database_alert_agent.Agent.{
  ActiveRun, LeaseFence, Observed, Decision, call_tool, finish, ToolRequest, Answer, decided,
  decide_raised, Call, Log, AgentState, NodeContext,
}
use database_alert_agent.Agent.Actions.{Action, ◌>>=◌, ◌>>◌, return, raise, observe, query, perform}
use database_alert_agent.Agent.Nodes.{with_alert, lease_fence, update_progress, find_observed}

-- `_load_react_decision`, from the events of the run
unfoldable pub load_react_decision : ℕ → Log → Option (Decision × Option ModelFailure)
load_react_decision n [] = none
load_react_decision n (c ∷ log) =
    let rest : Option (Decision × Option ModelFailure) = load_react_decision n log in
    elim c [
      | Call.append_decision round d failure fence ↦ if round == n then some (d, failure) else rest
      | _ ↦ rest
    ]

-- `x or y`
abbrev pub either_failure : Option ModelFailure → Option ModelFailure → Option ModelFailure
either_failure (some failure) _ = some failure
either_failure none failure = failure

-- What a decision asks for; `none` where its tool is not available.
abbrev pub requests_of : NodeContext → Decision → Option (List ToolRequest)
requests_of ctx (finish reason) = some []
requests_of ctx (call_tool name parameters) = elim (ctx.tool_timeout (or_else name "")) [
  | none ↦ none
  | some timeout ↦
      if holds (one_of ctx.available_names) name
      then some
          (record { tool_name = or_else name ""; parameters = parameters; timeout = timeout } ∷ [])
      else none
]

-- `reasoning_callback_invoked`
abbrev pub is_streamed : List Bool → Bool
is_streamed [] = false
is_streamed (emitted ∷ deltas) = emitted || is_streamed deltas

abbrev pub deltas_of : Answer → List Bool
deltas_of (decided d deltas) = deltas
deltas_of (decide_raised raised deltas) = deltas

abbrev pub no_requests : List ToolRequest → Bool
no_requests [] = true
no_requests (_ ∷ _) = false

module _ (ctx : NodeContext) where
  -- The decision of the advisor, and the failure of its model; whether its reasoning was emitted.
  abbrev pub decision_of : Option ModelFailure → Answer → (Decision × Option ModelFailure) × Bool
  decision_of failure (decided d deltas) = ((d, failure), is_streamed deltas)
  decision_of failure (decide_raised raised deltas) =
      ((finish "ReAct decision unavailable", either_failure raised failure), is_streamed deltas)

  -- The callback for reasoning, once for each delta: an emission that the advisor makes.
  abbrev pub emit_deltas : List Bool → LeaseFence → Action (Unit {0})
  emit_deltas [] fence = return tt
  emit_deltas (_ ∷ deltas) fence =
      query (Call.emit fence) (λ log. ok tt) >> emit_deltas deltas fence

  abbrev pub ask_decision :
      AgentState → (react_round : ℕ) → LeaseFence → Action ((Decision × Option ModelFailure) × Bool)
  ask_decision s n fence = elim ctx.decide_investigation [
    | none ↦
        return
          ((finish "configured advisor does not expose ReAct decisions", s.model_failure), false)
    | some decide ↦ do
      answer ← query (Call.decide n) (λ log. ok (decide log s n))
      emit_deltas (deltas_of answer) fence
      return (decision_of s.model_failure answer)
  ]

  abbrev pub next_decision :
      AgentState
      → (react_round : ℕ) → LeaseFence
      → Option (Decision × Option ModelFailure)
      → Action ((Decision × Option ModelFailure) × Bool)
  next_decision s n fence (some (d, failure)) =
      return ((d, either_failure failure s.model_failure), false)
  next_decision s n fence none = do
    answer ← ask_decision s n fence
    perform ctx (Call.append_decision n answer.0.0 answer.0.1 fence)
    return answer

  abbrev pub emit_unless : Bool → LeaseFence → Action (Unit {0})
  emit_unless streamed fence = if streamed then return tt else perform ctx (Call.emit fence)

  -- The state after a decision that is not refused.
  abbrev pub with_decision :
      AgentState → Decision → Option ModelFailure → List ToolRequest → AgentState
  with_decision s d failure pending = record s {
    current_stage = Stage.investigating;
    react_round = suc s.react_round;
    react_decision = some d;
    react_finished = no_requests pending;
    pending_tool_requests = pending;
    model_failure = failure;
  }

  abbrev pub act_on :
      AgentState → ActiveRun → LeaseFence → Decision → Option ModelFailure → Action AgentState
  act_on s run fence d failure = do
    perform ctx (Call.emit fence)
    pending ← elim (requests_of ctx d) [
      | none ↦ raise runtime_error
      | some pending ↦ return pending
    ]
    update_progress ctx run Stage.investigating
    return (with_decision s d failure pending)

  abbrev pub stop_at_limit : AgentState → ActiveRun → LeaseFence → Action AgentState
  stop_at_limit s run fence = do
    perform ctx (Call.emit fence)
    update_progress ctx run Stage.investigating
    return (record s {
      current_stage = Stage.investigating;
      react_decision = some (finish "react_max_rounds_reached");
      react_finished = true;
      pending_tool_requests = [];
    })

  abbrev pub decide_round : AgentState → ActiveRun → LeaseFence → Action AgentState
  decide_round s run fence = do
    perform ctx Call.read
    loaded ← observe (load_react_decision (suc s.react_round))
    perform ctx Call.read
    result ← next_decision s (suc s.react_round) fence loaded
    emit_unless result.1 fence
    act_on s run fence result.0.0 result.0.1

  unfoldable pub react_decide_node : AgentState → Action AgentState
  unfolding lease_fence update_progress load_react_decision
  react_decide_node s =
      if is_some s.error
      then return (record s { react_finished = true; pending_tool_requests = [] })
      else with_alert s "Missing run or alert in ReAct decision node" (λ run alert. do
        fence ← lease_fence run
        if leb s.react_max_rounds s.react_round
            then stop_at_limit s run fence
            else decide_round s run fence)

  -- A state after the tool's evidence; evidence that is there already is not added again.
  abbrev pub observed : AgentState → Observed → AgentState
  observed s o = record s {
    evidence = elim (find_observed o.evidence.id s.evidence) [
      | some old ↦ s.evidence
      | none ↦ s.evidence ++ (o ∷ [])
    ];
    pending_tool_requests = [];
  }

  abbrev pub execute_request : AgentState → ActiveRun → List ToolRequest → Action AgentState
  execute_request s run (request ∷ []) = do
    o ←
        query (Call.execute_tool request run.lease_owner run.fencing_token)
          (λ log. ctx.execute log request s.evidence)
    fence ← lease_fence run
    perform ctx (Call.save_evidence o.evidence.id fence)
    perform ctx (Call.emit fence)
    return (observed s o)
  execute_request s run _ =
      return
        (record s { error = some "ReAct tool node requires one run, alert, and pending request" })

  unfoldable pub execute_react_tool_node : AgentState → Action AgentState
  unfolding lease_fence
  execute_react_tool_node s =
      if is_some s.error
      then return (record s { pending_tool_requests = [] })
      else with_alert s "ReAct tool node requires one run, alert, and pending request"
          (λ run alert. execute_request s run s.pending_tool_requests)
