-- ===== src/Agent/Graph.antt =====
-- The graph (app/agents/graph.py): its edges, and a run of it, which makes at most as many steps as the
-- limit says. `InvestigationAgent.run` starts it, or goes on with it from a saved node and state.
use database_alert_agent.Prelude.{
  ℕ, zero, suc, ◌+◌, ◌*◌, Bool, true, false, ◌||◌, Option, none, some, List, [], ◌∷◌, leb, is_some,
  if◌then◌else◌, Result, Error, ok, err,
}
use database_alert_agent.Agent.{ToolRequest, Log, AgentState, NodeContext}
use database_alert_agent.Agent.Actions.{Action}
use database_alert_agent.Agent.Nodes.{enrich_alert_node, fingerprint_node, knowledge_match_node}
use database_alert_agent.Agent.React.{react_decide_node, execute_react_tool_node}
use database_alert_agent.Agent.Conclude.{advise_node, validate_node, report_node}

pub data NodeName : Type 0 where
  enrich_alert fingerprint knowledge react_decide execute_react_tool advise validate report :
      NodeName

abbrev pub is_one : List ToolRequest → Bool
is_one (r ∷ []) = true
is_one _ = false

-- `_route_after_react_decision`
abbrev pub route_after_react_decision : AgentState → NodeName
route_after_react_decision s =
    if is_some s.error || s.react_finished
    then NodeName.advise
    else if is_one s.pending_tool_requests
    then execute_react_tool
    else NodeName.advise

-- The edges; `none` is the end.
abbrev pub next_node : NodeName → AgentState → Option NodeName
next_node enrich_alert s = some fingerprint
next_node fingerprint s = some knowledge
next_node knowledge s = some react_decide
next_node react_decide s = some (route_after_react_decision s)
next_node execute_react_tool s = some react_decide
next_node NodeName.advise s = some NodeName.validate
next_node NodeName.validate s = some report
next_node report s = none

pub data Ended : Type 0 where
  returned : AgentState → Ended
  raised : Error → Ended
  recursion_limit_reached : Ended

-- `recursion_limit`
abbrev pub recursion_limit : ℕ → ℕ
recursion_limit react_max_rounds =
    if leb (react_max_rounds * 2 + 12) 25 then 25 else react_max_rounds * 2 + 12

module _ (ctx : NodeContext) where
  abbrev pub run_node : NodeName → AgentState → Action AgentState
  run_node enrich_alert s = enrich_alert_node ctx s
  run_node fingerprint s = fingerprint_node ctx s
  run_node knowledge s = knowledge_match_node ctx s
  run_node react_decide s = react_decide_node ctx s
  run_node execute_react_tool s = execute_react_tool_node ctx s
  run_node NodeName.advise s = advise_node ctx s
  run_node NodeName.validate s = validate_node ctx s
  run_node report s = report_node ctx s

  -- The next step, after what the node made of the state.
  abbrev pub proceed :
      NodeName → (NodeName → AgentState → Log → Log × Ended) → Log × Result AgentState → Log × Ended
  proceed node go (log, err e) = (log, raised e)
  proceed node go (log, ok s) = elim (next_node node s) [
    | none ↦ (log, returned s)
    | some node' ↦ go node' s log
  ]

  unfoldable pub invoke : (limit : ℕ) → NodeName → AgentState → Log → Log × Ended
  unfolding enrich_alert_node fingerprint_node knowledge_match_node react_decide_node
      execute_react_tool_node advise_node validate_node report_node
  invoke zero node s log = (log, recursion_limit_reached)
  invoke (suc limit) node s log = proceed node (invoke limit) (run_node node s log)
