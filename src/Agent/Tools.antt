-- ===== src/Agent/Tools.antt =====
-- How many tools a run of the graph executes.
use database_alert_agent.Prelude.{
  ℕ, suc, ◌+◌, ◌-◌, ◌≤◌, ◌≡◌, refl, ap, ◌∙◌, subst, Bool, true, false, ◌||◌, Option, none, some, [],
  ◌∷◌, leb, is_some, if◌then◌else◌, inl, inr, ok, arith,
}
use database_alert_agent.Agent.{ActiveRun, Call, Log, AgentState, NodeContext}
use database_alert_agent.Agent.Actions.{Gives}
use database_alert_agent.Agent.React.{with_decision}
use database_alert_agent.Agent.Graph.{
  NodeName, enrich_alert, fingerprint, knowledge, react_decide, execute_react_tool, report,
  route_after_react_decision, run_node, invoke, next_node,
}
use database_alert_agent.Agent.Outcomes.{
  stopped_state, Gives-enrich_alert_node, Gives-fingerprint_node, Gives-knowledge_match_node,
  Gives-react_decide_node, Gives-execute_react_tool_node, Gives-advise_node, Gives-validate_node,
  Gives-report_node,
}
use database_alert_agent.Agent.Rounds.{rounds_left}
use database_alert_agent.Agent.Calls.{IsAllowed}
use database_alert_agent.Agent.NodeCalls.{
  Keeps-enrich_alert_node, Keeps-fingerprint_node, Keeps-knowledge_match_node,
  Keeps-react_decide_node, Once-execute_react_tool_node, Keeps-advise_node, Keeps-validate_node,
  Keeps-report_node,
}
use database_alert_agent.Agent.Runs.{invoke_rule, same_run}

abbrev is_tool : Call → Bool
is_tool (Call.execute_tool request owner token) = true
is_tool _ = false

-- The executions of tools in a log.
abbrev pub tools : Log → ℕ
tools [] = 0
tools (c ∷ log) = if is_tool c then suc (tools log) else tools log

abbrev Same : Log → Log → Type 0
Same log log' = tools log' ≡ tools log

Same-IsAllowed : (run : ActiveRun) → IsAllowed Same run
Same-IsAllowed run = record {
  same = λ log. refl;
  and_on = λ a b c h k. k ∙ h;
  read = λ log. refl;
  get_alert = λ log. refl;
  enrich = λ log. refl;
  search = λ log. refl;
  decide = λ n log. refl;
  advise = λ log. refl;
  advise_fallback = λ log. refl;
  update_run = λ f o x log. refl;
  append_progress = λ f o x log. refl;
  update_alert = λ f o x log. refl;
  save_evidence = λ f o x log. refl;
  save_validation = λ f o x log. refl;
  append_decision = λ f o n d x log. refl;
  emit = λ f o log. refl;
}

-- The tools that a run may still execute from a node, and those that the node itself executes.
abbrev budget : NodeName → AgentState → ℕ
budget execute_react_tool s = suc (rounds_left s)
budget _ s = rounds_left s

abbrev cost : NodeName → ℕ
cost execute_react_tool = 1
cost _ = 0

abbrev budget_of : Option NodeName → AgentState → ℕ
budget_of none s = 0
budget_of (some node) s = budget node s

-- What a node costs and leaves is within what there was.
abbrev Within : NodeName → AgentState → AgentState → Type 0
Within node s s' = budget_of (next_node node s') s' + cost node ≤ budget node s

spent :
    (s : AgentState) (n : ℕ)
    → rounds_left s ≤ n
    → (is_some s.error || s.react_finished ≡ false → suc (rounds_left s) ≤ n)
    → budget (route_after_react_decision s) s + 0 ≤ n
spent s n h k = ground arith

next_round : (a b : ℕ) → leb a b ≡ false → suc (a - suc b) ≤ a - b
next_round a b h = ground (arith, h)

module _ (ctx : NodeContext) where
  Within-run_node : (node : NodeName) (s : AgentState) → Gives (Within node s) (run_node ctx node s)
  Within-run_node enrich_alert s =
      Gives-enrich_alert_node ctx (Within enrich_alert s) s (λ m. omega arith) (omega arith)
        (λ a. omega arith) (λ a o. omega arith)
  Within-run_node fingerprint s =
      Gives-fingerprint_node ctx (Within fingerprint s) s (λ m. omega arith) (omega arith)
  Within-run_node knowledge s =
      Gives-knowledge_match_node ctx (Within knowledge s) s (λ m. omega arith) (omega arith)
        (λ k. omega arith)
  Within-run_node react_decide s =
      Gives-react_decide_node ctx (Within react_decide s) s
        (λ m. spent (record s { error = some m }) _ (omega arith) (λ e. cc))
        (spent (record s { react_finished = true; pending_tool_requests = [] }) _ (omega arith)
          (λ e. ground (arith, e)))
        (spent (stopped_state s) _ (omega arith) (λ e. ground (arith, e)))
        (λ d failure pending l.
          let q = next_round _ _ l in
          spent (with_decision ctx s d failure pending) _ (omega (arith, q)) (λ e. q))
  Within-run_node execute_react_tool s =
      Gives-execute_react_tool_node ctx (Within execute_react_tool s) s (λ m. omega arith)
        (omega arith) (λ o. omega arith)
  Within-run_node NodeName.advise s =
      Gives-advise_node ctx (Within NodeName.advise s) s (λ m. omega arith) (omega arith)
        (λ f. omega arith) (λ alert failure degraded r. omega arith)
  Within-run_node NodeName.validate s =
      Gives-validate_node ctx (Within NodeName.validate s) s (λ m. omega arith) (λ _. omega arith)
        (λ x _. omega arith)
  Within-run_node report s =
      Gives-report_node ctx (Within report s) s (λ m. omega arith) (λ _. omega arith)
        (λ _. omega arith)

  module _ (run : ActiveRun) where
    tools-run_node :
        (node : NodeName) (s : AgentState) (log : Log)
        → s.run ≡ some run
        → tools (run_node ctx node s log).0 ≤ tools log + cost node
    tools-run_node enrich_alert s log e =
        let q = (Keeps-enrich_alert_node ctx Same run (Same-IsAllowed run) s e).at log in
        omega (arith, q)
    tools-run_node fingerprint s log e =
        let q = (Keeps-fingerprint_node ctx Same run (Same-IsAllowed run) s e).at log in
        omega (arith, q)
    tools-run_node knowledge s log e =
        let q = (Keeps-knowledge_match_node ctx Same run (Same-IsAllowed run) s e).at log in
        omega (arith, q)
    tools-run_node react_decide s log e =
        let q = (Keeps-react_decide_node ctx Same run (Same-IsAllowed run) s e).at log in
        omega (arith, q)
    tools-run_node execute_react_tool s log e =
        elim (Once-execute_react_tool_node ctx Same run (Same-IsAllowed run) s e log) [
          | inl q ↦ omega (arith, q)
          | inr (request, q) ↦ omega (arith, q)
        ]
    tools-run_node NodeName.advise s log e =
        let q = (Keeps-advise_node ctx Same run (Same-IsAllowed run) s e).at log in omega (arith, q)
    tools-run_node NodeName.validate s log e =
        let q = (Keeps-validate_node ctx Same run (Same-IsAllowed run) s e).at log in
        omega (arith, q)
    tools-run_node report s log e =
        let q = (Keeps-report_node ctx Same run (Same-IsAllowed run) s e).at log in omega (arith, q)

    -- The tools that are executed so far, and those that may be.
    abbrev InBudget : ℕ → NodeName → AgentState → Log → Type 0
    InBudget total node s log = s.run ≡ some run × (tools log + budget node s ≤ total)

    cost_in_budget : (node : NodeName) (s : AgentState) → cost node ≤ budget node s
    cost_in_budget enrich_alert s = omega arith
    cost_in_budget fingerprint s = omega arith
    cost_in_budget knowledge s = omega arith
    cost_in_budget react_decide s = omega arith
    cost_in_budget execute_react_tool s = omega arith
    cost_in_budget NodeName.advise s = omega arith
    cost_in_budget NodeName.validate s = omega arith
    cost_in_budget report s = omega arith

    InBudget-next :
        (total : ℕ) (node node' : NodeName) (s s' : AgentState) (log log' : Log)
        → InBudget total node s log
        → run_node ctx node s log ≡ (log', ok s')
        → next_node node s' ≡ some node'
        → InBudget total node' s' log'
    InBudget-next total node node' s s' log log' i r n =
        let spent_tools = tools-run_node node s log i.0 in
        let left : budget node' s' + cost node ≤ budget node s =
          subst (λ next. budget_of next s' + cost node ≤ budget node s) n
            ((Within-run_node node s).at log log' s' r) in
        let made : tools (run_node ctx node s log).0 ≡ tools log' = ap (λ p. tools p.0) r in
        ((same_run ctx node s).at log log' s' r ∙ i.0, omega (arith, spent_tools, left, made, i.1))

    -- From its first node, a run of the graph executes at most one tool for each round that is left, wherever
    -- it ends.
    pub tools-invoke :
        (limit : ℕ) (s : AgentState) (log : Log)
        → s.run ≡ some run
        → tools (invoke ctx limit enrich_alert s log).0
          ≤ tools log + (s.react_max_rounds - s.react_round)
    tools-invoke limit s log e =
        let total : ℕ = tools log + rounds_left s in
        invoke_rule ctx (InBudget total) (λ l. tools l ≤ total)
          (λ n x l i.
            let c = cost_in_budget n x in
            let t = tools-run_node n x l i.0 in (omega (arith, i.1), omega (arith, c, t, i.1)))
          (InBudget-next total) limit enrich_alert s log (e, omega arith)
