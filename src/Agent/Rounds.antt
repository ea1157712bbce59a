-- ===== src/Agent/Rounds.antt =====
-- A run of the graph ends within its recursion limit.
use database_alert_agent.Prelude.{
  ℕ, zero, suc, ◌+◌, ◌-◌, ◌*◌, ◌<◌, ◌≤◌, ◌≡◌, ◌≢◌, refl, true, false, ◌||◌, Option, none, some, [],
  leb, is_some, Result, ok, err, arith,
}
use database_alert_agent.Agent.{Log, AgentState, NodeContext}
use database_alert_agent.Agent.Actions.{Gives}
use database_alert_agent.Agent.React.{with_decision}
use database_alert_agent.Agent.Graph.{
  NodeName, enrich_alert, fingerprint, knowledge, react_decide, execute_react_tool, report,
  route_after_react_decision, next_node, recursion_limit_reached, recursion_limit, run_node,
  proceed, invoke,
}
use database_alert_agent.Agent.Outcomes.{
  stopped_state, Gives-enrich_alert_node, Gives-fingerprint_node, Gives-knowledge_match_node,
  Gives-react_decide_node, Gives-execute_react_tool_node, Gives-advise_node, Gives-validate_node,
  Gives-report_node,
}

-- The rounds that are left, and the steps that a run from a node makes at most.
abbrev pub rounds_left : AgentState → ℕ
rounds_left s = s.react_max_rounds - s.react_round

abbrev pub steps_left : NodeName → AgentState → ℕ
steps_left enrich_alert s = 7 + 2 * rounds_left s
steps_left fingerprint s = 6 + 2 * rounds_left s
steps_left knowledge s = 5 + 2 * rounds_left s
steps_left react_decide s = 4 + 2 * rounds_left s
steps_left execute_react_tool s = 5 + 2 * rounds_left s
steps_left NodeName.advise s = 3
steps_left NodeName.validate s = 2
steps_left report s = 1

abbrev steps_of : Option NodeName → AgentState → ℕ
steps_of none s = 0
steps_of (some node) s = steps_left node s

-- A node leaves fewer steps than there were.
abbrev Nearer : NodeName → AgentState → AgentState → Type 0
Nearer node s s' = steps_of (next_node node s') s' < steps_left node s

routed :
    (s : AgentState) (n : ℕ)
    → 3 < n
    → (is_some s.error || s.react_finished ≡ false → 5 + 2 * rounds_left s < n)
    → steps_left (route_after_react_decision s) s < n
routed s n h k = ground arith

next_round : (a b : ℕ) → leb a b ≡ false → 5 + 2 * (a - suc b) < 4 + 2 * (a - b)
next_round a b h = ground (arith, h)

some_step : (node : NodeName) (s : AgentState) → 0 < steps_left node s
some_step enrich_alert s = omega arith
some_step fingerprint s = omega arith
some_step knowledge s = omega arith
some_step react_decide s = omega arith
some_step execute_react_tool s = omega arith
some_step NodeName.advise s = omega arith
some_step NodeName.validate s = omega arith
some_step report s = omega arith

limit_is_enough :
    (node : NodeName) (s : AgentState) → steps_left node s ≤ recursion_limit s.react_max_rounds
limit_is_enough enrich_alert s = ground arith
limit_is_enough fingerprint s = ground arith
limit_is_enough knowledge s = ground arith
limit_is_enough react_decide s = ground arith
limit_is_enough execute_react_tool s = ground arith
limit_is_enough NodeName.advise s = ground arith
limit_is_enough NodeName.validate s = ground arith
limit_is_enough report s = ground arith

module _ (ctx : NodeContext) where
  Nearer-run_node : (node : NodeName) (s : AgentState) → Gives (Nearer node s) (run_node ctx node s)
  Nearer-run_node enrich_alert s =
      Gives-enrich_alert_node ctx (Nearer enrich_alert s) s (λ m. omega arith) (omega arith)
        (λ a. omega arith) (λ a o. omega arith)
  Nearer-run_node fingerprint s =
      Gives-fingerprint_node ctx (Nearer fingerprint s) s (λ m. omega arith) (omega arith)
  Nearer-run_node knowledge s =
      Gives-knowledge_match_node ctx (Nearer knowledge s) s (λ m. omega arith) (omega arith)
        (λ k. omega arith)
  Nearer-run_node react_decide s =
      Gives-react_decide_node ctx (Nearer react_decide s) s
        (λ m. routed (record s { error = some m }) _ (omega arith) (λ e. cc))
        (routed (record s { react_finished = true; pending_tool_requests = [] }) _ (omega arith)
          (λ e. ground (arith, e)))
        (routed (stopped_state s) _ (omega arith) (λ e. ground (arith, e)))
        (λ d failure pending l.
          routed (with_decision ctx s d failure pending) _ (omega arith) (λ e. next_round _ _ l))
  Nearer-run_node execute_react_tool s =
      Gives-execute_react_tool_node ctx (Nearer execute_react_tool s) s (λ m. omega arith)
        (omega arith) (λ o. omega arith)
  Nearer-run_node NodeName.advise s =
      Gives-advise_node ctx (Nearer NodeName.advise s) s (λ m. omega arith) (omega arith)
        (λ f. omega arith) (λ alert failure degraded r. omega arith)
  Nearer-run_node NodeName.validate s =
      Gives-validate_node ctx (Nearer NodeName.validate s) s (λ m. omega arith) (λ _. omega arith)
        (λ x _. omega arith)
  Nearer-run_node report s =
      Gives-report_node ctx (Nearer report s) s (λ m. omega arith) (λ _. omega arith)
        (λ _. omega arith)

  goes_on :
      (limit : ℕ) (node : NodeName) (s : AgentState) (log : Log) (next : Option NodeName)
      → next_node node s ≡ next
      → steps_of next s ≤ limit
      → ((node : NodeName) (s : AgentState) (log : Log)
          → steps_left node s ≤ limit
          → (invoke ctx limit node s log).1 ≢ recursion_limit_reached)
      → (proceed ctx node (invoke ctx limit) (log, ok s)).1 ≢ recursion_limit_reached
  goes_on limit node s log none e h k = rw (proceed, e) (λ f. cc)
  goes_on limit node s log (some node') e h k = rw (proceed, e) (k node' s log h)

  after_node :
      (limit : ℕ) (node : NodeName) (s : AgentState) (r : Log × Result AgentState)
      → ((log : Log) (s' : AgentState) → r ≡ (log, ok s') → steps_of (next_node node s') s' ≤ limit)
      → ((node : NodeName) (s : AgentState) (log : Log)
          → steps_left node s ≤ limit
          → (invoke ctx limit node s log).1 ≢ recursion_limit_reached)
      → (proceed ctx node (invoke ctx limit) r).1 ≢ recursion_limit_reached
  after_node limit node s (log, err x) h k = λ f. cc
  after_node limit node s (log, ok s') h k =
      goes_on limit node s' log (next_node node s') refl (h log s' refl) k

  -- A run goes on from what its node made of the state.
  never_out :
      (limit : ℕ) (node : NodeName) (s : AgentState) (log : Log)
      → steps_left node s ≤ limit
      → (invoke ctx limit node s log).1 ≢ recursion_limit_reached
  unfolding invoke
  never_out zero node s log h =
      let p = some_step node s in let no : ⊥ = omega (arith, p, h) in absurd no
  never_out (suc limit) node s log h =
      after_node limit node s (run_node ctx node s log)
        (λ log' s' e. let q = (Nearer-run_node node s).at log log' s' e in omega (arith, h, q))
        (never_out limit)

  -- A run of the graph, from its start or from any saved node and state, makes no more steps than the
  -- recursion limit for its rounds: it returns or raises, and is not cut off.
  pub run_ends :
      (node : NodeName) (s : AgentState) (log : Log)
      → (invoke ctx (recursion_limit s.react_max_rounds) node s log).1 ≢ recursion_limit_reached
  run_ends node s log =
      never_out (recursion_limit s.react_max_rounds) node s log (limit_is_enough node s)
