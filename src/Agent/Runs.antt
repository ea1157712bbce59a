-- ===== src/Agent/Runs.antt =====
-- Induction on a run of the graph: what each node keeps holds when the run ends.
use database_alert_agent.Prelude.{
  ℕ, zero, suc, ◌≡◌, refl, Option, none, some, if_split, Result, ok, err,
}
use database_alert_agent.Agent.{Log, AgentState, NodeContext}
use database_alert_agent.Agent.Actions.{Gives}
use database_alert_agent.Agent.Conclude.{is_conclusive}
use database_alert_agent.Agent.Graph.{
  NodeName, enrich_alert, fingerprint, knowledge, react_decide, execute_react_tool, report,
  next_node, run_node, proceed, invoke,
}
use database_alert_agent.Agent.Outcomes.{
  Gives-enrich_alert_node, Gives-fingerprint_node, Gives-knowledge_match_node,
  Gives-react_decide_node, Gives-execute_react_tool_node, Gives-advise_node, Gives-validate_node,
  Gives-report_node,
}

module _ (ctx : NodeContext) (I : NodeName → AgentState → Log → Type 0) (F : Log → Type 0)
    (ends : (node : NodeName) (s : AgentState) (log : Log)
      → I node s log
      → F log × F (run_node ctx node s log).0)
    (goes_on : (node node' : NodeName) (s s' : AgentState) (log log' : Log)
      → I node s log
      → run_node ctx node s log ≡ (log', ok s')
      → next_node node s' ≡ some node'
      → I node' s' log') where
  invoke_next :
      (limit : ℕ) (node : NodeName) (s : AgentState) (log : Log) (next : Option NodeName)
      → next_node node s ≡ next
      → F log
      → ((node' : NodeName) → next ≡ some node' → F (invoke ctx limit node' s log).0)
      → F (proceed ctx node (invoke ctx limit) (log, ok s)).0
  invoke_next limit node s log none e f k = rw (proceed, e) f
  invoke_next limit node s log (some node') e f k = rw (proceed, e) (k node' refl)

  invoke_proceed :
      (limit : ℕ) (node : NodeName) (r : Log × Result AgentState)
      → F r.0
      → ((node' : NodeName) (log : Log) (s : AgentState)
          → r ≡ (log, ok s)
          → next_node node s ≡ some node'
          → F (invoke ctx limit node' s log).0)
      → F (proceed ctx node (invoke ctx limit) r).0
  invoke_proceed limit node (log, err x) f k = f
  invoke_proceed limit node (log, ok s) f k =
      invoke_next limit node s log (next_node node s) refl f (λ node' e. k node' log s refl e)

  pub invoke_rule :
      (limit : ℕ) (node : NodeName) (s : AgentState) (log : Log)
      → I node s log
      → F (invoke ctx limit node s log).0
  unfolding invoke
  invoke_rule zero node s log i = (ends node s log i).0
  invoke_rule (suc limit) node s log i =
      invoke_proceed limit node (run_node ctx node s log) (ends node s log i).1
        (λ node' log' s' e n.
          invoke_rule limit node' s' log' (goes_on node node' s s' log log' i e n))

module _ (ctx : NodeContext) where
  -- No node changes the run.
  pub same_run :
      (node : NodeName) (s : AgentState) → Gives (λ s'. s'.run ≡ s.run) (run_node ctx node s)
  same_run enrich_alert s =
      Gives-enrich_alert_node ctx (λ s'. s'.run ≡ s.run) s (λ m. refl) refl (λ a. refl)
        (λ a o. refl)
  same_run fingerprint s = Gives-fingerprint_node ctx (λ s'. s'.run ≡ s.run) s (λ m. refl) refl
  same_run knowledge s =
      Gives-knowledge_match_node ctx (λ s'. s'.run ≡ s.run) s (λ m. refl) refl (λ k. refl)
  same_run react_decide s =
      Gives-react_decide_node ctx (λ s'. s'.run ≡ s.run) s (λ m. refl) refl refl
        (λ d failure pending l. refl)
  same_run execute_react_tool s =
      Gives-execute_react_tool_node ctx (λ s'. s'.run ≡ s.run) s (λ m. refl) refl (λ o. refl)
  same_run NodeName.advise s =
      Gives-advise_node ctx (λ s'. s'.run ≡ s.run) s (λ m. refl) refl (λ f. refl)
        (λ alert failure degraded r. refl)
  same_run NodeName.validate s =
      Gives-validate_node ctx (λ s'. s'.run ≡ s.run) s (λ m. refl) (λ _. refl) (λ x _. refl)
  same_run report s =
      Gives-report_node ctx (λ s'. s'.run ≡ s.run) s (λ m. refl) (λ _. refl)
        (λ _.
          if_split (λ (x : AgentState). x.run ≡ s.run) (is_conclusive ctx s) _ _ (λ _. refl)
            (λ _. refl))
