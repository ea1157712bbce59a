-- ===== src/Agent/Fenced.antt =====
-- Every write of a run of the graph carries the lease of the run.
use database_alert_agent.Prelude.{ℕ, ◌≡◌, refl, ap, ◌∙◌, subst, some, [], ◌∷◌}
use database_alert_agent.Agent.{ActiveRun, Call, Log, AgentState, NodeContext}
use database_alert_agent.Agent.Graph.{
  NodeName, enrich_alert, fingerprint, knowledge, react_decide, execute_react_tool, report,
  run_node, invoke,
}
use database_alert_agent.Agent.Calls.{IsAllowed, Owns}
use database_alert_agent.Agent.NodeCalls.{
  Keeps-enrich_alert_node, Keeps-fingerprint_node, Keeps-knowledge_match_node,
  Keeps-react_decide_node, Keeps-execute_react_tool_node, Keeps-advise_node, Keeps-validate_node,
  Keeps-report_node,
}
use database_alert_agent.Agent.Runs.{invoke_rule, same_run}

-- A write has the owner and the token of the run; so has the context of a tool's execution.
abbrev pub IsFenced : ActiveRun → Call → Type 0
IsFenced run (Call.update_run x f) = Owns run f
IsFenced run (Call.append_progress x f) = Owns run f
IsFenced run (Call.update_alert x f) = Owns run f
IsFenced run (Call.save_evidence x f) = Owns run f
IsFenced run (Call.save_validation x f) = Owns run f
IsFenced run (Call.append_decision n d x f) = Owns run f
IsFenced run (Call.emit f) = Owns run f
IsFenced run (Call.execute_tool request owner token) =
    owner ≡ run.lease_owner × (token ≡ run.fencing_token)
IsFenced run _ = Unit {0}

abbrev pub AllFenced : ActiveRun → Log → Type 0
AllFenced run [] = Unit {0}
AllFenced run (c ∷ log) = IsFenced run c × AllFenced run log

abbrev Fences : ActiveRun → Log → Log → Type 0
Fences run log log' = AllFenced run log → AllFenced run log'

Fences-IsAllowed : (run : ActiveRun) → IsAllowed (Fences run) run
Fences-IsAllowed run = record {
  same = λ log h. h;
  and_on = λ a b c h k x. k (h x);
  read = λ log h. (tt, h);
  get_alert = λ log h. (tt, h);
  enrich = λ log h. (tt, h);
  search = λ log h. (tt, h);
  decide = λ n log h. (tt, h);
  advise = λ log h. (tt, h);
  advise_fallback = λ log h. (tt, h);
  update_run = λ f o x log h. (o, h);
  append_progress = λ f o x log h. (o, h);
  update_alert = λ f o x log h. (o, h);
  save_evidence = λ f o x log h. (o, h);
  save_validation = λ f o x log h. (o, h);
  append_decision = λ f o n d x log h. (o, h);
  emit = λ f o log h. (o, h);
}

module _ (ctx : NodeContext) (run : ActiveRun) where
  Fences-run_node :
      (node : NodeName) (s : AgentState) (log : Log)
      → s.run ≡ some run
      → AllFenced run log
      → AllFenced run (run_node ctx node s log).0
  Fences-run_node enrich_alert s log e h =
      (Keeps-enrich_alert_node ctx (Fences run) run (Fences-IsAllowed run) s e).at log h
  Fences-run_node fingerprint s log e h =
      (Keeps-fingerprint_node ctx (Fences run) run (Fences-IsAllowed run) s e).at log h
  Fences-run_node knowledge s log e h =
      (Keeps-knowledge_match_node ctx (Fences run) run (Fences-IsAllowed run) s e).at log h
  Fences-run_node react_decide s log e h =
      (Keeps-react_decide_node ctx (Fences run) run (Fences-IsAllowed run) s e).at log h
  Fences-run_node execute_react_tool s log e h =
      (Keeps-execute_react_tool_node ctx (Fences run) run (Fences-IsAllowed run) s e
          (λ request l x. ((refl, refl), x))).at
        log h
  Fences-run_node NodeName.advise s log e h =
      (Keeps-advise_node ctx (Fences run) run (Fences-IsAllowed run) s e).at log h
  Fences-run_node NodeName.validate s log e h =
      (Keeps-validate_node ctx (Fences run) run (Fences-IsAllowed run) s e).at log h
  Fences-run_node report s log e h =
      (Keeps-report_node ctx (Fences run) run (Fences-IsAllowed run) s e).at log h

  -- Every call that a run of the graph makes for a state with this run and that writes, the emissions of
  -- streamed reasoning included, carries the owner and the fencing token of the run, wherever the run ends;
  -- so does each execution of a tool.
  pub invoke-AllFenced :
      (limit : ℕ) (node : NodeName) (s : AgentState) (log : Log)
      → s.run ≡ some run
      → AllFenced run log
      → AllFenced run (invoke ctx limit node s log).0
  invoke-AllFenced limit node s log e h =
      invoke_rule ctx (λ n x l. x.run ≡ some run × AllFenced run l) (AllFenced run)
        (λ n x l i. (i.1, Fences-run_node n x l i.0 i.1))
        (λ n n' x x' l l' i r _. (
          (same_run ctx n x).at l l' x' r ∙ i.0,
          subst (AllFenced run) (ap (λ p. p.0) r) (Fences-run_node n x l i.0 i.1),
        ))
        limit node s log (e, h)
