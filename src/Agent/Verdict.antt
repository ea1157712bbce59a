-- ===== src/Agent/Verdict.antt =====
-- What the state says that a run of the graph returns.
use database_alert_agent.Prelude.{
  ℕ, zero, suc, ◌≡◌, ◌≢◌, refl, sym, ◌∙◌, subst, true, false, ◌||◌, Option, none, some, List, [],
  is_some, if◌then◌else◌, if_split, In, Result, ok, err, arith,
}
use database_alert_agent.Database.{AlertStatus, RunStatus}
use database_alert_agent.Conclusions.{TextMethods, EvidenceRecord}
use database_alert_agent.Conclusions.Policy.{RootCause, Recommendation, without_causes}
use database_alert_agent.Conclusions.Rules.{validate, no_causes}
use database_alert_agent.Conclusions.Sound.{IsValidCause, validate-IsValid}
use database_alert_agent.Agent.{Log, AgentState, NodeContext}
use database_alert_agent.Agent.Actions.{Gives}
use database_alert_agent.Agent.React.{with_decision}
use database_alert_agent.Agent.Conclude.{records, is_conclusive, cleared, reported_state}
use database_alert_agent.Agent.Graph.{
  NodeName, enrich_alert, fingerprint, knowledge, react_decide, execute_react_tool, report, is_one,
  route_after_react_decision, next_node, Ended, returned, raised, recursion_limit_reached,
  recursion_limit, run_node, proceed, invoke,
}
use database_alert_agent.Agent.Rounds.{run_ends}
use database_alert_agent.Agent.Outcomes.{
  stopped_state, Gives-enrich_alert_node, Gives-fingerprint_node, Gives-knowledge_match_node,
  Gives-react_decide_node, Gives-execute_react_tool_node, Gives-advise_node, Gives-validate_node,
  Gives-report_ready,
}

abbrev pub IsReady : AgentState → Type 0
IsReady s = (is_some s.run ≡ true) × (is_some s.alert ≡ true)

cleared_lem :
    (ctx : NodeContext) (o : Option Recommendation) (r : Recommendation)
    → cleared ctx o ≡ some r
    → without_causes r ≡ r
cleared_lem ctx none r e = let no : ⊥ = cc in absurd no
cleared_lem ctx (some r') r e =
    let p : without_causes r' ≡ r = cc in subst (λ x. without_causes x ≡ x) p refl

sufficient_names_cause :
    (python : TextMethods) (evidence : List EvidenceRecord) (r : Recommendation)
    → (validate python evidence r).evidence_sufficient ≡ true
    → no_causes r.root_causes ≡ false
unfolding validate
sufficient_names_cause python evidence r h = ground (arith, h)

module _ (ctx : NodeContext) where
  -- The recommendation that was validated, and its result.
  pub record IsValidated (s : AgentState) : Type 0 where
    pub recommendation : Recommendation
    pub is_it : s.recommendation ≡ some recommendation
    pub passed :
        s.validation_passed ≡ (validate ctx.python (records s.evidence) recommendation).passed
    pub sufficient :
        s.evidence_sufficient
        ≡ (validate ctx.python (records s.evidence) recommendation).evidence_sufficient

  -- A conclusion: the recommendation names a cause, and the validator accepts each cause on the evidence of
  -- the state; the fallback has not written it.
  pub record IsConclusion (s : AgentState) : Type 0 where
    pub recommendation : Recommendation
    pub is_it : s.recommendation ≡ some recommendation
    pub names_cause : no_causes recommendation.root_causes ≡ false
    pub valid :
        (c : RootCause)
        → In c recommendation.root_causes
        → IsValidCause ctx.python (records s.evidence) c
    pub by_advisor : s.advisor_degraded ≡ false

  -- The three ends of a run: it failed by an error; it is inconclusive, and the recommendation, if there is
  -- one, names no cause; or it completed with a conclusion.
  pub data Verdict (s : AgentState) : Type 0 where
    failed :
        is_some s.error ≡ true
        → s.run_status ≡ RunStatus.failed
        → s.status ≡ AlertStatus.failed
        → Verdict s
    inconclusive :
        is_some s.error ≡ false
        → s.run_status ≡ RunStatus.inconclusive
        → s.status ≡ AlertStatus.inconclusive
        → ((r : Recommendation) → s.recommendation ≡ some r → without_causes r ≡ r)
        → Verdict s
    completed :
        is_some s.error ≡ false
        → s.run_status ≡ RunStatus.completed
        → s.status ≡ AlertStatus.completed
        → IsConclusion s
        → Verdict s

  abbrev At : NodeName → AgentState → Type 0
  At report s = IsReady s × (is_some s.error ≡ false → IsValidated s)
  At _ s = IsReady s

  abbrev Next : Option NodeName → AgentState → Type 0
  Next none s = Verdict s
  Next (some node) s = At node s

  At-route : (s : AgentState) → IsReady s → At (route_after_react_decision s) s
  At-route s h =
      if_split (λ node. At node s) (is_some s.error || s.react_finished) NodeName.advise
        (if is_one s.pending_tool_requests then execute_react_tool else NodeName.advise) (λ _. h)
        (λ _.
          if_split (λ node. At node s) (is_one s.pending_tool_requests) execute_react_tool
            NodeName.advise (λ _. h) (λ _. h))

  Verdict-reported_state :
      (s : AgentState) → is_some s.error ≡ false → IsValidated s → Verdict (reported_state ctx s)
  Verdict-reported_state s e v =
      if_split Verdict (is_conclusive ctx s) _ _
        (λ t.
          let r = v.recommendation in
          let passed : (validate ctx.python (records s.evidence) r).passed ≡ true =
            sym v.passed ∙ ground (arith, t) in
          let sufficient : (validate ctx.python (records s.evidence) r).evidence_sufficient ≡ true =
            sym v.sufficient ∙ ground (arith, t) in
          completed e refl refl (record {
            recommendation = r;
            is_it = v.is_it;
            names_cause = sufficient_names_cause ctx.python (records s.evidence) r sufficient;
            valid = (validate-IsValid ctx.python (records s.evidence) r passed).1;
            by_advisor = ground (arith, t);
          }))
        (λ t. inconclusive e refl refl (λ r k. cleared_lem ctx s.recommendation r k))

  Next-run_node :
      (node : NodeName) (s : AgentState)
      → At node s
      → Gives (λ s'. Next (next_node node s') s') (run_node ctx node s)
  Next-run_node enrich_alert s h =
      Gives-enrich_alert_node ctx (λ s'. IsReady s') s (λ m. h) h (λ a. (h.0, refl))
        (λ a o. (h.0, refl))
  Next-run_node fingerprint s h = Gives-fingerprint_node ctx (λ s'. IsReady s') s (λ m. h) h
  Next-run_node knowledge s h =
      Gives-knowledge_match_node ctx (λ s'. IsReady s') s (λ m. h) h (λ k. h)
  Next-run_node react_decide s h =
      Gives-react_decide_node ctx (λ s'. At (route_after_react_decision s') s') s
        (λ m. At-route (record s { error = some m }) h)
        (At-route (record s { react_finished = true; pending_tool_requests = [] }) h)
        (At-route (stopped_state s) h)
        (λ d failure pending l. At-route (with_decision ctx s d failure pending) h)
  Next-run_node execute_react_tool s h =
      Gives-execute_react_tool_node ctx (λ s'. IsReady s') s (λ m. h) h (λ o. h)
  Next-run_node NodeName.advise s h =
      Gives-advise_node ctx (λ s'. IsReady s') s (λ m. h) h (λ f. h) (λ alert failure degraded r. h)
  Next-run_node NodeName.validate s h =
      Gives-validate_node ctx (At report) s (λ m. (h, λ e. let no : ⊥ = cc in absurd no))
        (λ e. (h, λ f. let no : ⊥ = cc in absurd no))
        (λ x e.
          (h, λ _. record { recommendation = x; is_it = e; passed = refl; sufficient = refl }))
  Next-run_node report s (ready, v) =
      Gives-report_ready ctx Verdict s ready.0 ready.1 (λ h. failed h refl refl)
        (λ h. Verdict-reported_state s h (v h))

  abbrev Returns : Log × Ended → Type 0
  Returns out = (s : AgentState) → out.1 ≡ returned s → Verdict s

  Returns-next :
      (limit : ℕ) (node : NodeName) (log : Log) (s : AgentState) (next : Option NodeName)
      → next_node node s ≡ next
      → Next next s
      → ((node : NodeName) (s : AgentState) (log : Log)
          → At node s
          → Returns (invoke ctx limit node s log))
      → Returns (proceed ctx node (invoke ctx limit) (log, ok s))
  Returns-next limit node log s none e h k =
      rw (proceed, e) (λ s' f. let p : s ≡ s' = cc in subst Verdict p h)
  Returns-next limit node log s (some node') e h k = rw (proceed, e) (k node' s log h)

  Returns-proceed :
      (limit : ℕ) (node : NodeName) (r : Log × Result AgentState)
      → ((log : Log) (s : AgentState) → r ≡ (log, ok s) → Next (next_node node s) s)
      → ((node : NodeName) (s : AgentState) (log : Log)
          → At node s
          → Returns (invoke ctx limit node s log))
      → Returns (proceed ctx node (invoke ctx limit) r)
  Returns-proceed limit node (log, err x) h k = λ s f. let no : ⊥ = cc in absurd no
  Returns-proceed limit node (log, ok s) h k =
      Returns-next limit node log s (next_node node s) refl (h log s refl) k

  Returns-invoke :
      (limit : ℕ) (node : NodeName) (s : AgentState) (log : Log)
      → At node s
      → Returns (invoke ctx limit node s log)
  unfolding invoke
  Returns-invoke zero node s log h = λ s' f. let no : ⊥ = cc in absurd no
  Returns-invoke (suc limit) node s log h =
      Returns-proceed limit node (run_node ctx node s log)
        (λ log' s' e. (Next-run_node node s h).at log log' s' e) (Returns-invoke limit)

  -- What a run of the graph ends with.
  abbrev pub Concludes : Ended → Type 0
  Concludes (returned s) = Verdict s
  Concludes (raised e) = Unit {0}
  Concludes recursion_limit_reached = ⊥

  ended : (out : Log × Ended) → out.1 ≢ recursion_limit_reached → Returns out → Concludes out.1
  ended (log, returned s) h k = k s refl
  ended (log, raised e) h k = tt
  ended (log, recursion_limit_reached) h k = h refl

  -- From a state with a run and an alert, whatever the calls answer: a run of the graph under its recursion
  -- limit raises or returns. What it returns has failed by an error; or is inconclusive, and its
  -- recommendation names no cause; or has completed, and its recommendation, which the fallback has not
  -- written, names a cause, and the validator accepts each cause on the evidence of the state.
  pub run_concludes :
      (s : AgentState) (log : Log)
      → IsReady s
      → Concludes (invoke ctx (recursion_limit s.react_max_rounds) enrich_alert s log).1
  run_concludes s log h =
      ended (invoke ctx (recursion_limit s.react_max_rounds) enrich_alert s log)
        (run_ends ctx enrich_alert s log)
        (Returns-invoke (recursion_limit s.react_max_rounds) enrich_alert s log h)
