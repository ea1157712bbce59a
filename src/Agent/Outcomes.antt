-- ===== src/Agent/Outcomes.antt =====
-- The states that each node can return, as one rule per node.
use database_alert_agent.Prelude.{
  ◌≡◌, refl, String, Bool, true, false, not, ◌&&◌, Option, none, some, List, [], ◌∷◌, leb, is_some,
  str_eq, ◌==◌, if_split,
}
use database_alert_agent.Database.{Stage, ModelFailure}
use database_alert_agent.Conclusions.{is_success}
use database_alert_agent.Conclusions.Policy.{Recommendation}
use database_alert_agent.Conclusions.Rules.{validate}
use database_alert_agent.Agent.{
  NormalizedAlert, ActiveRun, LeaseFence, Observed, Decision, finish, ToolRequest, Advice, advised,
  advise_raised, AgentState, NodeContext,
}
use database_alert_agent.Agent.Actions.{
  Action, Gives, Gives-return, Gives-raise, Gives-bind, Gives-if, Gives-option,
}
use database_alert_agent.Agent.Nodes.{
  with_alert, lease_fence, with_alert_of, add_evidence, replay_detail, enrich_alert_node,
  fingerprint_node, knowledge_match_node, find_observed,
}
use database_alert_agent.Agent.React.{
  with_decision, react_decide_node, observed, execute_request, execute_react_tool_node,
}
use database_alert_agent.Agent.Conclude.{
  records, advised_state, failed_advice, use_fallback, conclude, advise_node, validated,
  validate_recommendation, validate_node, reported_state, failed_report, report_node,
}

abbrev pub stopped_state : AgentState → AgentState
stopped_state s = record s {
  current_stage = Stage.investigating;
  react_decision = some (finish "react_max_rounds_reached");
  react_finished = true;
  pending_tool_requests = [];
}

module _ (ctx : NodeContext) (Q : AgentState → Type 0) (s : AgentState) where
  abbrev pub Failing : Type 0
  Failing = (m : String) → Q (record s { error = some m })

  Gives-with_alert :
      (m : String) (k : ActiveRun → NormalizedAlert → Action AgentState)
      → Failing
      → ((run : ActiveRun) (alert : NormalizedAlert) → Gives Q (k run alert))
      → Gives Q (with_alert s m k)
  Gives-with_alert m k f h =
      Gives-option Q s.run _ _ (λ _. Gives-return Q _ (f m))
        (λ run _. Gives-option Q s.alert _ _ (λ _. Gives-return Q _ (f m)) (λ alert _. h run alert))

  Gives-replay_detail :
      (alert : NormalizedAlert) (o : Observed) (is_new : Bool)
      → ((a : NormalizedAlert) → Q (with_alert_of ctx s a))
      → ((a : NormalizedAlert) → Q (add_evidence ctx (with_alert_of ctx s a) o))
      → Gives Q (replay_detail ctx s alert o is_new)
  Gives-replay_detail alert o is_new h k =
      Gives-option Q o.detail _ _ (λ _. Gives-raise Q _)
        (λ a _.
          Gives-if Q (not (is_success o.evidence.status)) _ _ (λ _. Gives-raise Q _)
            (λ _.
              Gives-if Q
                (a.id == alert.id && str_eq a.external_id alert.external_id && a.is_flashduty) _ _
                (λ _. Gives-return Q _ (
                  if_split Q is_new (add_evidence ctx (with_alert_of ctx s a) o)
                    (with_alert_of ctx s a) (λ _. k a) (λ _. h a)))
                (λ _. Gives-raise Q _)))

  pub Gives-enrich_alert_node :
      Failing
      → Q s
      → ((a : NormalizedAlert) → Q (with_alert_of ctx s a))
      → ((a : NormalizedAlert) (o : Observed) → Q (add_evidence ctx (with_alert_of ctx s a) o))
      → Gives Q (enrich_alert_node ctx s)
  unfolding enrich_alert_node
  Gives-enrich_alert_node f q h k = Gives-with_alert _ _ f (λ run alert.
      Gives-if Q (not alert.is_flashduty) _ _ (λ _. Gives-return Q _ q)
        (λ _.
          Gives-option Q (find_observed (ctx.detail_id run.id alert.external_id) s.evidence) _ _
            (λ _. Gives-bind Q _ _ (λ stored.
              Gives-option Q stored _ _
                (λ _. Gives-bind Q _ _ (λ fence. Gives-bind Q _ _ (λ _.
                  Gives-bind Q _ _ (λ enriched. Gives-bind Q _ _ (λ _.
                    Gives-bind Q _ _
                      (λ _. Gives-bind Q _ _ (λ _. Gives-return Q _ (k enriched _))))))))
                (λ o _. Gives-replay_detail alert o true h (λ a. k a o))))
            (λ o _. Gives-replay_detail alert o false h (λ a. k a o))))

  pub Gives-fingerprint_node :
      Failing
      → Q (record s { current_stage = Stage.fingerprinting })
      → Gives Q (fingerprint_node ctx s)
  unfolding fingerprint_node
  Gives-fingerprint_node f q =
      Gives-with_alert _ _ f (λ run alert. Gives-bind Q _ _ (λ _. Gives-return Q _ q))

  pub Gives-knowledge_match_node :
      Failing
      → Q s
      → ((knowledge : List String)
          → Q (record s { current_stage = Stage.knowledge_matching; knowledge = knowledge }))
      → Gives Q (knowledge_match_node ctx s)
  unfolding knowledge_match_node
  Gives-knowledge_match_node f q h =
      Gives-if Q (is_some s.error) _ _ (λ _. Gives-return Q _ q)
        (λ _. Gives-with_alert _ _ f (λ run alert. Gives-bind Q _ _ (λ _.
          Gives-bind Q _ _ (λ knowledge. Gives-bind Q _ _ (λ _. Gives-return Q _ (h knowledge))))))

  pub Gives-react_decide_node :
      Failing
      → Q (record s { react_finished = true; pending_tool_requests = [] })
      → Q (stopped_state s)
      → ((d : Decision) (failure : Option ModelFailure) (pending : List ToolRequest)
          → leb s.react_max_rounds s.react_round ≡ false
          → Q (with_decision ctx s d failure pending))
      → Gives Q (react_decide_node ctx s)
  unfolding react_decide_node
  Gives-react_decide_node f e q h =
      Gives-if Q (is_some s.error) _ _ (λ _. Gives-return Q _ e)
        (λ _. Gives-with_alert _ _ f (λ run alert. Gives-bind Q _ _ (λ fence.
          Gives-if Q (leb s.react_max_rounds s.react_round) _ _
            (λ _. Gives-bind Q _ _ (λ _. Gives-bind Q _ _ (λ _. Gives-return Q _ q)))
            (λ l. Gives-bind Q _ _ (λ _. Gives-bind Q _ _ (λ loaded. Gives-bind Q _ _ (λ _.
              Gives-bind Q _ _ (λ result. Gives-bind Q _ _ (λ _. Gives-bind Q _ _ (λ _.
                Gives-bind Q _ _ (λ pending.
                  Gives-bind Q _ _
                    (λ _. Gives-return Q _ (h result.0.0 result.0.1 pending l)))))))))))))

  Gives-execute_request :
      (run : ActiveRun) (requests : List ToolRequest)
      → Failing
      → ((o : Observed) → Q (observed ctx s o))
      → Gives Q (execute_request ctx s run requests)
  unfolding lease_fence
  Gives-execute_request run (request ∷ []) f h = Gives-bind Q _ _ (λ o.
      Gives-bind Q _ _
        (λ fence. Gives-bind Q _ _ (λ _. Gives-bind Q _ _ (λ _. Gives-return Q _ (h o)))))
  Gives-execute_request run [] f h = Gives-return Q _ (f _)
  Gives-execute_request run (_ ∷ _ ∷ _) f h = Gives-return Q _ (f _)

  pub Gives-execute_react_tool_node :
      Failing
      → Q (record s { pending_tool_requests = [] })
      → ((o : Observed) → Q (observed ctx s o))
      → Gives Q (execute_react_tool_node ctx s)
  unfolding execute_react_tool_node
  Gives-execute_react_tool_node f q h =
      Gives-if Q (is_some s.error) _ _ (λ _. Gives-return Q _ q)
        (λ _.
          Gives-with_alert _ _ f
            (λ run alert. Gives-execute_request run s.pending_tool_requests f h))

  abbrev pub Advised : Type 0
  Advised =
      (alert : NormalizedAlert) (failure : Option ModelFailure) (degraded : Bool)
      (r : Recommendation)
      → Q (advised_state ctx s alert failure degraded r)

  Gives-use_fallback :
      (alert : NormalizedAlert) (fence : LeaseFence) (failure : Option ModelFailure)
      (deltas : List Bool) (advice : Advice)
      → ((failure : Option ModelFailure) → Q (failed_advice ctx s failure))
      → Advised
      → Gives Q (use_fallback ctx s alert fence failure deltas advice)
  Gives-use_fallback alert fence failure deltas (advise_raised _ _) f h =
      Gives-return Q _ (f failure)
  Gives-use_fallback alert fence failure deltas (advised r _) f h =
      Gives-bind Q _ _ (λ _. Gives-bind Q _ _ (λ _. Gives-return Q _ (h alert failure true r)))

  Gives-conclude :
      (alert : NormalizedAlert) (fence : LeaseFence) (advice : Advice)
      → ((failure : Option ModelFailure) → Q (failed_advice ctx s failure))
      → Advised
      → Gives Q (conclude ctx s alert fence advice)
  Gives-conclude alert fence (advised r deltas) f h =
      Gives-bind Q _ _ (λ _. Gives-return Q _ (h alert s.model_failure false r))
  Gives-conclude alert fence (advise_raised raised deltas) f h =
      Gives-if Q (not s.ai_fallback_enabled) _ _ (λ _. Gives-return Q _ (f _))
        (λ _.
          Gives-option Q ctx.fallback_advisor _ _ (λ _. Gives-return Q _ (f _))
            (λ fallback _.
              Gives-bind Q _ _ (λ advice. Gives-use_fallback alert fence _ deltas advice f h)))

  pub Gives-advise_node :
      Failing
      → Q s
      → ((failure : Option ModelFailure) → Q (failed_advice ctx s failure))
      → Advised
      → Gives Q (advise_node ctx s)
  unfolding advise_node
  Gives-advise_node f q a h =
      Gives-if Q (is_some s.error) _ _ (λ _. Gives-return Q _ q)
        (λ _. Gives-with_alert _ _ f (λ run alert. Gives-bind Q _ _ (λ fence. Gives-bind Q _ _ (λ _.
          Gives-bind Q _ _
            (λ _. Gives-bind Q _ _ (λ advice. Gives-conclude alert fence advice a h))))))

  Gives-validate_recommendation :
      (run : ActiveRun) (r : Option Recommendation)
      → Failing
      → ((x : Recommendation)
          → r ≡ some x
          → Q (validated ctx s (validate ctx.python (records s.evidence) x)))
      → Gives Q (validate_recommendation ctx s run r)
  Gives-validate_recommendation run none f h = Gives-return Q _ (f _)
  Gives-validate_recommendation run (some r) f h =
      Gives-bind Q _ _
        (λ _. Gives-bind Q _ _ (λ _. Gives-bind Q _ _ (λ _. Gives-return Q _ (h r refl))))

  pub Gives-validate_node :
      Failing
      → (is_some s.error ≡ true → Q s)
      → ((x : Recommendation)
          → s.recommendation ≡ some x
          → Q (validated ctx s (validate ctx.python (records s.evidence) x)))
      → Gives Q (validate_node ctx s)
  unfolding validate_node
  Gives-validate_node f q h =
      Gives-if Q (is_some s.error) _ _ (λ e. Gives-return Q _ (q e))
        (λ _.
          Gives-with_alert _ _ f
            (λ run alert. Gives-validate_recommendation run s.recommendation f h))

  pub Gives-report_node :
      Failing
      → (is_some s.error ≡ true → Q (failed_report ctx s))
      → (is_some s.error ≡ false → Q (reported_state ctx s))
      → Gives Q (report_node ctx s)
  unfolding report_node
  Gives-report_node f q h = Gives-with_alert _ _ f (λ run alert.
      Gives-if Q (is_some s.error) _ _ (λ e. Gives-return Q _ (q e))
        (λ e. Gives-bind Q _ _ (λ _. Gives-return Q _ (h e))))

  -- The report of a state that has a run and an alert.
  pub Gives-report_ready :
      is_some s.run ≡ true
      → is_some s.alert ≡ true
      → (is_some s.error ≡ true → Q (failed_report ctx s))
      → (is_some s.error ≡ false → Q (reported_state ctx s))
      → Gives Q (report_node ctx s)
  unfolding report_node
  Gives-report_ready r a q h =
      Gives-option Q s.run _ _ (λ e. let no : ⊥ = cc in absurd no)
        (λ run _.
          Gives-option Q s.alert _ _ (λ e. let no : ⊥ = cc in absurd no)
            (λ alert _.
              Gives-if Q (is_some s.error) _ _ (λ e. Gives-return Q _ (q e))
                (λ e. Gives-bind Q _ _ (λ _. Gives-return Q _ (h e)))))
