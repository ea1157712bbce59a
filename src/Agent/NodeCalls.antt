-- ===== src/Agent/NodeCalls.antt =====
-- The calls that each node makes, as one rule per node.
use database_alert_agent.Prelude.{
  ℕ, ◌≡◌, refl, subst, String, Bool, true, false, not, ◌&&◌, Option, none, some, List, [], ◌∷◌,
  ◌==◌, leb, str_eq, is_some, holds, if◌then◌else◌, Result, Error, runtime_error, ◌⊎◌, inl, inr,
  if_split, option_split,
}
use database_alert_agent.Database.{Stage, ModelFailure}
use database_alert_agent.Conclusions.{is_success}
use database_alert_agent.Conclusions.Policy.{Recommendation}
use database_alert_agent.Agent.{
  NormalizedAlert, ActiveRun, LeaseFence, Observed, Decision, ToolRequest, Advice, advised,
  advise_raised, Call, Log, AgentState, NodeContext,
}
use database_alert_agent.Agent.Actions.{Action, ◌>>=◌, return, raise, query, perform}
use database_alert_agent.Agent.Nodes.{
  with_alert, lease_fence, update_progress, replay_detail, load_detail, enrich_alert_node,
  fingerprint_node, knowledge_match_node, find_observed,
}
use database_alert_agent.Agent.React.{
  requests_of, react_decide_node, execute_request, execute_react_tool_node, next_decision,
  emit_unless, emit_deltas, deltas_of,
}
use database_alert_agent.Agent.Conclude.{
  advice_deltas, use_fallback, conclude, advise_node, validate_recommendation, validate_node,
  report_node,
}
use database_alert_agent.Agent.Calls.{
  IsAllowed, Owns, Keeps, Keeps-and_then, Keeps-return, Keeps-raise, Keeps-observe, Keeps-query,
  Keeps-perform, Keeps-bind, Keeps-if, Keeps-option, Keeps-fence, Keeps-update_progress,
}

module _ (ctx : NodeContext) (R : Log → Log → Type 0) (run : ActiveRun)
    (ok_calls : IsAllowed R run) where
  abbrev K : {A : Type 0} → Action A → Type 0
  K m = Keeps ctx R run ok_calls m

  K-return : {A : Type 0} (a : A) → K (return a)
  K-return a = Keeps-return ctx R run ok_calls a

  K-bind :
      {A B : Type 0} (m : Action A) (k : A → Action B) → K m → ((a : A) → K (k a)) → K (m >>= k)
  K-bind m k h g = Keeps-bind ctx R run ok_calls m k h g

  K-if : {A : Type 0} (b : Bool) (m n : Action A) → K m → K n → K (if b then m else n)
  K-if b m n h g = Keeps-if ctx R run ok_calls b m n h g

  K-option :
      {A B : Type 0} (o : Option B) (m : Action A) (f : B → Action A)
      → K m
      → ((b : B) → o ≡ some b → K (f b))
      → K (elim o [ none ↦ m | some b ↦ f b ])
  K-option o m f h g = Keeps-option ctx R run ok_calls o m f h g

  K-raise : {A : Type 0} (e : Error) → K (raise {A = A} e)
  K-raise e = Keeps-raise ctx R run ok_calls e

  -- A repository call, and what follows.
  K-call :
      {A : Type 0} (c : Call) (k : Unit {0} → Action A)
      → ((log : Log) → R log (c ∷ log))
      → ((u : Unit {0}) → K (k u))
      → K (perform ctx c >>= k)
  K-call c k h g = K-bind _ _ (Keeps-perform ctx R run ok_calls c h) g

  K-progress :
      {A : Type 0} (stage : Stage) (k : Unit {0} → Action A)
      → ((u : Unit {0}) → K (k u))
      → K (update_progress ctx run stage >>= k)
  K-progress stage k g = K-bind _ _ (Keeps-update_progress ctx R run ok_calls stage) g

  K-fence :
      {A : Type 0} (k : LeaseFence → Action A)
      → ((f : LeaseFence) → Owns run f → K (k f))
      → K (lease_fence run >>= k)
  K-fence k h = Keeps-fence ctx R run ok_calls k h

  K-query :
      {A B : Type 0} (c : Call) (f : Log → Result A) (k : A → Action B)
      → ((log : Log) → R log (c ∷ log))
      → ((a : A) → K (k a))
      → K (query c f >>= k)
  K-query c f k h g = K-bind _ _ (Keeps-query ctx R run ok_calls c f h) g

  K-emit_unless :
      {A : Type 0} (streamed : Bool) (f : LeaseFence) (k : Unit {0} → Action A)
      → Owns run f
      → ((u : Unit {0}) → K (k u))
      → K (emit_unless ctx streamed f >>= k)
  K-emit_unless streamed f k o g =
      K-bind _ _
        (K-if streamed _ _ (K-return tt) (Keeps-perform ctx R run ok_calls _ (ok_calls.emit f o))) g

  K-emit_deltas :
      {A : Type 0} (deltas : List Bool) (f : LeaseFence) (k : Unit {0} → Action A)
      → Owns run f
      → ((u : Unit {0}) → K (k u))
      → K (emit_deltas ctx deltas f >>= k)
  K-emit_deltas deltas f k o g = K-bind _ _ (all deltas) g
    where
      all : (ds : List Bool) → K (emit_deltas ctx ds f)
      all [] = K-return tt
      all (_ ∷ ds) = K-query _ _ _ (ok_calls.emit f o) (λ _. all ds)

  module _ (s : AgentState) (is_run : s.run ≡ some run) where
    K-with_alert :
        (m : String) (k : ActiveRun → NormalizedAlert → Action AgentState)
        → ((alert : NormalizedAlert) → K (k run alert))
        → K (with_alert s m k)
    K-with_alert m k h = K-option s.run _ _ (K-return _) (λ run' e.
        let p : run ≡ run' = cc in
        K-option s.alert _ _ (K-return _) (λ alert _. subst (λ r. K (k r alert)) p (h alert)))

    K-replay_detail :
        (alert : NormalizedAlert) (o : Observed) (is_new : Bool)
        → K (replay_detail ctx s alert o is_new)
    K-replay_detail alert o is_new = K-option o.detail _ _ (K-raise runtime_error) (λ a _.
        K-if (not (is_success o.evidence.status)) _ _ (K-raise runtime_error) (
          K-if (a.id == alert.id && str_eq a.external_id alert.external_id && a.is_flashduty) _ _
            (K-return _) (K-raise runtime_error)))

    K-load_detail : (alert : NormalizedAlert) (id : ℕ) → K (load_detail ctx s run alert id)
    K-load_detail alert id = K-fence _ (λ f o. K-call _ _ (ok_calls.update_alert f o _) (λ _.
        K-bind _ _
          (K-option ctx.enricher _ _ (K-raise runtime_error)
            (λ enrich _. Keeps-query ctx R run ok_calls _ _ ok_calls.enrich))
          (λ enriched. K-call _ _ (ok_calls.update_alert f o _) (λ _.
            K-call _ _ (ok_calls.save_evidence f o _)
              (λ _. K-call _ _ (ok_calls.append_progress f o _) (λ _. K-return _))))))

    pub Keeps-enrich_alert_node : K (enrich_alert_node ctx s)
    unfolding enrich_alert_node
    Keeps-enrich_alert_node = K-with_alert _ _ (λ alert.
        K-if (not alert.is_flashduty) _ _ (K-return _) (
          K-option (find_observed (ctx.detail_id run.id alert.external_id) s.evidence) _ _
            (K-bind _ _ (K-call _ _ ok_calls.get_alert (λ _. Keeps-observe ctx R run ok_calls _))
              (λ stored.
                K-option stored _ _ (K-load_detail alert _) (λ o _. K-replay_detail alert o true)))
            (λ o _. K-replay_detail alert o false)))

    pub Keeps-fingerprint_node : K (fingerprint_node ctx s)
    unfolding fingerprint_node
    Keeps-fingerprint_node = K-with_alert _ _ (λ alert. K-progress _ _ (λ _. K-return _))

    pub Keeps-knowledge_match_node : K (knowledge_match_node ctx s)
    unfolding knowledge_match_node
    Keeps-knowledge_match_node = K-if (is_some s.error) _ _ (K-return _) (
        K-with_alert _ _ (λ alert.
          K-progress _ _
            (λ _. K-query _ _ _ ok_calls.search (λ knowledge. K-progress _ _ (λ _. K-return _)))))

    K-next_decision :
        (n : ℕ) (f : LeaseFence) (loaded : Option (Decision × Option ModelFailure))
        → Owns run f
        → K (next_decision ctx s n f loaded)
    K-next_decision n f (some (d, failure)) o = K-return _
    K-next_decision n f none o =
        K-bind _ _
          (K-option ctx.decide_investigation _ _ (K-return _) (λ decide _.
            K-query _ _ _ (ok_calls.decide n)
              (λ answer. K-emit_deltas (deltas_of answer) f _ o (λ _. K-return _))))
          (λ answer. K-call _ _ (ok_calls.append_decision f o n _ _) (λ _. K-return _))

    pub Keeps-react_decide_node : K (react_decide_node ctx s)
    unfolding react_decide_node
    Keeps-react_decide_node = K-if (is_some s.error) _ _ (K-return _) (
        K-with_alert _ _ (λ alert. K-fence _ (λ f o.
          K-if (leb s.react_max_rounds s.react_round) _ _
            (K-call _ _ (ok_calls.emit f o) (λ _. K-progress _ _ (λ _. K-return _)))
            (K-call _ _ ok_calls.read (λ _.
              K-bind _ _ (Keeps-observe ctx R run ok_calls _) (λ loaded.
                K-call _ _ ok_calls.read (λ _. K-bind _ _ (K-next_decision _ f loaded o) (λ result.
                  K-emit_unless _ f _ o (λ _. K-call _ _ (ok_calls.emit f o) (λ _.
                    K-bind _ _
                      (K-option (requests_of ctx result.0.0) _ _ (K-raise runtime_error)
                        (λ pending _. K-return pending))
                      (λ pending. K-progress _ _ (λ _. K-return _))))))))))))

    -- An execution of the tool is allowed apart.
    K-execute_request :
        (requests : List ToolRequest)
        → ((request : ToolRequest) (log : Log)
            → requests ≡ request ∷ []
            → R log (Call.execute_tool request run.lease_owner run.fencing_token ∷ log))
        → K (execute_request ctx s run requests)
    K-execute_request [] h = K-return _
    K-execute_request (request ∷ []) h =
        K-query _ _ _ (λ log. h request log refl)
          (λ o. K-fence _ (λ f own.
            K-call _ _ (ok_calls.save_evidence f own _)
              (λ _. K-call _ _ (ok_calls.emit f own) (λ _. K-return _))))
    K-execute_request (_ ∷ _ ∷ _) h = K-return _

    pub Keeps-execute_react_tool_node :
        ((request : ToolRequest) (log : Log)
          → R log (Call.execute_tool request run.lease_owner run.fencing_token ∷ log))
        → K (execute_react_tool_node ctx s)
    unfolding execute_react_tool_node
    Keeps-execute_react_tool_node h = K-if (is_some s.error) _ _ (K-return _) (
        K-with_alert _ _
          (λ alert. K-execute_request s.pending_tool_requests (λ request log _. h request log)))

    K-use_fallback :
        (alert : NormalizedAlert) (f : LeaseFence) (failure : Option ModelFailure)
        (deltas : List Bool) (advice : Advice)
        → Owns run f
        → K (use_fallback ctx s alert f failure deltas advice)
    K-use_fallback alert f failure deltas (advise_raised _ _) o = K-return _
    K-use_fallback alert f failure deltas (advised r _) o =
        K-call _ _ (ok_calls.append_progress f o _) (λ _. K-emit_unless _ f _ o (λ _. K-return _))

    K-conclude :
        (alert : NormalizedAlert) (f : LeaseFence) (advice : Advice)
        → Owns run f
        → K (conclude ctx s alert f advice)
    K-conclude alert f (advised r deltas) o = K-emit_unless _ f _ o (λ _. K-return _)
    K-conclude alert f (advise_raised raised deltas) o =
        K-if (not s.ai_fallback_enabled) _ _ (K-return _) (
          K-option ctx.fallback_advisor _ _ (K-return _) (λ fallback _.
            K-query _ _ _ ok_calls.advise_fallback
              (λ advice. K-use_fallback alert f _ deltas advice o)))

    pub Keeps-advise_node : K (advise_node ctx s)
    unfolding advise_node
    Keeps-advise_node = K-if (is_some s.error) _ _ (K-return _) (
        K-with_alert _ _ (λ alert. K-fence _ (λ f o. K-call _ _ ok_calls.read (λ _.
          K-progress _ _ (λ _.
            K-bind _ _
              (K-if (holds (λ (x : ModelFailure). x.pauses_dispatch) s.model_failure) _ _
                (K-return _)
                (K-query _ _ _ ok_calls.advise
                  (λ advice. K-emit_deltas (advice_deltas advice) f _ o (λ _. K-return _))))
              (λ advice. K-conclude alert f advice o))))))

    K-validate : (r : Option Recommendation) → K (validate_recommendation ctx s run r)
    K-validate none = K-return _
    K-validate (some r) =
        K-progress _ _
          (λ _. K-fence _ (λ f o. K-call _ _ (ok_calls.save_validation f o _) (λ _. K-return _)))

    pub Keeps-validate_node : K (validate_node ctx s)
    unfolding validate_node
    Keeps-validate_node =
        K-if (is_some s.error) _ _ (K-return _)
          (K-with_alert _ _ (λ alert. K-validate s.recommendation))

    pub Keeps-report_node : K (report_node ctx s)
    unfolding report_node
    Keeps-report_node =
        K-with_alert _ _
          (λ alert. K-if (is_some s.error) _ _ (K-return _) (K-progress _ _ (λ _. K-return _)))

    -- What a node that executes at most one tool does to the log.
    abbrev pub Once : Action AgentState → Type 0
    Once m =
        (log : Log)
        → R log (m log).0
          ⊎ ((request : ToolRequest) × R
                (Call.execute_tool request run.lease_owner run.fencing_token ∷ log) (m log).0)

    Once-K : (m : Action AgentState) → K m → Once m
    Once-K m k log = inl (k.at log)

    Once-execute_request : (requests : List ToolRequest) → Once (execute_request ctx s run requests)
    unfolding ◌>>=◌ query
    Once-execute_request [] = Once-K _ (K-return _)
    Once-execute_request (request ∷ []) = λ log. inr (
      request,
      Keeps-and_then ctx R run ok_calls _ (_, ctx.execute log request s.evidence) _
          (ok_calls.same _)
          (λ o _. K-fence _ (λ f own.
            K-call _ _ (ok_calls.save_evidence f own _)
              (λ _. K-call _ _ (ok_calls.emit f own) (λ _. K-return _)))),
    )
    Once-execute_request (_ ∷ _ ∷ _) = Once-K _ (K-return _)

    pub Once-execute_react_tool_node : Once (execute_react_tool_node ctx s)
    unfolding execute_react_tool_node
    Once-execute_react_tool_node =
        if_split Once (is_some s.error) _ _ (λ _. Once-K _ (K-return _))
          (λ _.
            option_split Once s.run _ _ (λ _. Once-K _ (K-return _))
              (λ run' e.
                let p : run ≡ run' = cc in
                option_split Once s.alert _ _ (λ _. Once-K _ (K-return _))
                  (λ alert _.
                    subst (λ r. Once (execute_request ctx s r s.pending_tool_requests)) p
                      (Once-execute_request s.pending_tool_requests))))
