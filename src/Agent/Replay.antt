-- ===== src/Agent/Replay.antt =====
-- A round whose decision is recorded is not decided again.
use database_alert_agent.Prelude.{
  ℕ, suc, String, Bool, [], if◌then◌else◌, ◌≡◌, refl, sym, subst, ◌∙◌, true, false, Option, none,
  some, List, ◌∷◌, leb, is_some, option_split, if_split, runtime_error, Result, Error, ok, err,
}
use database_alert_agent.Database.{Stage, ModelFailure}
use database_alert_agent.Conclusions.{one_of}
use database_alert_agent.Agent.{
  ActiveRun, LeaseFence, Answer, Decision, finish, call_tool, ToolRequest, Call, Log, AgentState,
  NodeContext,
}
use database_alert_agent.Agent.Actions.{
  Action, ◌>>=◌, ◌>>◌, return, raise, observe, perform, and_then, Gives, Gives-return, Gives-bind,
}
use database_alert_agent.Agent.Nodes.{lease_fence, update_progress}
use database_alert_agent.Agent.Unasked.{lease_fence_lem, with_advisor, same_node}
use database_alert_agent.Agent.React.{
  load_react_decision, either_failure, requests_of, with_decision, act_on, next_decision,
  decide_round, emit_unless, react_decide_node, no_requests,
}

-- What holds of every value that an action returns from this log.
record GivesAt {A : Type 0} (Q : A → Type 0) (m : Action A) (log : Log) : Type 0 where
  at : (log' : Log) (a : A) → m log ≡ (log', ok a) → Q a

module _ (ctx : NodeContext) {A : Type 0} (Q : A → Type 0) where
  GivesAt-Gives : (m : Action A) (log : Log) → Gives Q m → GivesAt Q m log
  GivesAt-Gives m log h = record { at = h.at log }

  at_result :
      {B : Type 0} (r : Log × Result B) (k : B → Action A)
      → ((b : B) → r.1 ≡ ok b → GivesAt Q (k b) r.0)
      → (log' : Log) (a : A) → and_then r k ≡ (log', ok a)
      → Q a
  at_result (log, ok b) k h log' a e = (h b refl).at log' a e
  at_result (log, err x) k h log' a e = let no : ⊥ = cc in absurd no

  GivesAt-bind :
      {B : Type 0} (m : Action B) (k : B → Action A) (log : Log)
      → ((b : B) → (m log).1 ≡ ok b → GivesAt Q (k b) (m log).0)
      → GivesAt Q (m >>= k) log
  unfolding ◌>>=◌
  GivesAt-bind m k log h = record { at = at_result (m log) k h }

  -- A call that is made is on the log of what follows.
  GivesAt-perform :
      (c : Call) (k : Unit {0} → Action A) (log : Log)
      → GivesAt Q (k tt) (c ∷ log)
      → GivesAt Q (perform ctx c >>= k) log
  unfolding perform ◌>>=◌
  GivesAt-perform c k log h = record {
    at = at_result (perform ctx c log) k (λ u e. made (ctx.raises log c) refl e);
  }
    where
      made :
          (o : Option Error)
          → ctx.raises log c ≡ o
          → (perform ctx c log).1 ≡ ok tt
          → GivesAt Q (k tt) (perform ctx c log).0
      made none e f = rw (perform, e) h
      made (some x) e f =
          let q : (perform ctx c log).1 ≡ err x = rw (perform, e) refl in
          let no : ⊥ = cc in absurd no

  GivesAt-observe :
      {B : Type 0} (f : Log → B) (k : B → Action A) (log : Log)
      → GivesAt Q (k (f log)) log
      → GivesAt Q (observe f >>= k) log
  unfolding observe ◌>>=◌
  GivesAt-observe f k log h = record { at = h.at }

  -- The fence is read from the run.
  GivesAt-fence :
      (run : ActiveRun) (k : LeaseFence → Action A) (log : Log)
      → ((f : LeaseFence) → GivesAt Q (k f) log)
      → GivesAt Q (lease_fence run >>= k) log
  GivesAt-fence run k log h =
      GivesAt-bind (lease_fence run) k log
        (λ f _. subst (GivesAt Q (k f)) (sym (lease_fence_lem run log)) (h f))

module _ (ctx : NodeContext) (s : AgentState) (d : Decision) (failure : Option ModelFailure) where
  -- What a decision asks for: nothing, or one available tool with the parameters of the decision.
  abbrev Asks : Decision → List ToolRequest → Type 0
  Asks (finish reason) pending = pending ≡ []
  Asks (call_tool name parameters) pending =
      (n : String) × (timeout : ℕ) × (name ≡ some n)
      × (one_of ctx.available_names n ≡ true)
      × (ctx.tool_timeout n ≡ some timeout)
      × (pending ≡ record { tool_name = n; parameters = parameters; timeout = timeout } ∷ [])

  called :
      (n parameters : String) (timeout : Option ℕ) (is_available : Bool)
      (pending : List ToolRequest)
      → ctx.tool_timeout n ≡ timeout
      → one_of ctx.available_names n ≡ is_available
      → elim timeout as (λ _. Option (List ToolRequest)) [
        | none ↦ none
        | some t ↦
            if is_available
            then some (record { tool_name = n; parameters = parameters; timeout = t } ∷ [])
            else none
      ]
        ≡ some pending
      → Asks (call_tool (some n) parameters) pending
  called n parameters (some t) true pending e a h = (n, t, refl, a, e, cc)
  called n parameters (some t) false pending e a h = let no : ⊥ = cc in absurd no
  called n parameters none b pending e a h = let no : ⊥ = cc in absurd no

  uncalled :
      (parameters : String) (timeout : Option ℕ) (pending : List ToolRequest)
      → elim timeout as (λ _. Option (List ToolRequest)) [ none ↦ none | some t ↦ none ]
        ≡ some pending
      → ⊥
  uncalled parameters none pending h = cc
  uncalled parameters (some t) pending h = cc

  requests_of-Asks :
      (d' : Decision) (pending : List ToolRequest)
      → requests_of ctx d' ≡ some pending
      → Asks d' pending
  requests_of-Asks (finish reason) pending h = cc
  requests_of-Asks (call_tool (some n) parameters) pending h =
      called n parameters (ctx.tool_timeout n) (one_of ctx.available_names n) pending refl refl h
  requests_of-Asks (call_tool none parameters) pending h =
      absurd (uncalled parameters (ctx.tool_timeout "") pending h)

  -- The state after the decision: the next round, with what the decision asks for and with its failure, or
  -- the earlier one; the evidence and the recommendation are as before.
  pub record Follows (s' : AgentState) : Type 0 where
    pub pending : List ToolRequest
    pub asked : Asks d pending
    pub requests : s'.pending_tool_requests ≡ pending
    pub finished : s'.react_finished ≡ no_requests pending
    pub round : s'.react_round ≡ suc s.react_round
    pub decision : s'.react_decision ≡ some d
    pub model_failure : s'.model_failure ≡ either_failure failure s.model_failure
    pub same : (s'.evidence ≡ s.evidence) × (s'.recommendation ≡ s.recommendation)

  follows :
      (pending : List ToolRequest)
      → requests_of ctx d ≡ some pending
      → Follows (with_decision ctx s d (either_failure failure s.model_failure) pending)
  follows pending e = record {
    pending = pending;
    asked = requests_of-Asks d pending e;
    requests = refl;
    finished = refl;
    round = refl;
    decision = refl;
    model_failure = refl;
    same = (refl, refl);
  }

  abbrev pending_then : Option (List ToolRequest) → ActiveRun → Action AgentState
  pending_then o run =
      elim o as (λ _. Action (List ToolRequest)) [
        | none ↦ raise runtime_error
        | some pending ↦ return pending
      ]
      >>= (λ pending.
          update_progress ctx run Stage.investigating
          >> return (with_decision ctx s d (either_failure failure s.model_failure) pending))

  Follows-pending :
      (run : ActiveRun) (o : Option (List ToolRequest))
      → requests_of ctx d ≡ o
      → Gives Follows (pending_then o run)
  unfolding ◌>>=◌ return raise
  Follows-pending run none e = record { at = λ log log' a f. let no : ⊥ = cc in absurd no }
  Follows-pending run (some pending) e = record {
    at =
        (Gives-bind Follows (update_progress ctx run Stage.investigating) _
          (λ _. Gives-return Follows _ (follows pending e))).at;
  }

  Follows-act_on :
      (run : ActiveRun) (f : LeaseFence)
      → Gives Follows (act_on ctx s run f d (either_failure failure s.model_failure))
  Follows-act_on run f = Gives-bind Follows _ _ (λ _. Follows-pending run (requests_of ctx d) refl)

  replayed :
      (run : ActiveRun) (f : LeaseFence)
      → Gives Follows (
          next_decision ctx s (suc s.react_round) f (some (d, failure))
          >>= (λ result. emit_unless ctx result.1 f >> act_on ctx s run f result.0.0 result.0.1))
  unfolding ◌>>=◌ return
  replayed run f = record {
    at =
        (Gives-bind Follows (emit_unless ctx false f)
          (λ _. act_on ctx s run f d (either_failure failure s.model_failure))
          (λ _. Follows-act_on run f)).at;
  }

  Follows-decide_round :
      (run : ActiveRun) (f : LeaseFence) (log : Log)
      → load_react_decision (suc s.react_round) log ≡ some (d, failure)
      → GivesAt Follows (decide_round ctx s run f) log
  unfolding load_react_decision
  Follows-decide_round run f log e = GivesAt-perform ctx Follows Call.read _ log (
      GivesAt-observe ctx Follows (load_react_decision (suc s.react_round)) _ _ (
        GivesAt-perform ctx Follows Call.read _ _ (
          subst
            (λ loaded.
              GivesAt Follows
                (next_decision ctx s (suc s.react_round) f loaded >>= (λ result.
                  emit_unless ctx result.1 f >> act_on ctx s run f result.0.0 result.0.1))
                (Call.read ∷ Call.read ∷ log))
            (sym e) (GivesAt-Gives ctx Follows _ _ (replayed run f)))))

  node :
      (log : Log)
      → is_some s.error ≡ false
      → is_some s.run ≡ true
      → is_some s.alert ≡ true
      → leb s.react_max_rounds s.react_round ≡ false
      → load_react_decision (suc s.react_round) log ≡ some (d, failure)
      → GivesAt Follows (react_decide_node ctx s) log
  unfolding react_decide_node
  node log no_error run alert rounds e =
      let Q : Action AgentState → Type 0 = λ m. GivesAt Follows m log in
      if_split Q (is_some s.error) _ _ (λ f. let no : ⊥ = cc in absurd no)
        (λ _.
          option_split Q s.run _ _ (λ f. let no : ⊥ = cc in absurd no)
            (λ r _.
              option_split Q s.alert _ _ (λ f. let no : ⊥ = cc in absurd no)
                (λ a _. GivesAt-fence ctx Follows r _ log (λ f.
                  if_split Q (leb s.react_max_rounds s.react_round) _ _
                    (λ g. let no : ⊥ = cc in absurd no) (λ _. Follows-decide_round r f log e)))))

  -- Of a state that has no error, has a run and an alert, and has rounds left: where the log has a decision
  -- for its next round, each state that the node returns is in that round, has the recorded decision and the
  -- recorded failure, or else the earlier one, and waits for the one available tool that the decision asks for,
  -- or for none. The advisor is not asked: with any other advisor, or with none, the node makes the same
  -- calls and returns the same.
  pub react_decide_node-Follows :
      (log log' : Log) (s' : AgentState) (other : Option (Log → AgentState → ℕ → Answer))
      → is_some s.error ≡ false
      → is_some s.run ≡ true
      → is_some s.alert ≡ true
      → leb s.react_max_rounds s.react_round ≡ false
      → load_react_decision (suc s.react_round) log ≡ some (d, failure)
      → react_decide_node ctx s log ≡ (log', ok s')
      → Follows s' × (react_decide_node (with_advisor ctx other) s log ≡ (log', ok s'))
  react_decide_node-Follows log log' s' other no_error run alert rounds e h = (
    (node log no_error run alert rounds e).at log' s' h,
    same_node ctx s d failure other log e ∙ h,
  )
