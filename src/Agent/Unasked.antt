-- ===== src/Agent/Unasked.antt =====
-- A round whose decision is recorded goes on without the advisor.
use database_alert_agent.Prelude.{
  ℕ, suc, String, Bool, [], if◌then◌else◌, ◌≡◌, refl, sym, subst, true, false, Option, none, some,
  ◌∷◌, leb, is_some, option_split, Result, Error, ok, err,
}
use database_alert_agent.Database.{ModelFailure}
use database_alert_agent.Agent.{
  ActiveRun, LeaseFence, NormalizedAlert, Answer, Decision, Call, Log, AgentState, NodeContext,
}
use database_alert_agent.Agent.Actions.{
  Action, ◌>>=◌, ◌>>◌, return, raise, observe, perform, and_then,
}
use database_alert_agent.Agent.Nodes.{with_alert, lease_fence, update_progress}
use database_alert_agent.Agent.React.{
  load_react_decision, act_on, next_decision, decide_round, emit_unless, react_decide_node,
  stop_at_limit,
}

pub lease_fence_lem : (run : ActiveRun) (log : Log) → (lease_fence run log).0 ≡ log
unfolding lease_fence return raise
lease_fence_lem run log =
    option_split (λ (m : Action LeaseFence). (m log).0 ≡ log) run.lease_owner _ _ (λ _. refl)
      (λ _ _. refl)

-- The context with another advisor, or with none that decides.
abbrev pub with_advisor : NodeContext → Option (Log → AgentState → ℕ → Answer) → NodeContext
with_advisor ctx other = record ctx { decide_investigation = other }

module _ (ctx : NodeContext) (s : AgentState) (d : Decision) (failure : Option ModelFailure) where
  module _ (other : Option (Log → AgentState → ℕ → Answer)) where
    -- A round from the recorded decision on.
    abbrev loaded_round :
        NodeContext
        → ActiveRun
        → LeaseFence
        → Option (Decision × Option ModelFailure)
        → Action AgentState
    loaded_round c run f loaded = do
      perform c Call.read
      result ← next_decision c s (suc s.react_round) f loaded
      emit_unless c result.1 f
      act_on c s run f result.0.0 result.0.1

    same_round :
        (run : ActiveRun) (f : LeaseFence) (log : Log)
        → load_react_decision (suc s.react_round) log ≡ some (d, failure)
        → decide_round (with_advisor ctx other) s run f log ≡ decide_round ctx s run f log
    unfolding ◌>>=◌ perform observe load_react_decision update_progress lease_fence return raise
    same_round run f log e = go (ctx.raises log Call.read) refl
      where
        from_log : NodeContext → Unit {0} → Action AgentState
        from_log c u = observe (load_react_decision (suc s.react_round)) >>= loaded_round c run f

        go :
            (o : Option Error)
            → ctx.raises log Call.read ≡ o
            → decide_round (with_advisor ctx other) s run f log ≡ decide_round ctx s run f log
        go none g =
            let p : perform ctx Call.read log ≡ (Call.read ∷ log, ok tt) = rw (perform, g) refl in
            subst (λ r. and_then r (from_log (with_advisor ctx other)) ≡ and_then r (from_log ctx))
              (sym p)
              (subst
                (λ loaded.
                  loaded_round (with_advisor ctx other) run f loaded (Call.read ∷ log)
                  ≡ loaded_round ctx run f loaded (Call.read ∷ log))
                (sym e) refl)
        go (some x) g =
            let p : perform ctx Call.read log ≡ (log, err x) = rw (perform, g) refl in
            subst (λ r. and_then r (from_log (with_advisor ctx other)) ≡ and_then r (from_log ctx))
              (sym p) refl

    -- A round of the node, with its fence.
    abbrev turn : NodeContext → ActiveRun → LeaseFence → Action AgentState
    turn c run f =
        if leb s.react_max_rounds s.react_round
        then stop_at_limit ctx s run f
        else decide_round c s run f

    module _ (log : Log) (e : load_react_decision (suc s.react_round) log ≡ some (d, failure)) where
      same_turn :
          (run : ActiveRun) (f : LeaseFence)
          → turn (with_advisor ctx other) run f log ≡ turn ctx run f log
      same_turn run f = by leb_rounds
        where
          leb_rounds : Bool
          leb_rounds = leb s.react_max_rounds s.react_round

          by :
              (b : Bool)
              → (if b
                    then stop_at_limit ctx s run f
                    else decide_round (with_advisor ctx other) s run f)
                  log
                ≡ (if b then stop_at_limit ctx s run f else decide_round ctx s run f) log
          by true = refl
          by false = same_round run f log e

      same_fenced :
          (run : ActiveRun)
          → (lease_fence run >>= turn (with_advisor ctx other) run) log
            ≡ (lease_fence run >>= turn ctx run) log
      unfolding ◌>>=◌
      same_fenced run = by (lease_fence run log) (lease_fence_lem run log)
        where
          by :
              (r : Log × Result LeaseFence)
              → r.0 ≡ log
              → and_then r (turn (with_advisor ctx other) run) ≡ and_then r (turn ctx run)
          by (l, ok f) q =
              subst (λ x. turn (with_advisor ctx other) run f x ≡ turn ctx run f x) (sym q)
                (same_turn run f)
          by (l, err x) q = refl

      same_with_alert :
          (o : Option ActiveRun) (a : Option NormalizedAlert) (m : String)
          → with_alert
              (record s { run = o; alert = a })
              m
              (λ run alert. lease_fence run >>= turn (with_advisor ctx other) run)
              log
            ≡ with_alert
                (record s { run = o; alert = a })
                m
                (λ run alert. lease_fence run >>= turn ctx run)
                log
      same_with_alert none a m = refl
      same_with_alert (some run) none m = refl
      same_with_alert (some run) (some alert) m = same_fenced run

      -- The node calls and returns the same, with whatever advisor.
      pub same_node : react_decide_node (with_advisor ctx other) s log ≡ react_decide_node ctx s log
      unfolding react_decide_node perform update_progress
      same_node = by (is_some s.error)
        where
          by :
              (b : Bool)
              → (if b
                    then return (record s { react_finished = true; pending_tool_requests = [] })
                    else with_alert s "Missing run or alert in ReAct decision node"
                        (λ run alert. lease_fence run >>= turn (with_advisor ctx other) run))
                  log
                ≡ (if b
                      then return (record s { react_finished = true; pending_tool_requests = [] })
                      else with_alert s "Missing run or alert in ReAct decision node"
                          (λ run alert. lease_fence run >>= turn ctx run))
                    log
          by true = refl
          by false = same_with_alert s.run s.alert "Missing run or alert in ReAct decision node"
