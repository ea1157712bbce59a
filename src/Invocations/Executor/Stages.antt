-- ===== src/Invocations/Executor/Stages.antt =====
-- The stages of `InvocationExecutor.execute` after the start: the handler, success and failure.
use database_alert_agent.Prelude.{
  ℕ, ◌≡◌, refl, sym, ap, subst, ◌∙◌, ◌⊎◌, inl, inr, Bool, true, false, Option, none, some, List, [],
  ◌∷◌, ◌++◌, if◌then◌else◌,
}
use database_alert_agent.Invocations.{
  Status, InvocationError, Invocation, is_terminal, lifecycle_is_valid,
}
use database_alert_agent.Invocations.Executor.{
  available, missing, EventKind, tool_invocation_succeeded, tool_invocation_failed,
  tool_invocation_timed_out, tool_invocation_cancelled, InvocationEvent, ExecutionResult, Exception,
  invalid_transition, validation_error, timeout_error, cancelled_error, type_error, other, Handler,
  Mapped, mapped, mapper_raised, Action, throw, Clock, World, Ending, value, exit, ◌>>=◌, pure,
  catch, emit, transition, preserve_failure_semantics, run_handler, normalize_output,
  failure_result, succeed, recover, deadline_exceeded, timed_out_error, cancellation,
}
use database_alert_agent.Invocations.Executor.Ends.{
  kind_of, is_succeeded, IsEnd, Ends, Ends-bind, Ends-catch, Ends-value, Ends-exit, transition_lem,
  emit_lem, preserve_lem, transition_exit, emit_exit, preserve_exit, run_handler_value,
  run_handler_exit, normalize_value, normalize_exit,
}

module _ (v : Invocation) (before : List InvocationEvent) where
  abbrev pub One : ExecutionResult → World → Type 0
  One r w = (e : InvocationEvent) × (w.events ≡ before ++ (e ∷ [])) × IsEnd v e r

  abbrev pub NoEvent : Exception → World → Type 0
  NoEvent x w = w.events ≡ before

  -- The end of an execution: its result is checked, its event is appended, its result returned.
  finish-Ends :
      (r : ExecutionResult) (ev : InvocationEvent) (w : World)
      → IsEnd v ev r
      → w.events ≡ before
      → Ends One NoEvent ((preserve_failure_semantics r >>= λ s. emit ev >>= λ _. pure s) w)
  finish-Ends r ev w is_end b =
      Ends-bind One NoEvent (preserve_failure_semantics r) _ w
        (λ s w2 e2.
          let (p, q) = preserve_lem r s w w2 e2 in
          let same : w2.events ≡ before = ap (λ z. z.events) q ∙ b in
          Ends-bind One NoEvent (emit ev) _ w2
            (λ u w3 e3. (
              ev,
              emit_lem ev u w2 w3 e3 ∙ ap (λ es. es ++ (ev ∷ [])) same,
              subst (IsEnd v ev) (sym p) is_end,
            ))
            (λ x w3 e3. emit_exit ev x w2 w3 e3 ∙ same))
        (λ x w2 e2. preserve_exit r x w w2 e2 ∙ b)

  failure_result-Ends :
      (status : Status) (kind : EventKind) (error : InvocationError) (now : ℕ) (w : World)
      → kind_of status ≡ some kind
      → is_terminal status ≡ true
      → is_succeeded status ≡ false
      → w.events ≡ before
      → Ends One NoEvent (failure_result v status kind error now w)
  unfolding failure_result
  failure_result-Ends status kind error now w h t u b =
      let v' : Invocation = record v {
        status = status;
        completed_at = some now;
        error = some error;
      } in
      Ends-bind One NoEvent (transition v') _ w
        (λ c w1 e1.
          let (l, p, q) = transition_lem v' c w w1 e1 in
          finish-Ends
            (record {
              invocation = c;
              result = "{}";
              evidence_disposition = missing;
              is_contradiction = false;
            })
            (record { kind = kind; about = c; result = none }) w1
            (record {
              identity = ap (λ z. z.identity) p;
              valid = ap lifecycle_is_valid p ∙ l;
              terminal = ap (λ z. is_terminal z.status) p ∙ t;
              about = refl;
              kind = ap (λ z. kind_of z.status) p ∙ h;
              evidence = sym (ap (λ z. is_succeeded z.status) p ∙ u);
            })
            (ap (λ z. z.events) q ∙ b))
        (λ x w1 e1. transition_exit v' x w w1 e1 ∙ b)

  module _ (error_mapper : Exception → Mapped) where
    succeed-Ends :
        (handler : Handler) (limit : Option ℕ) (clock : Clock) (w : World)
        → w.events ≡ before
        → Ends One NoEvent (succeed error_mapper v handler limit clock w)
    unfolding succeed
    succeed-Ends handler limit clock w b =
        Ends-bind One NoEvent (run_handler handler limit) _ w
          (λ o w1 e1.
            let q1 : w1.events ≡ before = run_handler_value handler limit o w w1 e1 ∙ b in
            Ends-bind One NoEvent (normalize_output o) _ w1
              (λ n w2 e2.
                let q2 : w2.events ≡ before = normalize_value o n w1 w2 e2 ∙ q1 in
                let v' : Invocation = record v {
                  status = Status.succeeded;
                  completed_at = some clock.completed_at;
                  artifact_ref = n.1;
                } in
                Ends-bind One NoEvent (transition v') _ w2
                  (λ c w3 e3.
                    let (l, p, q) = transition_lem v' c w2 w3 e3 in
                    finish-Ends
                      (record {
                        invocation = c;
                        result = n.0;
                        evidence_disposition = available;
                        is_contradiction = false;
                      })
                      (record { kind = tool_invocation_succeeded; about = c; result = some n.0 }) w3
                      (record {
                        identity = ap (λ z. z.identity) p;
                        valid = ap lifecycle_is_valid p ∙ l;
                        terminal = ap (λ z. is_terminal z.status) p;
                        about = refl;
                        kind = ap (λ z. kind_of z.status) p;
                        evidence = sym (ap (λ z. is_succeeded z.status) p);
                      })
                      (ap (λ z. z.events) q ∙ q2))
                  (λ x w3 e3. transition_exit v' x w2 w3 e3 ∙ q2))
              (λ x w2 e2. normalize_exit o x w1 w2 e2 ∙ q1))
          (λ x w1 e1. run_handler_exit handler limit x w w1 e1 ∙ b)

    -- A cancellation raises again, after one event where the sink appends it.
    abbrev pub Broken : Exception → World → Type 0
    Broken x w =
        (w.events ≡ before)
        ⊎ ((e : InvocationEvent) × (w.events ≡ before ++ (e ∷ []))
            × (e.kind ≡ tool_invocation_cancelled))

    weaken : (o : Ending ExecutionResult) → Ends One NoEvent o → Ends One Broken o
    weaken (value r w) h = h
    weaken (exit x w) h = inl h

    failed_Ends :
        (error : InvocationError) (clock : Clock) (w : World)
        → w.events ≡ before
        → Ends One Broken
            (failure_result v Status.failed tool_invocation_failed error clock.failed_at w)
    failed_Ends error clock w b = weaken _ (
        failure_result-Ends Status.failed tool_invocation_failed error clock.failed_at w refl refl
          refl b)

    mapped-Ends :
        (m : Mapped) (clock : Clock) (w : World)
        → w.events ≡ before
        → Ends One Broken (
            (elim m as (λ _. Action ExecutionResult) [
              | mapped error ↦
                  failure_result v Status.failed tool_invocation_failed error clock.failed_at
              | mapper_raised y ↦ throw y
            ])
              w)
    mapped-Ends (mapped error) clock w b = failed_Ends error clock w b
    mapped-Ends (mapper_raised y) clock w b = inl b

    recover-Ends :
        (clock : Clock) (x : Exception) (w : World)
        → w.events ≡ before
        → Ends One Broken (recover error_mapper v clock x w)
    unfolding recover
    recover-Ends clock timeout_error w b = weaken _ (
        failure_result-Ends Status.timed_out tool_invocation_timed_out timed_out_error
          clock.failed_at w refl refl refl b)
    recover-Ends clock cancelled_error w b =
        let v' : Invocation = record v {
          status = Status.cancelled;
          completed_at = some clock.failed_at;
          error = some cancellation;
        } in
        Ends-bind One Broken (transition v') _ w
          (λ c w1 e1.
            let (l, p, q) = transition_lem v' c w w1 e1 in
            let ev : InvocationEvent = record {
              kind = tool_invocation_cancelled;
              about = c;
              result = none;
            } in
            let q1 : w1.events ≡ before = ap (λ z. z.events) q ∙ b in
            Ends-bind One Broken (emit ev) _ w1
              (λ u w2 e2. inr (ev, emit_lem ev u w1 w2 e2 ∙ ap (λ es. es ++ (ev ∷ [])) q1, refl))
              (λ x w2 e2. inl (emit_exit ev x w1 w2 e2 ∙ q1)))
          (λ x w1 e1. inl (transition_exit v' x w w1 e1 ∙ b))
    recover-Ends clock invalid_transition w b =
        mapped-Ends (error_mapper invalid_transition) clock w b
    recover-Ends clock validation_error w b = mapped-Ends (error_mapper validation_error) clock w b
    recover-Ends clock (type_error name) w b =
        mapped-Ends (error_mapper (type_error name)) clock w b
    recover-Ends clock (other name) w b = mapped-Ends (error_mapper (other name)) clock w b

    -- What follows the start: the deadline has passed already, or the handler is run.
    pub ran-Ends :
        (late : Bool) (handler : Handler) (limit : Option ℕ) (clock : Clock) (w : World)
        → w.events ≡ before
        → Ends One Broken (
            (if late
                then failure_result v Status.timed_out tool_invocation_timed_out deadline_exceeded
                    clock.failed_at
                else catch
                    (succeed error_mapper v handler limit clock)
                    (recover error_mapper v clock))
              w)
    ran-Ends true handler limit clock w b = weaken _ (
        failure_result-Ends Status.timed_out tool_invocation_timed_out deadline_exceeded
          clock.failed_at w refl refl refl b)
    ran-Ends false handler limit clock w b =
        let whole = succeed-Ends handler limit clock w b in
        Ends-catch One Broken (succeed error_mapper v handler limit clock) _ w
          (λ r w' e. Ends-value One NoEvent _ r w' whole e)
          (λ x w' e. recover-Ends clock x w' (Ends-exit One NoEvent _ x w' whole e))
