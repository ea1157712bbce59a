-- ===== src/Invocations/Executor/Execution.antt =====
-- What `InvocationExecutor.execute` appends and returns.
use database_alert_agent.Prelude.{
  ℕ, ◌≡◌, refl, ap, ◌∙◌, inl, inr, Bool, true, false, Option, none, some, List, [], ◌∷◌, ◌++◌,
  arith, ◌==◌, not,
}
use database_alert_agent.Invocations.{Status, Invocation, is_pending}
use database_alert_agent.Invocations.Executor.{
  tool_invocation_started, tool_invocation_cancelled, InvocationEvent, ExecutionResult, Exception,
  invalid_transition, validation_error, Mapped, Handler, Clock, World, Ending, value, exit, ensure,
  emit, transition, effective_timeout, execute,
}
use database_alert_agent.Invocations.Executor.Ends.{
  IsEnd, Ends, Ends-bind, transition_lem, emit_lem, transition_exit, emit_exit,
}
use database_alert_agent.Invocations.Executor.Stages.{One, Broken, ran-Ends}

ensure_value :
    (b : Bool) (x : Exception) (u : Unit {0}) (w w' : World)
    → ensure b x w ≡ value u w'
    → w'.events ≡ w.events
ensure_value true x u w w' e = ground arith
ensure_value false x u w w' e = cc

ensure_exit :
    (b : Bool) (x y : Exception) (w w' : World) → ensure b x w ≡ exit y w' → w'.events ≡ w.events
ensure_exit true x y w w' e = cc
ensure_exit false x y w w' e = ground arith

-- An execution that returns has appended two events: the start, and the end that it returns.
pub record IsExecution (v : Invocation) (before : List InvocationEvent) (r : ExecutionResult)
    (w : World) : Type 0 where
  pub start : InvocationEvent
  pub end : InvocationEvent
  pub events : w.events ≡ before ++ (start ∷ end ∷ [])
  pub start_kind : start.kind ≡ tool_invocation_started
  pub start_identity : start.about.identity ≡ v.identity
  pub is_end : IsEnd v end r

-- One that raises has appended nothing, the start, or the start and the cancellation.
pub data IsBroken (before after : List InvocationEvent) : Type 0 where
  nothing_appended : after ≡ before → IsBroken before after
  started_only :
      (start : InvocationEvent)
      → after ≡ before ++ (start ∷ [])
      → start.kind ≡ tool_invocation_started
      → IsBroken before after
  was_cancelled :
      (start end : InvocationEvent)
      → after ≡ before ++ (start ∷ end ∷ [])
      → start.kind ≡ tool_invocation_started
      → end.kind ≡ tool_invocation_cancelled
      → IsBroken before after

append_two :
    {A : Type 0} (xs : List A) (x y : A) → (xs ++ (x ∷ [])) ++ (y ∷ []) ≡ xs ++ (x ∷ y ∷ [])
append_two [] x y = refl
append_two (z ∷ xs) x y = ap (λ l. z ∷ l) (append_two xs x y)

module _ (v : Invocation) (before : List InvocationEvent) where
  abbrev Whole : ExecutionResult → World → Type 0
  Whole = IsExecution v before

  abbrev Partial : Exception → World → Type 0
  Partial x w = IsBroken before w.events

  two_events :
      (start : InvocationEvent) (r : ExecutionResult) (w : World)
      → start.kind ≡ tool_invocation_started
      → start.about.identity ≡ v.identity
      → One start.about (before ++ (start ∷ [])) r w
      → Whole r w
  two_events start r w k i (e, q, is_end) = record {
    start = start;
    end = e;
    events = q ∙ append_two before start e;
    start_kind = k;
    start_identity = i;
    is_end = record {
      identity = is_end.identity ∙ i;
      valid = is_end.valid;
      terminal = is_end.terminal;
      about = is_end.about;
      kind = is_end.kind;
      evidence = is_end.evidence;
    };
  }

  -- What follows the start, as part of the whole.
  after_start :
      (error_mapper : Exception → Mapped) (start : InvocationEvent) (o : Ending ExecutionResult)
      → start.kind ≡ tool_invocation_started
      → start.about.identity ≡ v.identity
      → Ends
          (One start.about (before ++ (start ∷ [])))
          (Broken start.about (before ++ (start ∷ [])) error_mapper)
          o
      → Ends Whole Partial o
  after_start error_mapper start (value r w) k i h = two_events start r w k i h
  after_start error_mapper start (exit x w) k i (inl h) = started_only start h k
  after_start error_mapper start (exit x w) k i (inr (e, q, c)) =
      was_cancelled start e (q ∙ append_two before start e) k c

-- Whatever the handler, the error mapper, the clock and the sink do, and of the events whose append
-- returned: an execution that returns has appended exactly two events, the start and one end. The end is
-- about the returned invocation, of the kind of its status; that invocation is valid and terminal, and
-- has the identity of the given one; its evidence is available just when it succeeded. One that raises has
-- appended nothing, the start only, or the start and a cancellation. An event that a sink stores before
-- its append raises is not counted: a success of this kind stands in the stream before a failure.
pub execute-Ends :
    (error_mapper : Exception → Mapped) (v : Invocation) (handler : Handler) (timeout : Option ℕ)
    (clock : Clock) (w : World)
    → Ends
        (IsExecution v w.events)
        (λ x w'. IsBroken w.events w'.events)
        (execute error_mapper v handler timeout clock w)
unfolding execute
execute-Ends error_mapper v handler timeout clock w =
    let Q : ExecutionResult → World → Type 0 = IsExecution v w.events in
    let X : Exception → World → Type 0 = λ x w'. IsBroken w.events w'.events in
    let v' : Invocation = record v {
      status = Status.started;
      started_at = some clock.started_at;
    } in
    Ends-bind Q X (ensure (is_pending v.status) invalid_transition) _ w
      (λ _ w1 e1.
        let q1 : w1.events ≡ w.events = ensure_value _ _ _ _ _ e1 in
        Ends-bind Q X
          (ensure (not (elim timeout [ none ↦ false | some seconds ↦ seconds == 0 ]))
            validation_error)
          _ w1
          (λ _ w2 e2.
            let q2 : w2.events ≡ w.events = ensure_value _ _ _ _ _ e2 ∙ q1 in
            Ends-bind Q X (transition v') _ w2
              (λ c w3 e3.
                let (l, p, q) = transition_lem v' c w2 w3 e3 in
                let q3 : w3.events ≡ w.events = ap (λ z. z.events) q ∙ q2 in
                let start : InvocationEvent = record {
                  kind = tool_invocation_started;
                  about = c;
                  result = none;
                } in
                Ends-bind Q X (emit start) _ w3
                  (λ u w4 e4.
                    let q4 : w4.events ≡ w.events ++ (start ∷ []) =
                      emit_lem start u w3 w4 e4 ∙ ap (λ es. es ++ (start ∷ [])) q3 in
                    after_start v w.events error_mapper start _ refl (ap (λ z. z.identity) p) (
                      ran-Ends c (w.events ++ (start ∷ [])) error_mapper _ handler
                        (effective_timeout c timeout clock.started_at) clock w4 q4))
                  (λ x w4 e4. nothing_appended (emit_exit start x w3 w4 e4 ∙ q3)))
              (λ x w3 e3. nothing_appended (transition_exit v' x w2 w3 e3 ∙ q2)))
          (λ x w2 e2. nothing_appended (ensure_exit _ _ _ _ _ e2 ∙ q1)))
      (λ x w1 e1. nothing_appended (ensure_exit _ _ _ _ _ e1))
