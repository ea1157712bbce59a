-- ===== src/Invocations/Executor.antt =====
-- `InvocationExecutor` of app/agent_runtime/execution.py. What the handler does is an outcome; what
-- the event sink does with the n-th event is a list of answers; each reading of the clock is given.
pub mod Ends
pub mod Stages
pub mod Execution
pub mod Total
use database_alert_agent.Prelude.{
  ℕ, ◌-◌, String, Bool, true, false, not, ◌&&◌, ◌||◌, Option, none, some, List, [], ◌∷◌, ◌++◌, ◌==◌,
  ltb, leb, if◌then◌else◌,
}
use database_alert_agent.Invocations.{
  Status, InvocationError, Identity, Epoch, Invocation, is_pending, is_skipped, needs_error,
  lifecycle_is_valid,
}

pub data Disposition : Type 0 where
  available missing : Disposition

pub data EventKind : Type 0 where
  tool_invocation_started tool_invocation_succeeded tool_invocation_failed : EventKind
  tool_invocation_timed_out tool_invocation_cancelled : EventKind

-- An event carries the invocation that it is about; its payload is made of this and of the result.
pub record InvocationEvent : Type 0 where
  pub kind : EventKind
  pub about : Invocation
  pub result : Option String

pub record ExecutionResult : Type 0 where
  pub invocation : Invocation
  pub result : String
  pub evidence_disposition : Disposition
  pub is_contradiction : Bool

-- What a handler returns.
pub data Output : Type 0 where
  no_output : Output
  execution_output : (result : String) (artifact_ref : Option String) → Output
  artifact : (artifact_ref : String) → Output
  dictionary : (result : String) → Output
  unsupported : (type_name : String) → Output

-- What is raised: by the checks of the executor, by `_normalize_output`, or by a handler or the sink.
pub data Exception : Type 0 where
  invalid_transition validation_error timeout_error cancelled_error : Exception
  type_error : (type_name : String) → Exception
  other : (name : String) → Exception

pub data Handled : Type 0 where
  returned : Output → Handled
  raised : Exception → Handled

-- How a handler ends when nothing stops it, and how long it takes until then.
pub record Handler : Type 0 where
  pub ends : Handled
  pub duration : ℕ

-- The clock: at the start, at the end of the handler, and when a failure is recorded.
pub record Clock : Type 0 where
  pub started_at : ℕ
  pub completed_at : ℕ
  pub failed_at : ℕ

-- What the sink does with an event: it stores it, refuses it with an exception, or stores it and then
-- raises, as a sink that reads the stored event back may do.
pub data SinkAnswer : Type 0 where
  stores : SinkAnswer
  refuses stores_and_raises : Exception → SinkAnswer

-- The events whose append returned; those that are stored although their append raised, which the executor
-- does not know; and what the sink does with the next ones. At the end of the list it stores.
pub record World : Type 0 where
  pub events : List InvocationEvent
  pub unconfirmed : List InvocationEvent
  pub answers : List SinkAnswer

-- What the error mapper returns, or raises.
pub data Mapped : Type 0 where
  mapped : InvocationError → Mapped
  mapper_raised : Exception → Mapped

pub data Ending (A : Type 0) : Type 0 where
  value : A → World → Ending A
  exit : Exception → World → Ending A

abbrev pub Action : Type 0 → Type 0
Action A = World → Ending A

module _ {A B : Type 0} where
  infixl 5 ◌>>=◌
  abbrev pub ◌>>=◌ : Action A → (A → Action B) → Action B
  (m >>= f) w = elim (m w) [ value a w' ↦ f a w' | exit x w' ↦ exit x w' ]

module _ {A : Type 0} where
  abbrev pub pure : A → Action A
  pure a w = value a w

  abbrev pub throw : Exception → Action A
  throw x w = exit x w

  -- `try`, with all the handlers in one function
  abbrev pub catch : Action A → (Exception → Action A) → Action A
  catch m f w = elim (m w) [ value a w' ↦ value a w' | exit x w' ↦ f x w' ]

abbrev pub ensure : Bool → Exception → Action (Unit {0})
ensure true x = pure tt
ensure false x = throw x

abbrev pub answer : List SinkAnswer → SinkAnswer
answer [] = stores
answer (a ∷ _) = a

abbrev pub later_answers : List SinkAnswer → List SinkAnswer
later_answers [] = []
later_answers (_ ∷ others) = others

-- `_emit`
unfoldable pub emit : InvocationEvent → Action (Unit {0})
emit e w = elim (answer w.answers) [
  | stores ↦
      value tt (record w { events = w.events ++ (e ∷ []); answers = later_answers w.answers })
  | refuses x ↦ exit x (record w { answers = later_answers w.answers })
  | stores_and_raises x ↦
      exit x
        (record w { unconfirmed = w.unconfirmed ++ (e ∷ []); answers = later_answers w.answers })
]

-- `_transition`: the updated invocation is validated
unfoldable pub transition : Invocation → Action Invocation
transition v = if lifecycle_is_valid v then pure v else throw validation_error

abbrev pub is_unavailable : Status → Bool
is_unavailable s = needs_error s || is_skipped s

abbrev pub is_available : Disposition → Bool
is_available available = true
is_available missing = false

-- `preserve_failure_semantics`
unfoldable pub preserve_failure_semantics : ExecutionResult → Action ExecutionResult
preserve_failure_semantics r =
    if (is_unavailable r.invocation.status
        && (is_available r.evidence_disposition || r.is_contradiction))
      || (r.is_contradiction && not (is_available r.evidence_disposition))
    then throw validation_error
    else pure r

abbrev pub least : Option ℕ → Option ℕ → Option ℕ
least none b = b
least (some a) none = some a
least (some a) (some b) = some (if ltb b a then b else a)

-- `_effective_timeout`
unfoldable pub effective_timeout : Invocation → Option ℕ → ℕ → Option ℕ
effective_timeout v timeout now =
    least timeout (elim v.identity.deadline [ none ↦ none | some deadline ↦ some (deadline - now) ])

-- `asyncio.timeout` over the handler
unfoldable pub run_handler : Handler → Option ℕ → Action Output
run_handler h limit =
    if elim limit [ none ↦ false | some seconds ↦ leb seconds h.duration ]
    then throw timeout_error
    else elim h.ends [ returned o ↦ pure o | raised x ↦ throw x ]

-- `_normalize_output`: the result and the reference of the artifact; "{}" is the empty result.
unfoldable pub normalize_output : Output → Action (String × Option String)
normalize_output no_output = pure ("{}", none)
normalize_output (execution_output result artifact_ref) = pure (result, artifact_ref)
normalize_output (artifact artifact_ref) = pure ("{}", some artifact_ref)
normalize_output (dictionary result) = pure (result, none)
normalize_output (unsupported type_name) = throw (type_error type_name)

abbrev deadline_exceeded : InvocationError
deadline_exceeded = record {
  code = "invocation_deadline_exceeded";
  message = "Tool invocation deadline was reached before execution";
  retryable = true;
}

abbrev timed_out_error : InvocationError
timed_out_error = record {
  code = "invocation_timeout";
  message = "Tool invocation timed out";
  retryable = true;
}

abbrev cancellation : InvocationError
cancellation = record {
  code = "invocation_cancelled";
  message = "Tool invocation was cancelled";
  retryable = true;
}

unfoldable pub failure_result :
    Invocation → Status → EventKind → InvocationError → ℕ → Action ExecutionResult
unfolding transition preserve_failure_semantics emit
failure_result v status kind error now = do
  completed ← transition (record v { status = status; completed_at = some now; error = some error })
  result ← preserve_failure_semantics (record {
    invocation = completed;
    result = "{}";
    evidence_disposition = missing;
    is_contradiction = false;
  })
  _ ← emit (record { kind = kind; about = completed; result = none })
  pure result

-- `execute`; the error mapper is given.
module _ (error_mapper : Exception → Mapped) where
  -- the body of the `try`
  unfoldable pub succeed : Invocation → Handler → Option ℕ → Clock → Action ExecutionResult
  unfolding run_handler normalize_output transition preserve_failure_semantics emit
  succeed started handler limit clock = do
    raw_output ← run_handler handler limit
    (result, artifact_ref) ← normalize_output raw_output
    completed ← transition (record started {
      status = Status.succeeded;
      completed_at = some clock.completed_at;
      artifact_ref = artifact_ref;
    })
    r ← preserve_failure_semantics (record {
      invocation = completed;
      result = result;
      evidence_disposition = available;
      is_contradiction = false;
    })
    _ ← emit (record { kind = tool_invocation_succeeded; about = completed; result = some result })
    pure r

  -- its `except` clauses
  unfoldable pub recover : Invocation → Clock → Exception → Action ExecutionResult
  unfolding failure_result transition emit
  recover started clock timeout_error =
      failure_result started Status.timed_out tool_invocation_timed_out timed_out_error
        clock.failed_at
  recover started clock cancelled_error = do
    cancelled ← transition (record started {
      status = Status.cancelled;
      completed_at = some clock.failed_at;
      error = some cancellation;
    })
    _ ← emit (record { kind = tool_invocation_cancelled; about = cancelled; result = none })
    throw cancelled_error
  recover started clock x = elim (error_mapper x) [
    | mapped error ↦
        failure_result started Status.failed tool_invocation_failed error clock.failed_at
    | mapper_raised y ↦ throw y
  ]

  unfoldable pub execute : Invocation → Handler → Option ℕ → Clock → Action ExecutionResult
  unfolding transition emit effective_timeout failure_result succeed recover
  execute v handler timeout clock = do
    _ ← ensure (is_pending v.status) invalid_transition
    _ ← ensure (not (elim timeout [ none ↦ false | some seconds ↦ seconds == 0 ])) validation_error
    started ← transition (record v { status = Status.started; started_at = some clock.started_at })
    _ ← emit (record { kind = tool_invocation_started; about = started; result = none })
    limit ← pure (effective_timeout started timeout clock.started_at)
    if elim limit [ none ↦ false | some seconds ↦ seconds == 0 ]
        then failure_result started Status.timed_out tool_invocation_timed_out deadline_exceeded
            clock.failed_at
        else catch (succeed started handler limit clock) (recover started clock)
