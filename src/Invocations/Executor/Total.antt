-- ===== src/Invocations/Executor/Total.antt =====
-- When `InvocationExecutor.execute` returns.
use database_alert_agent.Prelude.{
  ℕ, ◌≤◌, String, ◌≡◌, refl, Bool, true, false, Option, none, some, [], ◌∷◌, ◌++◌, arith,
  if◌then◌else◌, ◌==◌, ltb,
}
use database_alert_agent.Invocations.{
  Status, InvocationError, Invocation, is_pending, is_started, is_terminal, needs_error,
  lifecycle_is_valid,
}
use database_alert_agent.Invocations.Executor.{
  EventKind, tool_invocation_started, tool_invocation_timed_out, tool_invocation_failed, Action,
  throw, InvocationEvent, ExecutionResult, no_output, execution_output, artifact, dictionary,
  unsupported, Exception, invalid_transition, validation_error, timeout_error, cancelled_error,
  type_error, other, Handled, returned, raised, Mapped, mapped, mapper_raised, Handler, Clock,
  World, Ending, value, exit, catch, emit, transition, preserve_failure_semantics,
  effective_timeout, run_handler, normalize_output, failure_result, succeed, recover, execute,
  deadline_exceeded, timed_out_error, cancellation,
}

-- The sink appends whatever follows.
abbrev Accepts : World → Type 0
Accepts w = w.answers ≡ []

valid_failure :
    (v : Invocation) (status : Status) (error : InvocationError) (s c : ℕ)
    → is_terminal status ≡ true
    → needs_error status ≡ true
    → lifecycle_is_valid v ≡ true
    → v.started_at ≡ some s
    → s ≤ c
    → lifecycle_is_valid (record v { status = status; completed_at = some c; error = some error })
      ≡ true
unfolding lifecycle_is_valid
valid_failure v status error s c t n h e l = ground arith

valid_success :
    (v : Invocation) (artifact_ref : Option String) (s c : ℕ)
    → is_started v.status ≡ true
    → lifecycle_is_valid v ≡ true
    → v.started_at ≡ some s
    → s ≤ c
    → lifecycle_is_valid
        (record v { status = Status.succeeded; completed_at = some c; artifact_ref = artifact_ref })
      ≡ true
unfolding lifecycle_is_valid
valid_success v a s c t h e l = ground arith

valid_start :
    (v : Invocation) (s : ℕ)
    → is_pending v.status ≡ true
    → lifecycle_is_valid v ≡ true
    → v.identity.created_at ≤ s
    → lifecycle_is_valid (record v { status = Status.started; started_at = some s }) ≡ true
unfolding lifecycle_is_valid
valid_start v s t h l = ground arith

-- The status that an execution returns, or none where it raises.
abbrev pub outcome : Ending ExecutionResult → Option Status
outcome (value r w) = some r.invocation.status
outcome (exit x w) = none

-- What it should be, by the handler and the effective timeout alone.
abbrev of_mapped : Mapped → Option Status
of_mapped (mapped error) = some Status.failed
of_mapped (mapper_raised x) = none

abbrev of_exception : (Exception → Mapped) → Exception → Option Status
of_exception error_mapper timeout_error = some Status.timed_out
of_exception error_mapper cancelled_error = none
of_exception error_mapper x = of_mapped (error_mapper x)

abbrev of_end : (Exception → Mapped) → Handled → Option Status
of_end error_mapper (returned (unsupported name)) = of_mapped (error_mapper (type_error name))
of_end error_mapper (returned _) = some Status.succeeded
of_end error_mapper (raised x) = of_exception error_mapper x

abbrev in_limit : Option ℕ → ℕ → Bool
in_limit none duration = true
in_limit (some seconds) duration = ltb duration seconds

abbrev pub expected_outcome : (Exception → Mapped) → Option ℕ → Handler → Option Status
expected_outcome error_mapper limit h =
    if in_limit limit h.duration then of_end error_mapper h.ends else some Status.timed_out

failure_result_lem :
    (v : Invocation) (status : Status) (kind : EventKind) (error : InvocationError) (now : ℕ)
    (w : World)
    → lifecycle_is_valid (record v { status = status; completed_at = some now; error = some error })
      ≡ true
    → Accepts w
    → outcome (failure_result v status kind error now w) ≡ some status
unfolding failure_result transition preserve_failure_semantics emit
failure_result_lem v status kind error now w l a = ground (arith, a)

module _ (error_mapper : Exception → Mapped) (v : Invocation) (clock : Clock) (s : ℕ)
    (is_start : is_started v.status ≡ true) (valid : lifecycle_is_valid v ≡ true)
    (start : v.started_at ≡ some s) (completes : s ≤ clock.completed_at)
    (fails : s ≤ clock.failed_at) where
  fails_lem :
      (status : Status) (kind : EventKind) (error : InvocationError) (w : World)
      → is_terminal status ≡ true
      → needs_error status ≡ true
      → Accepts w
      → outcome (failure_result v status kind error clock.failed_at w) ≡ some status
  fails_lem status kind error w t n a =
      failure_result_lem v status kind error clock.failed_at w
        (valid_failure v status error s clock.failed_at t n valid start fails) a

  mapped_lem :
      (m : Mapped) (w : World)
      → Accepts w
      → outcome (
          (elim m as (λ _. Action ExecutionResult) [
            | mapped error ↦
                failure_result v Status.failed tool_invocation_failed error clock.failed_at
            | mapper_raised y ↦ throw y
          ])
            w)
        ≡ of_mapped m
  mapped_lem (mapped error) w a = fails_lem Status.failed tool_invocation_failed error w refl refl a
  mapped_lem (mapper_raised y) w a = refl

  recover_lem :
      (x : Exception) (w : World)
      → Accepts w
      → outcome (recover error_mapper v clock x w) ≡ of_exception error_mapper x
  unfolding recover transition emit
  recover_lem timeout_error w a = fails_lem Status.timed_out _ timed_out_error w refl refl a
  recover_lem cancelled_error w a =
      let p =
        valid_failure v Status.cancelled cancellation s clock.failed_at refl refl valid start
          fails in
      ground (arith, p, a)
  recover_lem invalid_transition w a = mapped_lem (error_mapper invalid_transition) w a
  recover_lem validation_error w a = mapped_lem (error_mapper validation_error) w a
  recover_lem (type_error n) w a = mapped_lem (error_mapper (type_error n)) w a
  recover_lem (other n) w a = mapped_lem (error_mapper (other n)) w a

  ran_lem :
      (ends : Handled) (duration : ℕ) (limit : Option ℕ) (w : World)
      → Accepts w
      → outcome (
          catch
            (succeed error_mapper v (record { ends = ends; duration = duration }) limit clock)
            (recover error_mapper v clock)
            w)
        ≡ expected_outcome error_mapper limit (record { ends = ends; duration = duration })
  unfolding succeed run_handler normalize_output transition preserve_failure_semantics emit
  ran_lem (returned no_output) duration limit w a =
      let p = valid_success v none s clock.completed_at is_start valid start completes in
      let r = recover_lem timeout_error w a in ground (arith, p, r, a)
  ran_lem (returned (execution_output result ref)) duration limit w a =
      let p = valid_success v ref s clock.completed_at is_start valid start completes in
      let r = recover_lem timeout_error w a in ground (arith, p, r, a)
  ran_lem (returned (artifact ref)) duration limit w a =
      let p = valid_success v (some ref) s clock.completed_at is_start valid start completes in
      let r = recover_lem timeout_error w a in ground (arith, p, r, a)
  ran_lem (returned (dictionary result)) duration limit w a =
      let p = valid_success v none s clock.completed_at is_start valid start completes in
      let r = recover_lem timeout_error w a in ground (arith, p, r, a)
  ran_lem (returned (unsupported name)) duration limit w a =
      let r = recover_lem timeout_error w a in
      let q = recover_lem (type_error name) w a in ground (arith, q, r, a)
  ran_lem (raised x) duration limit w a =
      let r = recover_lem timeout_error w a in let q = recover_lem x w a in ground (arith, q, r, a)

-- A valid pending invocation, a positive timeout, a clock that does not go back and a sink that stores
-- each event: the execution ends as the handler, the effective timeout and the error mapper decide. It
-- times out just when the handler is not done before the smaller of the timeout and the time to the
-- deadline, or raises a timeout; it succeeds on a supported output. It raises for a cancelled handler, and
-- where the error mapper raises on what the handler raised or on an unsupported output; otherwise it
-- returns a failure for these.
pub execute-expected_outcome :
    (error_mapper : Exception → Mapped) (v : Invocation) (handler : Handler) (timeout : Option ℕ)
    (clock : Clock) (w : World)
    → is_pending v.status ≡ true
    → lifecycle_is_valid v ≡ true
    → elim timeout [ none ↦ false | some seconds ↦ seconds == 0 ] ≡ false
    → v.identity.created_at ≤ clock.started_at
    → clock.started_at ≤ clock.completed_at
    → clock.started_at ≤ clock.failed_at
    → w.answers ≡ []
    → outcome (execute error_mapper v handler timeout clock w)
      ≡ expected_outcome error_mapper (effective_timeout v timeout clock.started_at) handler
unfolding execute transition emit effective_timeout
execute-expected_outcome error_mapper v handler timeout clock w is_new valid positive c s f a =
    let v' : Invocation = record v {
      status = Status.started;
      started_at = some clock.started_at;
    } in
    let p = valid_start v clock.started_at is_new valid c in
    let start : InvocationEvent = record {
      kind = tool_invocation_started;
      about = v';
      result = none;
    } in
    let w' : World = record w { events = w.events ++ (start ∷ []); answers = [] } in
    let r =
      ran_lem error_mapper v' clock clock.started_at refl p refl s f handler.ends handler.duration
        (effective_timeout v timeout clock.started_at) w' refl in
    let l =
      failure_result_lem v' Status.timed_out tool_invocation_timed_out deadline_exceeded
        clock.failed_at w'
        (valid_failure v' Status.timed_out deadline_exceeded clock.started_at clock.failed_at refl
          refl p refl f)
        refl in
    ground (arith, p, r, l, a)
