-- ===== src/Invocations.antt =====
-- Tool invocations: the lifecycle that `ToolInvocation` of app/agent_runtime/contracts.py validates.
-- The children have the table of invocations, the store over it, and the executor.
pub mod Repository
pub mod Store
pub mod Transitions
pub mod Executor
pub mod History
mod Examples
use database_alert_agent.Prelude.{
  ℕ, String, ◌≡◌, refl, Bool, true, false, not, ◌&&◌, ◌||◌, Option, none, some, Result, ok, err,
  guard, ◌>>=◌, ◌>>◌, value_error, ◌==◌, leb, ltb, str_eq, is_none, is_some, if◌then◌else◌,
}

pub data Status : Type 0 where
  pending started succeeded no_data failed timed_out unknown_outcome cancelled skipped : Status

abbrev pub is_pending : Status → Bool
is_pending Status.pending = true
is_pending _ = false

abbrev pub is_started : Status → Bool
is_started Status.started = true
is_started _ = false

-- `terminal`, and `_TERMINAL_INVOCATION_STATUSES` of the store
abbrev pub is_terminal : Status → Bool
is_terminal Status.pending = false
is_terminal Status.started = false
is_terminal _ = true

abbrev pub is_skipped : Status → Bool
is_skipped Status.skipped = true
is_skipped _ = false

-- The statuses that need an error, and those that cannot have one.
abbrev pub needs_error : Status → Bool
needs_error Status.failed = true
needs_error Status.timed_out = true
needs_error Status.unknown_outcome = true
needs_error Status.cancelled = true
needs_error _ = false

abbrev pub forbids_error : Status → Bool
forbids_error Status.succeeded = true
forbids_error Status.no_data = true
forbids_error _ = false

pub record InvocationError : Type 0 where
  pub code : String
  pub message : String
  pub retryable : Bool

-- What an invocation is asked to do, which never changes; `request` has the other such fields.
pub record Identity : Type 0 where
  pub invocation_id : ℕ
  pub run_id : ℕ
  pub tool_name : String
  pub effective_arguments : String
  pub request : String
  pub fingerprint : String
  pub deadline : Option ℕ
  pub created_at : ℕ

-- The epoch that executes it: the owner of the lease and its fencing token.
pub record Epoch : Type 0 where
  pub lease_owner : Option String
  pub fencing_token : Option ℕ

pub record Invocation : Type 0 where
  pub identity : Identity
  pub execution : Epoch
  pub status : Status
  pub started_at : Option ℕ
  pub completed_at : Option ℕ
  pub error : Option InvocationError
  pub artifact_ref : Option String

abbrev pub implies : Bool → Bool → Bool
implies a b = not a || b

-- `a is None or b is None or a <= b`
abbrev pub not_after : Option ℕ → Option ℕ → Bool
not_after (some a) (some b) = leb a b
not_after _ _ = true

abbrev pub same_presence : Option String → Option ℕ → Bool
same_presence none none = true
same_presence (some _) (some _) = true
same_presence _ _ = false

-- `validate_lifecycle`: each refusal is a ValueError
unfoldable pub lifecycle_is_valid : Invocation → Bool
lifecycle_is_valid v =
    same_presence v.execution.lease_owner v.execution.fencing_token
    && implies (is_pending v.status)
        (is_none v.execution.lease_owner && is_none v.execution.fencing_token)
    && implies (is_pending v.status) (
        is_none v.started_at && is_none v.completed_at && is_none v.error && is_none v.artifact_ref)
    && implies (is_started v.status)
        (is_some v.started_at && is_none v.completed_at && is_none v.error)
    && implies (is_terminal v.status) (is_some v.completed_at)
    && implies (is_terminal v.status && not (is_skipped v.status)) (is_some v.started_at)
    && implies (needs_error v.status) (is_some v.error)
    && implies (forbids_error v.status) (is_none v.error)
    && not_after v.started_at v.completed_at
    && not_after (some v.identity.created_at) v.started_at
