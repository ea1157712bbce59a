-- ===== src/Database.antt =====
-- The tables of app/adapters/persistence.py, with the status enumerations of app/domain/models.py.
-- A UUID is a number that is only compared, a datetime the number of its microseconds, and a JSON
-- document a text that is only carried. `Db` is what one transaction sees; what it returns is what
-- it commits.
use database_alert_agent.Prelude.{ℕ, ◌*◌, String, Bool, true, false, Option, List}

pub data AlertStatus : Type 0 where
  received queued analyzing filtered completed inconclusive failed cancelled : AlertStatus

pub data RunStatus : Type 0 where
  running completed inconclusive failed cancelled : RunStatus

pub data Stage : Type 0 where
  received fingerprinting knowledge_matching investigating advising validating reporting : Stage
  completed inconclusive failed cancelled : Stage

pub data DispatchState : Type 0 where
  enabled paused : DispatchState

pub data NotificationKind : Type 0 where
  analysis_result analysis_failure : NotificationKind

pub data DeliveryStatus : Type 0 where
  pending sending sent failed unknown : DeliveryStatus

pub data FailureCategory : Type 0 where
  authentication authorization quota_exhausted configuration : FailureCategory
  rate_limited_or_quota_unknown provider_unavailable connection timeout : FailureCategory
  invalid_response internal : FailureCategory

abbrev pub is_running : RunStatus → Bool
is_running RunStatus.running = true
is_running _ = false

abbrev pub is_paused : DispatchState → Bool
is_paused DispatchState.paused = true
is_paused _ = false

-- The statuses after which an alert is not analysed again by itself.
abbrev pub is_closed : AlertStatus → Bool
is_closed AlertStatus.completed = true
is_closed AlertStatus.inconclusive = true
is_closed AlertStatus.filtered = true
is_closed AlertStatus.cancelled = true
is_closed AlertStatus.failed = true
is_closed _ = false

pub record ModelFailure : Type 0 where
  pub category : FailureCategory
  pub provider : String
  pub pauses_dispatch : Bool
  pub safe_detail : String

pub record Alert : Type 0 where
  pub id : ℕ
  pub source : String
  pub external_id : String
  pub status : AlertStatus
  pub alert_json : String
  pub recommendation : Option String
  pub advisor_metadata : Option String
  pub error : Option String
  pub created_at : ℕ
  pub updated_at : ℕ

-- A frozen manifest, by its run and its digest; `intact` says that the stored document still has
-- the stored hash and decodes.
pub record Manifest : Type 0 where
  pub run_id : ℕ
  pub digest : String
  pub intact : Bool

pub record Run : Type 0 where
  pub id : ℕ
  pub alert_id : ℕ
  pub attempt : ℕ
  pub fencing_token : ℕ
  pub status : RunStatus
  pub current_stage : Stage
  pub error : Option String
  pub lease_owner : Option String
  pub lease_expires_at : Option ℕ
  pub cancel_requested_at : Option ℕ
  pub cancel_requested_by : Option String
  pub cancelled_at : Option ℕ
  pub config_snapshot : Option String
  pub manifest : Option Manifest
  pub recommendation : Option String
  pub advisor_metadata : Option String
  pub model_failure : Option ModelFailure
  pub created_at : ℕ
  pub updated_at : ℕ

pub record Validation : Type 0 where
  pub success : Bool
  pub settings_revision : String
  pub detail : String
  pub validated_by : String

pub record Dispatch : Type 0 where
  pub state : DispatchState
  pub version : ℕ
  pub reason : Option ModelFailure
  pub trigger_run_id : Option ℕ
  pub paused_settings_revision : Option String
  pub last_validation : Option Validation
  pub paused_at : Option ℕ
  pub resumed_at : Option ℕ
  pub resumed_by : Option String
  pub updated_at : ℕ

pub record Delivery : Type 0 where
  pub id : ℕ
  pub alert_id : ℕ
  pub run_id : ℕ
  pub kind : NotificationKind
  pub status : DeliveryStatus
  pub event : String
  pub attempts : ℕ
  pub error : Option String
  pub message_id : Option String
  pub next_attempt_at : Option ℕ
  pub claim_owner : Option String
  pub claim_expires_at : Option ℕ
  pub created_at : ℕ
  pub updated_at : ℕ
  pub sent_at : Option ℕ

pub record Progress : Type 0 where
  pub id : ℕ
  pub alert_id : ℕ
  pub run_id : ℕ
  pub sequence : ℕ
  pub stage : Stage
  pub message : String
  pub details : String
  pub created_at : ℕ

pub record Event : Type 0 where
  pub event_id : ℕ
  pub run_id : ℕ
  pub sequence : ℕ
  pub version : ℕ
  pub kind : String
  pub payload : String

-- `intact` says that the payload decodes, and agrees with the state hash and the row's columns.
pub record Checkpoint : Type 0 where
  pub checkpoint_id : ℕ
  pub run_id : ℕ
  pub namespace : String
  pub version : ℕ
  pub sequence : ℕ
  pub state : String
  pub manifest_hash : String
  pub intact : Bool

-- New rows are put in front; no query depends on the order of the rows.
pub record Db : Type 0 where
  pub alerts : List Alert
  pub runs : List Run
  pub dispatch : Option Dispatch
  pub deliveries : List Delivery
  pub progress : List Progress
  pub events : List Event
  pub checkpoints : List Checkpoint

-- `timedelta(seconds=n)`
abbrev pub seconds : ℕ → ℕ
seconds n = n * 1000000
