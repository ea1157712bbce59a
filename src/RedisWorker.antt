-- ===== src/RedisWorker.antt =====
-- The Redis worker of app/workers/redis.py: envelopes, retries, and what is done with a message.
-- Decoding and JSON belong to Python, the two scripts to Redis: the first are given, the calls of the
-- others are listed.
pub mod Parsing
pub mod Settling
mod Examples
use database_alert_agent.Prelude.{
  ℕ, zero, suc, ◌+◌, ◌*◌, String, Bool, true, false, not, ◌&&◌, ◌||◌, Option, none, some, List, [],
  ◌∷◌, ltb, str_eq, is_blank, if◌then◌else◌,
}
use database_alert_agent.Database.{AlertStatus}

-- What a field of a JSON object may be, as far as the worker tells it apart.
pub data Field : Type 0 where
  text : String → Field
  dictionary : (json : String) → Field
  other : (json : String) → Field

abbrev pub Object : Type 0
Object = List (String × Field)

-- What `json.loads` returns.
pub data Json : Type 0 where
  object : Object → Json
  no_object : Json

pub data RawValue : Type 0 where
  bytes : String → RawValue
  string : String → RawValue
  parsed : Json → RawValue

-- `value.get(key)`
unfoldable pub get : String → Object → Option Field
get key [] = none
get key (entry ∷ entries) = if str_eq key entry.0 then some entry.1 else get key entries

abbrev pub is_text : String → Option Field → Bool
is_text s (some (text t)) = str_eq t s
is_text s _ = false

pub data Problem : Type 0 where
  invalid_alert_payload unknown_alert_source : Problem
  investigation_lease_unavailable analysis_dispatch_paused cancelled_error : Problem
  other_error : (name : String) → Problem

pub data Attempted (A : Type 0) : Type 0 where
  success : A → Attempted A
  problem : Problem → Attempted A

-- The two kinds of envelope: an investigation job, and an alert of a source.
abbrev pub parse_job : (schema_version alert_id : Option Field) → Attempted Object
parse_job schema_version (some (text alert_id)) =
    if str_eq alert_id ""
    then problem invalid_alert_payload
    else success (
        ("schema_version", elim schema_version [ none ↦ other "1" | some f ↦ f ])
        ∷ ("job_type", text "investigate")
        ∷ ("alert_id", text alert_id)
        ∷ [])
parse_job schema_version _ = problem invalid_alert_payload

abbrev pub parse_alert : (source payload : Option Field) → Attempted Object
parse_alert (some (text source)) (some (dictionary payload)) =
    if is_blank source
    then problem invalid_alert_payload
    else success (("source", text source) ∷ ("payload", dictionary payload) ∷ [])
parse_alert _ _ = problem invalid_alert_payload

unfoldable pub parse_object : Object → Attempted Object
unfolding get
parse_object value =
    if is_text "investigate" (get "job_type" value)
    then parse_job (get "schema_version" value) (get "alert_id" value)
    else parse_alert (get "source" value) (get "payload" value)

abbrev pub parse_json : Json → Attempted Object
parse_json (object value) = parse_object value
parse_json no_object = problem invalid_alert_payload

-- How `json.loads` ends: with a value, with JSONDecodeError, or with another exception, of a number with
-- too many digits or of too deep a nesting.
pub data Loaded : Type 0 where
  loaded : Json → Loaded
  decode_error : Loaded
  load_raised : (name : String) → Loaded

abbrev pub parse_loaded : Loaded → Attempted Object
parse_loaded (loaded j) = parse_json j
parse_loaded decode_error = problem invalid_alert_payload
parse_loaded (load_raised name) = problem (other_error name)

module _ (decode : String → Option String) (loads : String → Loaded) where
  unfoldable pub parse_envelope : RawValue → Attempted Object
  unfolding parse_object
  parse_envelope (bytes value) = elim (decode value) [
    | none ↦ problem invalid_alert_payload
    | some s ↦ parse_loaded (loads s)
  ]
  parse_envelope (string value) = parse_loaded (loads value)
  parse_envelope (parsed value) = parse_json value

-- How one call of the service ends: with an alert of a status, with AnalysisFailedError, after which
-- `get` answers, or with another problem.
pub data Analysis : Type 0 where
  returned : AlertStatus → Analysis
  analysis_failed : Attempted AlertStatus → Analysis
  raised : Problem → Analysis

abbrev pub is_open : AlertStatus → Bool
is_open AlertStatus.queued = true
is_open AlertStatus.analyzing = true
is_open _ = false

abbrev pub check_open : Attempted AlertStatus → Attempted AlertStatus
check_open (problem p) = problem p
check_open (success status) =
    if is_open status then problem investigation_lease_unavailable else success status

abbrev pub analysis_result : Analysis → Attempted AlertStatus
analysis_result (returned status) = success status
analysis_result (analysis_failed got) = got
analysis_result (raised p) = problem p

-- The service's answer to the n-th attempt is given.
unfoldable pub process_envelope : Object → Analysis → Attempted AlertStatus
unfolding parse_object
process_envelope envelope analysis = elim (parse_object envelope) [
  | problem p ↦ problem p
  | success _ ↦ check_open (analysis_result analysis)
]

pub data Retried : Type 0 where
  processed : AlertStatus → Retried
  dead_letter : (attempts : ℕ) → Option Problem → Retried
  propagated : Problem → Retried

-- The exceptions that end the loop: by propagation, by `break`; the others are retried.
pub data Reaction : Type 0 where
  propagate stop retry : Reaction

abbrev pub reaction : Problem → Reaction
reaction investigation_lease_unavailable = propagate
reaction analysis_dispatch_paused = propagate
reaction cancelled_error = propagate
reaction invalid_alert_payload = stop
reaction unknown_alert_source = stop
reaction (other_error _) = retry

unfoldable pub power_of_two : ℕ → ℕ
power_of_two zero = 1
power_of_two (suc n) = 2 * power_of_two n

-- `min(2 ** (attempt - 1), 10)`, for the attempt after `done` others
unfoldable pub retry_delay : ℕ → ℕ
unfolding power_of_two
retry_delay done = if ltb (power_of_two done) 10 then power_of_two done else 10

-- What an attempt's end means for the loop, with the seconds that it sleeps from there on.
abbrev pub next_turn :
    Attempted AlertStatus → (Problem → Retried × ℕ) → (left done : ℕ) → Retried × ℕ
next_turn (success status) rest left done = (processed status, 0)
next_turn (problem p) rest left done = elim (reaction p) [
  | propagate ↦ (propagated p, 0)
  | stop ↦ (dead_letter (suc done) (some p), 0)
  | retry ↦ ((rest p).0, (if ltb 0 left then retry_delay done else 0) + (rest p).1)
]

-- The loop of `process_with_retries`, after `done` attempts and with `left` to go.
module _ (envelope : Object) (service : ℕ → Analysis) where
  unfoldable pub attempts : (left done : ℕ) → Option Problem → Retried × ℕ
  unfolding process_envelope retry_delay
  attempts zero done error = (dead_letter done error, 0)
  attempts (suc left) done error =
      next_turn (process_envelope envelope (service (suc done)))
        (λ p. attempts left (suc done) (some p)) left done

  unfoldable pub process_with_retries : ℕ → Retried × ℕ
  unfolding attempts
  process_with_retries max_retries = attempts max_retries 0 none

-- The scripts that the worker calls for its message.
pub data Call : Type 0 where
  ack_and_delete : Call
  dead_letter_call : (attempts : ℕ) → Call

-- The fields of a stream entry: the value under `b"envelope"` or `"envelope"`, if there is one.
unfoldable pub extract_envelope : (binary plain : Option RawValue) → Attempted RawValue
extract_envelope (some value) plain = success value
extract_envelope none (some value) = success value
extract_envelope none none = problem invalid_alert_payload

module _ (decode : String → Option String) (loads : String → Loaded) where
  abbrev pub read_envelope : (binary plain : Option RawValue) → Attempted Object
  read_envelope binary plain = elim (extract_envelope binary plain) [
    | problem p ↦ problem p
    | success raw ↦ parse_envelope decode loads raw
  ]

abbrev pub calls_of : Retried → List Call
calls_of (processed _) = ack_and_delete ∷ []
calls_of (dead_letter attempts _) = dead_letter_call attempts ∷ []
calls_of (propagated analysis_dispatch_paused) = ack_and_delete ∷ []
calls_of (propagated _) = []

-- What is done with a message that has no readable envelope.
abbrev pub unreadable_calls : Problem → List Call
unreadable_calls invalid_alert_payload = dead_letter_call 1 ∷ []
unreadable_calls _ = []

-- `_handle_message`, which swallows what `_process_message` raises: the calls that are made.
unfoldable pub handle_message :
    (decode : String → Option String) (loads : String → Loaded) (service : ℕ → Analysis)
    (max_retries : ℕ) (binary plain : Option RawValue)
    → List Call
unfolding extract_envelope parse_envelope process_with_retries
handle_message decode loads service max_retries binary plain =
    elim (read_envelope decode loads binary plain) [
      | problem p ↦ unreadable_calls p
      | success envelope ↦ calls_of (process_with_retries envelope service max_retries).0
    ]
