-- ===== src/RedisWorker/Examples.antt =====
-- A job whose first attempt fails, as the service and Redis answer in turn.
use database_alert_agent.Prelude.{
  ℕ, zero, suc, String, str_eq, if◌then◌else◌, ◌≡◌, refl, Option, none, some, [], ◌∷◌,
}
use database_alert_agent.Database.{AlertStatus}
use database_alert_agent.RedisWorker.{
  Object, Loaded, loaded, load_raised, object, text, other, string, success, Analysis, returned,
  raised, other_error, get, parse_object, parse_envelope, extract_envelope, process_envelope,
  power_of_two, retry_delay, attempts, process_with_retries, ack_and_delete, dead_letter_call,
  handle_message, investigation_lease_unavailable,
}

abbrev message : Object
message = ("alert_id", text "a1") ∷ ("job_type", text "investigate") ∷ []

abbrev job : Object
job =
    ("schema_version", other "1") ∷ ("job_type", text "investigate") ∷ ("alert_id", text "a1") ∷ []

abbrev decode : String → Option String
decode s = some s

abbrev loads : String → Loaded
loads s = if str_eq s "[[[" then load_raised "RecursionError" else loaded (object message)

-- The first attempt fails, the next ones complete.
abbrev service : ℕ → Analysis
service (suc zero) = raised (other_error "ConnectionError")
service n = returned AlertStatus.completed

parsed_message : parse_object message ≡ success job
unfolding parse_object get
parsed_message = refl

second_attempt :
    handle_message decode loads service 3 (some (string "{}")) none ≡ ack_and_delete ∷ []
unfolding handle_message extract_envelope parse_envelope parse_object get process_with_retries
    attempts process_envelope
second_attempt = refl

one_attempt :
    handle_message decode loads service 1 (some (string "{}")) none ≡ dead_letter_call 1 ∷ []
unfolding handle_message extract_envelope parse_envelope parse_object get process_with_retries
    attempts process_envelope
one_attempt = refl

leased :
    handle_message decode loads
      (λ n. raised investigation_lease_unavailable)
      3
      (some (string "{}"))
      none
    ≡ []
unfolding handle_message extract_envelope parse_envelope parse_object get process_with_retries
    attempts process_envelope
leased = refl

one_second : (process_with_retries job service 3).1 ≡ 1
unfolding process_with_retries attempts process_envelope parse_object get retry_delay power_of_two
one_second = refl

unsettled : handle_message decode loads service 3 (some (string "[[[")) none ≡ []
unfolding handle_message extract_envelope parse_envelope
unsettled = refl
