-- ===== src/RedisWorker/Settling.antt =====
-- What the worker does with a message, by how the attempts end.
use database_alert_agent.Prelude.{
  ℕ, zero, suc, ◌-◌, ◌*◌, ◌≤◌, ◌<◌, String, ◌≡◌, Bool, true, false, Option, none, some, List, [],
  ◌∷◌, arith,
}
use database_alert_agent.Database.{AlertStatus}
use database_alert_agent.RedisWorker.{
  Object, Loaded, load_raised, RawValue, Problem, invalid_alert_payload, unknown_alert_source,
  investigation_lease_unavailable, analysis_dispatch_paused, cancelled_error, other_error,
  Attempted, success, problem, Analysis, process_envelope, Retried, attempts, process_with_retries,
  retry_delay, Call, ack_and_delete, dead_letter_call, next_turn, read_envelope, check_open,
  analysis_result, parse_object,
}

abbrev pub is_retried : Attempted AlertStatus → Bool
is_retried (problem (other_error _)) = true
is_retried _ = false

abbrev pub is_rejected : Attempted AlertStatus → Bool
is_rejected (problem invalid_alert_payload) = true
is_rejected (problem unknown_alert_source) = true
is_rejected _ = false

abbrev pub is_deferred : Attempted AlertStatus → Bool
is_deferred (problem investigation_lease_unavailable) = true
is_deferred (problem cancelled_error) = true
is_deferred _ = false

abbrev pub is_acknowledged : Attempted AlertStatus → Bool
is_acknowledged (success _) = true
is_acknowledged (problem analysis_dispatch_paused) = true
is_acknowledged _ = false

-- Attempt `k` is made: it is one of the first `max`, and all before it are retried.
pub record IsMade (tried : ℕ → Attempted AlertStatus) (max k : ℕ) : Type 0 where
  pub first : 0 < k
  pub within : k ≤ max
  pub retried : (j : ℕ) → 0 < j → j < k → is_retried (tried j) ≡ true

-- The calls that calls_of a message: an acknowledgement where an attempt returns or finds the dispatch
-- paused; none where it finds a live lease or is cancelled; one dead letter, with the number of
-- attempts, where it is rejected or where all of them failed.
pub data Settled (tried : ℕ → Attempted AlertStatus) (max : ℕ) : List Call → Type 0 where
  acknowledged :
      (k : ℕ)
      → IsMade tried max k
      → is_acknowledged (tried k) ≡ true
      → Settled tried max (ack_and_delete ∷ [])
  deferred : (k : ℕ) → IsMade tried max k → is_deferred (tried k) ≡ true → Settled tried max []
  rejected :
      (k : ℕ)
      → IsMade tried max k
      → is_rejected (tried k) ≡ true
      → Settled tried max (dead_letter_call k ∷ [])
  exhausted :
      ((j : ℕ) → 0 < j → j ≤ max → is_retried (tried j) ≡ true)
      → Settled tried max (dead_letter_call max ∷ [])

-- What the n-th attempt of a parsed envelope does.
abbrev pub attempt_result : (ℕ → Analysis) → ℕ → Attempted AlertStatus
attempt_result service n = check_open (analysis_result (service n))

module _ (envelope : Object) (service : ℕ → Analysis) (max : ℕ)
    (is_parsed : parse_object envelope ≡ success envelope) where
  abbrev tried : ℕ → Attempted AlertStatus
  tried = attempt_result service

retry_delay_bound : (done : ℕ) → retry_delay done ≤ 10
unfolding retry_delay
retry_delay_bound done = ground arith

turn_wait :
    (t : Attempted AlertStatus) (rest : Problem → Retried × ℕ) (left done : ℕ)
    → ((p : Problem) → (rest p).1 ≤ 10 * (left - 1))
    → (next_turn t rest left done).1 ≤ 10 * left
turn_wait (success s) rest left done h = omega arith
turn_wait (problem (other_error n)) rest left done h =
    ground (arith, retry_delay_bound done, h (other_error n))
turn_wait (problem p) rest left done h = omega arith

attempts_wait :
    (envelope : Object) (service : ℕ → Analysis) (left done : ℕ) (error : Option Problem)
    → (attempts envelope service left done error).1 ≤ 10 * (left - 1)
unfolding attempts
attempts_wait envelope service zero done error = omega arith
attempts_wait envelope service (suc left) done error =
    let h =
      turn_wait (process_envelope envelope (service (suc done)))
        (λ p. attempts envelope service left (suc done) (some p)) left done
        (λ p. attempts_wait envelope service left (suc done) (some p)) in
    omega (arith, h)

-- What becomes of a message: what its attempts say; a dead letter that it is from the start; or nothing,
-- where `json.loads` raises what the worker does not expect.
pub data IsHandled (decode : String → Option String) (loads : String → Loaded)
    (service : ℕ → Analysis) (max_retries : ℕ) (binary plain : Option RawValue) (calls : List Call)
    : Type 0 where
  read :
      (envelope : Object)
      → read_envelope decode loads binary plain ≡ success envelope
      → Settled (attempt_result service) max_retries calls
      → IsHandled decode loads service max_retries binary plain calls
  unreadable :
      read_envelope decode loads binary plain ≡ problem invalid_alert_payload
      → calls ≡ dead_letter_call 1 ∷ []
      → IsHandled decode loads service max_retries binary plain calls
  unloaded :
      (s name : String)
      → loads s ≡ load_raised name
      → calls ≡ []
      → IsHandled decode loads service max_retries binary plain calls

-- Between its attempts a message sleeps ten seconds at most, and not after the last: ten times the
-- retries less one, in all.
process_with_retries_wait :
    (envelope : Object) (service : ℕ → Analysis) (max_retries : ℕ)
    → (process_with_retries envelope service max_retries).1 ≤ 10 * (max_retries - 1)
unfolding process_with_retries
process_with_retries_wait envelope service max_retries =
    attempts_wait envelope service max_retries 0 none
