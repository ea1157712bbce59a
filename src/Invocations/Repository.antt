-- ===== src/Invocations/Repository.antt =====
-- `save_tool_invocation`, `update_tool_invocation` and `get_tool_invocation` of
-- app/adapters/persistence.py. The table is beside the database, which has the leases.
use database_alert_agent.Prelude.{
  ℕ, String, Bool, true, false, not, ◌&&◌, ◌||◌, Option, none, some, List, ◌∷◌, Result, ok, err,
  guard, ◌>>=◌, ◌>>◌, invocation_conflict, ◌==◌, leb, str_eq, is_none, is_some, is_blank,
  if◌then◌else◌, find, modify,
}
use database_alert_agent.Database.{Db}
use database_alert_agent.Runs.{require_active_run_lease}
use database_alert_agent.Invocations.{
  Status, InvocationError, Identity, Epoch, Invocation, is_pending, is_started,
}

-- A row, by the payload that it stores; `intact` says that the payload validates, that the other
-- columns mirror it and that the hashes agree.
pub record Row : Type 0 where
  pub invocation : Invocation
  pub result : Option String
  pub intact : Bool

abbrev pub row_key : Row → ℕ
row_key r = r.invocation.identity.invocation_id

-- The position of a status in its declaration, to compare statuses.
abbrev pub position : Status → ℕ
position Status.pending = 0
position Status.started = 1
position Status.succeeded = 2
position Status.no_data = 3
position Status.failed = 4
position Status.timed_out = 5
position Status.unknown_outcome = 6
position Status.cancelled = 7
position Status.skipped = 8

abbrev pub same_status : Status → Status → Bool
same_status s t = position s == position t

abbrev pub same_time : Option ℕ → Option ℕ → Bool
same_time none none = true
same_time (some m) (some n) = m == n
same_time _ _ = false

abbrev pub same_text : Option String → Option String → Bool
same_text none none = true
same_text (some s) (some t) = str_eq s t
same_text _ _ = false

abbrev pub same_flag : Bool → Bool → Bool
same_flag true b = b
same_flag false b = not b

abbrev pub same_error : Option InvocationError → Option InvocationError → Bool
same_error none none = true
same_error (some e) (some f) =
    str_eq e.code f.code && str_eq e.message f.message && same_flag e.retryable f.retryable
same_error _ _ = false

-- Equal canonical hashes, taken as equal contents.
unfoldable pub same_identity : Identity → Identity → Bool
same_identity a b =
    a.invocation_id == b.invocation_id
    && a.run_id == b.run_id
    && str_eq a.tool_name b.tool_name
    && str_eq a.effective_arguments b.effective_arguments
    && str_eq a.request b.request
    && str_eq a.fingerprint b.fingerprint
    && same_time a.deadline b.deadline
    && a.created_at == b.created_at

unfoldable pub same_epoch : Epoch → Epoch → Bool
same_epoch a b = same_text a.lease_owner b.lease_owner && same_time a.fencing_token b.fencing_token

unfoldable pub same_invocation : Invocation → Invocation → Bool
unfolding same_identity same_epoch
same_invocation a b =
    same_identity a.identity b.identity
    && same_epoch a.execution b.execution
    && same_status a.status b.status
    && same_time a.started_at b.started_at
    && same_time a.completed_at b.completed_at
    && same_error a.error b.error
    && same_text a.artifact_ref b.artifact_ref

-- `isinstance(owner, str) and owner.strip()`, `token >= 1`
abbrev pub is_claim : Epoch → Bool
is_claim e =
    elim e.lease_owner [ none ↦ false | some owner ↦ not (is_blank owner) ]
    && elim e.fencing_token [ none ↦ false | some token ↦ leb 1 token ]

-- `_is_valid_tool_invocation_execution_claim`: `PENDING` becomes `STARTED`, and the epoch is set.
unfoldable pub is_valid_claim : Invocation → Invocation → Option Status → Bool
unfolding same_identity
is_valid_claim stored proposed expected =
    elim expected [ none ↦ false | some s ↦ is_pending s ]
    && is_started proposed.status
    && is_none stored.execution.lease_owner
    && is_none stored.execution.fencing_token
    && is_claim proposed.execution
    && same_identity stored.identity proposed.identity

-- `expected_status is not None and row.status != expected`
abbrev pub expects_status : Option Status → Status → Bool
expects_status none s = true
expects_status (some expected) s = same_status expected s

abbrev pub with_update : Invocation → Option String → Row → Row
with_update v result row = record row {
  invocation = v;
  result = if is_some result then result else row.result;
}

unfoldable pub get_tool_invocation : ℕ → List Row → Result (Option Invocation)
get_tool_invocation id rows = elim (find row_key id rows) [
  | none ↦ ok none
  | some row ↦ do guard row.intact invocation_conflict; ok (some row.invocation)
]

-- `build_fingerprint`, with the empty objective: the hash of the canonical JSON of the tool's name
-- and its arguments is given.
module _ (digest : String → String → String) where
  abbrev pub fingerprint_agrees : Invocation → Bool
  fingerprint_agrees v =
      str_eq v.identity.fingerprint (digest v.identity.tool_name v.identity.effective_arguments)

  unfoldable pub save_tool_invocation :
      Invocation → Option String → Option ℕ → ℕ → Db → List Row → Result (Invocation × List Row)
  unfolding same_invocation
  save_tool_invocation v lease_owner fencing_token now db rows = do
    guard (fingerprint_agrees v) invocation_conflict
    run ← require_active_run_lease db v.identity.run_id lease_owner fencing_token false now
    elim (find row_key v.identity.invocation_id rows) [
      | none ↦ ok (v, record { invocation = v; result = none; intact = true } ∷ rows)
      | some existing ↦ do
        guard existing.intact invocation_conflict
        guard (same_invocation existing.invocation v) invocation_conflict
        ok (v, rows)
    ]

  unfoldable pub update_tool_invocation :
      Invocation
      → Option String
      → Option Status
      → Option String
      → Option ℕ
      → ℕ
      → Db
      → List Row
      → Result (Invocation × List Row)
  unfolding same_identity same_epoch is_valid_claim
  update_tool_invocation v result expected lease_owner fencing_token now db rows =
      elim (find row_key v.identity.invocation_id rows) [
        | none ↦ err invocation_conflict
        | some row ↦ do
          run ←
              require_active_run_lease db row.invocation.identity.run_id lease_owner fencing_token
                false now
          guard row.intact invocation_conflict
          guard (fingerprint_agrees v) invocation_conflict
          guard
              ((same_identity row.invocation.identity v.identity
                  && same_epoch row.invocation.execution v.execution)
                || is_valid_claim row.invocation v expected)
              invocation_conflict
          guard (expects_status expected row.invocation.status) invocation_conflict
          ok (v, modify row_key v.identity.invocation_id (with_update v result) rows)
      ]
