-- ===== src/Streams.antt =====
-- The event stream and the checkpoints of a run: `append_agent_events`, `list_agent_events`,
-- `get_agent_event_sequence` and `save_checkpoint` of app/adapters/persistence.py, and the sink
-- `RepositoryEventSink` of app/agent_runtime/persistence.py. What sanitization makes of a payload is given.
pub mod Order
pub mod Append
pub mod Sink
pub mod Checkpoints
pub mod Loading
pub mod Loaded
pub mod Writes
pub mod Retried
mod Examples
mod LoadingExamples
use database_alert_agent.Prelude.{
  ℕ, zero, suc, ◌+◌, String, ◌≡◌, refl, Bool, true, false, not, ◌&&◌, ◌||◌, Option, none, some,
  List, [], ◌∷◌, Result, ok, err, guard, ◌>>=◌, ◌>>◌, Error, value_error, runtime_error,
  sequence_conflict, checkpoint_conflict, ◌==◌, ltb, leb, str_eq, holds, if◌then◌else◌, is_some,
  take, map,
}
use database_alert_agent.Database.{Event, Checkpoint, Manifest, Run, Db}
use database_alert_agent.Runs.{require_active_run_lease}
use database_alert_agent.Runs.Claims.Reclaim.{manifest_error, manifest_digest}

-- `where(run_id == ...).order_by(desc(sequence)).limit(1)`, or 0
unfoldable pub latest_sequence : ℕ → List Event → ℕ
latest_sequence run_id [] = 0
latest_sequence run_id (e ∷ es) =
    let rest = latest_sequence run_id es in
    if e.run_id == run_id && ltb rest e.sequence then e.sequence else rest

unfoldable pub get_agent_event_sequence : ℕ → Db → ℕ
get_agent_event_sequence run_id db = latest_sequence run_id db.events

-- The events belong to the run, and are numbered from the given sequence on.
unfoldable pub check_events : ℕ → ℕ → List Event → Bool
check_events run_id expected [] = true
check_events run_id expected (e ∷ es) =
    e.run_id == run_id
    && e.sequence == expected + 1
    && e.version == expected + 1
    && check_events run_id (expected + 1) es

unfoldable pub has_event : ℕ → List Event → Bool
has_event id [] = false
has_event id (e ∷ es) = e.event_id == id || has_event id es

-- The rows are added in turn. `none` where one has an id that the table has, which the commit
-- refuses.
unfoldable pub add_events : List Event → List Event → Option (List Event)
add_events [] rows = some rows
add_events (e ∷ es) rows =
    let rest = add_events es (e ∷ rows) in if has_event e.event_id rows then none else rest

unfoldable pub last_sequence : ℕ → List Event → ℕ
last_sequence n [] = n
last_sequence n (e ∷ es) = last_sequence e.sequence es

-- `_safe_agent_event_payload`
abbrev pub sanitized : (String → String) → Event → Event
sanitized safe e = record e { payload = safe e.payload }

unfoldable pub append_agent_events :
    (safe : String → String)
    → ℕ
    → List Event
    → ℕ
    → Option String
    → Option ℕ
    → ℕ
    → Db
    → Result (ℕ × Db)
append_agent_events safe run_id events expected lease_owner fencing_token now db = do
  guard (check_events run_id expected events) value_error
  run ← require_active_run_lease db run_id lease_owner fencing_token false now
  let actual = latest_sequence run_id db.events
  guard (actual == expected) (sequence_conflict expected actual)
  elim (add_events (map (sanitized safe) events) db.events) [
    | none ↦ err (sequence_conflict expected actual)
    | some rows ↦ ok (last_sequence actual events, record db { events = rows })
  ]

-- `order_by(sequence)`
unfoldable pub insert_by_sequence : Event → List Event → List Event
insert_by_sequence e [] = e ∷ []
insert_by_sequence e (x ∷ xs) =
    if leb e.sequence x.sequence then e ∷ x ∷ xs else x ∷ insert_by_sequence e xs

-- `where(run_id == ..., sequence > after_sequence).order_by(sequence)`
unfoldable pub events_after : ℕ → ℕ → List Event → List Event
events_after run_id after [] = []
events_after run_id after (e ∷ es) =
    let rest = events_after run_id after es in
    if e.run_id == run_id && ltb after e.sequence then insert_by_sequence e rest else rest

unfoldable pub list_agent_events : ℕ → ℕ → Option ℕ → Db → Result (List Event)
list_agent_events run_id after_sequence none db = ok (events_after run_id after_sequence db.events)
list_agent_events run_id after_sequence (some limit) db = do
  guard (ltb 0 limit) value_error
  ok (take limit (events_after run_id after_sequence db.events))

unfoldable pub latest_version : ℕ → String → List Checkpoint → ℕ
latest_version run_id namespace [] = 0
latest_version run_id namespace (c ∷ cs) =
    let rest = latest_version run_id namespace cs in
    if c.run_id == run_id && str_eq c.namespace namespace && ltb rest c.version
    then c.version
    else rest

unfoldable pub has_checkpoint : ℕ → List Checkpoint → Bool
has_checkpoint id [] = false
has_checkpoint id (c ∷ cs) = c.checkpoint_id == id || has_checkpoint id cs

-- `_decode_run_manifest(row).digest()`
abbrev pub run_digest : Run → Result String
run_digest run = elim (manifest_error run) [
  | some e ↦ err runtime_error
  | none ↦ ok (manifest_digest run)
]

unfoldable pub save_checkpoint :
    Checkpoint → ℕ → Option String → Option ℕ → ℕ → Db → Result (Checkpoint × Db)
save_checkpoint c expected lease_owner fencing_token now db = do
  guard (c.version == expected + 1) value_error
  run ← require_active_run_lease db c.run_id lease_owner fencing_token false now
  digest ← run_digest run
  guard (str_eq c.manifest_hash digest) runtime_error
  let actual = latest_version c.run_id c.namespace db.checkpoints
  guard (actual == expected) (checkpoint_conflict expected actual)
  guard (not (has_checkpoint c.checkpoint_id db.checkpoints)) (checkpoint_conflict expected actual)
  ok (c, record db { checkpoints = c ∷ db.checkpoints })

-- `RepositoryEventSink.append`: an uncommitted event takes the next number of the stream, and is
-- read back. A version conflict is `sequence_conflict`.
abbrev pub committed : ℕ → Event → Event
committed version e = record e { sequence = version; version = version }

unfoldable pub find_event : ℕ → List Event → Option Event
find_event id [] = none
find_event id (e ∷ es) = if e.event_id == id then some e else find_event id es

-- `if expected_version is not None and expected_version != actual_version`
abbrev pub expects : Option ℕ → ℕ → Result (Unit {0})
expects none actual = ok tt
expects (some expected) actual = guard (expected == actual) (sequence_conflict expected actual)

unfoldable pub sink_append :
    (safe : String → String)
    → Event
    → Option ℕ
    → Option String
    → Option ℕ
    → ℕ
    → Db
    → Result (Event × Db)
sink_append safe e expected_version lease_owner fencing_token now db = do
  guard (e.sequence == 0 && e.version == 0) value_error
  let actual = get_agent_event_sequence e.run_id db
  expects expected_version actual
  (n, db') ←
      append_agent_events safe e.run_id (committed (actual + 1) e ∷ []) actual lease_owner
        fencing_token now db
  stored ← list_agent_events e.run_id actual none db'
  elim (find_event e.event_id stored) [
    | none ↦ err runtime_error
    | some matched ↦ ok (matched, db')
  ]
