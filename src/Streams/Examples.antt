-- ===== src/Streams/Examples.antt =====
-- The stream and the checkpoints of the run of Runs/Samples.antt, which worker B holds.
use database_alert_agent.Prelude.{
  ℕ, String, str_eq, ◌+◌, ◌≡◌, refl, false, none, some, [], ◌∷◌, ok, err, arith, length, ◌==◌, find,
  sequence_conflict, if◌then◌else◌,
}
use database_alert_agent.Database.{Event, Checkpoint, Run, Db}
use database_alert_agent.Runs.{require_active_run_lease, holds_lease}
use database_alert_agent.Runs.Claims.Reclaim.{latest_checkpoint, recovery_error}
use database_alert_agent.Runs.Samples.{held_by_b, run_b, checkpoint}
use database_alert_agent.Streams.{
  append_agent_events, list_agent_events, get_agent_event_sequence, check_events, latest_sequence,
  add_events, has_event, last_sequence, events_after, committed, sink_append, save_checkpoint,
  latest_version, has_checkpoint,
}
use database_alert_agent.Streams.Append.{IsStreams, append-list, second_writer_conflicts}
use database_alert_agent.Streams.Sink.{
  Memory, memory_append, Refines, last_version, is_listed, sink_append-memory_append,
}
use database_alert_agent.Streams.Checkpoints.{save-recover}

abbrev redact : String → String
redact payload = if str_eq payload "{token}" then "{***}" else payload

abbrev new : Event
new = record {
  event_id = 1;
  run_id = 7;
  sequence = 0;
  version = 0;
  kind = "RUN_STARTED";
  payload = "{}";
}

abbrev first : Event
first = committed 1 new

abbrev second : Event
second = record first {
  event_id = 2;
  sequence = 2;
  version = 2;
  kind = "TRACE_ACTION";
  payload = "{token}";
}

abbrev redacted : Event
redacted = record second { payload = "{***}" }

abbrev appended : Db
appended = record held_by_b { events = redacted ∷ first ∷ [] }

append :
    append_agent_events redact 7 (first ∷ second ∷ []) 0 (some "B") (some 2) 70000000 held_by_b
    ≡ ok (2, appended)
unfolding append_agent_events check_events require_active_run_lease find holds_lease latest_sequence
    add_events has_event last_sequence
append = refl

leased : require_active_run_lease held_by_b 7 (some "B") (some 2) false 70000000 ≡ ok run_b
unfolding require_active_run_lease find holds_lease
leased = refl

empty : IsStreams held_by_b.events
empty run_id = tt

append-list_example :
    IsStreams appended.events
    × (2 ≡ 0 + length (first ∷ second ∷ []))
    × (get_agent_event_sequence 7 appended ≡ 2)
    × (list_agent_events 7 0 none appended ≡ ok (first ∷ redacted ∷ []))
    × ((other after : ℕ)
        → (7 == other) ≡ false
        → list_agent_events other after none appended
          ≡ list_agent_events other after none held_by_b)
append-list_example =
    append-list redact 7 (first ∷ second ∷ []) 0 (some "B") (some 2) 70000000 2 held_by_b appended
      empty append

second_writer_conflicts_example :
    append_agent_events redact 7 (first ∷ []) 0 (some "B") (some 2) 70000001 appended
    ≡ err (sequence_conflict 0 2)
unfolding check_events require_active_run_lease find holds_lease
second_writer_conflicts_example =
    second_writer_conflicts redact 7 (first ∷ second ∷ []) (first ∷ []) 0 (some "B") (some "B")
      (some 2) (some 2) 70000000 70000001 2 held_by_b appended run_b empty append (omega arith) refl
      refl

abbrev nothing : Memory
nothing = record { streams = λ run_id. []; event_ids = [] }

abbrev one : Memory
one = record { streams = λ run_id. if 7 == run_id then first ∷ [] else []; event_ids = 1 ∷ [] }

nothing-Refines : Refines nothing held_by_b
unfolding events_after is_listed has_event
nothing-Refines = record {
  contiguous = empty;
  versions = λ e i. absurd i;
  streams = λ run_id. refl;
  event_ids = λ id. refl;
}

taken : memory_append new (some 0) nothing ≡ ok (first, one)
unfolding memory_append last_version is_listed
taken = refl

sink_append-memory_append_example :
    (db' : Db) × (sink_append redact new (some 0) (some "B") (some 2) 70000000 held_by_b
      ≡ ok (first, db'))
    × Refines one db'
sink_append-memory_append_example =
    sink_append-memory_append redact new nothing held_by_b nothing-Refines (some 0) (some "B")
      (some 2) 70000000 run_b first one taken leased

abbrev next_checkpoint : Checkpoint
next_checkpoint = record checkpoint { checkpoint_id = 4; version = 2; sequence = 6 }

abbrev checkpointed : Db
checkpointed = record held_by_b { checkpoints = next_checkpoint ∷ checkpoint ∷ [] }

saved :
    save_checkpoint next_checkpoint 1 (some "B") (some 2) 70000000 held_by_b
    ≡ ok (next_checkpoint, checkpointed)
unfolding save_checkpoint require_active_run_lease find holds_lease latest_version has_checkpoint
saved = refl

save-recover_example :
    (r : Run) × (require_active_run_lease held_by_b 7 (some "B") (some 2) false 70000000 ≡ ok r)
    × (latest_checkpoint 7 "agent" checkpointed.checkpoints ≡ some next_checkpoint)
    × (recovery_error r (latest_checkpoint 7 "agent" checkpointed.checkpoints) ≡ none)
save-recover_example =
    save-recover next_checkpoint next_checkpoint 1 (some "B") (some 2) 70000000 held_by_b
      checkpointed saved refl refl
