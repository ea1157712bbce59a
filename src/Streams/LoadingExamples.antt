-- ===== src/Streams/LoadingExamples.antt =====
-- Checkpoints that are read back, and writes that are put twice, on the run of Runs/Samples.antt.
use database_alert_agent.Prelude.{
  String, ◌≡◌, refl, true, false, Bool, none, some, [], ◌∷◌, ok, find,
}
use database_alert_agent.Database.{Checkpoint, Db}
use database_alert_agent.Runs.{require_active_run_lease, holds_lease}
use database_alert_agent.Runs.Samples.{held_by_b, run_b, checkpoint}
use database_alert_agent.Streams.{save_checkpoint, latest_version, has_checkpoint}
use database_alert_agent.Streams.Loading.{
  load_checkpoint, load_checkpoint_by_id, list_checkpoints, insert_by_version, list-load, mapped,
  listed,
}
use database_alert_agent.Streams.Loaded.{save-load}
use database_alert_agent.Streams.Writes.{regular, CheckpointWrite, WriteRow, put_checkpoint_writes}
use database_alert_agent.Streams.Retried.{here, next, put_checkpoint_writes_again}

abbrev next_checkpoint : Checkpoint
next_checkpoint = record checkpoint { checkpoint_id = 4; version = 2; sequence = 6 }

abbrev checkpointed : Db
checkpointed = record held_by_b { checkpoints = next_checkpoint ∷ checkpoint ∷ [] }

saved :
    save_checkpoint next_checkpoint 1 (some "B") (some 2) 70000000 held_by_b
    ≡ ok (next_checkpoint, checkpointed)
unfolding save_checkpoint require_active_run_lease find holds_lease latest_version has_checkpoint
saved = refl

both-listed :
    list_checkpoints 7 "agent" none none checkpointed ≡ ok (next_checkpoint ∷ checkpoint ∷ [])
unfolding list_checkpoints insert_by_version find
both-listed = refl

older-listed : list_checkpoints 7 "agent" (some 2) none checkpointed ≡ ok (checkpoint ∷ [])
unfolding list_checkpoints insert_by_version find
older-listed = refl

list-load_example :
    list_checkpoints 7 "agent" none (some 1) checkpointed
    ≡ mapped listed (load_checkpoint 7 "agent" checkpointed)
list-load_example = list-load 7 "agent" checkpointed

save-load_example :
    (load_checkpoint 7 "agent" checkpointed ≡ ok (some next_checkpoint))
    × (load_checkpoint_by_id 7 4 "agent" checkpointed ≡ ok (some next_checkpoint))
save-load_example =
    save-load next_checkpoint next_checkpoint 1 (some "B") (some 2) 70000000 held_by_b checkpointed
      saved refl

abbrev is_base64 : String → Bool
is_base64 s = true

abbrev result : CheckpointWrite
result = record {
  task_id = "t";
  write_index = regular 0;
  channel = "evidence";
  value_type = "json";
  value_base64 = "e30=";
  task_path = "";
}

abbrev stored : WriteRow
stored = record {
  run_id = 7;
  checkpoint_id = 4;
  write = result;
  created_at = 70000000;
  updated_at = 70000000;
}

put :
    put_checkpoint_writes is_base64 7 4 (result ∷ result ∷ []) "B" 2 70000000 checkpointed []
    ≡ ok (stored ∷ [])
unfolding put_checkpoint_writes require_active_run_lease find holds_lease
put = refl

still_leased : require_active_run_lease checkpointed 7 (some "B") (some 2) false 70000001 ≡ ok run_b
unfolding require_active_run_lease find holds_lease
still_leased = refl

-- Meanwhile another checkpoint gets the same write.
abbrev later : WriteRow
later = record stored { checkpoint_id = 2 }

put_elsewhere :
    put_checkpoint_writes is_base64 7 2 (result ∷ []) "B" 2 70000000 checkpointed (stored ∷ [])
    ≡ ok (stored ∷ later ∷ [])
unfolding put_checkpoint_writes require_active_run_lease find holds_lease
put_elsewhere = refl

put_checkpoint_writes_again_example :
    put_checkpoint_writes is_base64 7 4
      (result ∷ result ∷ [])
      "B"
      2
      70000001
      checkpointed
      (stored ∷ later ∷ [])
    ≡ ok (stored ∷ later ∷ [])
put_checkpoint_writes_again_example =
    put_checkpoint_writes_again is_base64 7 4 (result ∷ result ∷ []) "B" "B" 2 2 70000000 70000001
      checkpointed checkpointed [] (stored ∷ []) (stored ∷ later ∷ []) run_b put
      (next 7 2 (result ∷ []) "B" 2 70000000 checkpointed here put_elsewhere) still_leased refl
