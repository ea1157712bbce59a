-- ===== src/Streams/Writes.antt =====
-- The pending writes of a checkpoint: `put_checkpoint_writes` and `list_checkpoint_writes` of
-- app/adapters/persistence.py, with the rows in the order of their ids. Whether a text is base64 is given.
use database_alert_agent.Prelude.{
  ℕ, String, Bool, true, false, not, ◌&&◌, some, List, [], ◌∷◌, Result, ok, guard, ◌>>=◌, ◌>>◌,
  value_error, ◌==◌, str_eq, holds, if◌then◌else◌, find,
}
use database_alert_agent.Database.{Db}
use database_alert_agent.Runs.{require_active_run_lease}

-- A write index is negative for a special channel: `special n` is -1 - n.
pub data WriteIndex : Type 0 where
  regular special : ℕ → WriteIndex

pub record CheckpointWrite : Type 0 where
  pub task_id : String
  pub write_index : WriteIndex
  pub channel : String
  pub value_type : String
  pub value_base64 : String
  pub task_path : String

pub record WriteRow : Type 0 where
  pub run_id : ℕ
  pub checkpoint_id : ℕ
  pub write : CheckpointWrite
  pub created_at : ℕ
  pub updated_at : ℕ

abbrev pub same_index : WriteIndex → WriteIndex → Bool
same_index (regular n) (regular m) = n == m
same_index (special n) (special m) = n == m
same_index _ _ = false

abbrev pub is_regular : WriteIndex → Bool
is_regular (regular n) = true
is_regular (special n) = false

-- The key of a row: its run, its checkpoint, its task and its index.
abbrev pub has_key : ℕ → ℕ → CheckpointWrite → WriteRow → Bool
has_key run_id checkpoint_id w r =
    r.run_id == run_id
    && r.checkpoint_id == checkpoint_id
    && str_eq r.write.task_id w.task_id
    && same_index r.write.write_index w.write_index

abbrev pub overwritten : CheckpointWrite → ℕ → WriteRow → WriteRow
overwritten w now r = record r {
  write = record w { task_id = r.write.task_id; write_index = r.write.write_index };
  updated_at = now;
}

-- One write: a stored regular write stays, a stored special one takes the new value.
unfoldable pub put_write : ℕ → ℕ → ℕ → CheckpointWrite → List WriteRow → List WriteRow
put_write run_id checkpoint_id now w [] =
    record {
      run_id = run_id;
      checkpoint_id = checkpoint_id;
      write = w;
      created_at = now;
      updated_at = now;
    }
    ∷ []
put_write run_id checkpoint_id now w (r ∷ rs) =
    let rest = put_write run_id checkpoint_id now w rs in
    if has_key run_id checkpoint_id w r
    then (if is_regular w.write_index then r else overwritten w now r) ∷ rs
    else r ∷ rest

unfoldable pub put_writes : ℕ → ℕ → ℕ → List CheckpointWrite → List WriteRow → List WriteRow
unfolding put_write
put_writes run_id checkpoint_id now [] rows = rows
put_writes run_id checkpoint_id now (w ∷ ws) rows =
    put_writes run_id checkpoint_id now ws (put_write run_id checkpoint_id now w rows)

abbrev pub is_valid_write : (String → Bool) → CheckpointWrite → Bool
is_valid_write is_base64 w =
    not (str_eq w.task_id "")
    && not (str_eq w.channel "")
    && not (str_eq w.value_type "")
    && is_base64 w.value_base64

abbrev pub all_writes : (CheckpointWrite → Bool) → List CheckpointWrite → Bool
all_writes p [] = true
all_writes p (w ∷ ws) = p w && all_writes p ws

unfoldable pub put_checkpoint_writes :
    (String → Bool)
    → ℕ
    → ℕ
    → List CheckpointWrite
    → String
    → ℕ
    → ℕ
    → Db
    → List WriteRow
    → Result (List WriteRow)
unfolding put_writes
put_checkpoint_writes is_base64 run_id checkpoint_id writes lease_owner fencing_token now db rows =
    do
      guard (all_writes (is_valid_write is_base64) writes) value_error
      run ← require_active_run_lease db run_id (some lease_owner) (some fencing_token) false now
      ok (put_writes run_id checkpoint_id now writes rows)

abbrev pub writes_of : ℕ → ℕ → List WriteRow → List CheckpointWrite
writes_of run_id checkpoint_id [] = []
writes_of run_id checkpoint_id (r ∷ rs) =
    let rest = writes_of run_id checkpoint_id rs in
    if r.run_id == run_id && r.checkpoint_id == checkpoint_id then r.write ∷ rest else rest

unfoldable pub list_checkpoint_writes : ℕ → ℕ → Db → List WriteRow → List CheckpointWrite
unfolding find
list_checkpoint_writes run_id checkpoint_id db rows =
    if holds (λ c. c.run_id == run_id) (find (λ c. c.checkpoint_id) checkpoint_id db.checkpoints)
    then writes_of run_id checkpoint_id rows
    else []
