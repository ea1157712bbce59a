-- ===== src/Streams/Loaded.antt =====
-- What is read of a checkpoint that was saved.
use database_alert_agent.Prelude.{
  ℕ, String, ◌≡◌, refl, ap, ◌∙◌, true, false, Option, none, some, ok, str_eq, str_eq_refl, ==_refl,
  arith, find,
}
use database_alert_agent.Database.{Checkpoint, Run, Db}
use database_alert_agent.Runs.{get_run, require_active_run_lease, to_fence}
use database_alert_agent.Runs.Claims.Reclaim.{latest_checkpoint, manifest_error, manifest_digest}
use database_alert_agent.Streams.{save_checkpoint}
use database_alert_agent.Streams.Checkpoints.{save_checkpoint-Saved, latest_checkpoint-first}
use database_alert_agent.Streams.Loading.{
  decode_row, decode_found, only, in_stream, load_checkpoint, load_checkpoint_by_id,
}

leased_run :
    (db : Db) (run_id : ℕ) (owner : Option String) (token : Option ℕ) (now : ℕ) (r : Run)
    → require_active_run_lease db run_id owner token false now ≡ ok r
    → get_run db run_id ≡ some r
unfolding require_active_run_lease to_fence
leased_run db run_id none none now r h = ground arith
leased_run db run_id none (some token) now r h = ground arith
leased_run db run_id (some owner) none now r h = ground arith
leased_run db run_id (some owner) (some token) now r h = ground arith

decoded :
    (db : Db) (c : Checkpoint) (r : Run)
    → get_run db c.run_id ≡ some r
    → manifest_error r ≡ none
    → c.intact ≡ true
    → str_eq c.manifest_hash (manifest_digest r) ≡ true
    → decode_row c.run_id db c ≡ ok c
unfolding decode_row
decoded db c r f m i s = ground (arith, f, m, i, s)

-- A checkpoint that a save returns, and whose stored row is not damaged, is what a load of the stream and a
-- load by its id give.
pub save-load :
    (c c' : Checkpoint) (expected : ℕ) (owner : Option String) (token : Option ℕ) (now : ℕ)
    (db db' : Db)
    → save_checkpoint c expected owner token now db ≡ ok (c', db')
    → c.intact ≡ true
    → (load_checkpoint c.run_id c.namespace db' ≡ ok (some c))
      × (load_checkpoint_by_id c.run_id c.checkpoint_id c.namespace db' ≡ ok (some c))
unfolding load_checkpoint load_checkpoint_by_id
save-load c c' expected owner token now db db' h i =
    let z = (save_checkpoint-Saved c expected owner token now db).at (c', db') h in
    let found : latest_checkpoint c.run_id c.namespace db'.checkpoints ≡ some c =
      ap (latest_checkpoint c.run_id c.namespace) z.written
      ∙ latest_checkpoint-first c db.checkpoints (omega (arith, z.latest, z.version)) in
    let run : get_run db' c.run_id ≡ some z.run =
      ap (λ rs. find (λ r. r.id) c.run_id rs) z.same_runs
      ∙ leased_run db c.run_id owner token now z.run z.leased in
    let row = decoded db' c z.run run z.decoded i z.same_manifest in
    let by_id : find (λ x. x.checkpoint_id) c.checkpoint_id db'.checkpoints ≡ some c =
      ap (find (λ x. x.checkpoint_id) c.checkpoint_id) z.written
      ∙ rw (find, ==_refl c.checkpoint_id) refl in
    let is_own : in_stream c.run_id c.namespace c ≡ true =
      rw (==_refl c.run_id, str_eq_refl c.namespace) refl in
    let kept : only (in_stream c.run_id c.namespace) (some c) ≡ some c = rw is_own refl in
    let loaded : decode_found c.run_id db' (some c) ≡ ok (some c) = rw row refl in
    (
      ap (decode_found c.run_id db') found ∙ loaded,
      ap (λ o. decode_found c.run_id db' (only (in_stream c.run_id c.namespace) o)) by_id
          ∙ ap (decode_found c.run_id db') kept
          ∙ loaded,
    )
