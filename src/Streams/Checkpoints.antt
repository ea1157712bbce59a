-- ===== src/Streams/Checkpoints.antt =====
-- The versions of the checkpoints of a run.
use database_alert_agent.Prelude.{
  ℕ, sym, ◌+◌, ◌<◌, String, ◌≡◌, refl, true, false, not, ◌&&◌, Option, none, some, inl, inr,
  Bool-cases, List, [], ◌∷◌, ok, err, checkpoint_conflict, arith, subst, ap, ◌∙◌, Ensures,
  Ensures-ok, Ensures-guard, Ensures-bind, ◌≤◌, runtime_error, value_error, ◌==◌, ltb, str_eq,
  str_eq_refl, if◌then◌else◌,
}
use database_alert_agent.Database.{Checkpoint, Run, Db}
use database_alert_agent.Runs.{require_active_run_lease}
use database_alert_agent.Runs.Claims.Reclaim.{
  newer, latest_checkpoint, manifest_error, manifest_digest, recovery_error,
}
use database_alert_agent.Streams.{latest_version, has_checkpoint, run_digest, save_checkpoint}

-- What a save that returns has tested and written.
pub record Saved (c : Checkpoint) (expected : ℕ) (owner : Option String) (token : Option ℕ)
    (now : ℕ) (db : Db) (out : Checkpoint × Db) : Type 0 where
  pub run : Run
  pub leased : require_active_run_lease db c.run_id owner token false now ≡ ok run
  pub decoded : manifest_error run ≡ none
  pub same_manifest : str_eq c.manifest_hash (manifest_digest run) ≡ true
  pub version : c.version ≡ expected + 1
  pub latest : latest_version c.run_id c.namespace db.checkpoints ≡ expected
  pub returned : out.0 ≡ c
  pub same_runs : out.1.runs ≡ db.runs
  pub written : out.1.checkpoints ≡ c ∷ db.checkpoints

digest_of :
    (o : Option String) (digest d : String)
    → elim o [ some e ↦ err runtime_error | none ↦ ok digest ] ≡ ok d
    → (o ≡ none) × (d ≡ digest)
digest_of none digest d h = (refl, cc)
digest_of (some e) digest d h = absurd (ground arith)

pub save_checkpoint-Saved :
    (c : Checkpoint) (expected : ℕ) (owner : Option String) (token : Option ℕ) (now : ℕ) (db : Db)
    → Ensures (Saved c expected owner token now db) (save_checkpoint c expected owner token now db)
unfolding save_checkpoint
save_checkpoint-Saved c expected owner token now db =
    Ensures-guard Q (c.version == expected + 1) value_error _ λ v.
      Ensures-bind Q (require_active_run_lease db c.run_id owner token false now) _ λ r l.
        Ensures-bind Q (run_digest r) _ λ d e.
          Ensures-guard Q (str_eq c.manifest_hash d) runtime_error _ λ s.
            Ensures-guard Q (actual == expected) (checkpoint_conflict expected actual) _ λ a.
              Ensures-guard Q (not (has_checkpoint c.checkpoint_id db.checkpoints))
                (checkpoint_conflict expected actual) _
                λ _.
                  let (decoded, same) = digest_of (manifest_error r) (manifest_digest r) d e in
                  Ensures-ok Q (c, record db { checkpoints = c ∷ db.checkpoints })
                    (record {
                      run = r;
                      leased = l;
                      decoded = decoded;
                      same_manifest = subst (λ x. str_eq c.manifest_hash x ≡ true) same s;
                      version = ground arith;
                      latest = ground arith;
                      returned = refl;
                      same_runs = refl;
                      written = refl;
                    })
  where
    actual : ℕ
    actual = latest_version c.run_id c.namespace db.checkpoints

    Q : Checkpoint × Db → Type 0
    Q = Saved c expected owner token now db

newer-bound :
    (c : Checkpoint) (o : Option Checkpoint) (n : ℕ)
    → ((d : Checkpoint) → o ≡ some d → d.version ≤ n)
    → (newer c o).version ≤ (if ltb n c.version then c.version else n)
newer-bound c none n h = ground arith
newer-bound c (some d) n h = ground (arith, h d refl)

newer-first :
    (c : Checkpoint) (o : Option Checkpoint) (n : ℕ)
    → ((d : Checkpoint) → o ≡ some d → d.version ≤ n)
    → n < c.version
    → newer c o ≡ c
newer-first c none n h l = refl
newer-first c (some d) n h l = ground (arith, h d refl)

latest_checkpoint-bound :
    (run_id : ℕ) (namespace : String) (cs : List Checkpoint) (d : Checkpoint)
    → latest_checkpoint run_id namespace cs ≡ some d
    → d.version ≤ latest_version run_id namespace cs
unfolding latest_checkpoint latest_version
latest_checkpoint-bound run_id namespace [] d h = absurd (ground arith)
latest_checkpoint-bound run_id namespace (c ∷ cs) d h =
    let rest =
      newer-bound c (latest_checkpoint run_id namespace cs) (latest_version run_id namespace cs)
        (latest_checkpoint-bound run_id namespace cs) in
    elim (Bool-cases (c.run_id == run_id && str_eq c.namespace namespace)) [
      | inl t ↦
          let q : newer c (latest_checkpoint run_id namespace cs) ≡ d = ground arith in
          ground (arith, rest, ap (λ x. x.version) q)
      | inr t ↦ ground (arith, latest_checkpoint-bound run_id namespace cs d)
    ]

pub latest_checkpoint-first :
    (c : Checkpoint) (cs : List Checkpoint)
    → latest_version c.run_id c.namespace cs < c.version
    → latest_checkpoint c.run_id c.namespace (c ∷ cs) ≡ some c
unfolding latest_checkpoint
latest_checkpoint-first c cs h =
    let first =
      newer-first c (latest_checkpoint c.run_id c.namespace cs)
        (latest_version c.run_id c.namespace cs) (latest_checkpoint-bound c.run_id c.namespace cs)
        h in
    let t : (c.run_id == c.run_id && str_eq c.namespace c.namespace) ≡ true =
      ground (arith, str_eq_refl c.namespace) in
    rw (t, first)

-- A checkpoint of the namespace "agent", which is where a recovery looks, that a save returns is the one
-- that a recovery of the run finds then, and it can be resumed: the run still has its manifest, and the
-- checkpoint agrees with it. The stored row must not be damaged.
pub save-recover :
    (c c' : Checkpoint) (expected : ℕ) (owner : Option String) (token : Option ℕ) (now : ℕ)
    (db db' : Db)
    → save_checkpoint c expected owner token now db ≡ ok (c', db')
    → c.intact ≡ true
    → c.namespace ≡ "agent"
    → (r : Run) × (require_active_run_lease db c.run_id owner token false now ≡ ok r)
      × (latest_checkpoint c.run_id "agent" db'.checkpoints ≡ some c)
      × (recovery_error r (latest_checkpoint c.run_id "agent" db'.checkpoints) ≡ none)
unfolding recovery_error
save-recover c c' expected owner token now db db' h i agent =
    let z = (save_checkpoint-Saved c expected owner token now db).at (c', db') h in
    let found : latest_checkpoint c.run_id "agent" db'.checkpoints ≡ some c =
      ap (λ n. latest_checkpoint c.run_id n db'.checkpoints) (sym agent)
      ∙ ap (latest_checkpoint c.run_id c.namespace) z.written
      ∙ latest_checkpoint-first c db.checkpoints (omega (arith, z.latest, z.version)) in
    (z.run, z.leased, found, ground (arith, found, z.decoded, i, z.same_manifest))

-- Of two writers who know the same version of a checkpoint, the second one raises the conflict, with
-- the version that it did not know.
second_save_conflicts :
    (c d c' : Checkpoint) (expected : ℕ) (owner : Option String) (token : Option ℕ) (now now' : ℕ)
    (db db' : Db) (r : Run)
    → save_checkpoint c expected owner token now db ≡ ok (c', db')
    → d.run_id ≡ c.run_id
    → d.namespace ≡ c.namespace
    → d.version ≡ expected + 1
    → require_active_run_lease db' d.run_id owner token false now' ≡ ok r
    → run_digest r ≡ ok d.manifest_hash
    → save_checkpoint d expected owner token now' db'
      ≡ err (checkpoint_conflict expected (expected + 1))
unfolding save_checkpoint latest_version
second_save_conflicts c d c' expected owner token now now' db db' r h p q v l m =
    let z = (save_checkpoint-Saved c expected owner token now db).at (c', db') h in
    let top : latest_version d.run_id d.namespace db'.checkpoints ≡ expected + 1 =
      ap (latest_version d.run_id d.namespace) z.written
      ∙ ground (arith, str_eq_refl c.namespace, z.latest, z.version) in
    ground (arith, top, str_eq_refl d.manifest_hash)
