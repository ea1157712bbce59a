-- ===== src/Runs/Takeover.antt =====
-- What a takeover of an expired run finds and writes.
use database_alert_agent.Prelude.{
  ℕ, ◌+◌, ◌≡◌, refl, true, false, not, Option, none, some, arith, ltb, is_some, is_blank,
  find-modify_self, ok, Ensures, Ensures-ok, Ensures-guard, Ensures-bind, Ensures-if,
  Ensures-option, if_split, option_split, handed_out, value_error,
}
use database_alert_agent.Database.{Run, Db, is_running, is_paused, seconds}
use database_alert_agent.Dispatch.{the_dispatch}
use database_alert_agent.Runs.{run_key, get_run, get_alert, latest_run}
use database_alert_agent.Runs.Claims.Defs.{Claim, lease_is_active}
use database_alert_agent.Runs.Claims.Reclaim.{
  reclaimed, take_over, reclaim_latest, reclaim_expired_run, recovery_error, latest_checkpoint,
}
use database_alert_agent.Runs.Consistency.{IsConsistent, latest_run-In}
use database_alert_agent.Runs.Steps.Start.{In-find}

-- A takeover is of the latest run of the alert, which runs and whose lease has ended, which nobody
-- asked to cancel, and whose checkpoint and manifest can be resumed. The run keeps its identity and
-- attempt; its token is the next one, its lease the caller's, and the row is in the database.
pub record TakenOver (c : Claim) (now : ℕ) (db : Db) (r : Run) (db' : Db) : Type 0 where
  pub before : Run
  pub latest : latest_run c.alert_id db.runs ≡ some before
  pub runs : is_running before.status ≡ true
  pub ended : lease_is_active now before ≡ false
  pub not_cancelled : before.cancel_requested_at ≡ none
  pub resumable : recovery_error before (latest_checkpoint before.id "agent" db.checkpoints) ≡ none
  pub same_id : r.id ≡ before.id
  pub same_attempt : r.attempt ≡ before.attempt
  pub next_token : r.fencing_token ≡ before.fencing_token + 1
  pub owner : r.lease_owner ≡ some c.lease_owner
  pub expires : r.lease_expires_at ≡ some (now + seconds c.lease_seconds)
  pub stored : get_run db' r.id ≡ some r

abbrev IsTakenOver : Claim → ℕ → Db → Option Run × Db → Type 0
IsTakenOver c now db out = (r : Run) → out.0 ≡ some r → TakenOver c now db r out.1

nothing-IsTakenOver : (c : Claim) (now : ℕ) (db db' : Db) → IsTakenOver c now db (none, db')
nothing-IsTakenOver c now db db' r e = let h : ⊥ = cc in absurd h

take_over-IsTakenOver :
    (c : Claim) (now : ℕ) (db : Db) (l : Run)
    → IsConsistent db.runs
    → latest_run c.alert_id db.runs ≡ some l
    → is_running l.status ≡ true
    → lease_is_active now l ≡ false
    → l.cancel_requested_at ≡ none
    → IsTakenOver c now db (take_over c now db l)
unfolding take_over reclaimed
take_over-IsTakenOver c now db l k e h v q =
    option_split (IsTakenOver c now db)
      (recovery_error l (latest_checkpoint l.id "agent" db.checkpoints)) _ _
      (λ resumable r p.
        handed_out (TakenOver c now db) (reclaimed c.lease_owner c.lease_seconds now l) r _ p
          (record {
            before = l;
            latest = e;
            runs = h;
            ended = v;
            not_cancelled = q;
            resumable = resumable;
            same_id = refl;
            same_attempt = refl;
            next_token = refl;
            owner = refl;
            expires = refl;
            stored =
                find-modify_self run_key l.id (reclaimed c.lease_owner c.lease_seconds now)
                  (λ x. refl) db.runs l (In-find db.runs k l (latest_run-In _ _ l e).0);
          }))
      (λ x _. nothing-IsTakenOver c now db _)

reclaim_latest-IsTakenOver :
    (c : Claim) (now : ℕ) (db : Db) (o : Option Run)
    → IsConsistent db.runs
    → latest_run c.alert_id db.runs ≡ o
    → IsTakenOver c now db (reclaim_latest c now db o)
reclaim_latest-IsTakenOver c now db none k e = nothing-IsTakenOver c now db db
reclaim_latest-IsTakenOver c now db (some l) k e =
    if_split (IsTakenOver c now db) (is_running l.status) _ _
      (λ h.
        if_split (IsTakenOver c now db) (is_some l.cancel_requested_at) _ _
          (λ _. nothing-IsTakenOver c now db _)
          λ q.
            option_split (IsTakenOver c now db) l.lease_expires_at _ _
              (λ _. nothing-IsTakenOver c now db db)
              λ t u.
                if_split (IsTakenOver c now db) (ltb now t) _ _
                  (λ _. nothing-IsTakenOver c now db db)
                  λ v. take_over-IsTakenOver c now db l k e h (ground arith) (ground arith))
      (λ _. nothing-IsTakenOver c now db db)

-- A takeover on a consistent table of runs that hands out a run has found it as the latest run of
-- the alert, running, with an ended lease, with no cancellation asked for, and with a checkpoint
-- and a manifest that can be resumed. The run keeps its identity and attempt; it has the next
-- token and the caller's lease, and is stored.
pub reclaim_expired_run-TakenOver :
    (c : Claim) (now : ℕ) (db db' : Db) (r : Run)
    → IsConsistent db.runs
    → reclaim_expired_run c now db ≡ ok (some r, db')
    → TakenOver c now db r db'
unfolding reclaim_expired_run
reclaim_expired_run-TakenOver c now db db' r k e = z.at (some r, db') e r refl
  where
    Q : Option Run × Db → Type 0
    Q = IsTakenOver c now db

    z : Ensures Q (reclaim_expired_run c now db)
    z = Ensures-guard Q (not (is_blank c.lease_owner)) value_error _ λ _.
        Ensures-guard Q (ltb 0 c.lease_seconds) value_error _ λ _.
          Ensures-option Q (get_alert db c.alert_id) _ _
            (λ _. Ensures-ok Q (none, db) (nothing-IsTakenOver c now db db))
            λ a _. Ensures-bind Q (the_dispatch db) _ λ d _.
              Ensures-if Q (is_paused d.state) _ _
                (λ _. Ensures-ok Q (none, db) (nothing-IsTakenOver c now db db))
                λ _.
                  Ensures-ok Q (reclaim_latest c now db (latest_run c.alert_id db.runs))
                    (reclaim_latest-IsTakenOver c now db (latest_run c.alert_id db.runs) k refl)
