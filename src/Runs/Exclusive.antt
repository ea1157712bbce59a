-- ===== src/Runs/Exclusive.antt =====
-- Who may start or take over a run, and what it finds.
use database_alert_agent.Prelude.{
  ℕ, ◌+◌, ◌≡◌, refl, sym, ◌∙◌, Bool, true, false, Option, none, some, arith, ltb, is_blank, ok, In,
  inl, Ensures, Ensures-ok, Ensures-bind, Ensures-if, Ensures-option, if_split, handed_out,
}
use database_alert_agent.Database.{
  Alert, Run, Db, Dispatch, DispatchState, is_running, is_paused, is_closed, seconds,
}
use database_alert_agent.Dispatch.{the_dispatch}
use database_alert_agent.Runs.{get_alert, latest_run}
use database_alert_agent.Runs.Claims.Defs.{
  Claim, create_run, create_run_for_reanalyze, create_after, insert_run, start_run, new_run,
  next_attempt, is_taken, archive_latest, lease_is_active,
}
use database_alert_agent.Runs.Claims.Reclaim.{reclaim_expired_run}
use database_alert_agent.Runs.Consistency.{IsConsistent}
use database_alert_agent.Runs.Changes.{Change-IsConsistent}
use database_alert_agent.Runs.Steps.Start.{create_run-Change}
use database_alert_agent.Runs.Fencing.{one_running}

-- While dispatch is paused, a well-formed request for an alert that exists gets no run from any of
-- the three methods, not even by force, and changes nothing.
paused_no_claim :
    (c : Claim) (force : Bool) (now : ℕ) (db : Db) (d : Dispatch) (a : Alert)
    → db.dispatch ≡ some d
    → d.state ≡ DispatchState.paused
    → get_alert db c.alert_id ≡ some a
    → is_blank c.lease_owner ≡ false
    → ltb 0 c.lease_seconds ≡ true
    → (create_run c now db ≡ ok (none, db))
      × (create_run_for_reanalyze force c now db ≡ ok (none, db))
      × (reclaim_expired_run c now db ≡ ok (none, db))
unfolding create_run create_run_for_reanalyze reclaim_expired_run
paused_no_claim c force now db d a e p f b l = (ground arith, ground arith, ground arith)

-- While the latest run of an alert runs under a live lease, and nobody asked to cancel it, neither
-- an automatic claim, nor a re-analysis without force, nor a takeover hands out a run or changes the
-- database.
live_lease_no_claim :
    (c : Claim) (now : ℕ) (db : Db) (d : Dispatch) (l : Run)
    → db.dispatch ≡ some d
    → latest_run c.alert_id db.runs ≡ some l
    → is_running l.status ≡ true
    → lease_is_active now l ≡ true
    → l.cancel_requested_at ≡ none
    → is_blank c.lease_owner ≡ false
    → ltb 0 c.lease_seconds ≡ true
    → (create_run c now db ≡ ok (none, db))
      × (create_run_for_reanalyze false c now db ≡ ok (none, db))
      × (reclaim_expired_run c now db ≡ ok (none, db))
unfolding create_run create_run_for_reanalyze reclaim_expired_run
live_lease_no_claim c now db d l e p h v q b s = (ground arith, ground arith, ground arith)

-- What a method that hands out a new run has written: a running run of the alert, held by the
-- caller until the lease ends, under a token that is its attempt.
pub record Started (c : Claim) (now : ℕ) (r : Run) (db' : Db) : Type 0 where
  pub in_table : In r db'.runs
  pub of_alert : r.alert_id ≡ c.alert_id
  pub runs : is_running r.status ≡ true
  pub owner : r.lease_owner ≡ some c.lease_owner
  pub expires : r.lease_expires_at ≡ some (now + seconds c.lease_seconds)
  pub token : r.fencing_token ≡ r.attempt

abbrev IsStarted : Claim → ℕ → Option Run × Db → Type 0
IsStarted c now out = (r : Run) → out.0 ≡ some r → Started c now r out.1

nothing-IsStarted : (c : Claim) (now : ℕ) (db : Db) → IsStarted c now (none, db)
nothing-IsStarted c now db r e = let h : ⊥ = cc in absurd h

start_run-IsStarted :
    (c : Claim) (a : Alert) (l : Option Run) (now : ℕ) (db db' : Db)
    → IsStarted c now (start_run c a l now db db')
unfolding start_run insert_run new_run
start_run-IsStarted c a l now db db' =
    if_split (IsStarted c now) (is_taken n (archive_latest l a db').runs) _ _
      (λ _. nothing-IsStarted c now db)
      λ _ r e. handed_out (Started c now) n r _ e (record {
        in_table = inl refl;
        of_alert = refl;
        runs = refl;
        owner = refl;
        expires = refl;
        token = refl;
      })
  where
    n : Run
    n = new_run c (next_attempt l) now

create_after-IsStarted :
    (c : Claim) (now : ℕ) (db : Db) (a : Alert) (o : Option Run)
    → IsStarted c now (create_after c now db a o)
create_after-IsStarted c now db a none = start_run-IsStarted c a none now db db
create_after-IsStarted c now db a (some l) =
    if_split (IsStarted c now) (is_running l.status) _ _
      (λ _.
        if_split (IsStarted c now) (lease_is_active now l) _ _ (λ _. nothing-IsStarted c now db)
          (λ _. nothing-IsStarted c now _))
      (λ _. start_run-IsStarted c a (some l) now db db)

create_run-IsStarted :
    (c : Claim) (now : ℕ) (db : Db) → Ensures (IsStarted c now) (create_run c now db)
unfolding create_run
create_run-IsStarted c now db = Ensures-bind (IsStarted c now) (the_dispatch db) _ λ d _.
    Ensures-if (IsStarted c now) (is_paused d.state) _ _
      (λ _. Ensures-ok (IsStarted c now) (none, db) (nothing-IsStarted c now db))
      λ _.
        Ensures-option (IsStarted c now) (get_alert db c.alert_id) _ _
          (λ _. Ensures-ok (IsStarted c now) (none, db) (nothing-IsStarted c now db))
          λ a _.
            Ensures-if (IsStarted c now) (is_closed a.status) _ _
              (λ _. Ensures-ok (IsStarted c now) (none, db) (nothing-IsStarted c now db))
              λ _.
                Ensures-ok (IsStarted c now)
                  (create_after c now db a (latest_run c.alert_id db.runs))
                  (create_after-IsStarted c now db a (latest_run c.alert_id db.runs))

-- A claim on a consistent table of runs that hands out a run has stored it as a running run of the
-- alert, under the caller's lease and with its attempt as its token, and no other run of the alert
-- is running.
pub create_run_exclusive :
    (c : Claim) (now : ℕ) (db db' : Db) (r : Run)
    → IsConsistent db.runs
    → create_run c now db ≡ ok (some r, db')
    → Started c now r db'
      × ((s : Run) → In s db'.runs → s.alert_id ≡ c.alert_id → is_running s.status ≡ true → s ≡ r)
create_run_exclusive c now db db' r k e =
    let z = (create_run-IsStarted c now db).at (some r, db') e r refl in
    let k' = Change-IsConsistent ((create_run-Change c now db k).at (some r, db') e) k in
    (z, λ s i a h. one_running db' s r k' i z.in_table (a ∙ sym z.of_alert) h z.runs)
