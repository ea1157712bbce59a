-- ===== src/Runs/Steps/Relation.antt =====
-- The transactions on runs as a step relation: any worker may make any of them at any time.
use database_alert_agent.Prelude.{ℕ, ◌≡◌, subst, Bool, Option, some, String, ok, find}
use database_alert_agent.Database.{Stage, Run, Db, Progress}
use database_alert_agent.Runs.{run_key}
use database_alert_agent.Runs.Claims.Defs.{Claim, create_run, create_run_for_reanalyze}
use database_alert_agent.Runs.Claims.Reclaim.{reclaim_expired_run}
use database_alert_agent.Runs.Leases.{renew_run_lease, update_run}
use database_alert_agent.Runs.Cancellation.{
  request_run_cancellation, finalize_requested_cancellation,
}
use database_alert_agent.Runs.Finalize.{Outcome, finalize_run}
use database_alert_agent.Runs.Consistency.{IsConsistent, Later, Later-refl, Later-trans}
use database_alert_agent.Runs.Changes.{Change, same, Change-IsConsistent, Change-find}
use database_alert_agent.Runs.Steps.Start.{create_run-Change, create_run_for_reanalyze-Change}
use database_alert_agent.Runs.Steps.Cancel.{
  request_run_cancellation-Change, finalize_requested_cancellation-Change,
}
use database_alert_agent.Runs.Steps.Hold.{
  renew_run_lease-Change, update_run-Change, reclaim_expired_run-Change,
}
use database_alert_agent.Runs.Steps.End.{finalize_run-Finalized, Finalized-Change}

-- One transaction that commits, of those that work on runs; the retention clean-up, which deletes old
-- alerts with their runs, is not among them. `other` is any that leaves the table of runs alone.
pub data Step : Db → Db → Type 0 where
  create :
      {db db' : Db} {o : Option Run} (c : Claim) (now : ℕ)
      → create_run c now db ≡ ok (o, db')
      → Step db db'
  reanalyze :
      {db db' : Db} {o : Option Run} (force : Bool) (c : Claim) (now : ℕ)
      → create_run_for_reanalyze force c now db ≡ ok (o, db')
      → Step db db'
  reclaim :
      {db db' : Db} {o : Option Run} (c : Claim) (now : ℕ)
      → reclaim_expired_run c now db ≡ ok (o, db')
      → Step db db'
  renew :
      {db db' : Db} {renewed : Bool} (run_id : ℕ) (owner : String) (token lease_seconds now : ℕ)
      → renew_run_lease run_id owner token lease_seconds now db ≡ ok (renewed, db')
      → Step db db'
  write :
      {db db' : Db} (run_id : ℕ) (stage : Option Stage) (error : Option String) (owner : String)
      (token now : ℕ)
      → update_run run_id stage error owner token now db ≡ ok db'
      → Step db db'
  ask_cancel :
      {db db' : Db} {o : Option Run} (alert_id run_id : ℕ) (by : String) (now : ℕ)
      → request_run_cancellation alert_id run_id by now db ≡ ok (o, db')
      → Step db db'
  cancel :
      {db db' : Db} {o : Option Run} (alert_id run_id progress_id now : ℕ)
      → finalize_requested_cancellation alert_id run_id progress_id now db ≡ ok (o, db')
      → Step db db'
  finalize :
      {db db' : Db} {p : Progress} (alert_id run_id : ℕ) (owner : String) (token : ℕ) (o : Outcome)
      (now : ℕ)
      → finalize_run alert_id run_id owner token o now db ≡ ok (p, db')
      → Step db db'
  other : {db db' : Db} → db.runs ≡ db'.runs → Step db db'

pub data Steps (db : Db) : Db → Type 0 where
  here : Steps db db
  next : {db' db'' : Db} → Steps db db' → Step db' db'' → Steps db db''

-- Each transaction changes the table of runs as a `Change`.
pub Step-Change : {db db' : Db} → IsConsistent db.runs → Step db db' → Change db.runs db'.runs
Step-Change {db} k (create c now h) = (create_run-Change c now db k).at _ h
Step-Change {db} k (reanalyze force c now h) =
    (create_run_for_reanalyze-Change force c now db k).at _ h
Step-Change {db} k (reclaim c now h) = (reclaim_expired_run-Change c now db k).at _ h
Step-Change {db} k (renew run_id owner token lease_seconds now h) =
    (renew_run_lease-Change run_id owner token lease_seconds now db).at _ h
Step-Change {db} k (write run_id stage error owner token now h) =
    (update_run-Change run_id stage error owner token now db).at _ h
Step-Change {db} k (ask_cancel alert_id run_id by now h) =
    (request_run_cancellation-Change alert_id run_id by now db).at _ h
Step-Change {db} k (cancel alert_id run_id progress_id now h) =
    (finalize_requested_cancellation-Change alert_id run_id progress_id now db).at _ h
Step-Change {db} k (finalize alert_id run_id owner token o now h) =
    Finalized-Change alert_id run_id owner token o now db _
      ((finalize_run-Finalized alert_id run_id owner token o now db).at _ h)
Step-Change {db} k (other h) = subst (Change db.runs) h (same db.runs)

-- Any sequence of transactions keeps a consistent table of runs consistent: the ids are different, and the
-- attempts of one alert; a running run is the latest of its alert and has a lease; a token is at
-- least the attempt.
pub Steps-IsConsistent : {db db' : Db} → IsConsistent db.runs → Steps db db' → IsConsistent db'.runs
Steps-IsConsistent k here = k
Steps-IsConsistent k (next r s) =
    let k' = Steps-IsConsistent k r in Change-IsConsistent (Step-Change k' s) k'

-- From a consistent table of runs, a run is still there after any transactions, with its alert and
-- attempt; its token has not fallen, and if it had ended its status is the same.
pub Steps-find :
    {db db' : Db} (run_id : ℕ) (r : Run)
    → IsConsistent db.runs
    → Steps db db'
    → find run_key run_id db.runs ≡ some r
    → (r' : Run) × (find run_key run_id db'.runs ≡ some r') × Later r r'
Steps-find run_id r k here e = (r, e, Later-refl r)
Steps-find run_id r k (next s t) e =
    let (m, f, l) = Steps-find run_id r k s e in
    let (n, g, u) = Change-find run_id m (Step-Change (Steps-IsConsistent k s) t) f in
    (n, g, Later-trans l u)
