-- ===== src/Runs/Fencing.antt =====
-- Leases and fencing tokens: what a worker that lost its run can still do.
use database_alert_agent.Prelude.{
  ℕ, ◌<◌, ◌≡◌, sym, ap, ◌∙◌, Bool, true, false, Option, String, some, arith, is_blank, ok, err, In,
  lease_conflict,
}
use database_alert_agent.Database.{Stage, Run, Db, is_running, Progress}
use database_alert_agent.Runs.{get_run, holds_lease, held_lease, require_active_run_lease}
use database_alert_agent.Runs.Leases.{renew_run_lease, update_run, is_terminal_request}
use database_alert_agent.Runs.Finalize.{Outcome, finalize_run}
use database_alert_agent.Runs.Consistency.{IsConsistent}
use database_alert_agent.Runs.Steps.Relation.{Steps, Steps-find}
use database_alert_agent.Runs.Steps.End.{finalize_run-Finalized}

-- A lease with an older token is not held.
old_token :
    (owner : String) (token now : ℕ) (r : Run)
    → token < r.fencing_token
    → (holds_lease owner token now r ≡ false) × (held_lease owner token r ≡ false)
unfolding holds_lease held_lease
old_token owner token now r h = ground arith

-- From a consistent table of runs: once a run has a higher token, whatever transactions follow, a
-- worker with an older token is refused by every fenced write. The lease test fails, also for
-- writes after the end of the run; a renewal of the lease, for a positive time, returns False and
-- writes nothing; an update, to no final stage, raises the conflict. The worker's name is not
-- blank and its token is positive.
pub stale_token_refused :
    {db db' : Db} (run_id : ℕ) (r : Run) (owner : String) (token : ℕ) (allow_terminal : Bool)
    (now lease_seconds : ℕ) (stage : Option Stage) (error : Option String)
    → IsConsistent db.runs
    → Steps db db'
    → get_run db run_id ≡ some r
    → token < r.fencing_token
    → is_blank owner ≡ false
    → 0 < token
    → 0 < lease_seconds
    → is_terminal_request stage ≡ false
    → (require_active_run_lease db' run_id (some owner) (some token) allow_terminal now
        ≡ err lease_conflict)
      × (renew_run_lease run_id owner token lease_seconds now db' ≡ ok (false, db'))
      × (update_run run_id stage error owner token now db' ≡ err lease_conflict)
unfolding require_active_run_lease renew_run_lease update_run
stale_token_refused run_id r owner token allow_terminal now lease_seconds stage error k s e h b t l
      q =
    let (r', f, u) = Steps-find run_id r k s e in
    let (p, p') = old_token owner token now r' (omega (arith, u.token_grows)) in
    (ground arith, ground arith, ground arith)

-- From a consistent table of runs: once a run has a higher token, whatever transactions follow, no
-- finalization of the run by a worker with an older token returns.
pub stale_token_no_finalize :
    {db db' db'' : Db} (alert_id run_id : ℕ) (r : Run) (owner : String) (token : ℕ) (o : Outcome)
    (now : ℕ) (p : Progress)
    → IsConsistent db.runs
    → Steps db db'
    → get_run db run_id ≡ some r
    → token < r.fencing_token
    → ¬ (finalize_run alert_id run_id owner token o now db' ≡ ok (p, db''))
stale_token_no_finalize {db' = db'} alert_id run_id r owner token o now p k s e h q =
    let (r', f, u) = Steps-find run_id r k s e in
    let z = (finalize_run-Finalized alert_id run_id owner token o now db').at _ q in
    let w = z.found in
    let same : z.run ≡ r' = (let v : some z.run ≡ some r' = sym w ∙ f in cc) in
    let (a, b) = old_token owner token now r' (omega (arith, u.token_grows)) in
    let held = z.held in
    (let v : true ≡ false = sym held ∙ ap (holds_lease owner token now) same ∙ a in cc)

-- From a consistent table of runs, a run that has ended is still there after any claims, re-analyses,
-- takeovers, renewals, updates, cancellations and finalizations, and any transactions that leave the
-- table alone, with the same status. The retention clean-up, which deletes alerts with their runs, is not
-- among them.
pub ended_run_stays :
    {db db' : Db} (run_id : ℕ) (r : Run)
    → IsConsistent db.runs
    → Steps db db'
    → get_run db run_id ≡ some r
    → is_running r.status ≡ false
    → (r' : Run) × (get_run db' run_id ≡ some r') × (r'.status ≡ r.status)
ended_run_stays run_id r k s e h = let (r', f, u) = Steps-find run_id r k s e in (r', f, u.ended h)

-- Two running runs of one alert are the same row.
pub one_running :
    (db : Db) (r s : Run)
    → IsConsistent db.runs
    → In r db.runs
    → In s db.runs
    → r.alert_id ≡ s.alert_id
    → is_running r.status ≡ true
    → is_running s.status ≡ true
    → r ≡ s
one_running db r s k i j a h l =
    k.one_attempt r s i j a
      (omega (arith, k.running_latest r s i j a h, k.running_latest s r j i (sym a) l))
