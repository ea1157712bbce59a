-- ===== src/Runs/Steps/Hold.antt =====
-- The methods that take over, renew, update and finalize a run change the table of runs by
-- a `Change`.
use database_alert_agent.Prelude.{
  ℕ, ◌≡◌, refl, true, false, not, Option, String, none, some, arith, ltb, is_some, is_blank,
  or_else, In, ok, Ensures, Ensures-ok, Ensures-err, Ensures-guard, Ensures-bind, Ensures-if,
  Ensures-option, if_split, option_split, value_error,
}
use database_alert_agent.Database.{Stage, Run, Db, is_running, is_paused}
use database_alert_agent.Dispatch.{the_dispatch}
use database_alert_agent.Runs.{
  latest_run, holds_lease, set_run, get_run, get_alert, require_active_run_lease,
}
use database_alert_agent.Runs.Claims.Defs.{Claim}
use database_alert_agent.Runs.Claims.Reclaim.{
  reclaimed, take_over, reclaim_latest, reclaim_expired_run, recovery_error, latest_checkpoint,
}
use database_alert_agent.Runs.Leases.{
  renewed, renew_run_lease, updated, is_terminal_request, update_run,
}
use database_alert_agent.Runs.Consistency.{IsConsistent, Later, latest_run-In}
use database_alert_agent.Runs.Changes.{Change, same, update}
use database_alert_agent.Runs.Steps.Cancel.{finalize_cancelled_row-Change}
use database_alert_agent.Runs.Steps.Start.{Changes, In-find, fail_expired-Change}

-- A fenced write goes to a running run, and keeps its lease.
pub holds_lease_running :
    (owner : String) (token now : ℕ) (r : Run)
    → holds_lease owner token now r ≡ true
    → is_running r.status ≡ true
unfolding holds_lease
holds_lease_running owner token now r h = ground arith

pub renew_run_lease-Change :
    (run_id : ℕ) (owner : String) (token lease_seconds now : ℕ) (db : Db)
    → Ensures (Changes db) (renew_run_lease run_id owner token lease_seconds now db)
unfolding renew_run_lease
renew_run_lease-Change run_id owner token lease_seconds now db =
    Ensures-guard (Changes db) (not (is_blank owner)) value_error _ λ _.
      Ensures-guard (Changes db) (ltb 0 token) value_error _ λ _.
        Ensures-guard (Changes db) (ltb 0 lease_seconds) value_error _ λ _.
          Ensures-option (Changes db) (get_run db run_id) _ _
            (λ _. Ensures-ok (Changes db) (false, db) (same db.runs))
            λ r e.
              Ensures-if (Changes db) (holds_lease owner token now r) _ _
                (λ h.
                  Ensures-ok (Changes db) (true, set_run run_id (renewed lease_seconds now) db)
                    (update db.runs run_id (renewed lease_seconds now) r
                      (λ x. unfold renewed in refl) e (unfold renewed in ground arith)))
                (λ _. Ensures-ok (Changes db) (false, db) (same db.runs))

abbrev ChangesTo : Db → Db → Type 0
ChangesTo db db' = Change db.runs db'.runs

pub update_run-Change :
    (run_id : ℕ) (stage : Option Stage) (error : Option String) (owner : String) (token now : ℕ)
    (db : Db)
    → Ensures (ChangesTo db) (update_run run_id stage error owner token now db)
unfolding update_run
update_run-Change run_id stage error owner token now db =
    Ensures-guard (ChangesTo db) (not (is_blank owner)) value_error _ λ _.
      Ensures-guard (ChangesTo db) (ltb 0 token) value_error _ λ _.
        Ensures-guard (ChangesTo db) (not (is_terminal_request stage)) value_error _ λ _.
          Ensures-option (ChangesTo db) (get_run db run_id) _ _ (λ _. Ensures-err (ChangesTo db) _)
            λ r e.
              Ensures-if (ChangesTo db) (holds_lease owner token now r) _ _
                (λ h. Ensures-ok (ChangesTo db) (set_run run_id (updated stage error now) db) (
                  update db.runs run_id (updated stage error now) r (λ x. unfold updated in refl) e
                    (unfold updated in ground arith)))
                (λ _. Ensures-err (ChangesTo db) _)

-- A run that a fenced write gets is in the table, and is held by the writer.
pub require_active_run_lease_lem :
    (db : Db) (run_id : ℕ) (owner : String) (token now : ℕ) (r : Run)
    → require_active_run_lease db run_id (some owner) (some token) false now ≡ ok r
    → (get_run db run_id ≡ some r) × (holds_lease owner token now r ≡ true)
unfolding require_active_run_lease
require_active_run_lease_lem db run_id owner token now r h = ground arith

reclaimed-Later :
    (owner : String) (lease_seconds now : ℕ) (r : Run)
    → Later r (reclaimed owner lease_seconds now r)
unfolding reclaimed
reclaimed-Later owner lease_seconds now r = ground arith

take_over-Change :
    (c : Claim) (now : ℕ) (db : Db) (l : Run)
    → IsConsistent db.runs
    → In l db.runs
    → is_running l.status ≡ true
    → Changes db (take_over c now db l)
unfolding take_over
take_over-Change c now db l k i h =
    option_split (Changes db) (recovery_error l (latest_checkpoint l.id "agent" db.checkpoints)) _ _
      (λ _.
        update db.runs l.id (reclaimed c.lease_owner c.lease_seconds now) l
          (λ x. (reclaimed-Later c.lease_owner c.lease_seconds now x).same_id)
          (In-find db.runs k l i) (reclaimed-Later c.lease_owner c.lease_seconds now l))
      λ e _. fail_expired-Change db l e c.delivery_id now k i h

reclaim_latest-Change :
    (c : Claim) (now : ℕ) (db : Db) (o : Option Run)
    → IsConsistent db.runs
    → latest_run c.alert_id db.runs ≡ o
    → Changes db (reclaim_latest c now db o)
reclaim_latest-Change c now db none k e = same db.runs
reclaim_latest-Change c now db (some l) k e =
    let i : In l db.runs = (latest_run-In _ _ l e).0 in
    if_split (Changes db) (is_running l.status) _ _
      (λ h.
        if_split (Changes db) (is_some l.cancel_requested_at) _ _
          (λ _.
            finalize_cancelled_row-Change c.alert_id l.id (or_else l.cancel_requested_by "unknown")
              c.progress_id now db l (In-find db.runs k l i) h)
          λ _.
            option_split (Changes db) l.lease_expires_at _ _ (λ _. same db.runs)
              λ t _.
                if_split (Changes db) (ltb now t) _ _ (λ _. same db.runs)
                  (λ _. take_over-Change c now db l k i h))
      (λ _. same db.runs)

pub reclaim_expired_run-Change :
    (c : Claim) (now : ℕ) (db : Db)
    → IsConsistent db.runs
    → Ensures (Changes db) (reclaim_expired_run c now db)
unfolding reclaim_expired_run
reclaim_expired_run-Change c now db k =
    Ensures-guard (Changes db) (not (is_blank c.lease_owner)) value_error _ λ _.
      Ensures-guard (Changes db) (ltb 0 c.lease_seconds) value_error _ λ _.
        Ensures-option (Changes db) (get_alert db c.alert_id) _ _
          (λ _. Ensures-ok (Changes db) (none, db) (same db.runs))
          λ a _. Ensures-bind (Changes db) (the_dispatch db) _ λ d _.
            Ensures-if (Changes db) (is_paused d.state) _ _
              (λ _. Ensures-ok (Changes db) (none, db) (same db.runs))
              λ _.
                Ensures-ok (Changes db) (reclaim_latest c now db (latest_run c.alert_id db.runs))
                  (reclaim_latest-Change c now db (latest_run c.alert_id db.runs) k refl)
