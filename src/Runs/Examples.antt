-- ===== src/Runs/Examples.antt =====
-- The theorems on runs at the transactions of Runs/Samples.antt.
use database_alert_agent.Prelude.{
  ◌≡◌, refl, true, false, none, some, arith, ok, err, In, lease_conflict, find, is_blank,
}
use database_alert_agent.Database.{Run, Db, is_running, DispatchState}
use database_alert_agent.Runs.{
  get_run, require_active_run_lease, held_lease, holds_lease, latest_run,
}
use database_alert_agent.Runs.Leases.{renew_run_lease, update_run}
use database_alert_agent.Runs.Finalize.{finalize_run}
use database_alert_agent.Runs.Consistency.{IsConsistent}
use database_alert_agent.Runs.Steps.Relation.{Steps, here, next, renew, Steps-IsConsistent}
use database_alert_agent.Runs.Steps.End.{EndOfRun, finalize_run_lem}
use database_alert_agent.Runs.Fencing.{
  stale_token_refused, stale_token_no_finalize, ended_run_stays,
}
use database_alert_agent.Runs.Exclusive.{Started, create_run_exclusive}
use database_alert_agent.Runs.Takeover.{TakenOver, reclaim_expired_run-TakenOver}
use database_alert_agent.Runs.Samples.{
  claim_a, claim_b, queued, held_by_a, held_by_b, run_a, run_b, ended_run, finished, switch,
  summary, saved, created_by_a, taken_over, finalized, to_a, to_b, to_end, queued-IsConsistent,
  b-IsConsistent,
}

a-IsConsistent : IsConsistent held_by_a.runs
a-IsConsistent = Steps-IsConsistent queued-IsConsistent to_a

finished-IsConsistent : IsConsistent finished.runs
finished-IsConsistent = Steps-IsConsistent b-IsConsistent to_end

found_b : get_run held_by_b 7 ≡ some run_b
unfolding find
found_b = refl

latest_a : latest_run 1 held_by_a.runs ≡ some run_a
unfolding latest_run
latest_a = refl

Steps-IsConsistent_example : IsConsistent held_by_b.runs
Steps-IsConsistent_example = Steps-IsConsistent queued-IsConsistent to_b

-- Worker A holds token 1, the run has token 2.
stale_token_refused_example :
    (require_active_run_lease finished 7 (some "A") (some 1) true 70000000 ≡ err lease_conflict)
    × (renew_run_lease 7 "A" 1 60 70000000 finished ≡ ok (false, finished))
    × (update_run 7 none (some "late") "A" 1 70000000 finished ≡ err lease_conflict)
unfolding is_blank
stale_token_refused_example =
    stale_token_refused 7 run_b "A" 1 true 70000000 60 none (some "late") b-IsConsistent to_end
      found_b (omega arith) refl (omega arith) (omega arith) refl

stale_token_no_finalize_example :
    ¬ (finalize_run 1 7 "A" 1 summary 70000000 held_by_b ≡ ok (saved, finished))
stale_token_no_finalize_example =
    stale_token_no_finalize 1 7 run_b "A" 1 summary 70000000 saved b-IsConsistent here found_b
      (omega arith)

-- The worker that has ended the run asks for more time.
late_renewal : renew_run_lease 7 "B" 2 60 80000000 finished ≡ ok (false, finished)
unfolding renew_run_lease is_blank find held_lease holds_lease
late_renewal = refl

after_the_end : Steps finished finished
after_the_end = next here (renew 7 "B" 2 60 80000000 late_renewal)

ended_run_stays_example :
    (r' : Run) × (get_run finished 7 ≡ some r') × (r'.status ≡ ended_run.status)
unfolding find
ended_run_stays_example = ended_run_stays 7 ended_run finished-IsConsistent after_the_end refl refl

create_run_exclusive_example :
    Started claim_a 0 run_a held_by_a
    × ((s : Run) → In s held_by_a.runs → s.alert_id ≡ 1 → is_running s.status ≡ true → s ≡ run_a)
create_run_exclusive_example =
    create_run_exclusive claim_a 0 queued held_by_a run_a queued-IsConsistent created_by_a

reclaim_expired_run-TakenOver_example : TakenOver claim_b 60000000 held_by_a run_b held_by_b
reclaim_expired_run-TakenOver_example =
    reclaim_expired_run-TakenOver claim_b 60000000 held_by_a held_by_b run_b a-IsConsistent
      taken_over

finalize_run_lem_example : EndOfRun 1 7 "B" 2 summary 70000000 held_by_b finished saved
finalize_run_lem_example =
    finalize_run_lem 1 7 "B" 2 summary 70000000 held_by_b finished saved finalized

abbrev paused_db : Db
paused_db = record queued { dispatch = some (record switch { state = DispatchState.paused }) }
