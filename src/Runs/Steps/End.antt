-- ===== src/Runs/Steps/End.antt =====
-- What a finalization that returns has tested and written.
use database_alert_agent.Prelude.{
  ℕ, suc, ◌≡◌, refl, sym, subst, ap, ◌∙◌, false, List, find, find-modify_self, find-modify_other,
  ==→≡, true, false, Option, String, none, some, arith, ◌==◌, ◌∷◌, is_some, is_none, holds, modify,
  ok, Ensures, Ensures-ok, Ensures-guard, Ensures-bind, value_error, runtime_error, lease_conflict,
  cancellation_requested,
}
use database_alert_agent.Database.{Alert, Run, Dispatch, Db, Progress, NotificationKind}
use database_alert_agent.Runs.{
  run_key, alert_key, latest_run, latest_progress, holds_lease, set_run, get_run, get_alert,
  set_alert, require_active_run_lease,
}
use database_alert_agent.Runs.Finalize.{
  Outcome, agrees, same_stage, finalized_run, finalized_alert, pause_after, notice, finalize_run,
}
use database_alert_agent.Runs.Changes.{Change, update}
use database_alert_agent.Runs.Steps.Start.{Changes}
use database_alert_agent.Runs.Steps.Hold.{require_active_run_lease_lem, holds_lease_running}

pub record Finalized (alert_id run_id : ℕ) (owner : String) (token : ℕ) (o : Outcome) (now : ℕ)
    (db : Db) (out : Progress × Db) : Type 0 where
  pub run : Run
  pub agreed : agrees o.run_status o.final_stage o.alert_status ≡ true
  pub found : get_run db run_id ≡ some run
  pub held : holds_lease owner token now run ≡ true
  pub of_alert : (run.alert_id == alert_id) ≡ true
  pub latest : holds (λ l. l.id == run_id) (latest_run alert_id db.runs) ≡ true
  pub not_cancelled : is_none run.cancel_requested_at ≡ true
  pub runs : out.1.runs ≡ modify run_key run_id (finalized_run o now) db.runs
  pub alerts : out.1.alerts ≡ modify alert_key alert_id (finalized_alert o now) db.alerts
  pub progress : out.1.progress ≡ out.0 ∷ db.progress
  pub sequence : out.0.sequence ≡ suc (latest_progress run_id db.progress)
  pub known : is_some (get_alert db alert_id) ≡ true
  pub stage : same_stage out.0.stage o.final_stage ≡ true

notice_tables :
    (n : Option (NotificationKind × String)) (delivery_id alert_id run_id now : ℕ) (db : Db)
    → ((notice n delivery_id alert_id run_id now db).runs ≡ db.runs)
      × ((notice n delivery_id alert_id run_id now db).alerts ≡ db.alerts)
      × ((notice n delivery_id alert_id run_id now db).progress ≡ db.progress)
unfolding notice
notice_tables none delivery_id alert_id run_id now db = (refl, refl, refl)
notice_tables (some (kind, event)) delivery_id alert_id run_id now db = (refl, refl, refl)

pub finalize_run-Finalized :
    (alert_id run_id : ℕ) (owner : String) (token : ℕ) (o : Outcome) (now : ℕ) (db : Db)
    → Ensures
        (Finalized alert_id run_id owner token o now db)
        (finalize_run alert_id run_id owner token o now db)
unfolding finalize_run
finalize_run-Finalized alert_id run_id owner token o now db =
    Ensures-guard Q (agrees o.run_status o.final_stage o.alert_status) value_error _ λ agreed.
      Ensures-guard Q (o.progress.run_id == run_id) value_error _ λ _.
        Ensures-guard Q (same_stage o.progress.stage o.final_stage) value_error _ λ stage.
          Ensures-guard Q (is_some (get_alert db alert_id)) runtime_error _ λ known.
            Ensures-bind Q (require_active_run_lease db run_id (some owner) (some token) false now)
              _
              λ r e. Ensures-guard Q (r.alert_id == alert_id) lease_conflict _ λ of_alert.
                Ensures-guard Q (holds (λ l. l.id == run_id) (latest_run alert_id db.runs))
                  lease_conflict _
                  λ latest.
                    Ensures-guard Q (is_none r.cancel_requested_at) cancellation_requested _
                      λ not_cancelled.
                        Ensures-bind Q
                          (pause_after o.model_failure o.pause_settings_revision run_id now db) _
                          λ dispatch _.
                            let tables =
                              notice_tables o.notification o.delivery_id alert_id run_id now
                                (written dispatch) in
                            Ensures-ok Q
                              (
                                saved,
                                notice o.notification o.delivery_id alert_id run_id now
                                    (written dispatch),
                              )
                              (record {
                                run = r;
                                agreed = agreed;
                                found =
                                    (require_active_run_lease_lem db run_id owner token now r e).0;
                                held =
                                    (require_active_run_lease_lem db run_id owner token now r e).1;
                                of_alert = of_alert;
                                latest = latest;
                                not_cancelled = not_cancelled;
                                runs = tables.0;
                                alerts = tables.1;
                                progress = tables.2;
                                sequence = refl;
                                known = known;
                                stage = stage;
                              })
  where
    Q : Progress × Db → Type 0
    Q = Finalized alert_id run_id owner token o now db

    saved : Progress
    saved = record o.progress {
      alert_id = alert_id;
      sequence = suc (latest_progress run_id db.progress);
    }

    written : Option Dispatch → Db
    written dispatch =
        let db' =
          set_alert alert_id (finalized_alert o now) (set_run run_id (finalized_run o now) db) in
        record db' { dispatch = dispatch; progress = saved ∷ db.progress }

-- So the table of runs changes by the update of one running run.
pub Finalized-Change :
    (alert_id run_id : ℕ) (owner : String) (token : ℕ) (o : Outcome) (now : ℕ) (db : Db)
    (out : Progress × Db)
    → Finalized alert_id run_id owner token o now db out
    → Changes db out
unfolding finalized_run
Finalized-Change alert_id run_id owner token o now db out f = subst (Change db.runs) (sym f.runs) (
    update db.runs run_id (finalized_run o now) f.run (λ x. refl) f.found
      (ground (arith, f.agreed, holds_lease_running owner token now f.run f.held)))

-- The row of the run after the end, against the row before: the outcome, and all else as it was.
pub record IsEnded (o : Outcome) (now : ℕ) (r r' : Run) : Type 0 where
  status : r'.status ≡ o.run_status
  stage : r'.current_stage ≡ o.final_stage
  error : r'.error ≡ o.error
  recommendation : r'.recommendation ≡ o.recommendation
  advisor_metadata : r'.advisor_metadata ≡ o.advisor_metadata
  model_failure : r'.model_failure ≡ o.model_failure
  updated_at : r'.updated_at ≡ now
  same_lease : (r'.lease_owner ≡ r.lease_owner) × (r'.fencing_token ≡ r.fencing_token)
  same_attempt : (r'.alert_id ≡ r.alert_id) × (r'.attempt ≡ r.attempt)

pub record IsResult (o : Outcome) (now : ℕ) (a : Alert) : Type 0 where
  status : a.status ≡ o.alert_status
  recommendation : a.recommendation ≡ o.recommendation
  advisor_metadata : a.advisor_metadata ≡ o.advisor_metadata
  error : a.error ≡ o.error
  updated_at : a.updated_at ≡ now

-- What the end of a run leaves in the database.
pub record EndOfRun (alert_id run_id : ℕ) (owner : String) (token : ℕ) (o : Outcome) (now : ℕ)
    (db db' : Db) (p : Progress) : Type 0 where
  before : Run
  after : Run
  result : Alert
  found : get_run db run_id ≡ some before
  held : holds_lease owner token now before ≡ true
  of_alert : before.alert_id ≡ alert_id
  not_cancelled : before.cancel_requested_at ≡ none
  stored : get_run db' run_id ≡ some after
  is_ended : IsEnded o now before after
  stored_result : get_alert db' alert_id ≡ some result
  is_result : IsResult o now result
  other_runs : (k : ℕ) → (k == run_id) ≡ false → get_run db' k ≡ get_run db k
  other_alerts : (k : ℕ) → (k == alert_id) ≡ false → get_alert db' k ≡ get_alert db k
  progress : db'.progress ≡ p ∷ db.progress
  stage : same_stage p.stage o.final_stage ≡ true
  sequence : p.sequence ≡ suc (latest_progress run_id db.progress)

finalized-IsResult :
    (alert_id : ℕ) (o : Outcome) (now : ℕ) (db : Db) (alerts : List Alert) (x : Option Alert)
    → alerts ≡ modify alert_key alert_id (finalized_alert o now) db.alerts
    → get_alert db alert_id ≡ x
    → is_some x ≡ true
    → (a : Alert) × (find alert_key alert_id alerts ≡ some a) × IsResult o now a
unfolding finalized_alert
finalized-IsResult alert_id o now db alerts none e f k = let no : ⊥ = cc in absurd no
finalized-IsResult alert_id o now db alerts (some a) e f k = (
  finalized_alert o now a,
  ap (find alert_key alert_id) e
      ∙ find-modify_self alert_key alert_id (finalized_alert o now) (λ x. refl) db.alerts a f,
  record {
    status = refl;
    recommendation = refl;
    advisor_metadata = refl;
    error = refl;
    updated_at = refl;
  },
)

-- A finalization that returns was asked for by the holder of the run's live lease under its token, for a
-- run of this alert that nobody asked to cancel. It leaves this run with the status, the stage, the result
-- and the model failure of the outcome, under its lease, its token and its attempt; the alert with the
-- status and the result of the outcome; every other run and every other alert as it was; and one more
-- progress row, of the final stage, with the next sequence number.
pub finalize_run_lem :
    (alert_id run_id : ℕ) (owner : String) (token : ℕ) (o : Outcome) (now : ℕ) (db db' : Db)
    (p : Progress)
    → finalize_run alert_id run_id owner token o now db ≡ ok (p, db')
    → EndOfRun alert_id run_id owner token o now db db' p
unfolding finalized_run finalized_alert
finalize_run_lem alert_id run_id owner token o now db db' p h =
    let z = (finalize_run-Finalized alert_id run_id owner token o now db).at (p, db') h in
    let (a, f, q) =
      finalized-IsResult alert_id o now db db'.alerts (get_alert db alert_id) z.alerts refl
        z.known in
    record {
      before = z.run;
      after = finalized_run o now z.run;
      result = a;
      found = z.found;
      held = z.held;
      of_alert = ==→≡ _ _ z.of_alert;
      not_cancelled = none_of z.run.cancel_requested_at z.not_cancelled;
      stored =
          ap (find run_key run_id) z.runs
          ∙ find-modify_self run_key run_id (finalized_run o now) (λ x. refl) db.runs z.run z.found;
      is_ended = record {
        status = refl;
        stage = refl;
        error = refl;
        recommendation = refl;
        advisor_metadata = refl;
        model_failure = refl;
        updated_at = refl;
        same_lease = (refl, refl);
        same_attempt = (refl, refl);
      };
      stored_result = f;
      is_result = q;
      other_runs = λ k n.
          ap (find run_key k) z.runs
          ∙ find-modify_other run_key run_id (finalized_run o now) (λ x. refl) k db.runs n;
      other_alerts = λ k n.
          ap (find alert_key k) z.alerts
          ∙ find-modify_other alert_key alert_id (finalized_alert o now) (λ x. refl) k db.alerts n;
      progress = z.progress;
      stage = z.stage;
      sequence = z.sequence;
    }
  where
    none_of : (x : Option ℕ) → is_none x ≡ true → x ≡ none
    none_of none e = refl
    none_of (some n) e = cc
