-- ===== src/Dispatch/Versions.antt =====
-- What the version of the dispatch switch guards.
use database_alert_agent.Prelude.{ℕ, suc, String, ◌≡◌, true, some, ok, arith}
use database_alert_agent.Database.{DispatchState, ModelFailure, Validation, Dispatch, Progress, Db}
use database_alert_agent.Dispatch.{
  pause_row, pause_analysis_dispatch, record_dispatch_validation, resume_analysis_dispatch,
}
use database_alert_agent.Runs.Finalize.{Outcome, finalize_run}

-- A change of the dispatch switch, from one database to the next: one of its own operations, or a
-- finalization of a run that pauses it.
pub data Change : Db → Db → Type 0 where
  pause :
      {db db' : Db} {row : Dispatch} (failure : ModelFailure) (run_id : ℕ) (revision : String)
      (now : ℕ)
      → pause_analysis_dispatch failure run_id revision now db ≡ ok (row, db')
      → Change db db'
  reject :
      {db db' : Db} {row : Dispatch} (expected : ℕ) (validation : Validation) (now : ℕ)
      → record_dispatch_validation expected validation now db ≡ ok (row, db')
      → Change db db'
  resume :
      {db db' : Db} {row : Dispatch} (expected : ℕ) (revision by : String) (validation : Validation)
      (now : ℕ)
      → resume_analysis_dispatch expected revision by validation now db ≡ ok (row, db')
      → Change db db'
  finalize :
      {db db' : Db} {p : Progress} {row : Dispatch} (alert_id run_id : ℕ) (owner : String)
      (token : ℕ) (o : Outcome) (now : ℕ) (failure : ModelFailure) (revision : String)
      → finalize_run alert_id run_id owner token o now db ≡ ok (p, db')
      → db.dispatch ≡ some row
      → db'.dispatch ≡ some (pause_row failure run_id revision now row)
      → Change db db'

-- Changes, and any transactions between them that leave the switch as it is.
pub data Changes (db : Db) : Db → Type 0 where
  here : Changes db db
  other : {db' db'' : Db} → Changes db db' → db''.dispatch ≡ db'.dispatch → Changes db db''
  next : {db' db'' : Db} → Changes db db' → Change db' db'' → Changes db db''

abbrev pub changes : {db db' : Db} → Changes db db' → ℕ
changes here = 0
changes (other r e) = changes r
changes (next r c) = suc (changes r)

-- Dispatch is switched back on only with a successful validation, which stays on record.
Change-enabled :
    {db db' : Db} (row row' : Dispatch)
    → Change db db'
    → db.dispatch ≡ some row
    → db'.dispatch ≡ some row'
    → row.state ≡ DispatchState.paused
    → row'.state ≡ DispatchState.enabled
    → (v : Validation) × (v.success ≡ true) × (row'.last_validation ≡ some v)
unfolding pause_analysis_dispatch record_dispatch_validation resume_analysis_dispatch pause_row
Change-enabled row row' (pause failure run_id revision now h) d d' p e = absurd (ground arith)
Change-enabled row row' (reject expected validation now h) d d' p e = absurd (ground arith)
Change-enabled row row' (finalize a run_id owner token o now failure revision h f g) d d' p e =
    absurd (ground arith)
Change-enabled row row' (resume expected revision by validation now h) d d' p e =
    (validation, ground arith, ground arith)
