-- ===== src/Runs/Steps/Start.antt =====
-- `create_run` and `create_run_for_reanalyze` change the table of runs by a `Change`.
use database_alert_agent.Prelude.{
  ℕ, ◌+◌, ◌≤◌, ◌≡◌, ◌≢◌, refl, ap, ◌∙◌, subst, inl, inr, Bool, true, false, not, ◌&&◌, Option,
  String, none, some, List, [], ◌∷◌, arith, ◌==◌, is_some, holds, In, find, modify, find-In,
  find-key, find_of_In, find-modify_self, In-modify, Bool-cases, Ensures, Ensures-ok, Ensures-bind,
  Ensures-if, Ensures-option, if_split,
}
use database_alert_agent.Database.{Alert, Run, Db, is_running, is_paused, is_closed}
use database_alert_agent.Dispatch.{the_dispatch}
use database_alert_agent.Runs.{run_key, latest_run, set_run, get_alert}
use database_alert_agent.Runs.Claims.Defs.{
  Claim, is_taken, next_attempt, archived, failed_run, noted, new_run, start_run, insert_run,
  archive_latest, fail_expired, lease_is_active, create_run, create_run_for_reanalyze, create_after,
  reanalyze_after, expired_without_checkpoint,
}
use database_alert_agent.Runs.Consistency.{
  IsConsistent, Later, EndedBelow, latest_run-In, latest_run_bound,
}
use database_alert_agent.Runs.Changes.{Change, same, update, insert, both}

-- The latest run of an alert, found again by its identifier.
pub In-find :
    (runs : List Run) (c : IsConsistent runs) (r : Run)
    → In r runs
    → find run_key r.id runs ≡ some r
In-find runs c r i =
    let (y, e) = find_of_In run_key runs r i in
    e ∙ ap some (c.one_id y r (find-In run_key r.id runs y e) i (find-key run_key r.id runs y e))

-- Where the latest run has ended, or is none, all runs of the alert have ended below the next one.
ended_below :
    (a : ℕ) (runs : List Run) (o : Option Run)
    → IsConsistent runs
    → latest_run a runs ≡ o
    → holds (λ l. is_running l.status) o ≡ false
    → EndedBelow a (next_attempt o) runs
ended_below a runs o c z h r i e =
    let (l, p, q) = latest_run_bound a runs r i e in
    let (j, f) = latest_run-In a runs l p in
    ground (arith, c.running_latest r l i j, c.one_attempt r l i j)

-- It stays so when a run of the table is archived or failed.
ended_update :
    (a n k : ℕ) (f : Run → Run) (runs : List Run)
    → ((x : Run) → ((f x).alert_id ≡ x.alert_id) × ((f x).attempt ≡ x.attempt))
    → ((x : Run) → is_running (f x).status ≡ true → is_running x.status ≡ true)
    → EndedBelow a n runs
    → EndedBelow a n (modify run_key k f runs)
ended_update a n k f runs keeps ends below r i e =
    let (r', j, p) = In-modify run_key k f runs r i in ground (arith, below r' j, keeps r', ends r')

-- Failing the latest run ends the runs of the alert.
superseded :
    (a : ℕ) (runs : List Run) (l : Run) (error : String) (now : ℕ)
    → IsConsistent runs
    → latest_run a runs ≡ some l
    → EndedBelow a (l.attempt + 1) (modify run_key l.id (failed_run error now) runs)
unfolding failed_run
superseded a runs l error now c h r i e =
    let (r', j, p) = In-modify run_key l.id (failed_run error now) runs r i in
    elim (Bool-cases (run_key r' == l.id)) [
      | inl t ↦ let (m, q, b) = latest_run_bound a runs r' j (ground arith) in ground arith
      | inr t ↦
          let (m, q, b) = latest_run_bound a runs r' j (ground arith) in
          let (il, al) = latest_run-In a runs l h in
          ground (arith, c.running_latest r' l j il, c.one_attempt r' l j il)
    ]

new_of_not_taken :
    (n : Run) (runs : List Run) → is_taken n runs ≡ false → (r : Run) → In r runs → r.id ≢ n.id
unfolding is_taken
new_of_not_taken n [] h r i e = i
new_of_not_taken n (s ∷ rs) h r (inl p) e = ground arith
new_of_not_taken n (s ∷ rs) h r (inr i) e = new_of_not_taken n rs (ground arith) r i e

insert_run-Change :
    (c : Claim) (now : ℕ) (n : Run) (db db' : Db)
    → Change db.runs db'.runs
    → EndedBelow n.alert_id n.attempt db'.runs
    → n.attempt ≤ n.fencing_token
    → (is_some n.lease_owner ≡ true) × (is_some n.lease_expires_at ≡ true)
    → Change db.runs (insert_run c now n db db').1.runs
unfolding insert_run
insert_run-Change c now n db db' p below tok lease = elim (Bool-cases (is_taken n db'.runs)) [
  | inl t ↦ rw t (same db.runs)
  | inr t ↦ rw t (both p (insert db'.runs n (new_of_not_taken n db'.runs t) below tok lease))
]

archived-Later : (a : Alert) (r : Run) → Later r (archived a r)
unfolding archived
archived-Later a r = ground arith

-- What `start_run` writes, in the table that the method has so far.
start_run-Change :
    (c : Claim) (a : Alert) (l : Option Run) (now : ℕ) (db db' : Db)
    → Change db.runs db'.runs
    → EndedBelow c.alert_id (next_attempt l) db'.runs
    → ((r : Run) → l ≡ some r → (s : Run) × (find run_key r.id db'.runs ≡ some s))
    → Change db.runs (start_run c a l now db db').1.runs
unfolding start_run
start_run-Change c a none now db db' p below found =
    insert_run-Change c now (new_run c 1 now) db db' p below (omega arith) (refl, refl)
start_run-Change c a (some r) now db db' p below found =
    let (s, e) = found r refl in
    let q : Change db'.runs (modify run_key r.id (archived a) db'.runs) =
      update db'.runs r.id (archived a) s (λ x. (archived-Later a x).same_id) e
        (archived-Later a s) in
    insert_run-Change c now (new_run c (r.attempt + 1) now) db (archive_latest (some r) a db')
      (both p q)
      (ended_update c.alert_id (r.attempt + 1) r.id (archived a) db'.runs
        (λ x. ((archived-Later a x).same_alert, (archived-Later a x).same_attempt))
        (λ x. (archived-Later a x).no_restart) below)
      (omega arith) (refl, refl)

-- What every method does to the table.
abbrev pub Changes : {A : Type 0} → Db → A × Db → Type 0
Changes db out = Change db.runs out.1.runs

pub fail_expired-Change :
    (db : Db) (l : Run) (error : String) (delivery_id now : ℕ)
    → IsConsistent db.runs
    → In l db.runs
    → is_running l.status ≡ true
    → Change db.runs (fail_expired l error delivery_id now db).runs
unfolding fail_expired
fail_expired-Change db l error delivery_id now c i h =
    update db.runs l.id (λ x. noted error (failed_run error now x)) l (λ x. refl)
      (In-find db.runs c l i) (ground arith)

create_after-Change :
    (c : Claim) (now : ℕ) (db : Db) (a : Alert) (o : Option Run)
    → IsConsistent db.runs
    → latest_run c.alert_id db.runs ≡ o
    → Changes db (create_after c now db a o)
create_after-Change c now db a none k e =
    start_run-Change c a none now db db (same db.runs) (ended_below _ _ none k e refl)
      (λ r p. let h : ⊥ = cc in absurd h)
create_after-Change c now db a (some l) k e =
    if_split (Changes db) (is_running l.status) _ _
      (λ h.
        if_split (Changes db) (lease_is_active now l) _ _ (λ _. same db.runs)
          λ _.
            fail_expired-Change db l expired_without_checkpoint c.delivery_id now k
              (latest_run-In _ _ l e).0 h)
      λ h.
        start_run-Change c a (some l) now db db (same db.runs) (ended_below _ _ (some l) k e h)
          (λ r p.
            let q : l ≡ r = cc in
            (
              l,
              subst (λ x. find run_key x.id db.runs ≡ some l) q
                  (In-find db.runs k l (latest_run-In _ _ l e).0),
            ))

pub create_run-Change :
    (c : Claim) (now : ℕ) (db : Db)
    → IsConsistent db.runs
    → Ensures (Changes db) (create_run c now db)
unfolding create_run
create_run-Change c now db k = Ensures-bind (Changes db) (the_dispatch db) _ λ d _.
    Ensures-if (Changes db) (is_paused d.state) _ _
      (λ _. Ensures-ok (Changes db) (none, db) (same db.runs))
      λ _.
        Ensures-option (Changes db) (get_alert db c.alert_id) _ _
          (λ _. Ensures-ok (Changes db) (none, db) (same db.runs))
          λ a _.
            Ensures-if (Changes db) (is_closed a.status) _ _
              (λ _. Ensures-ok (Changes db) (none, db) (same db.runs))
              λ _.
                Ensures-ok (Changes db) (create_after c now db a (latest_run c.alert_id db.runs))
                  (create_after-Change c now db a (latest_run c.alert_id db.runs) k refl)

supersede-Change :
    (c : Claim) (now : ℕ) (db : Db) (a : Alert) (l : Run) (error : String)
    → IsConsistent db.runs
    → latest_run c.alert_id db.runs ≡ some l
    → is_running l.status ≡ true
    → Changes db (
        start_run c a
          (some (failed_run error now l))
          now
          db
          (set_run l.id (failed_run error now) db))
unfolding failed_run
supersede-Change c now db a l error k e h =
    start_run-Change c a (some (failed_run error now l)) now db
      (set_run l.id (failed_run error now) db)
      (update db.runs l.id (failed_run error now) l (λ x. refl) found (ground arith))
      (superseded c.alert_id db.runs l error now k e)
      (λ r p.
        let q : l.id ≡ r.id = cc in
        (
          failed_run error now l,
          subst
              (λ x.
                find run_key x (modify run_key l.id (failed_run error now) db.runs)
                ≡ some (failed_run error now l))
              q (find-modify_self run_key l.id (failed_run error now) (λ x. refl) db.runs l found),
        ))
  where
    found : find run_key l.id db.runs ≡ some l
    found = In-find db.runs k l (latest_run-In _ _ l e).0

reanalyze_after-Change :
    (force : Bool) (c : Claim) (now : ℕ) (db : Db) (a : Alert) (o : Option Run)
    → IsConsistent db.runs
    → latest_run c.alert_id db.runs ≡ o
    → Changes db (reanalyze_after force c now db a o)
reanalyze_after-Change force c now db a none k e =
    start_run-Change c a none now db db (same db.runs) (ended_below _ _ none k e refl)
      (λ r p. let h : ⊥ = cc in absurd h)
reanalyze_after-Change force c now db a (some l) k e =
    if_split (Changes db) (is_running l.status) _ _
      (λ h.
        if_split (Changes db) (lease_is_active now l && not force) _ _ (λ _. same db.runs)
          λ _. supersede-Change c now db a l _ k e h)
      λ h.
        start_run-Change c a (some l) now db db (same db.runs) (ended_below _ _ (some l) k e h)
          (λ r p.
            let q : l ≡ r = cc in
            (
              l,
              subst (λ x. find run_key x.id db.runs ≡ some l) q
                  (In-find db.runs k l (latest_run-In _ _ l e).0),
            ))

pub create_run_for_reanalyze-Change :
    (force : Bool) (c : Claim) (now : ℕ) (db : Db)
    → IsConsistent db.runs
    → Ensures (Changes db) (create_run_for_reanalyze force c now db)
unfolding create_run_for_reanalyze
create_run_for_reanalyze-Change force c now db k =
    Ensures-bind (Changes db) (the_dispatch db) _ λ d _.
      Ensures-if (Changes db) (is_paused d.state) _ _
        (λ _. Ensures-ok (Changes db) (none, db) (same db.runs))
        λ _.
          Ensures-option (Changes db) (get_alert db c.alert_id) _ _
            (λ _. Ensures-ok (Changes db) (none, db) (same db.runs))
            λ a _.
              Ensures-ok (Changes db)
                (reanalyze_after force c now db a (latest_run c.alert_id db.runs))
                (reanalyze_after-Change force c now db a (latest_run c.alert_id db.runs) k refl)
