-- ===== src/Invocations/Transitions.antt =====
-- What a save of `RepositoryInvocationStore` does to the table of invocations, as a relation.
use database_alert_agent.Prelude.{
  ℕ, String, ◌≡◌, refl, sym, ap, subst, true, false, Option, none, some, List, ◌∷◌, ok, arith, ==→≡,
  find, modify, ◌&&◌, ◌||◌, Ensures, Ensures-ok, Ensures-err, Ensures-guard, Ensures-bind,
  Ensures-if, Ensures-option, str_eq→≡, runtime_error, invocation_conflict,
}
use database_alert_agent.Database.{Db}
use database_alert_agent.Runs.{require_active_run_lease}
use database_alert_agent.Invocations.{Invocation, Status, Identity, Epoch, is_pending, is_started}
use database_alert_agent.Invocations.Repository.{
  Row, row_key, same_identity, same_epoch, same_status, same_text, same_time, with_update,
  expects_status, is_valid_claim, save_tool_invocation, update_tool_invocation, get_tool_invocation,
  fingerprint_agrees, same_invocation,
}
use database_alert_agent.Invocations.Store.{allowed, validate_transition, save}

-- A legal move of one row: to an allowed status, with the same identity, and with the same epoch
-- once it is started.
pub record IsMove (row : Row) (v : Invocation) : Type 0 where
  pub legal : allowed row.invocation.status v.status ≡ true
  pub identity : same_identity row.invocation.identity v.identity ≡ true
  pub epoch :
      is_started row.invocation.status ≡ true
      → same_epoch row.invocation.execution v.execution ≡ true

pub data Transition (rows : List Row) : List Row → Type 0 where
  unchanged : Transition rows rows
  created :
      (v : Invocation)
      → is_pending v.status ≡ true
      → find row_key v.identity.invocation_id rows ≡ none
      → Transition rows (record { invocation = v; result = none; intact = true } ∷ rows)
  moved :
      (v : Invocation) (result : Option String) (row : Row)
      → find row_key v.identity.invocation_id rows ≡ some row
      → IsMove row v
      → Transition rows (modify row_key v.identity.invocation_id (with_update v result) rows)

same_status→≡ : (s t : Status) → same_status s t ≡ true → s ≡ t
same_status→≡ s t h = ground arith

started_not_pending : (s : Status) → is_started s ≡ true → is_pending s ≡ false
started_not_pending s h = ground arith

same_text→≡ : (a b : Option String) → same_text a b ≡ true → a ≡ b
same_text→≡ none none h = refl
same_text→≡ none (some b) h = cc
same_text→≡ (some a) none h = cc
same_text→≡ (some a) (some b) h = ap some (str_eq→≡ a b h)

same_time→≡ : (a b : Option ℕ) → same_time a b ≡ true → a ≡ b
same_time→≡ none none h = refl
same_time→≡ none (some b) h = cc
same_time→≡ (some a) none h = cc
same_time→≡ (some a) (some b) h = ap some (==→≡ a b h)

pub same_epoch→≡ : (a b : Epoch) → same_epoch a b ≡ true → a ≡ b
unfolding same_epoch
same_epoch→≡ a b h =
    let p : a.lease_owner ≡ b.lease_owner = same_text→≡ _ _ (ground arith) in
    let q : a.fencing_token ≡ b.fencing_token = same_time→≡ _ _ (ground arith) in cc

pub same_identity→≡ : (a b : Identity) → same_identity a b ≡ true → a ≡ b
unfolding same_identity
same_identity→≡ a b h =
    let p1 : a.invocation_id ≡ b.invocation_id = ==→≡ _ _ (ground arith) in
    let p2 : a.run_id ≡ b.run_id = ==→≡ _ _ (ground arith) in
    let p3 : a.tool_name ≡ b.tool_name = str_eq→≡ _ _ (ground arith) in
    let p4 : a.effective_arguments ≡ b.effective_arguments = str_eq→≡ _ _ (ground arith) in
    let p5 : a.request ≡ b.request = str_eq→≡ _ _ (ground arith) in
    let p6 : a.fingerprint ≡ b.fingerprint = str_eq→≡ _ _ (ground arith) in
    let p7 : a.deadline ≡ b.deadline = same_time→≡ _ _ (ground arith) in
    let p8 : a.created_at ≡ b.created_at = ==→≡ _ _ (ground arith) in cc

module _ (digest : String → String → String) (lease_owner : Option String)
    (fencing_token : Option ℕ) (v : Invocation) (now : ℕ) (db : Db) (rows : List Row) where
  abbrev ToTransition : Invocation × List Row → Type 0
  ToTransition r = Transition rows r.1

  save_new-Transition :
      is_pending v.status ≡ true
      → Ensures ToTransition (save_tool_invocation digest v lease_owner fencing_token now db rows)
  unfolding save_tool_invocation
  save_new-Transition p =
      Ensures-guard ToTransition (fingerprint_agrees digest v) invocation_conflict _ λ _.
        Ensures-bind ToTransition
          (require_active_run_lease db v.identity.run_id lease_owner fencing_token false now) _
          λ run _.
            Ensures-option ToTransition (find row_key v.identity.invocation_id rows) _ _
              (λ e. Ensures-ok ToTransition _ (created v p e))
              (λ row e. Ensures-guard ToTransition row.intact invocation_conflict _ λ _.
                Ensures-guard ToTransition (same_invocation row.invocation v) invocation_conflict _
                  λ _. Ensures-ok ToTransition _ unchanged)

  update-Transition :
      (status : Status)
      → allowed status v.status ≡ true
      → Ensures ToTransition
          (update_tool_invocation digest v none (some status) lease_owner fencing_token now db rows)
  unfolding update_tool_invocation is_valid_claim
  update-Transition status p =
      Ensures-option ToTransition (find row_key v.identity.invocation_id rows) _ _
        (λ _. Ensures-err ToTransition invocation_conflict)
        λ row e.
          Ensures-bind ToTransition
            (require_active_run_lease db row.invocation.identity.run_id lease_owner fencing_token
              false now)
            _
            λ run _. Ensures-guard ToTransition row.intact invocation_conflict _ λ _.
              Ensures-guard ToTransition (fingerprint_agrees digest v) invocation_conflict _ λ _.
                Ensures-guard ToTransition
                  ((same_identity row.invocation.identity v.identity
                      && same_epoch row.invocation.execution v.execution)
                    || is_valid_claim row.invocation v (some status))
                  invocation_conflict _
                  λ m.
                    Ensures-guard ToTransition (expects_status (some status) row.invocation.status)
                      invocation_conflict _
                      λ x.
                        let q : status ≡ row.invocation.status =
                          same_status→≡ status row.invocation.status x in
                        Ensures-ok ToTransition _ (
                          moved v none row e (record {
                            legal = subst (λ s. allowed s v.status ≡ true) q p;
                            identity = ground arith;
                            epoch = λ t.
                                let u : is_pending status ≡ false =
                                  started_not_pending status
                                    (subst (λ s. is_started s ≡ true) (sym q) t) in
                                ground arith;
                          }))

-- A save that returns does nothing to the table but one legal step of the row of that invocation,
-- whatever other transactions do between the save's read and its write.
pub save-Transition :
    (digest : String → String → String) (lease_owner : Option String) (fencing_token : Option ℕ)
    (others : List Row → List Row) (v : Invocation) (now : ℕ) (db : Db) (rows rows' : List Row)
    → save digest lease_owner fencing_token others v now db rows ≡ ok rows'
    → Transition (others rows) rows'
unfolding save validate_transition
save-Transition digest lease_owner fencing_token others v now db rows rows' =
    let Q : List Row → Type 0 = Transition (others rows) in
    let whole : Ensures Q (save digest lease_owner fencing_token others v now db rows) =
      Ensures-bind Q (get_tool_invocation v.identity.invocation_id rows) _ λ found _.
        Ensures-option Q found _ _
          (λ _. Ensures-guard Q (is_pending v.status) runtime_error _ λ p.
            Ensures-bind Q
              (save_tool_invocation digest v lease_owner fencing_token now db (others rows)) _
              λ r e. Ensures-ok Q _ (
                (save_new-Transition digest lease_owner fencing_token v now db (others rows) p).at r
                  e))
          λ existing _.
            Ensures-if Q (same_invocation existing v) _ _ (λ _. Ensures-ok Q _ unchanged)
              λ _. Ensures-bind Q (validate_transition existing v) _ λ u w.
                Ensures-bind Q
                  (update_tool_invocation digest v none (some existing.status) lease_owner
                    fencing_token now db (others rows))
                  _
                  λ r e. Ensures-ok Q _ (
                    (update-Transition digest lease_owner fencing_token v now db (others rows)
                        existing.status (ground arith)).at
                      r e) in
    whole.at rows'
