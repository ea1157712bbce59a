-- ===== src/Agent/Calls.antt =====
-- The calls that each node can make, as one rule per node.
use database_alert_agent.Prelude.{
  ℕ, ◌≡◌, refl, ap, ◌∙◌, String, Bool, true, false, Option, none, some, ◌∷◌, if◌then◌else◌, Result,
  Error, ok, err, value_error, option_split,
}
use database_alert_agent.Database.{Stage, ModelFailure}
use database_alert_agent.Agent.{
  NormalizedAlert, ActiveRun, LeaseFence, Decision, Call, Log, NodeContext,
}
use database_alert_agent.Agent.Actions.{
  Action, ◌>>=◌, return, raise, observe, query, perform, and_then,
}
use database_alert_agent.Agent.Nodes.{lease_fence, update_progress}

-- The run has this fence.
abbrev pub Owns : ActiveRun → LeaseFence → Type 0
Owns run fence = run.lease_owner ≡ some fence.0 × (run.fencing_token ≡ fence.1)

-- A relation of the log before an action and after it that the calls of a node respect.
pub record IsAllowed (R : Log → Log → Type 0) (run : ActiveRun) : Type 0 where
  pub same : (log : Log) → R log log
  pub and_on : (a b c : Log) → R a b → R b c → R a c
  pub read : (log : Log) → R log (Call.read ∷ log)
  pub get_alert : (log : Log) → R log (Call.get_alert ∷ log)
  pub enrich : (log : Log) → R log (Call.enrich ∷ log)
  pub search : (log : Log) → R log (Call.search ∷ log)
  pub decide : (n : ℕ) (log : Log) → R log (Call.decide n ∷ log)
  pub advise : (log : Log) → R log (Call.advise ∷ log)
  pub advise_fallback : (log : Log) → R log (Call.advise_fallback ∷ log)
  pub update_run :
      (f : LeaseFence) → Owns run f → (x : Stage) (log : Log) → R log (Call.update_run x f ∷ log)
  pub append_progress :
      (f : LeaseFence)
      → Owns run f
      → (x : Stage) (log : Log) → R log (Call.append_progress x f ∷ log)
  pub update_alert :
      (f : LeaseFence)
      → Owns run f
      → (x : NormalizedAlert) (log : Log) → R log (Call.update_alert x f ∷ log)
  pub save_evidence :
      (f : LeaseFence) → Owns run f → (x : ℕ) (log : Log) → R log (Call.save_evidence x f ∷ log)
  pub save_validation :
      (f : LeaseFence)
      → Owns run f
      → (x : Bool) (log : Log) → R log (Call.save_validation x f ∷ log)
  pub append_decision :
      (f : LeaseFence)
      → Owns run f
      → (n : ℕ) (d : Decision) (x : Option ModelFailure) (log : Log)
      → R log (Call.append_decision n d x f ∷ log)
  pub emit : (f : LeaseFence) → Owns run f → (log : Log) → R log (Call.emit f ∷ log)

lease_fence-Owns :
    (run : ActiveRun) (log : Log) (f : LeaseFence) → (lease_fence run log).1 ≡ ok f → Owns run f
unfolding lease_fence return raise
lease_fence-Owns run log f e = owns run.lease_owner refl
  where
    owns : (o : Option String) → run.lease_owner ≡ o → Owns run f
    owns none g =
        let q : (lease_fence run log).1 ≡ err value_error = rw (lease_fence, g) refl in
        let no : ⊥ = cc in absurd no
    owns (some owner) g =
        let q : (lease_fence run log).1 ≡ ok (owner, run.fencing_token) =
          rw (lease_fence, g) refl in
        let p : (owner, run.fencing_token) ≡ f = cc in (g ∙ ap (λ x. some x.0) p, ap (λ x. x.1) p)

module _ (ctx : NodeContext) (R : Log → Log → Type 0) (run : ActiveRun)
    (ok_calls : IsAllowed R run) where
  pub record Keeps {A : Type 0} (m : Action A) : Type 0 where
    pub at : (log : Log) → R log (m log).0

  pub Keeps-return : {A : Type 0} (a : A) → Keeps (return a)
  unfolding return
  Keeps-return a = record { at = λ log. ok_calls.same log }

  pub Keeps-raise : {A : Type 0} (e : Error) → Keeps (raise {A = A} e)
  unfolding raise
  Keeps-raise e = record { at = λ log. ok_calls.same log }

  pub Keeps-observe : {A : Type 0} (f : Log → A) → Keeps (observe f)
  unfolding observe
  Keeps-observe f = record { at = λ log. ok_calls.same log }

  pub Keeps-query :
      {A : Type 0} (c : Call) (f : Log → Result A)
      → ((log : Log) → R log (c ∷ log))
      → Keeps (query c f)
  unfolding query
  Keeps-query c f h = record { at = h }

  pub Keeps-perform : (c : Call) → ((log : Log) → R log (c ∷ log)) → Keeps (perform ctx c)
  unfolding perform
  Keeps-perform c h = record {
    at = λ log.
        option_split (λ (r : Log × Result (Unit {0})). R log r.0) (ctx.raises log c) _ _
          (λ _. h log) (λ e _. ok_calls.same log);
  }

  pub Keeps-and_then :
      {A B : Type 0} (before : Log) (r : Log × Result A) (k : A → Action B)
      → R before r.0
      → ((a : A) → r.1 ≡ ok a → Keeps (k a))
      → R before (and_then r k).0
  Keeps-and_then before (log, ok a) k h g = ok_calls.and_on before log _ h ((g a refl).at log)
  Keeps-and_then before (log, err e) k h g = h

  pub Keeps-option :
      {A B : Type 0} (o : Option B) (m : Action A) (f : B → Action A)
      → Keeps m
      → ((b : B) → o ≡ some b → Keeps (f b))
      → Keeps (elim o [ none ↦ m | some b ↦ f b ])
  Keeps-option none m f h g = h
  Keeps-option (some b) m f h g = g b refl

  lease_fence_keeps : (log : Log) → R log (lease_fence run log).0
  unfolding lease_fence raise return
  lease_fence_keeps log =
      (Keeps-option run.lease_owner (raise value_error) (λ owner. return (owner, run.fencing_token))
          (Keeps-raise value_error) (λ owner _. Keeps-return (owner, run.fencing_token))).at
        log

  pub Keeps-bind :
      {A B : Type 0} (m : Action A) (k : A → Action B)
      → Keeps m
      → ((a : A) → Keeps (k a))
      → Keeps (m >>= k)
  unfolding ◌>>=◌
  Keeps-bind m k h g = record { at = λ log. Keeps-and_then log (m log) k (h.at log) (λ a _. g a) }

  pub Keeps-if :
      {A : Type 0} (b : Bool) (m n : Action A) → Keeps m → Keeps n → Keeps (if b then m else n)
  Keeps-if true m n h g = h
  Keeps-if false m n h g = g

  -- What follows on the fence has the fence of the run.
  pub Keeps-fence :
      {A : Type 0} (k : LeaseFence → Action A)
      → ((fence : LeaseFence) → Owns run fence → Keeps (k fence))
      → Keeps (lease_fence run >>= k)
  unfolding ◌>>=◌
  Keeps-fence k h = record {
    at = λ log.
        Keeps-and_then log (lease_fence run log) k (lease_fence_keeps log)
          (λ f e. h f (lease_fence-Owns run log f e));
  }

  pub Keeps-update_progress : (stage : Stage) → Keeps (update_progress ctx run stage)
  unfolding update_progress
  Keeps-update_progress stage = Keeps-fence _ (λ f o.
      Keeps-bind _ _ (Keeps-perform _ (ok_calls.update_run f o stage))
        (λ _. Keeps-perform _ (ok_calls.append_progress f o stage)))
