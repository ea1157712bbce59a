-- ===== src/Invocations/Executor/Ends.antt =====
-- Rules for what an action of the executor appends, returns and raises.
use database_alert_agent.Prelude.{
  ℕ, String, ◌≡◌, refl, subst, Bool, true, false, Option, none, some, [], ◌∷◌, ◌++◌, arith,
}
use database_alert_agent.Invocations.{Status, Invocation, is_terminal, lifecycle_is_valid}
use database_alert_agent.Invocations.Executor.{
  EventKind, tool_invocation_started, tool_invocation_succeeded, tool_invocation_failed,
  tool_invocation_timed_out, tool_invocation_cancelled, InvocationEvent, ExecutionResult, Output,
  Exception, Handler, World, Ending, value, exit, Action, ◌>>=◌, catch, emit, transition,
  is_available, preserve_failure_semantics, run_handler, normalize_output,
}

abbrev pub kind_of : Status → Option EventKind
kind_of Status.started = some tool_invocation_started
kind_of Status.succeeded = some tool_invocation_succeeded
kind_of Status.failed = some tool_invocation_failed
kind_of Status.timed_out = some tool_invocation_timed_out
kind_of Status.cancelled = some tool_invocation_cancelled
kind_of _ = none

abbrev pub is_succeeded : Status → Bool
is_succeeded Status.succeeded = true
is_succeeded _ = false

-- An ended execution of `v`: the result is valid, and the event is about it.
pub record IsEnd (v : Invocation) (e : InvocationEvent) (r : ExecutionResult) : Type 0 where
  pub identity : r.invocation.identity ≡ v.identity
  pub valid : lifecycle_is_valid r.invocation ≡ true
  pub terminal : is_terminal r.invocation.status ≡ true
  pub about : e.about ≡ r.invocation
  pub kind : kind_of r.invocation.status ≡ some e.kind
  pub evidence : is_available r.evidence_disposition ≡ is_succeeded r.invocation.status

-- What holds of every value that an action returns and of the world then, and of the world in which
-- it raises.
module _ {A : Type 0} (Q : A → World → Type 0) (X : Exception → World → Type 0) where
  abbrev pub Ends : Ending A → Type 0
  Ends (value a w) = Q a w
  Ends (exit x w) = X x w

  pub Ends-value : (o : Ending A) (a : A) (w : World) → Ends o → o ≡ value a w → Q a w
  Ends-value (value b v) a w q e =
      let p : b ≡ a = cc in let p' : v ≡ w = cc in subst (λ x. Q x w) p (subst (λ x. Q b x) p' q)
  Ends-value (exit x v) a w q e = let no : ⊥ = cc in absurd no

  pub Ends-exit : (o : Ending A) (x : Exception) (w : World) → Ends o → o ≡ exit x w → X x w
  Ends-exit (exit y v) x w q e =
      let p : y ≡ x = cc in let p' : v ≡ w = cc in subst (λ z. X z w) p (subst (λ z. X y z) p' q)
  Ends-exit (value b v) x w q e = let no : ⊥ = cc in absurd no

  pub Ends-bind :
      {B : Type 0} (m : Action B) (f : B → Action A) (w : World)
      → ((b : B) (w' : World) → m w ≡ value b w' → Ends (f b w'))
      → ((x : Exception) (w' : World) → m w ≡ exit x w' → X x w')
      → Ends ((m >>= f) w)
  Ends-bind {B = B} m f w h k = go (m w) h k
    where
      go :
          (o : Ending B)
          → ((b : B) (w' : World) → o ≡ value b w' → Ends (f b w'))
          → ((x : Exception) (w' : World) → o ≡ exit x w' → X x w')
          → Ends (elim o [ value b w' ↦ f b w' | exit x w' ↦ exit x w' ])
      go (value b w') h k = h b w' refl
      go (exit x w') h k = k x w' refl

  pub Ends-catch :
      (m : Action A) (f : Exception → Action A) (w : World)
      → ((a : A) (w' : World) → m w ≡ value a w' → Q a w')
      → ((x : Exception) (w' : World) → m w ≡ exit x w' → Ends (f x w'))
      → Ends (catch m f w)
  Ends-catch m f w h k = go (m w) h k
    where
      go :
          (o : Ending A)
          → ((a : A) (w' : World) → o ≡ value a w' → Q a w')
          → ((x : Exception) (w' : World) → o ≡ exit x w' → Ends (f x w'))
          → Ends (elim o [ value a w' ↦ value a w' | exit x w' ↦ f x w' ])
      go (value b w') h k = h b w' refl
      go (exit x w') h k = k x w' refl

pub transition_lem :
    (v a : Invocation) (w w' : World)
    → transition v w ≡ value a w'
    → (lifecycle_is_valid v ≡ true) × (a ≡ v) × (w' ≡ w)
unfolding transition
transition_lem v a w w' h = ground arith

pub emit_lem :
    (e : InvocationEvent) (u : Unit {0}) (w w' : World)
    → emit e w ≡ value u w'
    → w'.events ≡ w.events ++ (e ∷ [])
unfolding emit
emit_lem e u w w' h = ground arith

pub preserve_lem :
    (r s : ExecutionResult) (w w' : World)
    → preserve_failure_semantics r w ≡ value s w'
    → (s ≡ r) × (w' ≡ w)
unfolding preserve_failure_semantics
preserve_lem r s w w' h = ground arith

-- A step that raises appends nothing.
pub transition_exit :
    (v : Invocation) (x : Exception) (w w' : World)
    → transition v w ≡ exit x w'
    → w'.events ≡ w.events
unfolding transition
transition_exit v x w w' h = ground arith

pub emit_exit :
    (e : InvocationEvent) (x : Exception) (w w' : World)
    → emit e w ≡ exit x w'
    → w'.events ≡ w.events
unfolding emit
emit_exit e x w w' h = ground arith

pub preserve_exit :
    (r : ExecutionResult) (x : Exception) (w w' : World)
    → preserve_failure_semantics r w ≡ exit x w'
    → w'.events ≡ w.events
unfolding preserve_failure_semantics
preserve_exit r x w w' h = ground arith

pub run_handler_value :
    (h : Handler) (limit : Option ℕ) (o : Output) (w w' : World)
    → run_handler h limit w ≡ value o w'
    → w'.events ≡ w.events
unfolding run_handler
run_handler_value h limit o w w' e = ground arith

pub run_handler_exit :
    (h : Handler) (limit : Option ℕ) (x : Exception) (w w' : World)
    → run_handler h limit w ≡ exit x w'
    → w'.events ≡ w.events
unfolding run_handler
run_handler_exit h limit x w w' e = ground arith

pub normalize_value :
    (o : Output) (n : String × Option String) (w w' : World)
    → normalize_output o w ≡ value n w'
    → w'.events ≡ w.events
unfolding normalize_output
normalize_value o n w w' e = ground arith

pub normalize_exit :
    (o : Output) (x : Exception) (w w' : World)
    → normalize_output o w ≡ exit x w'
    → w'.events ≡ w.events
unfolding normalize_output
normalize_exit o x w w' e = ground arith
