-- ===== src/Agent/Actions.antt =====
-- An action takes the log of calls and returns it with what it made of it: a value, or an exception, after
-- which the calls made before stay made.
use database_alert_agent.Prelude.{
  ◌≡◌, refl, subst, Bool, true, false, Option, none, some, ◌∷◌, if◌then◌else◌, Result, Error, ok,
  err,
}
use database_alert_agent.Agent.{Call, Log, NodeContext}

abbrev pub Action : Type 0 → Type 0
Action A = Log → Log × Result A

module _ {A B : Type 0} where
  abbrev pub and_then : Log × Result A → (A → Action B) → Log × Result B
  and_then (log, ok a) k = k a log
  and_then (log, err e) k = (log, err e)

  infixl 5 ◌>>=◌
  unfoldable pub ◌>>=◌ : Action A → (A → Action B) → Action B
  m >>= k = λ log. and_then (m log) k

infixl 5 ◌>>◌
abbrev pub ◌>>◌ : {B : Type 0} → Action (Unit {0}) → Action B → Action B
m >> k = m >>= λ done. k

module _ {A : Type 0} where
  unfoldable pub return : A → Action A
  return a = λ log. (log, ok a)

  unfoldable pub raise : Error → Action A
  raise e = λ log. (log, err e)

  -- What the repository says now.
  unfoldable pub observe : (Log → A) → Action A
  observe f = λ log. (log, ok (f log))

  -- A call that is answered by what is outside.
  unfoldable pub query : Call → (Log → Result A) → Action A
  query c answer = λ log. (c ∷ log, answer log)

-- A call of the repository.
unfoldable pub perform : NodeContext → Call → Action (Unit {0})
perform ctx c = λ log. elim (ctx.raises log c) [ none ↦ (c ∷ log, ok tt) | some e ↦ (log, err e) ]

-- What holds of every value that an action returns.
pub record Gives {A : Type 0} (Q : A → Type 0) (m : Action A) : Type 0 where
  pub at : (log log' : Log) (a : A) → m log ≡ (log', ok a) → Q a

module _ {A : Type 0} (Q : A → Type 0) where
  pub Gives-return : (a : A) → Q a → Gives Q (return a)
  unfolding return
  Gives-return a q = record { at = λ log log' b e. let p : a ≡ b = cc in subst Q p q }

  pub Gives-raise : (e : Error) → Gives Q (raise e)
  unfolding raise
  Gives-raise e = record { at = λ log log' b p. let h : ⊥ = cc in absurd h }

  pub Gives-query :
      (c : Call) (answer : Log → Result A) → ((a : A) → Q a) → Gives Q (query c answer)
  unfolding query
  Gives-query c answer q = record { at = λ log log' a e. q a }

  pub Gives-observe : (f : Log → A) → ((a : A) → Q a) → Gives Q (observe f)
  unfolding observe
  Gives-observe f q = record { at = λ log log' a e. q a }

  Gives-and_then :
      {B : Type 0} (r : Log × Result B) (k : B → Action A)
      → ((b : B) → Gives Q (k b))
      → (log' : Log) (a : A) → and_then r k ≡ (log', ok a)
      → Q a
  Gives-and_then (log, ok b) k h log' a e = (h b).at log log' a e
  Gives-and_then (log, err x) k h log' a e = let no : ⊥ = cc in absurd no

  pub Gives-bind :
      {B : Type 0} (m : Action B) (k : B → Action A) → ((b : B) → Gives Q (k b)) → Gives Q (m >>= k)
  unfolding ◌>>=◌
  Gives-bind m k h = record { at = λ log. Gives-and_then (m log) k h }

  pub Gives-if :
      (b : Bool) (m n : Action A)
      → (b ≡ true → Gives Q m)
      → (b ≡ false → Gives Q n)
      → Gives Q (if b then m else n)
  Gives-if true m n h k = h refl
  Gives-if false m n h k = k refl

  pub Gives-option :
      {B : Type 0} (o : Option B) (m : Action A) (f : B → Action A)
      → (o ≡ none → Gives Q m)
      → ((b : B) → o ≡ some b → Gives Q (f b))
      → Gives Q (elim o [ none ↦ m | some b ↦ f b ])
  Gives-option none m f h k = h refl
  Gives-option (some b) m f h k = k b refl
