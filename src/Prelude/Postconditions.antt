-- ===== src/Prelude/Postconditions.antt =====
-- What holds of every value that an operation returns, one rule for each way to build an operation.
use mathlib.Core.Path.{◌≡◌, refl, subst}
use mathlib.Core.Bool.{Bool, true, false}
use mathlib.Core.Option.{Option, none, some}
use database_alert_agent.Prelude.Tests.{if◌then◌else◌}
use database_alert_agent.Prelude.Outcome.{Result, ok, err, Error, guard, ◌>>=◌}

pub record Ensures {A : Type 0} (Q : A → Type 0) (m : Result A) : Type 0 where
  pub at : (a : A) → m ≡ ok a → Q a

module _ {A : Type 0} (Q : A → Type 0) where
  pub Ensures-ok : (a : A) → Q a → Ensures Q (ok a)
  Ensures-ok a q = record { at = λ b e. let p : a ≡ b = cc in subst Q p q }

  pub Ensures-err : (e : Error) → Ensures Q (err e)
  Ensures-err e = record { at = λ b p. let h : ⊥ = cc in absurd h }

  pub Ensures-guard :
      (b : Bool) (e : Error) (k : Result A)
      → (b ≡ true → Ensures Q k)
      → Ensures Q (guard b e >>= λ _. k)
  Ensures-guard true e k h = h refl
  Ensures-guard false e k h = Ensures-err e

  pub Ensures-bind :
      {B : Type 0} (m : Result B) (f : B → Result A)
      → ((b : B) → m ≡ ok b → Ensures Q (f b))
      → Ensures Q (m >>= f)
  Ensures-bind (ok b) f h = h b refl
  Ensures-bind (err e) f h = Ensures-err e

  pub Ensures-if :
      (b : Bool) (m n : Result A)
      → (b ≡ true → Ensures Q m)
      → (b ≡ false → Ensures Q n)
      → Ensures Q (if b then m else n)
  Ensures-if true m n h k = h refl
  Ensures-if false m n h k = k refl

  pub Ensures-option :
      {B : Type 0} (o : Option B) (m : Result A) (f : B → Result A)
      → (o ≡ none → Ensures Q m)
      → ((b : B) → o ≡ some b → Ensures Q (f b))
      → Ensures Q (elim o [ none ↦ m | some b ↦ f b ])
  Ensures-option none m f h k = h refl
  Ensures-option (some b) m f h k = k b refl

module _ {A : Type 0} (Q : A → Type 0) where
  -- The same for a value that is computed by a test or a match.
  pub if_split :
      (b : Bool) (x y : A) → (b ≡ true → Q x) → (b ≡ false → Q y) → Q (if b then x else y)
  if_split true x y h k = h refl
  if_split false x y h k = k refl

  pub option_split :
      {B : Type 0} (o : Option B) (x : A) (f : B → A)
      → (o ≡ none → Q x)
      → ((b : B) → o ≡ some b → Q (f b))
      → Q (elim o [ none ↦ x | some b ↦ f b ])
  option_split none x f h k = h refl
  option_split (some b) x f h k = k b refl

-- A value that is handed out is the one that was written.
pub handed_out :
    {A B : Type 0} (P : A → B → Type 0) (a r : A) (b : B) → some a ≡ some r → P a b → P r b
handed_out P a r b e p = let q : a ≡ r = cc in subst (λ x. P x b) q p
