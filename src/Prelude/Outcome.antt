-- ===== src/Prelude/Outcome.antt =====
-- What an operation may raise. An operation that raises has written nothing: its transaction is
-- rolled back, so only a returned value carries a new state.
use Prim.Native.Nat.{ℕ}
use mathlib.Core.Bool.{Bool, true, false}

pub data Error : Type 0 where
  value_error runtime_error lease_conflict cancellation_conflict cancellation_requested : Error
  budget_exceeded invocation_conflict : Error
  -- expected and actual version
  dispatch_conflict sequence_conflict checkpoint_conflict : ℕ → ℕ → Error

-- What an operation returns, or raises.
pub data Result {ℓ} (Value : Type ℓ) : Type ℓ where
  err : Error → Result Value
  ok : Value → Result Value

-- `if not test: raise problem`
abbrev pub guard : (test : Bool) (problem : Error) → Result (Unit {0})
guard false problem = err problem
guard true _ = ok tt

-- The rest of an operation is not run after a raise.
module _ {ℓ κ} {Value : Type ℓ} {Next : Type κ} where
  infixl 5 ◌>>=◌
  abbrev pub ◌>>=◌ : Result Value → (Value → Result Next) → Result Next
  err problem >>= rest = err problem
  ok value >>= rest = rest value

infixl 5 ◌>>◌
abbrev pub ◌>>◌ {κ} : {Next : Type κ} (test : Result (Unit {0})) (rest : Result Next) → Result Next
test >> rest = test >>= λ done. rest
