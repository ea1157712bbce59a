-- ===== src/Budget.antt =====
-- The budget ledgers of app/agent_runtime/budgets.py. A ledger is reached with its parent, the
-- parent's parent and so on, as one chain; a wall time is a whole
-- number of seconds: on whole numbers up to 2 ^ 53 the floats of the code are exact.
pub mod Reservations
pub mod Limits
pub mod Snapshots
mod Examples
use database_alert_agent.Prelude.{
  ℕ, ◌+◌, ◌-◌, ◌≡◌, refl, Bool, true, false, not, ◌&&◌, Option, none, some, List, [], ◌∷◌, Result,
  ok, err, guard, ◌>>=◌, ◌>>◌, value_error, budget_exceeded, Error, ◌==◌, ltb, leb, if◌then◌else◌,
}

pub data Dimension : Type 0 where
  planner_requests accepted_decisions remote_tool_calls host_bootstrap_calls : Dimension
  session_attempts model_tokens wall_time : Dimension

-- A number for each dimension, as in the dictionaries of the ledger.
abbrev pub Amounts : Type 0
Amounts = Dimension → ℕ

abbrev pub nothing : Amounts
nothing d = 0

abbrev pub plus : Amounts → Amounts → Amounts
plus a b d = a d + b d

abbrev pub minus : Amounts → Amounts → Amounts
minus a b d = a d - b d

-- `all(... for dimension in _DIMENSIONS)`
unfoldable pub for_all : (Dimension → Bool) → Bool
for_all test =
    test planner_requests
    && test accepted_decisions
    && test remote_tool_calls
    && test host_bootstrap_calls
    && test session_attempts
    && test model_tokens
    && test wall_time

abbrev pub is_empty : Amounts → Bool
is_empty a = for_all (λ d. a d == 0)

pub record Reservation : Type 0 where
  pub reservation_id : ℕ
  pub ledger_id : ℕ
  pub amounts : Amounts

-- An entry of `_reservations`, with its entry of `_parent_reservations`.
pub record Held : Type 0 where
  pub reservation : Reservation
  pub parent : Option Reservation

-- Only wall-clock time has a limit: `_usage_only_count_limits`.
pub record Ledger : Type 0 where
  pub ledger_id : ℕ
  pub limit : Option ℕ
  pub consumed : Amounts
  pub reserved : Amounts
  pub held : List Held

pub data Chain : Type 0 where
  root : Ledger → Chain
  under : Ledger → Chain → Chain

abbrev pub ledger : Chain → Ledger
ledger (root l) = l
ledger (under l c) = l

-- `_ensure_capacity`
unfoldable pub fits : Amounts → Ledger → Bool
fits a l = elim l.limit [
  | none ↦ true
  | some n ↦ leb (l.consumed wall_time + l.reserved wall_time + a wall_time) n
]

abbrev pub reservation : ℕ → Amounts → Ledger → Reservation
reservation id a l = record { reservation_id = id; ledger_id = l.ledger_id; amounts = a }

abbrev pub hold : Reservation → Option Reservation → Ledger → Ledger
hold r parent l = record l {
  reserved = plus l.reserved r.amounts;
  held = record { reservation = r; parent = parent } ∷ l.held;
}

-- `reserve`: the identifiers that are drawn, by ledger, are given.
unfoldable pub reserve : (ℕ → ℕ) → Amounts → Chain → Result (Reservation × Chain)
reserve ids a (root l) = do
  guard (not (is_empty a)) value_error
  guard (fits a l) budget_exceeded
  let r = reservation (ids l.ledger_id) a l
  ok (r, root (hold r none l))
reserve ids a (under l c) = do
  guard (not (is_empty a)) value_error
  guard (fits a l) budget_exceeded
  (q, c') ← reserve ids a c
  let r = reservation (ids l.ledger_id) a l
  ok (r, under (hold r (some q) l) c')

abbrev pub same_reservation : Reservation → Reservation → Bool
same_reservation r s =
    r.reservation_id == s.reservation_id
    && r.ledger_id == s.ledger_id
    && for_all (λ d. r.amounts d == s.amounts d)

unfoldable pub find_held : ℕ → List Held → Option Held
find_held id [] = none
find_held id (h ∷ hs) = if h.reservation.reservation_id == id then some h else find_held id hs

-- `_get_reservation`
unfoldable pub get_reservation : Reservation → Ledger → Result Held
get_reservation r l = do
  guard (r.ledger_id == l.ledger_id) value_error
  elim (find_held r.reservation_id l.held) [
    | none ↦ err value_error
    | some h ↦ do guard (same_reservation h.reservation r) value_error; ok h
  ]

-- `pop(reservation_id)`
unfoldable pub drop_held : ℕ → List Held → List Held
drop_held id [] = []
drop_held id (h ∷ hs) = if h.reservation.reservation_id == id then hs else h ∷ drop_held id hs

abbrev pub released : Held → Ledger → Ledger
released h l = record l {
  reserved = minus l.reserved h.reservation.amounts;
  held = drop_held h.reservation.reservation_id l.held;
}

abbrev pub debited : Held → Ledger → Ledger
debited h l = record (released h l) { consumed = plus l.consumed h.reservation.amounts }

-- `release` and `debit` of a reservation settle it in the parent first.
unfoldable pub settle : (Held → Ledger → Ledger) → Reservation → Chain → Result Chain
settle f r (root l) = do h ← get_reservation r l; ok (root (f h l))
settle f r (under l c) = do
  h ← get_reservation r l
  c' ← elim h.parent [ none ↦ ok c | some q ↦ settle f q c ]
  ok (under (f h l) c')

unfoldable pub release : Reservation → Chain → Result Chain
release r c = settle released r c

unfoldable pub debit_reservation : Reservation → Chain → Result Chain
debit_reservation r c = settle debited r c

-- `debit(**amounts)`
unfoldable pub debit : (ℕ → ℕ) → Amounts → Chain → Result Chain
debit ids a c = do (r, c') ← reserve ids a c; debit_reservation r c'

-- `snapshot().remaining` of wall-clock time
unfoldable pub remaining : Ledger → Option ℕ
remaining l = elim l.limit [
  | none ↦ none
  | some n ↦ some (n - l.consumed wall_time - l.reserved wall_time)
]

-- `_bounded_child_limits`
unfoldable pub bounded_child_limit : Option ℕ → Option ℕ → Result (Option ℕ)
bounded_child_limit none available = ok available
bounded_child_limit (some n) none = ok (some n)
bounded_child_limit (some n) (some available) =
    if ltb available n then err value_error else ok (some n)

abbrev pub new_ledger : ℕ → Option ℕ → Ledger
new_ledger ledger_id limit = record {
  ledger_id = ledger_id;
  limit = limit;
  consumed = nothing;
  reserved = nothing;
  held = [];
}

unfoldable pub create_child : ℕ → Option ℕ → Chain → Result Chain
create_child ledger_id requested c = do
  limit ← bounded_child_limit requested (remaining (ledger c))
  ok (under (new_ledger ledger_id limit) c)
