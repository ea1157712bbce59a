-- ===== src/Budget/Examples.antt =====
-- A run with a child run, and a reservation of ten microseconds for one tool call.
use database_alert_agent.Prelude.{ℕ, ◌+◌, ◌≡◌, refl, none, some, ok, arith}
use database_alert_agent.Budget.{
  Ledger, wall_time, remote_tool_calls, Amounts, for_all, Reservation, Chain, root, under,
  new_ledger, fits, reservation, hold, reserve, debit_reservation, remaining, bounded_child_limit,
  create_child,
}
use database_alert_agent.Budget.Reservations.{each, spend, reserve-debit}
use database_alert_agent.Budget.Snapshots.{snapshot, from_snapshot, from_snapshot-snapshot}
use database_alert_agent.Budget.Limits.{
  IsSound, AllSound, Steps, here, next, reserves, debits, Steps-AllSound,
}

abbrev one_call : Amounts
one_call wall_time = 10
one_call remote_tool_calls = 1
one_call _ = 0

abbrev main_run : Chain
main_run = root (new_ledger 1 (some 100))

abbrev with_child : Chain
with_child = under (new_ledger 2 (some 50)) main_run

abbrev ids : ℕ → ℕ
ids ledger_id = ledger_id + 10

abbrev call : Reservation
call = reservation 12 one_call (new_ledger 2 (some 50))

abbrev main_call : Reservation
main_call = reservation 11 one_call (new_ledger 1 (some 100))

abbrev reserved : Chain
reserved =
    under (hold call (some main_call) (new_ledger 2 (some 50)))
      (root (hold main_call none (new_ledger 1 (some 100))))

held : reserve ids one_call with_child ≡ ok (call, reserved)
unfolding reserve for_all fits
held = refl

new_main : IsSound (new_ledger 1 (some 100))
new_main = record { exact = λ d. refl; within = λ n e. omega arith }

child : create_child 2 (some 50) main_run ≡ ok with_child
unfolding create_child bounded_child_limit remaining
child = refl

sound : AllSound with_child
sound = (record { exact = λ d. refl; within = λ n e. omega arith }, new_main)

paid : debit_reservation call reserved ≡ ok (each (spend one_call) with_child)
paid = (reserve-debit ids one_call with_child reserved call held).0

to_paid : Steps with_child (each (spend one_call) with_child)
to_paid = next (next here (reserves ids one_call held)) (debits call paid)

Steps-AllSound_example : AllSound (each (spend one_call) with_child)
Steps-AllSound_example = Steps-AllSound sound to_paid

abbrev spent : Ledger
spent = spend one_call (new_ledger 2 (some 50))

spent-IsSound : IsSound spent
spent-IsSound = record { exact = λ d. refl; within = λ n e. ground arith }

from_snapshot-snapshot_example :
    from_snapshot (snapshot spent (some main_run)) (some main_run) ≡ ok (under spent main_run)
from_snapshot-snapshot_example = from_snapshot-snapshot spent (some main_run) spent-IsSound refl
