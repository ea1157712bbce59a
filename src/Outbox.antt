-- ===== src/Outbox.antt =====
-- The notification outbox: `claim_notification_deliveries`, `complete_notification_delivery` and
-- `fail_notification_delivery` of app/adapters/persistence.py, and the loop of
-- `deliver_pending_notifications` in app/application/service.py. An error text is given as it is
-- stored, after sanitization.
pub mod Claims
pub mod Steps
pub mod Delivering
mod Examples
use database_alert_agent.Prelude.{
  ℕ, suc, ◌+◌, String, ◌≡◌, refl, Bool, true, false, not, ◌&&◌, ◌||◌, Option, none, some, List, [],
  ◌∷◌, map, Result, ok, err, guard, ◌>>=◌, ◌>>◌, value_error, runtime_error, Error, ◌==◌, ltb, leb,
  str_eq, holds, if◌then◌else◌, find, modify, is_none, take,
}
use database_alert_agent.Database.{DeliveryStatus, NotificationKind, Delivery, Db, seconds}

abbrev pub delivery_key : Delivery → ℕ
delivery_key d = d.id

abbrev pub get_delivery : Db → ℕ → Option Delivery
get_delivery db id = find delivery_key id db.deliveries

-- A new row, a failed one whose delay is over, or a claimed one whose claim has ended.
abbrev pub is_due : ℕ → Delivery → DeliveryStatus → Bool
is_due now d DeliveryStatus.pending = true
is_due now d DeliveryStatus.failed =
    is_none d.next_attempt_at || holds (λ t. leb t now) d.next_attempt_at
is_due now d DeliveryStatus.sending = holds (λ t. leb t now) d.claim_expires_at
is_due now d _ = false

unfoldable pub claimable : ℕ → Delivery → Bool
claimable now d = ltb d.attempts 3 && is_due now d d.status

unfoldable pub due_rows : ℕ → List Delivery → List Delivery
due_rows now [] = []
due_rows now (d ∷ ds) = let rest = due_rows now ds in if claimable now d then d ∷ rest else rest

-- `order_by(created_at)`
unfoldable pub insert_by_age : Delivery → List Delivery → List Delivery
insert_by_age d [] = d ∷ []
insert_by_age d (e ∷ es) =
    if leb d.created_at e.created_at then d ∷ e ∷ es else e ∷ insert_by_age d es

unfoldable pub by_age : List Delivery → List Delivery
by_age [] = []
by_age (d ∷ ds) = insert_by_age d (by_age ds)

abbrev pub claimed : String → ℕ → ℕ → Delivery → Delivery
claimed owner lease_seconds now d = record d {
  status = DeliveryStatus.sending;
  claim_owner = some owner;
  claim_expires_at = some (now + seconds lease_seconds);
  attempts = d.attempts + 1;
  updated_at = now;
}

unfoldable pub has_id : ℕ → List Delivery → Bool
has_id id [] = false
has_id id (d ∷ ds) = d.id == id || has_id id ds

-- `for row in rows: row.status = ...`
abbrev pub claim_rows : (Delivery → Delivery) → List Delivery → List Delivery → List Delivery
claim_rows f selected rows = map (λ d. if has_id d.id selected then f d else d) rows

-- No row is locked by another transaction, so `skip_locked` skips none.
unfoldable pub claim_notification_deliveries : String → ℕ → ℕ → ℕ → Db → Result (List Delivery × Db)
claim_notification_deliveries owner limit lease_seconds now db = do
  guard (ltb 0 limit && ltb 0 lease_seconds) value_error
  let selected = take limit (by_age (due_rows now db.deliveries))
  let claim = claimed owner lease_seconds now
  ok (map claim selected, record db { deliveries = claim_rows claim selected db.deliveries })

abbrev pub is_sending : DeliveryStatus → Bool
is_sending DeliveryStatus.sending = true
is_sending _ = false

-- `where(id == ..., status == SENDING, claim_owner == owner)`
unfoldable pub holds_claim : String → Delivery → Bool
holds_claim owner d = is_sending d.status && holds (str_eq owner) d.claim_owner

abbrev pub completed : Option String → ℕ → Delivery → Delivery
completed message_id now d = record d {
  status = DeliveryStatus.sent;
  message_id = message_id;
  error = none;
  claim_owner = none;
  claim_expires_at = none;
  next_attempt_at = none;
  sent_at = some now;
  updated_at = now;
}

unfoldable pub complete_notification_delivery : ℕ → String → Option String → ℕ → Db → Result Db
complete_notification_delivery delivery_id owner message_id now db = do
  guard (holds (holds_claim owner) (get_delivery db delivery_id)) runtime_error
  ok (record db {
    deliveries = modify delivery_key delivery_id (completed message_id now) db.deliveries;
  })

abbrev pub not_delivered : String → Bool → ℕ → Delivery → Delivery
not_delivered error unknown_outcome now d = record d {
  status = if unknown_outcome then DeliveryStatus.unknown else DeliveryStatus.failed;
  error = some error;
  claim_owner = none;
  claim_expires_at = none;
  next_attempt_at = if unknown_outcome || leb 3 d.attempts then none else some (now + seconds 30);
  updated_at = now;
}

unfoldable pub fail_notification_delivery : ℕ → String → String → Bool → ℕ → Db → Result Db
fail_notification_delivery delivery_id owner error unknown_outcome now db = do
  guard (holds (holds_claim owner) (get_delivery db delivery_id)) runtime_error
  ok (record db {
    deliveries =
        modify delivery_key delivery_id (not_delivered error unknown_outcome now) db.deliveries;
  })

-- What the notifier does with an event: it returns a message id, raises a NotificationError with
-- its `unknown_outcome`, or raises another exception.
pub data Sent : Type 0 where
  delivered : Option String → Sent
  notification_error : String → Bool → Sent
  exception : String → Sent

-- `decodes` says that the stored event validates; it is the notifier's `send`, and both are given.
-- The transactions that others commit while the notifier works are `others`.
module _ (decodes : Delivery → Bool) (send : Delivery → Sent) (others : Delivery → Db → Db) where
  -- `complete_notification_delivery`, and what its failure leads to; the second failure is logged.
  unfoldable pub record_sent : String → Option String → ℕ → Delivery → Db → Bool × Db
  record_sent owner message_id now d db =
      elim (complete_notification_delivery d.id owner message_id now db) [
        | ok db' ↦ (true, db')
        | err e ↦
            elim (fail_notification_delivery d.id owner "Delivery outcome could not be persisted"
              true now db) [ ok db' ↦ (false, db') | err e' ↦ (false, db) ]
      ]

  unfoldable pub record_failure : String → String → Bool → ℕ → Delivery → Db → Result Bool × Db
  record_failure owner error unknown_outcome now d db =
      elim (fail_notification_delivery d.id owner error unknown_outcome now db) [
        | ok db' ↦ (ok false, db')
        | err e ↦ (err e, db)
      ]

  -- One turn of the loop: whether the delivery counts as completed, or the error that ends the loop.
  unfoldable pub deliver : String → ℕ → Delivery → Db → Result Bool × Db
  unfolding record_sent record_failure
  deliver owner now d db =
      if decodes d
      then elim (send d) [
        | delivered message_id ↦
            let (sent, db') = record_sent owner message_id now d (others d db) in (ok sent, db')
        | notification_error error unknown_outcome ↦
            record_failure owner error unknown_outcome now d (others d db)
        | exception error ↦ record_failure owner error false now d (others d db)
      ]
      else record_failure owner "Invalid persisted notification event" false now d db

  -- The transactions of earlier turns stay when a later turn raises.
  unfoldable pub deliver_all : String → ℕ → List Delivery → ℕ → Db → Result ℕ × Db
  unfolding deliver
  deliver_all owner now [] completed db = (ok completed, db)
  deliver_all owner now (d ∷ ds) completed db =
      let (turn, db') = deliver owner now d db in
      elim turn [
        | ok sent ↦ deliver_all owner now ds (if sent then suc completed else completed) db'
        | err e ↦ (err e, db')
      ]

  unfoldable pub deliver_pending_notifications : String → ℕ → ℕ → Db → Result ℕ × Db
  unfolding deliver_all
  deliver_pending_notifications owner limit now db =
      elim (claim_notification_deliveries owner limit 60 now db) [
        | ok (deliveries, db') ↦ deliver_all owner now deliveries 0 db'
        | err e ↦ (err e, db)
      ]
