-- ===== src/Outbox/Delivering.antt =====
-- One turn of the delivery loop, and a delivery whose attempts are used up.
use database_alert_agent.Prelude.{
  ℕ, ◌≤◌, String, ◌≡◌, ◌≢◌, refl, sym, ap, ◌∙◌, Bool, true, false, Option, some, inl, inr, List, ok,
  arith, if◌then◌else◌, In, Bool-cases, find, find-In, find-map, find-modify_self, modify,
}
use database_alert_agent.Database.{Delivery, Db}
use database_alert_agent.Outbox.{
  delivery_key, get_delivery, claimable, holds_claim, claimed, completed, not_delivered, has_id,
  claim_notification_deliveries, complete_notification_delivery, fail_notification_delivery, Sent,
  delivered, notification_error, exception, record_sent, record_failure, deliver,
}
use database_alert_agent.Outbox.Claims.{claim_notification_deliveries-Claims, has_id-In}
use database_alert_agent.Outbox.Steps.{IsOutbox}

-- From an outbox with different ids: a delivery whose third attempt has begun is handed out by no
-- claim, at any time, and no claim writes its row. Without the outcome of that attempt it stays as
-- it is.
pub exhausted_not_claimed :
    (owner : String) (limit lease_seconds now : ℕ) (db db' : Db) (ds : List Delivery) (d : Delivery)
    → IsOutbox db.deliveries
    → get_delivery db d.id ≡ some d
    → 3 ≤ d.attempts
    → claim_notification_deliveries owner limit lease_seconds now db ≡ ok (ds, db')
    → (get_delivery db' d.id ≡ some d) × ((e : Delivery) → In e ds → e.id ≢ d.id)
unfolding claimable
exhausted_not_claimed owner limit n now db db' ds d k h a e =
    let c = (claim_notification_deliveries-Claims owner limit n now db).at (ds, db') e in
    let (selected, found, t) = c.table in
    let i = find-In delivery_key d.id db.deliveries d h in
    let not_due : claimable now d ≡ false = ground arith in
    let not_selected : has_id d.id selected ≡ false = elim (Bool-cases (has_id d.id selected)) [
      | inl q ↦
          let (x, j, p) = has_id-In selected d.id q in
          let (j', v) = found x j in
          let same : x ≡ d = k.one_id.same x d j' i (ground arith) in
          absurd (let w : true ≡ false = sym v ∙ ap (claimable now) same ∙ not_due in cc)
      | inr q ↦ q
    ] in
    (
      ap (find delivery_key d.id) t
          ∙ find-map delivery_key (λ x. if has_id x.id selected then claimed owner n now x else x)
              d.id db.deliveries d (λ x. ground arith) h
          ∙ ground arith,
      λ x j q.
          let y = c.each x j in
          let same : y.before ≡ d =
            k.one_id.same y.before d y.in_table i (sym (ap (λ z. z.id) y.after) ∙ q) in
          let w : true ≡ false = sym y.was_claimable ∙ ap (claimable now) same ∙ not_due in (cc),
    )

fails :
    (owner error : String) (unknown_outcome : Bool) (now : ℕ) (d row : Delivery) (db : Db)
    → get_delivery db d.id ≡ some row
    → holds_claim owner row ≡ true
    → (db' : Db) × (fail_notification_delivery d.id owner error unknown_outcome now db ≡ ok db')
      × (get_delivery db' d.id ≡ some (not_delivered error unknown_outcome now row))
unfolding fail_notification_delivery
fails owner error u now d row db h c = (
  record db { deliveries = modify delivery_key d.id (not_delivered error u now) db.deliveries },
  ground arith,
  find-modify_self delivery_key d.id (not_delivered error u now) (λ x. refl) db.deliveries row h,
)

completes :
    (owner : String) (message_id : Option String) (now : ℕ) (d row : Delivery) (db : Db)
    → get_delivery db d.id ≡ some row
    → holds_claim owner row ≡ true
    → (db' : Db) × (complete_notification_delivery d.id owner message_id now db ≡ ok db')
      × (get_delivery db' d.id ≡ some (completed message_id now row))
unfolding complete_notification_delivery
completes owner message_id now d row db h c = (
  record db { deliveries = modify delivery_key d.id (completed message_id now) db.deliveries },
  ground arith,
  find-modify_self delivery_key d.id (completed message_id now) (λ x. refl) db.deliveries row h,
)

module _ (decodes : Delivery → Bool) (send : Delivery → Sent) (others : Delivery → Db → Db) where
  -- What a turn makes of its row, and whether the turn counts.
  abbrev pub outcome : ℕ → Delivery → Delivery → Bool × Delivery
  outcome now d row =
      if decodes d
      then elim (send d) [
        | delivered message_id ↦ (true, completed message_id now row)
        | notification_error error unknown_outcome ↦
            (false, not_delivered error unknown_outcome now row)
        | exception error ↦ (false, not_delivered error false now row)
      ]
      else (false, not_delivered "Invalid persisted notification event" false now row)

  sent_settles :
      (owner : String) (now : ℕ) (d row : Delivery) (db : Db) (x : Sent)
      → decodes d ≡ true
      → send d ≡ x
      → get_delivery (others d db) d.id ≡ some row
      → holds_claim owner row ≡ true
      → ((deliver decodes send others owner now d db).0 ≡ ok (outcome now d row).0)
        × (get_delivery (deliver decodes send others owner now d db).1 d.id
            ≡ some (outcome now d row).1)
  unfolding deliver record_sent record_failure
  sent_settles owner now d row db (delivered message_id) t s h c =
      let (new, p, q) = completes owner message_id now d row (others d db) h c in
      (ground (arith, p), ground (arith, p, q))
  sent_settles owner now d row db (notification_error error u) t s h c =
      let (new, p, q) = fails owner error u now d row (others d db) h c in
      (ground (arith, p), ground (arith, p, q))
  sent_settles owner now d row db (exception error) t s h c =
      let (new, p, q) = fails owner error false now d row (others d db) h c in
      (ground (arith, p), ground (arith, p, q))

  -- While its claim is not lost, a turn of the loop does not raise; it leaves the row as sent, as
  -- failed or as unknown by what the notifier did, and counts the deliveries that were sent.
  pub deliver_settles :
      (owner : String) (now : ℕ) (d row : Delivery) (db : Db)
      → get_delivery db d.id ≡ some row
      → get_delivery (others d db) d.id ≡ some row
      → holds_claim owner row ≡ true
      → ((deliver decodes send others owner now d db).0 ≡ ok (outcome now d row).0)
        × (get_delivery (deliver decodes send others owner now d db).1 d.id
            ≡ some (outcome now d row).1)
  unfolding deliver record_sent record_failure
  deliver_settles owner now d row db h h' c =
      let (bad, p, q) = fails owner "Invalid persisted notification event" false now d row db h c in
      elim (Bool-cases (decodes d)) [
        | inl t ↦ sent_settles owner now d row db (send d) t refl h' c
        | inr t ↦ (ground (arith, p), ground (arith, p, q))
      ]
