-- ===== src/Outbox/Examples.antt =====
-- Two deliveries through a claim, a delivery that works and one whose claim is lost.
use database_alert_agent.Prelude.{
  ◌≡◌, ◌≢◌, refl, sym, Bool, true, none, some, List, [], ◌∷◌, ok, inl, inr, arith, In, find, modify,
  take, ap, ◌∙◌,
}
use database_alert_agent.Database.{DeliveryStatus, NotificationKind, Delivery, Db}
use database_alert_agent.Outbox.{
  get_delivery, claimable, due_rows, insert_by_age, by_age, claimed, completed, has_id,
  claim_notification_deliveries, complete_notification_delivery, holds_claim, Sent, delivered,
}
use database_alert_agent.Outbox.Steps.{
  IsOutbox, Steps, here, next, claim, complete, Steps-IsOutbox, Steps-settled,
}
use database_alert_agent.Outbox.Delivering.{exhausted_not_claimed}

abbrev first : Delivery
first = record {
  id = 1;
  alert_id = 1;
  run_id = 7;
  kind = NotificationKind.analysis_result;
  status = DeliveryStatus.pending;
  event = "{}";
  attempts = 2;
  error = none;
  message_id = none;
  next_attempt_at = none;
  claim_owner = none;
  claim_expires_at = none;
  created_at = 5;
  updated_at = 5;
  sent_at = none;
}

abbrev second : Delivery
second = record first { id = 2; attempts = 0; created_at = 3 }

abbrev at : List Delivery → Db
at rows = record {
  alerts = [];
  runs = [];
  dispatch = none;
  deliveries = rows;
  progress = [];
  events = [];
  checkpoints = [];
}

-- A claims the older one of the two, B the other one.
abbrev second_a : Delivery
second_a = claimed "A" 60 10 second

abbrev first_b : Delivery
first_b = claimed "B" 60 20 first

claim_a :
    claim_notification_deliveries "A" 1 60 10 (at (first ∷ second ∷ []))
    ≡ ok (second_a ∷ [], at (first ∷ second_a ∷ []))
unfolding claim_notification_deliveries due_rows claimable by_age insert_by_age take has_id
claim_a = refl

claim_b :
    claim_notification_deliveries "B" 5 60 20 (at (first ∷ second_a ∷ []))
    ≡ ok (first_b ∷ [], at (first_b ∷ second_a ∷ []))
unfolding claim_notification_deliveries due_rows claimable by_age insert_by_age take has_id
claim_b = refl

-- The claim of B has ended; A's delivery is due again, B's has no attempt left.
claim_c :
    claim_notification_deliveries "C" 5 60 90000000 (at (first_b ∷ second_a ∷ []))
    ≡ ok (
      claimed "C" 60 90000000 second_a ∷ [],
      at (first_b ∷ claimed "C" 60 90000000 second_a ∷ []),
    )
unfolding claim_notification_deliveries due_rows claimable by_age insert_by_age take has_id
claim_c = refl

sent_a :
    complete_notification_delivery 2 "A" (some "m") 30 (at (first ∷ second_a ∷ []))
    ≡ ok (at (first ∷ completed (some "m") 30 second_a ∷ []))
unfolding complete_notification_delivery find modify holds_claim
sent_a = refl

two_rows : IsOutbox (first ∷ second ∷ [])
two_rows = record {
  one_id = record {
    same = λ x y i j q. elim i [
      | inl p ↦ elim j [
        | inl r ↦ p ∙ sym r
        | inr k ↦ elim k [
          | inl r ↦ absurd (ground (arith, q, ap (λ z. z.id) p, ap (λ z. z.id) r))
          | inr z ↦ absurd z
        ]
      ]
      | inr k ↦ elim k [
        | inl p ↦ elim j [
          | inl r ↦ absurd (ground (arith, q, ap (λ z. z.id) p, ap (λ z. z.id) r))
          | inr l ↦ elim l [ inl r ↦ p ∙ sym r | inr z ↦ absurd z ]
        ]
        | inr z ↦ absurd z
      ]
    ];
  };
  bounded = λ x i. elim i [
    | inl p ↦ ground (arith, ap (λ z. z.attempts) p)
    | inr k ↦ elim k [ inl p ↦ ground (arith, ap (λ z. z.attempts) p) | inr z ↦ absurd z ]
  ];
}

to_a : Steps (at (first ∷ second ∷ [])) (at (first ∷ second_a ∷ []))
to_a = next here (claim "A" 1 60 10 claim_a)

to_b : Steps (at (first ∷ second ∷ [])) (at (first_b ∷ second_a ∷ []))
to_b = next to_a (claim "B" 5 60 20 claim_b)

to_sent : Steps (at (first ∷ second ∷ [])) (at (first ∷ completed (some "m") 30 second_a ∷ []))
to_sent = next to_a (complete 2 "A" (some "m") 30 sent_a)

after_sent :
    Steps
      (at (first ∷ completed (some "m") 30 second_a ∷ []))
      (at (first_b ∷ completed (some "m") 30 second_a ∷ []))
unfolding claim_notification_deliveries due_rows claimable by_age insert_by_age take has_id
after_sent = next here (claim "B" 5 60 20 refl)

Steps-settled_example :
    get_delivery (at (first_b ∷ completed (some "m") 30 second_a ∷ [])) 2
    ≡ some (completed (some "m") 30 second_a)
unfolding find
Steps-settled_example =
    Steps-settled 2 (completed (some "m") 30 second_a) (Steps-IsOutbox two_rows to_sent) after_sent
      refl refl

exhausted_not_claimed_example :
    (get_delivery (at (first_b ∷ claimed "C" 60 90000000 second_a ∷ [])) 1 ≡ some first_b)
    × ((e : Delivery) → In e (claimed "C" 60 90000000 second_a ∷ []) → e.id ≢ 1)
unfolding find
exhausted_not_claimed_example =
    exhausted_not_claimed "C" 5 60 90000000 (at (first_b ∷ second_a ∷ []))
      (at (first_b ∷ claimed "C" 60 90000000 second_a ∷ [])) (claimed "C" 60 90000000 second_a ∷ [])
      first_b (Steps-IsOutbox two_rows to_b) refl (omega arith) claim_c

abbrev decodes : Delivery → Bool
decodes d = true

abbrev send : Delivery → Sent
send d = delivered (some "m")

-- Nobody interferes, or C takes the delivery over.
abbrev nobody : Delivery → Db → Db
nobody d db = db

abbrev taken : Delivery → Db → Db
taken d db = at (first_b ∷ claimed "C" 60 90000000 second_a ∷ [])
