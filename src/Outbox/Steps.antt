-- ===== src/Outbox/Steps.antt =====
-- The outbox through any sequence of transactions.
use database_alert_agent.Prelude.{
  ℕ, ◌≤◌, String, ◌≡◌, ◌≢◌, refl, sym, ap, ◌∙◌, subst, Bool, true, false, ◌&&◌, not, Option, none,
  some, List, ◌∷◌, map, ok, inl, inr, arith, ◌==◌, if◌then◌else◌, In, In-map, find, find-map,
  modify, holds, find-In, ==→≡, find-key, find_of_In, modify-map, Ensures, Ensures-ok,
  Ensures-guard, runtime_error,
}
use database_alert_agent.Database.{DeliveryStatus, NotificationKind, Delivery, Db}
use database_alert_agent.Runs.Finalize.{notice}
use database_alert_agent.Outbox.{
  delivery_key, get_delivery, claimable, holds_claim, completed, not_delivered, has_id,
  claim_notification_deliveries, complete_notification_delivery, fail_notification_delivery,
}
use database_alert_agent.Outbox.Claims.{
  OneId, claim_notification_deliveries-Claims, has_id-In, In-has_id,
}

-- The outbox keeps its primary key, and no delivery has been attempted more than three times.
pub record IsOutbox (ds : List Delivery) : Type 0 where
  pub one_id : OneId ds
  pub bounded : (d : Delivery) → In d ds → d.attempts ≤ 3

-- Sent, or sent perhaps: nothing is to be delivered any more.
abbrev pub is_settled : DeliveryStatus → Bool
is_settled DeliveryStatus.sent = true
is_settled DeliveryStatus.unknown = true
is_settled _ = false

-- A new row has a key that is not in the table, and was not attempted.
unfoldable pub is_new : Delivery → List Delivery → Bool
is_new d ds = d.attempts == 0 && not (has_id d.id ds)

-- One transaction on the outbox; `queue` is the part of any other one that adds a row, as
-- `notice` in the end of a run.
pub data Step : Db → Db → Type 0 where
  claim :
      {db db' : Db} {ds : List Delivery} (owner : String) (limit lease_seconds now : ℕ)
      → claim_notification_deliveries owner limit lease_seconds now db ≡ ok (ds, db')
      → Step db db'
  complete :
      {db db' : Db} (delivery_id : ℕ) (owner : String) (message_id : Option String) (now : ℕ)
      → complete_notification_delivery delivery_id owner message_id now db ≡ ok db'
      → Step db db'
  fail :
      {db db' : Db} (delivery_id : ℕ) (owner error : String) (unknown_outcome : Bool) (now : ℕ)
      → fail_notification_delivery delivery_id owner error unknown_outcome now db ≡ ok db'
      → Step db db'
  queue :
      {db : Db} (n : Option (NotificationKind × String)) (delivery_id alert_id run_id now : ℕ)
      → has_id delivery_id db.deliveries ≡ false
      → Step db (notice n delivery_id alert_id run_id now db)
  other : {db db' : Db} → db.deliveries ≡ db'.deliveries → Step db db'

pub data Steps (db : Db) : Db → Type 0 where
  here : Steps db db
  next : {db' db'' : Db} → Steps db db' → Step db' db'' → Steps db db''

-- What a step does to the table: it updates rows in place, within the bound and leaving settled rows
-- alone, or adds a new row.
pub data Change (ds : List Delivery) : List Delivery → Type 0 where
  update :
      (f : Delivery → Delivery)
      → ((d : Delivery) → (f d).id ≡ d.id)
      → ((d : Delivery) → In d ds → d.attempts ≤ 3 → (f d).attempts ≤ 3)
      → ((d : Delivery) → In d ds → is_settled d.status ≡ true → f d ≡ d)
      → Change ds (map f ds)
  insert : (d : Delivery) → is_new d ds ≡ true → Change ds (d ∷ ds)
  same : Change ds ds

Change-IsOutbox : {ds ds' : List Delivery} → Change ds ds' → IsOutbox ds → IsOutbox ds'
unfolding is_new
Change-IsOutbox {ds} (update f key bound keeps) k = record {
  one_id = record {
    same = λ d e i j q.
        let (x, i', p) = In-map f ds d i in
        let (y, j', r) = In-map f ds e j in
        let same : x ≡ y =
          k.one_id.same x y i' j'
            (sym (key x) ∙ sym (ap (λ z. z.id) p) ∙ q ∙ ap (λ z. z.id) r ∙ key y) in
        p ∙ ap f same ∙ sym r;
  };
  bounded = λ d i.
      let (x, i', p) = In-map f ds d i in
      subst (λ z. z.attempts ≤ 3) (sym p) (bound x i' (k.bounded x i'));
}
Change-IsOutbox {ds} (insert d h) k = record {
  one_id = record {
    same = λ x y i j q. elim i [
      | inl p ↦ elim j [
        | inl r ↦ p ∙ sym r
        | inr j' ↦ absurd (new_id y j' (sym q ∙ ap (λ z. z.id) p))
      ]
      | inr i' ↦ elim j [
        | inl r ↦ absurd (new_id x i' (q ∙ ap (λ z. z.id) r))
        | inr j' ↦ k.one_id.same x y i' j' q
      ]
    ];
  };
  bounded = λ x i. elim i [
    | inl p ↦ subst (λ z. z.attempts ≤ 3) (sym p) (ground arith)
    | inr i' ↦ k.bounded x i'
  ];
}
  where
    new_id : (x : Delivery) → In x ds → x.id ≢ d.id
    new_id x i q = ground (arith, In-has_id ds x i, ap (λ n. has_id n ds) q)
Change-IsOutbox same k = k

-- A settled row stays as it is.
Change-settled :
    {ds ds' : List Delivery} (id : ℕ) (d : Delivery)
    → Change ds ds'
    → find delivery_key id ds ≡ some d
    → is_settled d.status ≡ true
    → find delivery_key id ds' ≡ some d
unfolding is_new find
Change-settled {ds} id d (update f key bound keeps) h s =
    find-map delivery_key f id ds d key h ∙ ap some (keeps d (find-In delivery_key id ds d h) s)
Change-settled {ds} id d (insert e n) h s =
    ground (arith, In-has_id ds d (find-In delivery_key id ds d h), find-key delivery_key id ds d h)
Change-settled id d same h s = h

module _ (db : Db) (k : IsOutbox db.deliveries) where
  claim-Change :
      (owner : String) (limit lease_seconds now : ℕ)
      → Ensures
          (λ out. Change db.deliveries out.1.deliveries)
          (claim_notification_deliveries owner limit lease_seconds now db)
  unfolding claimable
  claim-Change owner limit n now = record {
    at = λ out h.
        let c = (claim_notification_deliveries-Claims owner limit n now db).at out h in
        let (selected, found, e) = c.table in
        let chosen : (d : Delivery)
            → In d db.deliveries
            → has_id d.id selected ≡ true
            → claimable now d ≡ true =
          λ d i q.
            let (x, j, p) = has_id-In selected d.id q in
            let (j', v) = found x j in
            ap (claimable now) (k.one_id.same d x i j' (sym (==→≡ x.id d.id p))) ∙ v in
        subst (Change db.deliveries) (sym e) (
          update _ (λ d. ground arith) (λ d i b. ground (arith, chosen d i))
            (λ d i b. ground (arith, chosen d i)));
  }

  held_row :
      (owner : String) (id : ℕ) (d : Delivery)
      → holds (holds_claim owner) (get_delivery db id) ≡ true
      → In d db.deliveries
      → (delivery_key d == id) ≡ true
      → is_settled d.status ≡ false
  unfolding holds_claim
  held_row owner id d h i q =
      let (y, p) = find_of_In delivery_key db.deliveries d i in
      let same : y ≡ d =
        k.one_id.same y d (find-In delivery_key d.id db.deliveries y p) i
          (find-key delivery_key d.id db.deliveries y p) in
      let found : find delivery_key id db.deliveries ≡ some d =
        subst (λ n. find delivery_key n db.deliveries ≡ some y) (==→≡ d.id id q) p ∙ ap some same in
      ground arith

  -- The row that a completion or a failure writes is under a claim.
  held-Change :
      (owner : String) (id : ℕ) (f : Delivery → Delivery)
      → ((d : Delivery) → ((f d).id ≡ d.id) × ((f d).attempts ≡ d.attempts))
      → holds (holds_claim owner) (get_delivery db id) ≡ true
      → Change db.deliveries (modify delivery_key id f db.deliveries)
  held-Change owner id f keeps h =
      subst (Change db.deliveries) (sym (modify-map delivery_key id f db.deliveries)) (
        update (λ x. if delivery_key x == id then f x else x) (λ d. ground (arith, (keeps d).0))
          (λ d i b. ground (arith, (keeps d).1)) (λ d i b. ground (arith, held_row owner id d h i)))

  complete_notification_delivery-Change :
      (id : ℕ) (owner : String) (message_id : Option String) (now : ℕ)
      → Ensures
          (λ db'. Change db.deliveries db'.deliveries)
          (complete_notification_delivery id owner message_id now db)
  unfolding complete_notification_delivery
  complete_notification_delivery-Change id owner message_id now =
      Ensures-guard (λ db'. Change db.deliveries db'.deliveries)
        (holds (holds_claim owner) (get_delivery db id)) runtime_error _
        λ h.
          Ensures-ok (λ db'. Change db.deliveries db'.deliveries) _
            (held-Change owner id (completed message_id now) (λ d. (refl, refl)) h)

  fail_notification_delivery-Change :
      (id : ℕ) (owner error : String) (unknown_outcome : Bool) (now : ℕ)
      → Ensures
          (λ db'. Change db.deliveries db'.deliveries)
          (fail_notification_delivery id owner error unknown_outcome now db)
  unfolding fail_notification_delivery
  fail_notification_delivery-Change id owner error unknown_outcome now =
      Ensures-guard (λ db'. Change db.deliveries db'.deliveries)
        (holds (holds_claim owner) (get_delivery db id)) runtime_error _
        λ h.
          Ensures-ok (λ db'. Change db.deliveries db'.deliveries) _
            (held-Change owner id (not_delivered error unknown_outcome now) (λ d. (refl, refl)) h)

  Step-Change : {db' : Db} → Step db db' → Change db.deliveries db'.deliveries
  unfolding notice is_new
  Step-Change (claim owner limit n now h) = (claim-Change owner limit n now).at _ h
  Step-Change (complete id owner message_id now h) =
      (complete_notification_delivery-Change id owner message_id now).at _ h
  Step-Change (fail id owner error unknown_outcome now h) =
      (fail_notification_delivery-Change id owner error unknown_outcome now).at _ h
  Step-Change (queue none delivery_id alert_id run_id now h) = same
  Step-Change (queue (some (kind, event)) delivery_id alert_id run_id now h) =
      insert _ (ground arith)
  Step-Change (other h) = subst (Change db.deliveries) h same

-- Through any transactions no delivery is attempted more than three times, and the ids of the
-- deliveries stay different.
pub Steps-IsOutbox : {db db' : Db} → IsOutbox db.deliveries → Steps db db' → IsOutbox db'.deliveries
Steps-IsOutbox k here = k
Steps-IsOutbox k (next {db' = mid} r s) =
    let k' = Steps-IsOutbox k r in Change-IsOutbox (Step-Change mid k' s) k'

-- From an outbox with different ids and at most three attempts each: a delivery that was sent, or
-- whose outcome is unknown, is never claimed or written again, whatever transactions follow. Its
-- row stays as it is.
pub Steps-settled :
    {db db' : Db} (id : ℕ) (d : Delivery)
    → IsOutbox db.deliveries
    → Steps db db'
    → get_delivery db id ≡ some d
    → is_settled d.status ≡ true
    → get_delivery db' id ≡ some d
Steps-settled id d k here h s = h
Steps-settled id d k (next {db' = mid} r t) h s =
    Change-settled id d (Step-Change mid (Steps-IsOutbox k r) t) (Steps-settled id d k r h s) s
