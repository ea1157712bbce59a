-- ===== src/Outbox/Claims.antt =====
-- What a claim of deliveries hands out.
use database_alert_agent.Prelude.{
  ℕ, ◌≤◌, String, ◌≡◌, refl, sym, ap, ◌∙◌, subst, true, ◌&&◌, List, [], ◌∷◌, map, ok, inl, inr, ◌⊎◌,
  arith, ◌==◌, ltb, leb, if◌then◌else◌, In, length, take, In-take, length-take, In-map, map-In,
  Bool-cases, Ensures, Ensures-ok, Ensures-guard, value_error,
}
use database_alert_agent.Database.{Delivery, Db}
use database_alert_agent.Outbox.{
  claimable, due_rows, insert_by_age, by_age, claimed, has_id, claim_rows,
  claim_notification_deliveries,
}

due_rows-In :
    (now : ℕ) (ds : List Delivery) (d : Delivery)
    → In d (due_rows now ds)
    → In d ds × (claimable now d ≡ true)
unfolding due_rows
due_rows-In now [] d i = absurd i
due_rows-In now (e ∷ es) d i =
    let later : In d (due_rows now es) → In d (e ∷ es) × (claimable now d ≡ true) =
      λ j. let (k, c) = due_rows-In now es d j in (inr k, c) in
    elim (Bool-cases (claimable now e)) [
      | inl t ↦
          let q : due_rows now (e ∷ es) ≡ e ∷ due_rows now es = rw t in
          let i' : In d (e ∷ due_rows now es) = subst (In d) q i in
          elim i' [ inl q ↦ (inl q, ap (claimable now) q ∙ t) | inr j ↦ later j ]
      | inr t ↦ let q : due_rows now (e ∷ es) ≡ due_rows now es = rw t in later (subst (In d) q i)
    ]

insert_by_age-In :
    (d e : Delivery) (ds : List Delivery) → In e (insert_by_age d ds) → (e ≡ d) ⊎ In e ds
unfolding insert_by_age
insert_by_age-In d e [] i = i
insert_by_age-In d e (x ∷ xs) i = elim (Bool-cases (leb d.created_at x.created_at)) [
  | inl t ↦ let q : insert_by_age d (x ∷ xs) ≡ d ∷ x ∷ xs = rw t in subst (In e) q i
  | inr t ↦
      let q : insert_by_age d (x ∷ xs) ≡ x ∷ insert_by_age d xs = rw t in
      let i' : In e (x ∷ insert_by_age d xs) = subst (In e) q i in
      elim i' [
        | inl q ↦ inr (inl q)
        | inr j ↦ elim (insert_by_age-In d e xs j) [ inl q ↦ inl q | inr k ↦ inr (inr k) ]
      ]
]

by_age-In : (e : Delivery) (ds : List Delivery) → In e (by_age ds) → In e ds
unfolding by_age
by_age-In e [] i = i
by_age-In e (d ∷ ds) i = elim (insert_by_age-In d e (by_age ds) i) [
  | inl q ↦ inl q
  | inr j ↦ inr (by_age-In e ds j)
]

pub has_id-In :
    (ds : List Delivery) (id : ℕ)
    → has_id id ds ≡ true
    → (d : Delivery) × In d ds × ((d.id == id) ≡ true)
unfolding has_id
has_id-In [] id h = absurd (ground arith)
has_id-In (d ∷ ds) id h = elim (Bool-cases (d.id == id)) [
  | inl t ↦ (d, inl refl, t)
  | inr t ↦ let (e, i, q) = has_id-In ds id (ground arith) in (e, inr i, q)
]

pub In-has_id : (ds : List Delivery) (d : Delivery) → In d ds → has_id d.id ds ≡ true
unfolding has_id
In-has_id [] d i = absurd i
In-has_id (e ∷ es) d (inl q) = ground (arith, ap (λ x. x.id) q)
In-has_id (e ∷ es) d (inr i) = ground (arith, In-has_id es d i)

-- The primary key of the outbox.
pub record OneId (ds : List Delivery) : Type 0 where
  pub same : (d e : Delivery) → In d ds → In e ds → d.id ≡ e.id → d ≡ e

-- A delivery that is handed out was claimable, is now in the table under the caller's claim, and
-- its attempt counts.
pub record Claimed (owner : String) (lease_seconds now : ℕ) (db db' : Db) (d : Delivery)
    : Type 0 where
  pub before : Delivery
  pub in_table : In before db.deliveries
  pub was_claimable : claimable now before ≡ true
  pub after : d ≡ claimed owner lease_seconds now before
  pub written : In d db'.deliveries

pub record Claims (owner : String) (limit lease_seconds now : ℕ) (db : Db)
    (out : List Delivery × Db) : Type 0 where
  pub each : (d : Delivery) → In d out.0 → Claimed owner lease_seconds now db out.1 d
  pub at_most : length out.0 ≤ limit
  pub table :
      (selected : List Delivery) × ((d : Delivery)
        → In d selected
        → In d db.deliveries × (claimable now d ≡ true))
      × (out.1.deliveries ≡ claim_rows (claimed owner lease_seconds now) selected db.deliveries)

length-map_claimed : (f : Delivery → Delivery) (ds : List Delivery) → length (map f ds) ≡ length ds
length-map_claimed f [] = refl
length-map_claimed f (d ∷ ds) = omega (arith, length-map_claimed f ds)

claim_rows-In :
    (f : Delivery → Delivery) (selected rows : List Delivery) (d : Delivery)
    → In d rows
    → In d selected
    → In (f d) (claim_rows f selected rows)
claim_rows-In f selected rows d i j =
    subst (λ x. In x (claim_rows f selected rows)) (rw (In-has_id selected d j))
      (map-In (λ d. if has_id d.id selected then f d else d) rows d i)

pub claim_notification_deliveries-Claims :
    (owner : String) (limit lease_seconds now : ℕ) (db : Db)
    → Ensures
        (Claims owner limit lease_seconds now db)
        (claim_notification_deliveries owner limit lease_seconds now db)
unfolding claim_notification_deliveries
claim_notification_deliveries-Claims owner limit lease_seconds now db =
    Ensures-guard Q (ltb 0 limit && ltb 0 lease_seconds) value_error _ λ _. Ensures-ok Q _ (record {
      each = λ d i.
          let (b, j, e) = In-map claim selected d i in
          let (k, c) = found b j in
          record {
            before = b;
            in_table = k;
            was_claimable = c;
            after = e;
            written =
                subst (λ x. In x (claim_rows claim selected db.deliveries)) (sym e)
                  (claim_rows-In claim selected db.deliveries b k j);
          };
      at_most = omega (
        arith,
        length-take limit (by_age (due_rows now db.deliveries)),
        length-map_claimed claim selected,
      );
      table = (selected, found, refl);
    })
  where
    Q : List Delivery × Db → Type 0
    Q = Claims owner limit lease_seconds now db

    claim : Delivery → Delivery
    claim = claimed owner lease_seconds now

    selected : List Delivery
    selected = take limit (by_age (due_rows now db.deliveries))

    found : (d : Delivery) → In d selected → In d db.deliveries × (claimable now d ≡ true)
    found d i =
        due_rows-In now db.deliveries d
          (by_age-In d (due_rows now db.deliveries) (In-take limit _ d i))

-- A claim hands out at most `limit` deliveries, each of them due, with fewer than three attempts
-- made, and written back as the caller's with its attempt counted.
claim_notification_deliveries_lem :
    (owner : String) (limit lease_seconds now : ℕ) (db db' : Db) (ds : List Delivery)
    → claim_notification_deliveries owner limit lease_seconds now db ≡ ok (ds, db')
    → (length ds ≤ limit)
      × ((d : Delivery) → In d ds → Claimed owner lease_seconds now db db' d × (d.attempts ≤ 3))
unfolding claimable
claim_notification_deliveries_lem owner limit lease_seconds now db db' ds h =
    let c =
      (claim_notification_deliveries-Claims owner limit lease_seconds now db).at (ds, db') h in
    (
      c.at_most,
      λ d i.
          let k = c.each d i in (k, ground (arith, k.was_claimable, ap (λ x. x.attempts) k.after)),
    )
