-- ===== src/Runs/Consistency.antt =====
-- What holds of the table of runs between two transactions, and the two ways to change the table.
use database_alert_agent.Prelude.{
  ℕ, ◌≤◌, ◌<◌, ◌≡◌, ◌≢◌, refl, sym, ap, ◌∙◌, subst, find-In, find-key, ==→≡, ◌⊎◌, inl, inr, true,
  false, Option, none, some, List, [], ◌∷◌, arith, ◌==◌, is_some, In, find, modify, In-modify,
  Bool-cases, if◌then◌else◌,
}
use database_alert_agent.Database.{Run, is_running}
use database_alert_agent.Runs.{run_key, latest_run, later}

-- A running run is the latest attempt of its alert and holds a lease; tokens start at the attempt.
pub record IsConsistent (runs : List Run) : Type 0 where
  pub one_id : (r s : Run) → In r runs → In s runs → r.id ≡ s.id → r ≡ s
  pub one_attempt :
      (r s : Run) → In r runs → In s runs → r.alert_id ≡ s.alert_id → r.attempt ≡ s.attempt → r ≡ s
  pub running_latest :
      (r s : Run)
      → In r runs
      → In s runs
      → r.alert_id ≡ s.alert_id
      → is_running r.status ≡ true
      → s.attempt ≤ r.attempt
  pub token : (r : Run) → In r runs → r.attempt ≤ r.fencing_token
  pub leased :
      (r : Run)
      → In r runs
      → is_running r.status ≡ true
      → (is_some r.lease_owner ≡ true) × (is_some r.lease_expires_at ≡ true)

-- What every update of a run respects: it keeps the identity, an ended run keeps its status, the
-- token does not fall, and a run that runs keeps a lease.
pub record Later (r r' : Run) : Type 0 where
  pub same_id : r'.id ≡ r.id
  pub same_alert : r'.alert_id ≡ r.alert_id
  pub same_attempt : r'.attempt ≡ r.attempt
  pub no_restart : is_running r'.status ≡ true → is_running r.status ≡ true
  pub ended : is_running r.status ≡ false → r'.status ≡ r.status
  pub token_grows : r.fencing_token ≤ r'.fencing_token
  pub keeps_lease :
      is_running r'.status ≡ true
      → (is_some r.lease_owner ≡ true) × (is_some r.lease_expires_at ≡ true)
      → (is_some r'.lease_owner ≡ true) × (is_some r'.lease_expires_at ≡ true)

pub Later-refl : (r : Run) → Later r r
Later-refl r = record {
  same_id = refl;
  same_alert = refl;
  same_attempt = refl;
  no_restart = λ h. h;
  ended = λ h. refl;
  token_grows = omega arith;
  keeps_lease = λ h l. l;
}

pub Later-trans : {r s t : Run} → Later r s → Later s t → Later r t
Later-trans p q = record {
  same_id = q.same_id ∙ p.same_id;
  same_alert = q.same_alert ∙ p.same_alert;
  same_attempt = q.same_attempt ∙ p.same_attempt;
  no_restart = λ h. p.no_restart (q.no_restart h);
  ended = λ h. ground (arith, p.ended h, q.ended);
  token_grows = omega (arith, p.token_grows, q.token_grows);
  keeps_lease = λ h l. q.keeps_lease h (p.keeps_lease (q.no_restart h) l);
}

module _ (k : ℕ) (f : Run → Run) (runs : List Run) (c : IsConsistent runs) (r : Run)
    (found : find run_key k runs ≡ some r) (u : Later r (f r)) where
  abbrev at : Run → Run
  at y = if run_key y == k then f y else y

  at-Later : (y : Run) → In y runs → Later y (at y)
  at-Later y i = elim (Bool-cases (run_key y == k)) [
    | inl e ↦
        let same : y ≡ r =
          c.one_id y r i (find-In run_key k runs r found)
            (==→≡ _ _ e ∙ sym (find-key run_key k runs r found)) in
        rw e (subst (λ x. Later x (f x)) (sym same) u)
    | inr e ↦ rw e (Later-refl y)
  ]

  at-In :
      (x : Run) → In x (modify run_key k f runs) → (y : Run) × In y runs × (x ≡ at y) × Later y x
  at-In x i =
      let (y, j, e) = In-modify run_key k f runs x i in
      (y, j, e, subst (Later y) (sym e) (at-Later y j))

  pub modify-IsConsistent : IsConsistent (modify run_key k f runs)
  modify-IsConsistent = record {
    one_id = λ x y i j a.
        let (x', i', p, l) = at-In x i in
        let (y', j', q, m) = at-In y j in
        ground (arith, c.one_id x' y' i' j', l.same_id, m.same_id);
    one_attempt = λ x y i j a n.
        let (x', i', p, l) = at-In x i in
        let (y', j', q, m) = at-In y j in
        ground (
          arith,
          c.one_attempt x' y' i' j',
          l.same_alert,
          m.same_alert,
          l.same_attempt,
          m.same_attempt,
        );
    running_latest = λ x y i j a h.
        let (x', i', p, l) = at-In x i in
        let (y', j', q, m) = at-In y j in
        ground (
          arith,
          c.running_latest x' y' i' j',
          l.same_alert,
          m.same_alert,
          l.same_attempt,
          m.same_attempt,
          l.no_restart,
        );
    token = λ x i.
        let (x', i', p, l) = at-In x i in
        omega (arith, c.token x' i', l.same_attempt, l.token_grows);
    leased = λ x i h.
        let (x', i', p, l) = at-In x i in l.keeps_lease h (c.leased x' i' (l.no_restart h));
  }

-- The runs of an alert have ended, and have lower attempts.
abbrev pub EndedBelow : ℕ → ℕ → List Run → Type 0
EndedBelow alert_id attempt runs =
    (r : Run)
    → In r runs
    → r.alert_id ≡ alert_id
    → (r.attempt < attempt) × (is_running r.status ≡ false)

-- A run in front of the table that is later than the ended runs of its alert.
pub insert-IsConsistent :
    (n : Run) (runs : List Run)
    → IsConsistent runs
    → ((r : Run) → In r runs → r.id ≢ n.id)
    → EndedBelow n.alert_id n.attempt runs
    → n.attempt ≤ n.fencing_token
    → (is_some n.lease_owner ≡ true) × (is_some n.lease_expires_at ≡ true)
    → IsConsistent (n ∷ runs)
insert-IsConsistent n runs c new below tok lease = record {
  one_id = single;
  one_attempt = one;
  running_latest = latest;
  token = λ r i. elim i [ inl e ↦ rw e tok | inr j ↦ c.token r j ];
  leased = λ r i h. elim i [ inl e ↦ rw e lease | inr j ↦ c.leased r j h ];
}
  where
    single : (r s : Run) → In r (n ∷ runs) → In s (n ∷ runs) → r.id ≡ s.id → r ≡ s
    single r s (inl p) (inl q) a = cc
    single r s (inl p) (inr j) a = absurd (new s j (sym a ∙ ap run_key p))
    single r s (inr i) (inl q) a = absurd (new r i (a ∙ ap run_key q))
    single r s (inr i) (inr j) a = c.one_id r s i j a

    one :
        (r s : Run)
        → In r (n ∷ runs)
        → In s (n ∷ runs)
        → r.alert_id ≡ s.alert_id
        → r.attempt ≡ s.attempt
        → r ≡ s
    one r s (inl p) (inl q) a b = cc
    one r s (inl p) (inr j) a b = absurd (ground (arith, below s j))
    one r s (inr i) (inl q) a b = absurd (ground (arith, below r i))
    one r s (inr i) (inr j) a b = c.one_attempt r s i j a b

    latest :
        (r s : Run)
        → In r (n ∷ runs)
        → In s (n ∷ runs)
        → r.alert_id ≡ s.alert_id
        → is_running r.status ≡ true
        → s.attempt ≤ r.attempt
    latest r s (inl p) (inl q) a h = ground arith
    latest r s (inl p) (inr j) a h = ground (arith, below s j)
    latest r s (inr i) (inl q) a h = absurd (ground (arith, below r i))
    latest r s (inr i) (inr j) a h = c.running_latest r s i j a h

later-cases : (r : Run) (o : Option Run) → (later r o ≡ r) ⊎ (o ≡ some (later r o))
later-cases r none = inl refl
later-cases r (some s) = ground arith

later-bounds :
    (r s : Run) (o : Option Run)
    → (r.attempt ≤ (later r o).attempt) × (o ≡ some s → s.attempt ≤ (later r o).attempt)
later-bounds r s none = ground arith
later-bounds r s (some t) = ground arith

-- The query for the latest run returns a run of the alert.
pub latest_run-In :
    (a : ℕ) (runs : List Run) (l : Run) → latest_run a runs ≡ some l → In l runs × (l.alert_id ≡ a)
unfolding latest_run
latest_run-In a [] l h = cc
latest_run-In a (r ∷ rs) l h = elim (Bool-cases (r.alert_id == a)) [
  | inl e ↦ elim (later-cases r (latest_run a rs)) [
    | inl p ↦ ground arith
    | inr q ↦ ground (arith, latest_run-In a rs (later r (latest_run a rs)) q)
  ]
  | inr e ↦ ground (arith, latest_run-In a rs l)
]

-- Where an alert has a run, the query returns one with no lower attempt.
pub latest_run_bound :
    (a : ℕ) (runs : List Run) (r : Run)
    → In r runs
    → r.alert_id ≡ a
    → (l : Run) × (latest_run a runs ≡ some l) × (r.attempt ≤ l.attempt)
unfolding latest_run
latest_run_bound a [] r i e = absurd i
latest_run_bound a (s ∷ rs) r (inl p) e =
    (later s (latest_run a rs), ground arith, ground (arith, later-bounds s s (latest_run a rs)))
latest_run_bound a (s ∷ rs) r (inr i) e =
    let (l, p, q) = latest_run_bound a rs r i e in
    elim (Bool-cases (s.alert_id == a)) [
      | inl t ↦ (
        later s (latest_run a rs),
        ground arith,
        ground (arith, later-bounds s l (latest_run a rs)),
      )
      | inr t ↦ (l, ground arith, q)
    ]
