-- ===== src/Streams/Order.antt =====
-- Streams whose sequence numbers are contiguous: what the queries give on them.
use database_alert_agent.Prelude.{
  ℕ, ◌+◌, ◌<◌, ◌≤◌, ◌≡◌, refl, ap, subst, Bool, true, false, ◌&&◌, inl, inr, ◌⊎◌, List, [], ◌∷◌,
  ◌++◌, arith, ◌==◌, ltb, leb, In, Bool-cases,
}
use database_alert_agent.Database.{Event}
use database_alert_agent.Streams.{latest_sequence, insert_by_sequence, events_after}

-- Each event of the run follows the ones that were stored before it, from 1 on.
abbrev pub IsContiguous : ℕ → List Event → Type 0
IsContiguous run_id [] = Unit {0}
IsContiguous run_id (e ∷ es) =
    (e.run_id ≡ run_id → e.sequence ≡ latest_sequence run_id es + 1) × IsContiguous run_id es

pub latest-first :
    (run_id : ℕ) (e : Event) (es : List Event)
    → IsContiguous run_id (e ∷ es)
    → e.run_id ≡ run_id
    → latest_sequence run_id (e ∷ es) ≡ e.sequence
unfolding latest_sequence
latest-first run_id e es k h = ground (arith, k.0 h)

pub latest-other :
    (run_id : ℕ) (e : Event) (es : List Event)
    → (e.run_id == run_id) ≡ false
    → latest_sequence run_id (e ∷ es) ≡ latest_sequence run_id es
unfolding latest_sequence
latest-other run_id e es h = ground arith

-- An event that is newer than all the others goes to the end.
insert_last :
    (e : Event) (xs : List Event)
    → ((x : Event) → In x xs → x.sequence < e.sequence)
    → insert_by_sequence e xs ≡ xs ++ e ∷ []
unfolding insert_by_sequence
insert_last e [] h = refl
insert_last e (x ∷ xs) h =
    let older : leb e.sequence x.sequence ≡ false = ground (arith, h x (inl refl)) in
    rw (older, insert_last e xs (λ y i. h y (inr i)))

abbrev pub added : Bool → Event → List Event
added true e = e ∷ []
added false e = []

pub append_none : {A : Type 0} (xs : List A) → xs ++ [] ≡ xs
append_none [] = refl
append_none (x ∷ xs) = ap (λ ys. x ∷ ys) (append_none xs)

insert_by_sequence-In :
    (e x : Event) (xs : List Event) → In x (insert_by_sequence e xs) → (x ≡ e) ⊎ In x xs
unfolding insert_by_sequence
insert_by_sequence-In e x [] i = i
insert_by_sequence-In e x (y ∷ ys) i = elim (Bool-cases (leb e.sequence y.sequence)) [
  | inl t ↦ let q : insert_by_sequence e (y ∷ ys) ≡ e ∷ y ∷ ys = rw t in subst (In x) q i
  | inr t ↦
      let q : insert_by_sequence e (y ∷ ys) ≡ y ∷ insert_by_sequence e ys = rw t in
      let i' : In x (y ∷ insert_by_sequence e ys) = subst (In x) q i in
      elim i' [
        | inl p ↦ inr (inl p)
        | inr j ↦ elim (insert_by_sequence-In e x ys j) [ inl p ↦ inl p | inr k ↦ inr (inr k) ]
      ]
]

module _ (run_id : ℕ) where
  -- No event of the run is newer than the latest.
  latest-bound :
      (es : List Event) (x : Event)
      → IsContiguous run_id es
      → In x es
      → x.run_id ≡ run_id
      → x.sequence ≤ latest_sequence run_id es
  unfolding latest_sequence
  latest-bound [] x k i h = absurd i
  latest-bound (e ∷ es) x k (inl p) h = ground (arith, ap (λ z. z.sequence) p, ap (λ z. z.run_id) p)
  latest-bound (e ∷ es) x k (inr i) h = ground (arith, latest-bound es x k.1 i h)

  module _ (after : ℕ) where
    -- What is read is in the table, belongs to the run, and is newer than asked.
    pub events_after-In :
        (es : List Event) (x : Event)
        → In x (events_after run_id after es)
        → In x es × (x.run_id ≡ run_id) × (after < x.sequence)
    unfolding events_after
    events_after-In [] x i = absurd i
    events_after-In (e ∷ es) x i = elim (Bool-cases (e.run_id == run_id && ltb after e.sequence)) [
      | inl t ↦
          let q : events_after run_id after (e ∷ es)
              ≡ insert_by_sequence e (events_after run_id after es) =
            rw t in
          elim (insert_by_sequence-In e x (events_after run_id after es) (subst (In x) q i)) [
            | inl p ↦ (
              inl p,
              ground (arith, ap (λ z. z.run_id) p),
              ground (arith, ap (λ z. z.sequence) p),
            )
            | inr j ↦ let (a, b, c) = events_after-In es x j in (inr a, b, c)
          ]
      | inr t ↦
          let q : events_after run_id after (e ∷ es) ≡ events_after run_id after es = rw t in
          let (a, b, c) = events_after-In es x (subst (In x) q i) in (inr a, b, c)
    ]

    -- One more event of the run stands at the end of what is read, if it is new enough.
    pub events_after-first :
        (e : Event) (es : List Event)
        → IsContiguous run_id (e ∷ es)
        → events_after run_id after (e ∷ es)
          ≡ events_after run_id after es ++ added (e.run_id == run_id && ltb after e.sequence) e
    unfolding events_after
    events_after-first e es k = elim (Bool-cases (e.run_id == run_id && ltb after e.sequence)) [
      | inl t ↦ rw (t, insert_last e (events_after run_id after es) (older t))
      | inr t ↦ rw (t, append_none (events_after run_id after es))
    ]
      where
        older :
            (e.run_id == run_id && ltb after e.sequence) ≡ true
            → (x : Event) → In x (events_after run_id after es)
            → x.sequence < e.sequence
        older t x i =
            let (a, b, c) = events_after-In es x i in ground (arith, latest-bound es x k.1 a b, k.0)

    -- Nothing is newer than the latest.
    pub events_after-latest :
        (es : List Event)
        → IsContiguous run_id es
        → latest_sequence run_id es ≤ after
        → events_after run_id after es ≡ []
    unfolding events_after latest_sequence
    events_after-latest [] k h = refl
    events_after-latest (e ∷ es) k h = ground (arith, k.0, events_after-latest es k.1)
