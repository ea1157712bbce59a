-- ===== src/Budget/Limits.antt =====
-- The limit of each ledger, through any sequence of reservations and settlements.
use database_alert_agent.Prelude.{
  ℕ, ◌+◌, ◌≤◌, ◌≡◌, refl, sym, ap, ◌∙◌, true, false, not, Option, none, some, inl, inr, Bool-cases,
  List, [], ◌∷◌, ok, arith, ◌==◌, value_error, budget_exceeded, Ensures, Ensures-ok, Ensures-guard,
  Ensures-bind, Ensures-option,
}
use database_alert_agent.Budget.{
  Dimension, wall_time, Amounts, is_empty, Reservation, Held, Ledger, Chain, root, under, ledger,
  fits, reservation, hold, reserve, find_held, get_reservation, drop_held, released, debited,
  settle, release, debit_reservation, remaining, bounded_child_limit, create_child,
}

abbrev pub total : Dimension → List Held → ℕ
total d [] = 0
total d (h ∷ hs) = h.reservation.amounts d + total d hs

-- What is reserved is the sum of the open reservations, and the limit covers it with what is
-- consumed.
pub record IsSound (l : Ledger) : Type 0 where
  pub exact : (d : Dimension) → l.reserved d ≡ total d l.held
  pub within : (n : ℕ) → l.limit ≡ some n → l.consumed wall_time + l.reserved wall_time ≤ n

abbrev pub AllSound : Chain → Type 0
AllSound (root l) = IsSound l
AllSound (under l c) = IsSound l × AllSound c

hold-IsSound :
    (id : ℕ) (a : Amounts) (q : Option Reservation) (l : Ledger)
    → IsSound l
    → fits a l ≡ true
    → IsSound (hold (reservation id a l) q l)
unfolding fits
hold-IsSound id a q l s h = record {
  exact = λ d. omega (arith, s.exact d);
  within = λ n e. ground arith;
}

find_held-id :
    (id : ℕ) (hs : List Held) (h : Held)
    → find_held id hs ≡ some h
    → h.reservation.reservation_id ≡ id
unfolding find_held
find_held-id id [] h e = absurd (ground arith)
find_held-id id (x ∷ xs) h e = elim (Bool-cases (x.reservation.reservation_id == id)) [
  | inl t ↦
      let same : x ≡ h = ground arith in ground (arith, ap (λ z. z.reservation.reservation_id) same)
  | inr t ↦ find_held-id id xs h (sym (rw t) ∙ e)
]

total-drop :
    (d : Dimension) (id : ℕ) (hs : List Held) (h : Held)
    → find_held id hs ≡ some h
    → total d hs ≡ h.reservation.amounts d + total d (drop_held h.reservation.reservation_id hs)
unfolding find_held drop_held
total-drop d id [] h e = absurd (ground arith)
total-drop d id (x ∷ xs) h e = elim (Bool-cases (x.reservation.reservation_id == id)) [
  | inl t ↦
      let same : x ≡ h = ground arith in
      let first : (x.reservation.reservation_id == h.reservation.reservation_id) ≡ true =
        ground (arith, ap (λ z. z.reservation.reservation_id) same) in
      rw first (ap (λ z. z.reservation.amounts d + total d xs) same)
  | inr t ↦
      let e' : find_held id xs ≡ some h = sym (rw t) ∙ e in
      let later : (x.reservation.reservation_id == h.reservation.reservation_id) ≡ false =
        ground (arith, find_held-id id xs h e') in
      rw later (omega (arith, total-drop d id xs h e'))
]

-- Both settlements keep a ledger sound.
settled_total :
    (r : Reservation) (h : Held) (l : Ledger)
    → get_reservation r l ≡ ok h
    → find_held r.reservation_id l.held ≡ some h
unfolding get_reservation
settled_total r h l e = ground arith

released-IsSound :
    (r : Reservation) (h : Held) (l : Ledger)
    → get_reservation r l ≡ ok h
    → IsSound l
    → IsSound (released h l)
released-IsSound r h l e s =
    let t = λ (d : Dimension). total-drop d r.reservation_id l.held h (settled_total r h l e) in
    record {
      exact = λ d. omega (arith, t d, s.exact d);
      within = λ n q. omega (arith, s.within n q);
    }

debited-IsSound :
    (r : Reservation) (h : Held) (l : Ledger)
    → get_reservation r l ≡ ok h
    → IsSound l
    → IsSound (debited h l)
debited-IsSound r h l e s =
    let t = λ (d : Dimension). total-drop d r.reservation_id l.held h (settled_total r h l e) in
    record {
      exact = λ d. omega (arith, t d, s.exact d);
      within = λ n q. omega (arith, s.within n q, t wall_time, s.exact wall_time);
    }

reserve-AllSound :
    (ids : ℕ → ℕ) (a : Amounts) (c : Chain)
    → AllSound c
    → Ensures (λ out. AllSound out.1) (reserve ids a c)
unfolding reserve
reserve-AllSound ids a (root l) s = Ensures-guard Q (not (is_empty a)) value_error _ λ _.
    Ensures-guard Q (fits a l) budget_exceeded _
      λ h. Ensures-ok Q _ (hold-IsSound (ids l.ledger_id) a none l s h)
  where
    Q : Reservation × Chain → Type 0
    Q out = AllSound out.1
reserve-AllSound ids a (under l c) (s, t) =
    let rest = reserve-AllSound ids a c t in
    Ensures-guard Q (not (is_empty a)) value_error _ λ _.
      Ensures-guard Q (fits a l) budget_exceeded _ λ h.
        Ensures-bind Q (reserve ids a c) _ λ out e.
          Ensures-ok Q _ (hold-IsSound (ids l.ledger_id) a (some out.0) l s h, rest.at out e)
  where
    Q : Reservation × Chain → Type 0
    Q out = AllSound out.1

module _ (f : Held → Ledger → Ledger)
    (sound : (r : Reservation) (h : Held) (l : Ledger)
      → get_reservation r l ≡ ok h
      → IsSound l
      → IsSound (f h l)) where
  settle-AllSound : (r : Reservation) (c : Chain) → AllSound c → Ensures AllSound (settle f r c)
  unfolding settle
  settle-AllSound r (root l) s =
      Ensures-bind AllSound (get_reservation r l) _ λ h e. Ensures-ok AllSound _ (sound r h l e s)
  settle-AllSound r (under l c) (s, t) =
      let rest = λ (q : Reservation). settle-AllSound q c t in
      Ensures-bind AllSound (get_reservation r l) _ λ h e.
        Ensures-bind AllSound (elim h.parent [ none ↦ ok c | some q ↦ settle f q c ]) _
          λ c' e'. Ensures-ok AllSound _ (
            sound r h l e s,
            (Ensures-option AllSound h.parent (ok c) (λ q. settle f q c)
                  (λ _. Ensures-ok AllSound c t) (λ q _. rest q)).at
                c' e',
          )

-- One operation on a chain, and any sequence of them.
pub data Step (c : Chain) : Chain → Type 0 where
  reserves :
      {c' : Chain} {r : Reservation} (ids : ℕ → ℕ) (a : Amounts)
      → reserve ids a c ≡ ok (r, c')
      → Step c c'
  releases : {c' : Chain} (r : Reservation) → release r c ≡ ok c' → Step c c'
  debits : {c' : Chain} (r : Reservation) → debit_reservation r c ≡ ok c' → Step c c'

pub data Steps (c : Chain) : Chain → Type 0 where
  here : Steps c c
  next : {d e : Chain} → Steps c d → Step d e → Steps c e

Step-AllSound : {c c' : Chain} → AllSound c → Step c c' → AllSound c'
unfolding release debit_reservation
Step-AllSound {c} s (reserves ids a h) = (reserve-AllSound ids a c s).at _ h
Step-AllSound {c} s (releases r h) = (settle-AllSound released released-IsSound r c s).at _ h
Step-AllSound {c} s (debits r h) = (settle-AllSound debited debited-IsSound r c s).at _ h

-- Where all wall times are whole numbers of seconds, and whatever is reserved, released or debited, in any
-- order: what each ledger of a sound chain has consumed and reserved stays within its limit, and what is
-- reserved is the sum of the open reservations.
pub Steps-AllSound : {c c' : Chain} → AllSound c → Steps c c' → AllSound c'
Steps-AllSound s here = s
Steps-AllSound s (next r t) = Step-AllSound (Steps-AllSound s r) t

-- A new child is sound, and its limit is at most what its parent has left; a parent without a limit
-- sets none.
create_child-AllSound :
    (ledger_id : ℕ) (requested : Option ℕ) (c c' : Chain)
    → AllSound c
    → create_child ledger_id requested c ≡ ok c'
    → AllSound c'
      × ((m : ℕ) → remaining (ledger c) ≡ some m → (n : ℕ) × ((ledger c').limit ≡ some n) × (n ≤ m))
unfolding create_child bounded_child_limit
create_child-AllSound ledger_id requested c c' s h =
    (Ensures-bind Q (bounded_child_limit requested (remaining (ledger c))) _ λ limit e.
        Ensures-ok Q _ (
          (record { exact = λ d. refl; within = λ n q. omega arith }, s),
          bounded requested (remaining (ledger c)) limit e,
        )).at
      c' h
  where
    Q : Chain → Type 0
    Q c' =
        AllSound c'
        × ((m : ℕ)
            → remaining (ledger c) ≡ some m
            → (n : ℕ) × ((ledger c').limit ≡ some n) × (n ≤ m))

    bounded :
        (requested available limit : Option ℕ)
        → bounded_child_limit requested available ≡ ok limit
        → (m : ℕ) → available ≡ some m
        → (n : ℕ) × (limit ≡ some n) × (n ≤ m)
    bounded none available limit e m q = (m, ground arith, omega arith)
    bounded (some n) none limit e m q = absurd (ground arith)
    bounded (some n) (some k) limit e m q = (n, ground arith, ground arith)
