-- ===== src/Budget/Reservations.antt =====
-- What a reservation and its settlement do to the ledgers.
use database_alert_agent.Prelude.{
  ℕ, ◌+◌, ◌-◌, ◌≡◌, refl, ap, ◌∙◌, true, not, Option, none, some, ok, arith, ==_refl, value_error,
  budget_exceeded, Ensures, Ensures-ok, Ensures-guard, Ensures-bind,
}
use database_alert_agent.Budget.{
  Dimension, Amounts, plus, minus, for_all, is_empty, Reservation, Held, Ledger, Chain, root, under,
  fits, reservation, hold, reserve, same_reservation, find_held, get_reservation, drop_held,
  released, debited, settle, release, debit_reservation, debit,
}

-- Every ledger of the chain, changed in the same way.
unfoldable pub each : (Ledger → Ledger) → Chain → Chain
each f (root l) = root (f l)
each f (under l c) = under (f l) (each f c)

minus-plus : (a b : Amounts) → minus (plus a b) b ≡ a
minus-plus a b i d = p d i
  where
    p : (d : Dimension) → a d + b d - b d ≡ a d
    p d = omega arith

abbrev pub spend : Amounts → Ledger → Ledger
spend a l = record l { consumed = plus l.consumed a }

same_reservation_refl : (r : Reservation) → same_reservation r r ≡ true
unfolding for_all
same_reservation_refl r = ground arith

-- The ledger finds the reservation that it has just made.
get_reservation-hold :
    (r : Reservation) (q : Option Reservation) (l : Ledger)
    → r.ledger_id ≡ l.ledger_id
    → get_reservation r (hold r q l) ≡ ok (record { reservation = r; parent = q })
unfolding get_reservation find_held
get_reservation-hold r q l h = ground (arith, same_reservation_refl r)

released-hold :
    (r : Reservation) (q : Option Reservation) (l : Ledger)
    → released (record { reservation = r; parent = q }) (hold r q l) ≡ l
unfolding drop_held
released-hold r q l =
    let e : (drop_held r.reservation_id (hold r q l).held) ≡ l.held =
      rw (==_refl r.reservation_id) in
    λ i. record l { reserved = minus-plus l.reserved r.amounts i; held = e i }

-- A way to settle that makes of a ledger with a new reservation what `g` makes of the ledger
-- without it does so in the whole chain.
module _ (f : Held → Ledger → Ledger) (g : Ledger → Ledger) (a : Amounts) where
  abbrev Settles : Type 0
  Settles =
      (id : ℕ) (q : Option Reservation) (l : Ledger)
      → f (record { reservation = reservation id a l; parent = q }) (hold (reservation id a l) q l)
        ≡ g l

  settle_top :
      Settles
      → (id : ℕ) (l : Ledger)
      → settle f (reservation id a l) (root (hold (reservation id a l) none l)) ≡ ok (root (g l))
  unfolding settle
  settle_top s id l =
      let e = get_reservation-hold (reservation id a l) none l refl in rw (e, s id none l)

  settle_under :
      Settles
      → (id : ℕ) (q : Reservation) (l : Ledger) (c c' : Chain) → settle f q c' ≡ ok (each g c)
      → settle f (reservation id a l) (under (hold (reservation id a l) (some q) l) c')
        ≡ ok (under (g l) (each g c))
  unfolding settle
  settle_under s id q l c c' h =
      let e = get_reservation-hold (reservation id a l) (some q) l refl in
      rw (e, h, s id (some q) l)

  reserve-settle :
      Settles
      → (ids : ℕ → ℕ) (c : Chain)
      → Ensures (λ out. settle f out.0 out.1 ≡ ok (each g c)) (reserve ids a c)
  unfolding reserve each
  reserve-settle s ids (root l) = Ensures-guard Q (not (is_empty a)) value_error _ λ _.
      Ensures-guard Q (fits a l) budget_exceeded _
        λ _. Ensures-ok Q _ (settle_top s (ids l.ledger_id) l)
    where
      Q : Reservation × Chain → Type 0
      Q out = settle f out.0 out.1 ≡ ok (root (g l))
  reserve-settle s ids (under l c) =
      let rest = reserve-settle s ids c in
      Ensures-guard Q (not (is_empty a)) value_error _ λ _.
        Ensures-guard Q (fits a l) budget_exceeded _ λ _.
          Ensures-bind Q (reserve ids a c) _ λ out e.
            Ensures-ok Q _ (settle_under s (ids l.ledger_id) out.0 l c out.1 (rest.at out e))
    where
      Q : Reservation × Chain → Type 0
      Q out = settle f out.0 out.1 ≡ ok (under (g l) (each g c))

each-same : (c : Chain) → each (λ l. l) c ≡ c
unfolding each
each-same (root l) = refl
each-same (under l c) = ap (under l) (each-same c)

-- A reservation that is released leaves no trace, in any ledger of the chain.
reserve-release :
    (ids : ℕ → ℕ) (a : Amounts) (c c' : Chain) (r : Reservation)
    → reserve ids a c ≡ ok (r, c')
    → release r c' ≡ ok c
unfolding release
reserve-release ids a c c' r h =
    (reserve-settle released (λ l. l) a (λ id q l. released-hold (reservation id a l) q l) ids c).at
      (r, c') h
    ∙ ap ok (each-same c)

-- A reservation that is debited is consumed once in each ledger of the chain, the ledger's own and
-- its parents', and nothing stays reserved for it.
pub reserve-debit :
    (ids : ℕ → ℕ) (a : Amounts) (c c' : Chain) (r : Reservation)
    → reserve ids a c ≡ ok (r, c')
    → (debit_reservation r c' ≡ ok (each (spend a) c)) × (debit ids a c ≡ ok (each (spend a) c))
unfolding debit debit_reservation
reserve-debit ids a c c' r h =
    let e =
      (reserve-settle debited (spend a) a
          (λ id q l. ap (spend_from l) (released-hold (reservation id a l) q l)) ids c).at
        (r, c') h in
    (e, rw (h, e))
  where
    spend_from : Ledger → Ledger → Ledger
    spend_from l x = record x { consumed = plus l.consumed a }
