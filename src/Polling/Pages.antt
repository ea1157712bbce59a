-- ===== src/Polling/Pages.antt =====
-- The pagination loop ends, and what it returns is complete.
use database_alert_agent.Prelude.{
  ℕ, zero, suc, ◌+◌, ◌<◌, ◌≤◌, String, ◌≡◌, ◌≢◌, refl, sym, ap, ◌∙◌, subst, true, not, ◌||◌, Option,
  some, inl, inr, List, [], ◌∷◌, arith, ◌==◌, str_eq, holds, In, length, if_split, option_split,
}
use database_alert_agent.Polling.{
  Item, alert, Total, absent, bad, reported, Page, Fetched, is_fetched, is_seen, add_items,
  new_total, fetched_all, out_of_fuel, LoopState, Turn, again, done, stop, next_turn, turn,
  fetch_pages, fetch_complete_window, at_start,
}
use database_alert_agent.Polling.Fetched.{Distinct, Known, Added, add_items-Added, Distinct-bound}

-- What a turn that does not raise has done.
record Turned (page : Page) (p p' : LoopState) : Type 0 where
  items : List Item
  of_page : page.items ≡ some items
  added : Added items p.fetched p'.fetched
  total : (t : ℕ) → page.total ≡ reported t → t ≤ p'.reported_total
  total_grows : p.reported_total ≤ p'.reported_total

abbrev IsTurn : Page → LoopState → Turn → Type 0
IsTurn page p (again p') = Turned page p p' × (length p.fetched ≢ length p'.fetched)
IsTurn page p (done p') = Turned page p p'
IsTurn page p (stop e) = Unit {0}

new_total-bound :
    (t : Total) (n m : ℕ) → new_total t n ≡ some m → (n ≤ m) × ((k : ℕ) → t ≡ reported k → k ≤ m)
new_total-bound absent n m h = (ground arith, λ k e. absurd (ground arith))
new_total-bound bad n m h = (absurd (ground arith), λ k e. absurd (ground arith))
new_total-bound (reported t) n m h = (ground arith, λ k e. ground arith)

next_turn-IsTurn :
    (page : Page) (items : List Item) (fetched : Fetched) (total : ℕ) (p : LoopState)
    → page.items ≡ some items
    → add_items items p.fetched ≡ some fetched
    → new_total page.total p.reported_total ≡ some total
    → IsTurn page p (next_turn page fetched total p)
next_turn-IsTurn page items fetched total p i a n =
    option_split Q page.has_next _ _ (λ _. tt)
      λ more _.
        if_split Q (not more) _ _ (λ _. record_turn p'.cursor p'.seen)
          λ _.
            if_split Q (length fetched == length p.fetched) _ _ (λ _. tt)
              λ u.
                option_split Q page.cursor _ _ (λ _. tt)
                  λ c _.
                    if_split Q (holds (str_eq c) p.cursor || is_seen c p.seen) _ _ (λ _. tt)
                      λ _. (record_turn (some c) (c ∷ p.seen), λ e. ground arith)
  where
    Q : Turn → Type 0
    Q = IsTurn page p

    p' : LoopState
    p' = record p { fetched = fetched; reported_total = total; pages = p.pages + 1 }

    record_turn :
        (cursor : Option String) (seen : List String)
        → Turned page p (record p' { cursor = cursor; seen = seen })
    record_turn cursor seen = record {
      items = items;
      of_page = i;
      added = add_items-Added items p.fetched fetched a;
      total = (new_total-bound page.total p.reported_total total n).1;
      total_grows = (new_total-bound page.total p.reported_total total n).0;
    }

turn-IsTurn : (page : Page) (p : LoopState) → IsTurn page p (turn page p)
unfolding turn
turn-IsTurn page p =
    option_split Q page.items _ _ (λ _. tt)
      λ items i.
        option_split Q (new_total page.total p.reported_total) _ _ (λ _. tt)
          λ total n.
            option_split Q (add_items items p.fetched) _ _ (λ _. tt)
              λ fetched a. next_turn-IsTurn page items fetched total p i a n
  where
    Q : Turn → Type 0
    Q = IsTurn page p

-- The returned alerts have all that was fetched before and all items of the pages, once each, and
-- are at least as many as any page has reported.
pub record Complete (pages : List Page) (p : LoopState) (f : Fetched) : Type 0 where
  pub distinct : Distinct p.fetched → Distinct f
  pub keeps : (id : String) → is_fetched id p.fetched ≡ true → is_fetched id f ≡ true
  pub enough : p.reported_total ≤ length f
  pub items :
      (page : Page) (items : List Item) (id c : String)
      → In page pages
      → page.items ≡ some items
      → In (alert id c) items
      → is_fetched id f ≡ true
  pub totals : (page : Page) (t : ℕ) → In page pages → page.total ≡ reported t → t ≤ length f

Complete-nil : (p : LoopState) → p.reported_total ≤ length p.fetched → Complete [] p p.fetched
Complete-nil p h = record {
  distinct = λ d. d;
  keeps = λ id i. i;
  enough = h;
  items = λ page items id c i. absurd i;
  totals = λ page t i. absurd i;
}

Complete-cons :
    (page : Page) (pages : List Page) (p p' : LoopState) (f : Fetched)
    → Turned page p p'
    → Complete pages p' f
    → Complete (page ∷ pages) p f
Complete-cons page pages p p' f z r = record {
  distinct = λ d. r.distinct (z.added.distinct d);
  keeps = λ id i. r.keeps id (z.added.keeps id i);
  enough = omega (arith, z.total_grows, r.enough);
  items = λ q items id c i e j. elim i [
    | inl same ↦
        let same' : items ≡ z.items = some_inj (sym e ∙ ap (λ x. x.items) same ∙ z.of_page) in
        r.keeps id (z.added.all id c (subst (In (alert id c)) same' j))
    | inr k ↦ r.items q items id c k e j
  ];
  totals = λ q t i e. elim i [
    | inl same ↦ omega (arith, z.total t (sym (ap (λ x. x.total) same) ∙ e), r.enough)
    | inr k ↦ r.totals q t k e
  ];
}
  where
    some_inj : {x y : List Item} → some x ≡ some y → x ≡ y
    some_inj h = cc

module _ (list_alerts : ℕ → Option String → Page) where
  -- The pages that the loop asks for.
  unfoldable pub visited : ℕ → LoopState → List Page
  visited zero p = []
  visited (suc fuel) p =
      list_alerts p.pages p.cursor ∷ elim (turn (list_alerts p.pages p.cursor) p) [
        | again p' ↦ visited fuel p'
        | done p' ↦ []
        | stop e ↦ []
      ]

  fetch_pages-Complete :
      (fuel n : ℕ) (p : LoopState) (f : Fetched)
      → fetch_pages list_alerts fuel p ≡ fetched_all f n
      → Complete (visited fuel p) p f
  unfolding fetch_pages visited
  fetch_pages-Complete zero n p f h = absurd (ground arith)
  fetch_pages-Complete (suc fuel) n p f h =
      go (turn (list_alerts p.pages p.cursor) p) refl (turn-IsTurn (list_alerts p.pages p.cursor) p)
        (fetch_pages-Complete fuel n)
    where
      page : Page
      page = list_alerts p.pages p.cursor

      go :
          (t : Turn)
          → turn page p ≡ t
          → IsTurn page p t
          → ((p' : LoopState) (f : Fetched)
              → fetch_pages list_alerts fuel p' ≡ fetched_all f n
              → Complete (visited fuel p') p' f)
          → Complete (visited (suc fuel) p) p f
      go (stop e) q i r = absurd (ground (arith, q))
      go (done p') q z r =
          let end : visited (suc fuel) p ≡ page ∷ [] = rw q in
          let kept : p'.reported_total ≤ length p'.fetched = ground (arith, q) in
          let same : p'.fetched ≡ f = ground (arith, q) in
          subst (λ x. Complete x p f) (sym end)
            (Complete-cons page [] p p' f z (subst (Complete [] p') same (Complete-nil p' kept)))
      go (again p') q (z, grown) r =
          let more : visited (suc fuel) p ≡ page ∷ visited fuel p' = rw q in
          subst (λ x. Complete x p f) (sym more)
            (Complete-cons page (visited fuel p') p p' f z (r p' f (ground (arith, q))))

  -- With more fuel than there are alerts in the window, the loop ends: it returns all of them, or
  -- raises.
  fetch_pages-ends :
      (ids : List String)
      → ((n : ℕ) (c : Option String) (items : List Item)
          → (list_alerts n c).items ≡ some items
          → Known ids items)
      → (fuel : ℕ) (p : LoopState) → Distinct p.fetched
      → ((x : String) → is_fetched x p.fetched ≡ true → is_seen x ids ≡ true)
      → length ids < fuel + length p.fetched
      → fetch_pages list_alerts fuel p ≢ out_of_fuel
  unfolding fetch_pages
  fetch_pages-ends ids k zero p d f l =
      let b = Distinct-bound ids p.fetched d f in absurd (omega arith)
  fetch_pages-ends ids k (suc fuel) p d f l =
      step (turn (list_alerts p.pages p.cursor) p) refl
        (turn-IsTurn (list_alerts p.pages p.cursor) p) (fetch_pages-ends ids k fuel)
    where
      step :
          (t : Turn)
          → turn (list_alerts p.pages p.cursor) p ≡ t
          → IsTurn (list_alerts p.pages p.cursor) p t
          → ((p' : LoopState)
              → Distinct p'.fetched
              → ((x : String) → is_fetched x p'.fetched ≡ true → is_seen x ids ≡ true)
              → length ids < fuel + length p'.fetched
              → fetch_pages list_alerts fuel p' ≢ out_of_fuel)
          → fetch_pages list_alerts (suc fuel) p ≢ out_of_fuel
      step (stop e) q i r h = absurd (ground (arith, q))
      step (done p') q i r h = absurd (ground (arith, q))
      step (again p') q (z, grown) r h =
          r p' (z.added.distinct d) (z.added.known ids (k p.pages p.cursor z.items z.of_page) f)
            (ground (arith, z.added.grows, grown)) (ground (arith, q))

  -- If all alerts that the client ever answers are among some given ones, the loop ends with more
  -- fuel than there are of these: it returns a window or raises, whatever the cursors and totals
  -- are that the client answers.
  pub fetch_complete_window-ends :
      (ids : List String)
      → ((n : ℕ) (c : Option String) (items : List Item)
          → (list_alerts n c).items ≡ some items
          → Known ids items)
      → (fuel : ℕ) → length ids < fuel
      → fetch_complete_window list_alerts fuel ≢ out_of_fuel
  unfolding fetch_complete_window is_fetched
  fetch_complete_window-ends ids k fuel l =
      fetch_pages-ends ids k fuel (at_start list_alerts) tt (λ x h. absurd (ground arith))
        (omega (arith, l))

  -- A window that is returned has no alert twice and has every alert of every page that was asked for;
  -- its alerts are at least as many as each of these pages has reported.
  pub fetch_complete_window_complete :
      (fuel n : ℕ) (f : Fetched)
      → fetch_complete_window list_alerts fuel ≡ fetched_all f n
      → Distinct f
        × ((page : Page) (items : List Item) (id c : String)
            → In page (visited fuel (at_start list_alerts))
            → page.items ≡ some items
            → In (alert id c) items
            → is_fetched id f ≡ true)
        × ((page : Page) (t : ℕ)
            → In page (visited fuel (at_start list_alerts))
            → page.total ≡ reported t
            → t ≤ length f)
  unfolding fetch_complete_window
  fetch_complete_window_complete fuel n f h =
      let z = fetch_pages-Complete fuel n (at_start list_alerts) f h in
      (z.distinct tt, z.items, z.totals)
