-- ===== src/Polling/Examples.antt =====
-- A window of two pages, and two times of a week.
use database_alert_agent.Prelude.{
  ℕ, zero, suc, ◌≤◌, String, ◌≡◌, ◌≢◌, refl, true, false, Option, none, some, List, [], ◌∷◌, arith,
  In, length, subst,
}
use database_alert_agent.Polling.{
  Item, alert, reported, Page, Fetched, is_fetched, is_seen, add_items, fetched_all, out_of_fuel,
  turn, fetch_pages, fetch_complete_window, at_start,
}
use database_alert_agent.Polling.Fetched.{Distinct, Known}
use database_alert_agent.Polling.Pages.{
  visited, fetch_complete_window-ends, fetch_complete_window_complete,
}

-- The second page repeats an alert of the first.
abbrev page : ℕ → Page
page zero = record {
  items = some (alert "a" "1" ∷ alert "b" "2" ∷ []);
  total = reported 3;
  cursor = some "x";
  has_next = some true;
}
page (suc n) = record {
  items = some (alert "b" "2" ∷ alert "c" "3" ∷ []);
  total = reported 3;
  cursor = none;
  has_next = some false;
}

abbrev two_pages : ℕ → Option String → Page
two_pages n cursor = page n

abbrev three : Fetched
three = ("a", "1") ∷ ("b", "2") ∷ ("c", "3") ∷ []

abbrev ids : List String
ids = "a" ∷ "b" ∷ "c" ∷ []

fetched : fetch_complete_window two_pages 4 ≡ fetched_all three 2
unfolding fetch_complete_window fetch_pages turn add_items is_fetched is_seen
fetched = refl

page-Known :
    (n : ℕ) (c : Option String) (items : List Item)
    → (two_pages n c).items ≡ some items
    → Known ids items
unfolding is_seen
page-Known zero c items h =
    let same : alert "a" "1" ∷ alert "b" "2" ∷ [] ≡ items = cc in
    subst (Known ids) same (refl, (refl, tt))
page-Known (suc n) c items h =
    let same : alert "b" "2" ∷ alert "c" "3" ∷ [] ≡ items = cc in
    subst (Known ids) same (refl, (refl, tt))

fetch_complete_window-ends_example : fetch_complete_window two_pages 4 ≢ out_of_fuel
fetch_complete_window-ends_example =
    fetch_complete_window-ends two_pages ids page-Known 4 (omega arith)

fetch_complete_window_complete_example :
    Distinct three
    × ((p : Page) (items : List Item) (id c : String)
        → In p (visited two_pages 4 (at_start two_pages))
        → p.items ≡ some items
        → In (alert id c) items
        → is_fetched id three ≡ true)
    × ((p : Page) (t : ℕ)
        → In p (visited two_pages 4 (at_start two_pages))
        → p.total ≡ reported t
        → t ≤ length three)
fetch_complete_window_complete_example = fetch_complete_window_complete two_pages 4 2 three fetched
