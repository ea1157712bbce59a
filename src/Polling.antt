-- ===== src/Polling.antt =====
-- Polling of alerts in app/application/scheduler.py: `next_weekly_retention_run`,
-- `_remaining_poll_delay`, and the pagination loop `_fetch_complete_window`.
pub mod Retention
pub mod Fetched
pub mod Pages
mod Examples
use database_alert_agent.Prelude.{
  ℕ, zero, suc, ◌+◌, ◌-◌, ◌*◌, ◌/◌, ◌%◌, String, ◌≡◌, refl, Bool, true, false, not, ◌&&◌, ◌||◌,
  Option, none, some, List, [], ◌∷◌, ◌++◌, ◌==◌, ltb, leb, str_eq, holds, if◌then◌else◌, length,
}

abbrev pub hour : ℕ
hour = 3600000000

abbrev pub day : ℕ
day = 24 * hour

-- The time in Asia/Shanghai, as microseconds since the start of 1970 there.
abbrev pub shanghai : ℕ → ℕ
shanghai now = now + 8 * hour

-- `datetime.weekday()`: the first of January 1970 was a Thursday, 3.
abbrev pub weekday : ℕ → ℕ
weekday local = (local / day + 3) % 7

-- The next Friday, 4, at noon; a slot that has begun is the one of the next week.
unfoldable pub next_weekly_retention_run : ℕ → ℕ
next_weekly_retention_run now =
    let local = shanghai now in
    let days_until_friday = (4 + 7 - weekday local) % 7 in
    let scheduled = (local / day + days_until_friday) * day + 12 * hour in
    if leb scheduled local then scheduled + 7 * day - 8 * hour else scheduled - 8 * hour

-- `max(0.0, interval - elapsed)`, in microseconds; the clock does not go back
unfoldable pub remaining_poll_delay : ℕ → ℕ → ℕ → ℕ
remaining_poll_delay interval_seconds started_at finished_at =
    interval_seconds * 1000000 - (finished_at - started_at)

-- An item of a page, by its alert_id: a nonempty string, or something that is refused.
pub data Item : Type 0 where
  alert : (alert_id content : String) → Item
  invalid : Item

pub data Total : Type 0 where
  absent bad : Total
  reported : ℕ → Total

-- A page of `/alert/list`. `items` and `has_next` are `none` where they are not a list, not a bool;
-- `cursor` where it is not a nonempty string.
pub record Page : Type 0 where
  pub items : Option (List Item)
  pub total : Total
  pub cursor : Option String
  pub has_next : Option Bool

pub data PageError : Type 0 where
  no_items invalid_total invalid_item no_progress no_cursor repeated_cursor : PageError
  invalid_has_next incomplete : PageError

-- The fetched alerts, in the order of their arrival.
abbrev pub Fetched : Type 0
Fetched = List (String × String)

unfoldable pub is_fetched : String → Fetched → Bool
is_fetched id [] = false
is_fetched id ((x, c) ∷ xs) = str_eq x id || is_fetched id xs

unfoldable pub is_seen : String → List String → Bool
is_seen c [] = false
is_seen c (x ∷ xs) = str_eq x c || is_seen c xs

-- `fetched.setdefault(alert_id, ...)` for each item; `none` at a refused item
unfoldable pub add_items : List Item → Fetched → Option Fetched
add_items [] fetched = some fetched
add_items (invalid ∷ items) fetched = none
add_items (alert id content ∷ items) fetched =
    add_items items (if is_fetched id fetched then fetched else fetched ++ (id, content) ∷ [])

abbrev pub new_total : Total → ℕ → Option ℕ
new_total absent n = some n
new_total bad n = none
new_total (reported t) n = some (if ltb n t then t else n)

pub data Window : Type 0 where
  fetched_all : Fetched → ℕ → Window
  raised : PageError → Window
  out_of_fuel : Window

-- What the loop knows after some pages.
pub record LoopState : Type 0 where
  pub cursor : Option String
  pub seen : List String
  pub fetched : Fetched
  pub reported_total : ℕ
  pub pages : ℕ

-- What one turn of the loop leads to.
pub data Turn : Type 0 where
  again done : LoopState → Turn
  stop : PageError → Turn

abbrev pub next_turn : Page → Fetched → ℕ → LoopState → Turn
next_turn page fetched total p =
    let p' : LoopState = record p {
      fetched = fetched;
      reported_total = total;
      pages = p.pages + 1;
    } in
    elim page.has_next [
      | none ↦ stop invalid_has_next
      | some more ↦
          if not more
          then done p'
          else if length fetched == length p.fetched
          then stop no_progress
          else elim page.cursor [
            | none ↦ stop no_cursor
            | some c ↦
                if holds (str_eq c) p.cursor || is_seen c p.seen
                then stop repeated_cursor
                else again (record p' { cursor = some c; seen = c ∷ p.seen })
          ]
    ]

unfoldable pub turn : Page → LoopState → Turn
turn page p = elim page.items [
  | none ↦ stop no_items
  | some items ↦ elim (new_total page.total p.reported_total) [
    | none ↦ stop invalid_total
    | some total ↦ elim (add_items items p.fetched) [
      | none ↦ stop invalid_item
      | some fetched ↦ next_turn page fetched total p
    ]
  ]
]

-- The pages come from the client, which answers to the number of the request and its cursor.
module _ (list_alerts : ℕ → Option String → Page) where
  unfoldable pub fetch_pages : ℕ → LoopState → Window
  fetch_pages zero p = out_of_fuel
  fetch_pages (suc fuel) p = elim (turn (list_alerts p.pages p.cursor) p) [
    | stop e ↦ raised e
    | done p' ↦
        if ltb (length p'.fetched) p'.reported_total
        then raised incomplete
        else fetched_all p'.fetched p'.pages
    | again p' ↦ fetch_pages fuel p'
  ]

  abbrev pub at_start : LoopState
  at_start = record { cursor = none; seen = []; fetched = []; reported_total = 0; pages = 0 }

  unfoldable pub fetch_complete_window : ℕ → Window
  unfolding fetch_pages
  fetch_complete_window fuel = fetch_pages fuel at_start
