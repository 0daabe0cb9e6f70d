-- ===== src/Frontend/CommandPalette/Tests.antt =====
-- Runs of frontend/src/components/CommandPalette.jsx, and witnesses. A number stands for a stock.
use stock_dashboard.Prelude.Int.{◌-ℤ◌, ◌+ℤ◌}
use stock_dashboard.Prelude.{ℕ, ◌≡◌, refl, false, none, some, List, [], ◌∷◌}
use stock_dashboard.Frontend.CommandPalette.{
  ◌-ℤ◌, ◌+ℤ◌, Market, Platform, Item, Entry, Event, find_search, asked, run, initial,
}
use stock_dashboard.Frontend.CommandPalette.Laws.{run-initial-IsFresh}
use stock_dashboard.Desktop.Window.{codes}

-- Texts that are trimmed and in lower case as they are typed.
abbrev as_typed : Platform
as_typed = record { trim = λ t. t; lower = λ t. t }

abbrev menu : List Item
menu = record { label = codes "settings"; hint = none } ∷ []

-- Two searches that are answered the other way round.
abbrev crossed : List (Event ℕ)
crossed =
    Event.typed (codes "aa")
    ∷ Event.timer_fires
    ∷ Event.typed (codes "nv")
    ∷ Event.timer_fires
    ∷ Event.answered 3 (some (7 ∷ []))
    ∷ Event.answered 2 (some (1 ∷ []))
    ∷ []

crossed_runs : (run as_typed menu crossed (initial as_typed Market.all)).stocks ≡ 7 ∷ []
unfolding run
crossed_runs = refl

crossed_off : (run as_typed menu crossed (initial as_typed Market.all)).timer ≡ false
unfolding run
crossed_off = refl

crossed_idle :
    find_search
      (run as_typed menu crossed (initial as_typed Market.all)).last_run
      (run as_typed menu crossed (initial as_typed Market.all)).searching
    ≡ none
unfolding run
crossed_idle = refl

run-initial-IsFresh_example :
    (run as_typed menu crossed (initial as_typed Market.all)).found_for
    ≡ asked as_typed (run as_typed menu crossed (initial as_typed Market.all))
run-initial-IsFresh_example =
    run-initial-IsFresh as_typed menu Market.all crossed crossed_off crossed_idle

-- An arrow on an empty list leaves no entry marked, and Enter then runs nothing of the list that the
-- search fills.
abbrev early_arrow : List (Event ℕ)
early_arrow =
    Event.typed (codes "nv")
    ∷ Event.arrow_down
    ∷ Event.timer_fires
    ∷ Event.answered 2 (some (7 ∷ []))
    ∷ Event.enter
    ∷ []

early_arrow_runs_nothing :
    ((run as_typed menu early_arrow (initial as_typed Market.all)).ran ≡ [])
    × ((run as_typed menu early_arrow (initial as_typed Market.all)).stocks ≡ 7 ∷ [])
unfolding run ◌+ℤ◌ ◌-ℤ◌
early_arrow_runs_nothing = (refl, refl)

-- The stocks of the earlier text stay listed until the next search is answered, and Enter runs one.
abbrev hasty_enter : List (Event ℕ)
hasty_enter =
    Event.typed (codes "aa")
    ∷ Event.timer_fires
    ∷ Event.answered 2 (some (1 ∷ []))
    ∷ Event.typed (codes "nv")
    ∷ Event.enter
    ∷ []

hasty_enter_runs_earlier :
    (run as_typed menu hasty_enter (initial as_typed Market.all)).ran ≡ Entry.stock 1 ∷ []
unfolding run
hasty_enter_runs_earlier = refl
