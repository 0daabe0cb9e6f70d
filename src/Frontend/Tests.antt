-- ===== src/Frontend/Tests.antt =====
-- The front end's theorems at concrete inputs, and runs of its definitions.
use stock_dashboard.Prelude.{
  ℕ, zero, suc, String, ◌≡◌, refl, true, false, none, some, List, [], ◌∷◌, All,
}
use stock_dashboard.Prelude.Int.{ℤ, pos, ◌+ℤ◌, ◌-ℤ◌}
use stock_dashboard.Frontend.LocalOrder.{Item, ordered, move_by, index_of, target}
use stock_dashboard.Frontend.LocalOrder
use stock_dashboard.Frontend.Auth.{Event, registered, logged_in, cancel, me, enabled, finish_setup}
use stock_dashboard.Frontend.EventStream
use stock_dashboard.Frontend.EventStream.Delivery.Laws.{IsInformed, run-initial-IsInformed}
use stock_dashboard.Frontend.SortableRows.{Cell, null, number, asc, desc, sort_by}
use stock_dashboard.Frontend.SortableRows.Stable.{IsStableSort}
use stock_dashboard.Frontend.SortableRows.Laws.{
  IsCollation, fits, row_is_before, sort_by-IsStableSort,
}
use stock_dashboard.Frontend.UpdateStatus
use stock_dashboard.Frontend.UpdateStatus.Laws.{IsSingle, run-initial-IsSingle}
use stock_dashboard.Frontend.RiskStatus
use stock_dashboard.Frontend.RiskStatus.Laws.{IsPolled, run-initial-IsPolled}
use stock_dashboard.Frontend.Watchlists
use stock_dashboard.Frontend.Watchlists.Laws.{IsShown, run-IsShown}
use stock_dashboard.Frontend.EventStream.Laws.{IsValid, run-initial-IsValid}

abbrev row : String → Item ℕ
row id = record { id = id; value = 0 }

abbrev rows : List (Item ℕ)
rows = row "TSLA" ∷ row "AAPL" ∷ row "NVDA" ∷ []

-- The new ticker comes first, the two saved ones after it in their order; "GONE" is dropped.
saved_order :
    LocalOrder.ids (ordered ("NVDA" ∷ "GONE" ∷ "TSLA" ∷ []) rows) ≡ "AAPL" ∷ "NVDA" ∷ "TSLA" ∷ []
unfolding ordered
saved_order = refl

moves :
    move_by "TSLA" (pos 5) ("TSLA" ∷ "AAPL" ∷ "NVDA" ∷ []) ≡ some ("AAPL" ∷ "NVDA" ∷ "TSLA" ∷ [])
unfolding move_by ◌+ℤ◌
moves = refl

abbrev tries : List (Event ℕ)
tries = me none ∷ logged_in false ∷ cancel ∷ registered ∷ enabled 7 ∷ []

abbrev setup : List (Event ℕ)
setup = me none ∷ registered ∷ enabled 7 ∷ finish_setup ∷ []

run-initial-IsValid_example : IsValid (
    EventStream.run
      (EventStream.Event.subscribe (record { kind = "quotes"; number = 1 })
        ∷ EventStream.Event.error
        ∷ EventStream.Event.timer
        ∷ EventStream.Event.hello
        ∷ EventStream.Event.visibility true
        ∷ [])
      (EventStream.initial false))
run-initial-IsValid_example = run-initial-IsValid false (
    EventStream.Event.subscribe (record { kind = "quotes"; number = 1 })
    ∷ EventStream.Event.error
    ∷ EventStream.Event.timer
    ∷ EventStream.Event.hello
    ∷ EventStream.Event.visibility true
    ∷ [])

-- A collation that tells no texts apart, and no text for numbers.
abbrev flat : String → String → ℤ
flat s t = pos 0

flat-IsCollation : IsCollation flat
flat-IsCollation = record { flips = λ s t. refl; trans = λ s t u p q. refl }

abbrev no_text : ℤ → String
no_text n = ""

-- A row is its number, and 0 has none.
abbrev price : ℕ → Cell
price zero = null
price (suc n) = number (pos (suc n))

price-fits : (n : ℕ) → fits true (price n) ≡ true
price-fits zero = refl
price-fits (suc n) = refl

sorts_down : sort_by flat no_text price desc (3 ∷ 0 ∷ 7 ∷ 5 ∷ 0 ∷ []) ≡ 7 ∷ 5 ∷ 3 ∷ 0 ∷ 0 ∷ []
unfolding sort_by ◌-ℤ◌
sorts_down = refl

sort_by-IsStableSort_example :
    IsStableSort
      (row_is_before flat no_text price asc)
      (3 ∷ 0 ∷ 7 ∷ [])
      (sort_by flat no_text price asc (3 ∷ 0 ∷ 7 ∷ []))
sort_by-IsStableSort_example =
    sort_by-IsStableSort flat no_text flat-IsCollation price asc true price-fits (3 ∷ 0 ∷ 7 ∷ [])

-- The banner and the tab come, a tick polls, and both go.
abbrev visits : List (RiskStatus.Event ℕ)
visits =
    RiskStatus.subscribed 1
    ∷ RiskStatus.subscribed 2
    ∷ RiskStatus.replied 0 (RiskStatus.answer 5)
    ∷ RiskStatus.ticked 1 false
    ∷ RiskStatus.unsubscribed 1
    ∷ RiskStatus.unsubscribed 2
    ∷ []

run-initial-IsPolled_example : IsPolled (RiskStatus.run visits RiskStatus.initial)
unfolding RiskStatus.step
run-initial-IsPolled_example =
    run-initial-IsPolled visits (refl, (refl, (tt, (tt, (tt, (tt, tt))))))

-- A list is its id, and an item belongs to the list of its number.
abbrev AllOf : ℕ → List ℕ → Type 0
AllOf id items = All (λ x. x ≡ id) items

abbrev browsing : List (Watchlists.Event ℕ ℕ)
browsing =
    Watchlists.mounted (some (1 ∷ 2 ∷ []))
    ∷ Watchlists.fetched 0 (some (1 ∷ 1 ∷ []))
    ∷ Watchlists.mutated (some 1) (1 ∷ [])
    ∷ Watchlists.selected (some 2)
    ∷ []

run-IsShown_example :
    IsShown (λ id. id) AllOf (Watchlists.run (λ id. id) browsing Watchlists.initial)
unfolding Watchlists.step
run-IsShown_example =
    run-IsShown (λ id. id) AllOf browsing
      (tt, (λ id q. (cc, (cc, tt)), ((refl, λ id q. (cc, tt)), (tt, tt))))

abbrev on_first : Watchlists.Lists ℕ ℕ
on_first = record Watchlists.initial { active = some 1 }

-- A status listener comes, the stream connects and is lost.
abbrev watching : List EventStream.Event
watching =
    EventStream.Event.on_status 4
    ∷ EventStream.Event.hello
    ∷ EventStream.Event.error
    ∷ EventStream.Event.timer
    ∷ []

run-initial-IsInformed_example : IsInformed (EventStream.run watching (EventStream.initial false))
run-initial-IsInformed_example = run-initial-IsInformed watching false

told_log :
    (EventStream.run watching (EventStream.initial false)).told
    ≡ (4, false) ∷ (4, true) ∷ (4, false) ∷ []
unfolding EventStream.run EventStream.step EventStream.open_stream EventStream.ensure_open
    EventStream.on_error EventStream.wanted EventStream.set_connected
told_log = refl

-- Two components ask before the first answer, one after it, and a payload is pushed.
abbrev asking : List (UpdateStatus.Event ℕ)
asking =
    UpdateStatus.refreshed false
    ∷ UpdateStatus.refreshed false
    ∷ UpdateStatus.settled 0 (UpdateStatus.answer 3)
    ∷ UpdateStatus.refreshed false
    ∷ UpdateStatus.pushed 4
    ∷ []

run-initial-IsSingle_example : IsSingle (UpdateStatus.run asking UpdateStatus.initial)
run-initial-IsSingle_example = run-initial-IsSingle asking (refl, (refl, (tt, (refl, (tt, tt)))))
