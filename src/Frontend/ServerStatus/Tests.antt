-- ===== src/Frontend/ServerStatus/Tests.antt =====
-- Runs of frontend/src/hooks/useServerStatus.js, and witnesses. A number stands for each answer.
use stock_dashboard.Prelude.{ℕ, String, ◌≡◌, refl, true, false, none, some, List, [], ◌∷◌}
use stock_dashboard.Frontend.ServerStatus.{Reply, Server, Event, run, initial}
use stock_dashboard.Frontend.ServerStatus.Laws.{starts, unmount-IsSilent}

abbrev Page : Type 0
Page = Server ℕ ℕ ℕ ℕ String

abbrev Happening : Type 0
Happening = Event ℕ ℕ ℕ ℕ String

abbrev started : Page
started = initial true none

-- The page goes while its first pull is under way.
abbrev leaving : List Happening
leaving = Event.reply 0 (Reply.status 1 2) ∷ Event.slow false ∷ Event.unmount ∷ []

is_polling : started.polling ≡ true
unfolding initial
is_polling = refl

unmount-IsSilent_example :
    ((run (Event.unmount ∷ leaving) started).shown ≡ started.shown)
    × ((run (Event.unmount ∷ leaving) started).sent ≡ started.sent)
unfolding starts
unmount-IsSilent_example = unmount-IsSilent leaving started is_polling (refl, (refl, (refl, tt)))

-- The log of the earlier filter is answered after that of the later one, which it replaces: the
-- `mounted` that the earlier effect cleared is set again by the later one.
abbrev refiltered : List Happening
refiltered =
    Event.reply 0 (Reply.status 1 2)
    ∷ Event.rerender true (some "news")
    ∷ Event.reply 2 (Reply.status 1 2)
    ∷ Event.reply 3 (Reply.log 20 4)
    ∷ Event.reply 1 (Reply.log 10 4)
    ∷ []

shows_earlier_filter :
    ((run refiltered started).filter_by ≡ some "news")
    × ((run refiltered started).shown.events ≡ some (none, 10))
unfolding run initial
shows_earlier_filter = (refl, refl)
