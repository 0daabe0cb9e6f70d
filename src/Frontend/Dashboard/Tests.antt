-- ===== src/Frontend/Dashboard/Tests.antt =====
-- The dashboard's theorems at concrete inputs.
use stock_dashboard.Prelude.{
  ℕ, zero, suc, ◌+◌, String, ◌≡◌, refl, ◌⊎◌, true, Option, none, some, List, [], ◌∷◌, if◌then◌else◌,
  str_eq, contains,
}
use stock_dashboard.Frontend.Dashboard.{Settled, fulfilled, rejected, Payloads}
use stock_dashboard.Frontend.Dashboard.Workers.{start, run, is_done}
use stock_dashboard.Frontend.Dashboard.Workers.Laws.{run-start-called}
use stock_dashboard.Frontend.Dashboard.Refresh.{Status, Round, stamps, wait_for}
use stock_dashboard.Frontend.Dashboard.Refresh.Laws.{IsRefreshed, wait_for_settles}

-- Payloads are numbers here.
abbrev numbers : Payloads ℕ
numbers = record {
  empty = 0;
  null = 100;
  no_unread = 200;
  alerts_of = λ v. v;
  unread_of = λ v. v + 1;
}

-- Only the news fail.
abbrev answers : String → Settled ℕ
answers k = if str_eq k "news" then rejected "timeout" else fulfilled 7

-- The first two workers take a source each; the first is called back before the others start.
abbrev schedule : List ℕ
schedule = 0 ∷ 1 ∷ 0 ∷ 0 ∷ 2 ∷ 1 ∷ 1 ∷ 3 ∷ []

abbrev wanted : List String
wanted = "quotes" ∷ "news" ∷ []

schedule_done : is_done (run schedule (start wanted)) ≡ true
unfolding is_done run
schedule_done = refl

run-start-called_example : (run schedule (start wanted)).called ≡ wanted
run-start-called_example = run-start-called wanted schedule schedule_done

abbrev at_time : String → String → Status
at_time source t = record { source = source; last_refreshed_at = some t }

abbrev before : Option (List Status)
before = some (at_time "quotes" "09:00" ∷ at_time "news" "09:00" ∷ [])

-- The quotes move on in the second round, and the request fails in the third.
abbrev rounds : ℕ → Round
rounds zero = record { statuses = before; delay = 200 }
rounds (suc zero) = record {
  statuses = some (at_time "quotes" "09:05" ∷ at_time "news" "09:00" ∷ []);
  delay = 200;
}
rounds (suc (suc i)) = record { statuses = none; delay = 200 }

waits : wait_for before 0 rounds wanted ≡ some ("news" ∷ [])
unfolding wait_for
waits = refl

wait_for_settles_example :
    (left : List String) × (wait_for before 0 rounds wanted ≡ some left)
    × ((contains "quotes" left ≡ true) ⊎ IsRefreshed (stamps before) "quotes" rounds 61)
wait_for_settles_example = wait_for_settles before 0 rounds wanted "quotes" refl
