-- ===== src/Desktop/Shell/Tests.antt =====
-- The shell, its windows and its sign-in at concrete inputs.
use stock_dashboard.Prelude.{
  ℕ, ◌+◌, ◌≤◌, String, ◌≡◌, refl, ◌↔◌, true, false, ◌&&◌, Option, none, some, List, [], ◌∷◌,
  if◌then◌else◌, str_eq, All,
}
use stock_dashboard.Desktop.Window.{
  codes, ParsedUrl, is_app_url, is_oauth_start, on_will_navigate, Turn,
}
use stock_dashboard.Desktop.Window.Laws.{
  IsForeignWeb, is_prevented, sign_ins, on_will_navigate_policy,
}
use stock_dashboard.Desktop.Oauth.{Landing, start}
use stock_dashboard.Desktop.Oauth
use stock_dashboard.Desktop.Oauth.Laws.{IsFlow, run-start-IsFlow}
use stock_dashboard.Desktop.Shell.{
  Event, show_waiting, file_loaded, health_known, url_loaded, update_finished, retry,
  update_trigger, close_window, initial, run, step,
}
use stock_dashboard.Desktop.Shell.Laws.{is_start, is_hint, count_if, is_retry, starts-run-le}

-- Two addresses: the provider's sign-in page, and the start of the sign-in.
abbrev parse_url : String → Option ParsedUrl
parse_url url =
    if str_eq url "https://example.com/"
    then some (record { protocol = "https:"; origin = "https://example.com"; pathname = codes "/" })
    else if str_eq url "http://127.0.0.1:8000/api/auth/oauth/google/start"
    then some (record {
      protocol = "http:";
      origin = "http://127.0.0.1:8000";
      pathname = codes "/api/auth/oauth/google/start";
    })
    else none

abbrev app_origin : String
app_origin = "http://127.0.0.1:8000"

starts_oauth :
    is_oauth_start parse_url app_origin "http://127.0.0.1:8000/api/auth/oauth/google/start" ≡ true
unfolding is_oauth_start
starts_oauth = refl

on_will_navigate_policy_example :
    (on_will_navigate parse_url app_origin true "https://example.com/" ≡ []
      ↔ (is_app_url parse_url app_origin "https://example.com/" ≡ true)
        × ((is_oauth_start parse_url app_origin "https://example.com/" && true) ≡ false))
    × All
        (IsForeignWeb parse_url app_origin "https://example.com/")
        (on_will_navigate parse_url app_origin true "https://example.com/")
    × (is_prevented (on_will_navigate parse_url app_origin true "https://example.com/") ≡ false
        ↔ (is_app_url parse_url app_origin "https://example.com/" ≡ true)
          × ((is_oauth_start parse_url app_origin "https://example.com/" && true) ≡ false))
    × (sign_ins (on_will_navigate parse_url app_origin true "https://example.com/")
        ≡ (if is_oauth_start parse_url app_origin "https://example.com/" && true then 1 else 0))
on_will_navigate_policy_example =
    on_will_navigate_policy parse_url app_origin true "https://example.com/"

abbrev down : ℕ → Turn
down i = record { is_aborted = false; health = none; delay = 20 }

abbrev landing : String → Option Landing
landing url = if str_eq url "" then none else some (record { origin = url; is_oauth_path = false })

run-start-IsFlow_example : IsFlow landing app_origin (
    Oauth.run landing app_origin
      (Oauth.Event.visited "https://provider"
        ∷ Oauth.Event.visited app_origin
        ∷ Oauth.Event.closed
        ∷ [])
      start)
run-start-IsFlow_example = run-start-IsFlow landing app_origin (
    Oauth.Event.visited "https://provider"
    ∷ Oauth.Event.visited app_origin
    ∷ Oauth.Event.closed
    ∷ [])

-- The dashboard loads, the first check finds no session, and a sign-in triggers it again.
abbrev launch : List Event
launch =
    show_waiting
    ∷ file_loaded 0
    ∷ health_known 0 true
    ∷ url_loaded 0
    ∷ update_finished retry
    ∷ update_trigger
    ∷ update_trigger
    ∷ close_window
    ∷ close_window
    ∷ []

launch_runs :
    (count_if is_start (run launch initial).1 ≡ 2) × (count_if is_hint (run launch initial).1 ≡ 1)
unfolding run step
launch_runs = (refl, refl)

starts-run-le_example : count_if is_start (run launch initial).1 ≤ 1 + count_if is_retry launch
starts-run-le_example = starts-run-le launch

-- A restart of the service while the first wait is under way.
abbrev restarted : List Event
restarted = show_waiting ∷ file_loaded 0 ∷ show_waiting ∷ []
