-- ===== src/Extension/Tests.antt =====
-- The extension's theorems at concrete inputs, and runs of its definitions.
use stock_dashboard.Prelude.{
  ℕ, ◌+◌, ◌≤◌, ◌≡◌, refl, true, false, none, some, List, [], ◌∷◌, map, arith, if◌then◌else◌, str_eq,
  length,
}
use stock_dashboard.Desktop.Window.{codes}
use stock_dashboard.Desktop.Poller.{PollStore, received}
use stock_dashboard.Desktop.Poller
use stock_dashboard.Desktop.Poller.Laws.{toasted, summarised}
use stock_dashboard.Extension.Cache.{UrlText, read_cache}
use stock_dashboard.Extension.Api.{ok, err, Message, ApiError, network, http}
use stock_dashboard.Extension.Background.{
  AuthState, unknown, Page, Score, Local, Settings, poll, boom_scores,
}
use stock_dashboard.Extension.Background.Laws.{boom_scores_cached}
use stock_dashboard.Extension.Background.SameAsDesktop.{notified, summed, IsSame, poll-IsSame}
use stock_dashboard.Extension.Background.Handle.{Server, take_snapshot, wanted}
use stock_dashboard.Extension.Background.Handle.Laws.{reported}
use stock_dashboard.Extension.Annotate.{Node, Pass, annotate, pass_limit, page_limit}
use stock_dashboard.Extension.Annotate.Laws.{IsWithin, annotate-IsWithin}
use stock_dashboard.Extension.Content.{
  Event, loaded, gate_known, symbols_known, setting_known, timer, mutated, initial, asking_symbols,
  run, Content,
}
use stock_dashboard.Extension.Content.Laws.{IsValid, run-initial-IsClean}
use stock_dashboard.Extension.Detect.{Matcher, scan_text}
use stock_dashboard.Extension.Detect.Guard.{scan_all, scan_text-eq-scan_all}
use stock_dashboard.Extension.Detect.Laws.{AreInOrder, scan_text-AreInOrder}

-- "ALL" is a stopword, "NVDA" is not known, and the cashtag needs no symbol.
abbrev post : List ℕ
post = codes "$tsla AAPL ALL NVDA"

abbrev known : Matcher
known = some (codes "AAPL" ∷ codes "ALL" ∷ [])

post_scans :
    (map (λ m. m.ticker) (scan_text post known) ≡ codes "TSLA" ∷ codes "AAPL" ∷ [])
    × (map (λ m. m.start) (scan_text post known) ≡ 0 ∷ 6 ∷ [])
    × (map (λ m. m.end) (scan_text post known) ≡ 5 ∷ 10 ∷ [])
unfolding scan_text
post_scans = (refl, refl, refl)

scan_text-AreInOrder_example : AreInOrder (scan_text post known)
scan_text-AreInOrder_example = scan_text-AreInOrder post known

scan_text-eq-scan_all_example : scan_text (codes "AAPL up") known ≡ scan_all (codes "AAPL up") known
scan_text-eq-scan_all_example = scan_text-eq-scan_all (codes "AAPL up") known

abbrev fresh : Local
fresh = record {
  auth_state = unknown;
  last_error = none;
  cached_alerts = none;
  last_poll = none;
  seen_keys = "old" ∷ [];
  seeded = true;
  boom = none;
  symbols = none;
}

abbrev settings : Settings
settings = record {
  api_base = some "http://127.0.0.1:8000";
  poll_minutes = 3;
  notify_high_severity = true;
  is_enabled = λ host. true;
}

abbrev page : Page
page = record {
  alerts =
      record {
        dedup_key = "volume|TSLA|2024-05-01";
        ticker = "TSLA";
        title = "Volume spike";
        message = "";
        severity = "high";
        is_read = false;
      }
      ∷ [];
  unread = 1;
}

abbrev desktop : PollStore
desktop = record { seen_keys = "old" ∷ []; seeded = true; notify_high_severity = true }

poll-IsSame_example :
    (notified (poll 5 settings (ok page) fresh).1
      ≡ toasted (Poller.poll true (received page.alerts page.unread) desktop).1)
    × (summed (poll 5 settings (ok page) fresh).1
        ≡ summarised (Poller.poll true (received page.alerts page.unread) desktop).1)
    × IsSame settings
        (poll 5 settings (ok page) fresh).0
        (Poller.poll true (received page.alerts page.unread) desktop).0
poll-IsSame_example =
    poll-IsSame 5 settings page fresh desktop (record { keys = refl; seeded = refl; notify = refl })

abbrev rows : List Score
rows = record { ticker = "TSLA"; score = 80 } ∷ []

abbrev offline : ApiError
offline = record { status = network; message = Message.network_error }

boom_scores_cached_example :
    (boom_scores 1000 (err offline) (boom_scores 0 (ok rows) fresh).0).1 ≡ ok rows
unfolding read_cache
boom_scores_cached_example = boom_scores_cached 0 1000 rows (err offline) fresh refl (omega arith)

-- The platform's text operations on the inputs used here.
abbrev text : UrlText
text = record {
  trim = λ s. s;
  has_scheme = λ s. false;
  with_http = λ s. if str_eq s "signal.local" then "http://signal.local" else "";
  parse = λ s.
      if str_eq s "http://signal.local"
      then some (record { protocol = "http:"; origin = "http://signal.local" })
      else none;
}

-- The session has ended: two of the three requests got a 401.
abbrev signed_out_server : Server
signed_out_server = record {
  now = 5;
  quotes = err (record { status = http 401; message = Message.request_failed });
  boom = ok rows;
  names = ok ("TSLA" ∷ []);
  page = err (record { status = http 401; message = Message.request_failed });
  marked = ok page;
  analysis = λ ticker. ok ticker;
  watched = λ ticker. ok ticker;
  stock_url = λ base ticker. base;
}

snapshot_runs : reported (take_snapshot signed_out_server fresh).2 ≡ some AuthState.signed_out
unfolding take_snapshot boom_scores read_cache
snapshot_runs = refl

-- Of the rows that the worker answers with, only those that were asked for are there.
scores_run :
    (wanted ("TSLA" ∷ []) rows "TSLA" ≡ some (record { ticker = "TSLA"; score = 80 }))
    × (wanted ("AAPL" ∷ []) rows "TSLA" ≡ none)
unfolding wanted
scores_run = (refl, refl)

abbrev post_node : Node
post_node = record { text = post; is_connected = true }

annotate-IsWithin_example : IsWithin 799 (annotate known (post_node ∷ []) 799)
annotate-IsWithin_example = annotate-IsWithin known (post_node ∷ []) 799

abbrev new_pass : Pass
new_pass = record { inserted = 0; used = 10; tickers = [] }

post_fits :
    (length (scan_text post known) ≤ pass_limit) × (10 + length (scan_text post known) ≤ page_limit)
unfolding scan_text
post_fits = (omega arith, omega arith)

-- The overlay starts, sees a change, and is switched off.
abbrev browsing : List Event
browsing =
    loaded
    ∷ gate_known 0 true
    ∷ symbols_known 0 known (post_node ∷ [])
    ∷ mutated 0
    ∷ timer false (post_node ∷ [])
    ∷ setting_known false
    ∷ []

run-initial-IsClean_example : IsValid (run browsing initial)
run-initial-IsClean_example = run-initial-IsClean browsing

abbrev waiting : Content
waiting = record initial { starts = asking_symbols ∷ [] }
