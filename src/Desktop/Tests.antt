-- ===== src/Desktop/Tests.antt =====
-- The desktop's theorems at concrete inputs, and runs of its definitions.
use stock_dashboard.Prelude.{
  ◌≤◌, String, ◌≡◌, refl, Bool, true, false, Option, none, some, List, [], ◌∷◌, arith, Object,
  entry, count,
}
use stock_dashboard.Desktop.Seen.{Alert, diff_new, push_seen, keys_of, badge_text, Badge}
use stock_dashboard.Desktop.Seen.Laws.{diff_new-push_seen}
use stock_dashboard.Desktop.Poller.{
  PollStore, Response, failed, received, announce, max_notifications_per_poll,
}
use stock_dashboard.Desktop.Poller
use stock_dashboard.Desktop.Poller.Laws.{toasted}
use stock_dashboard.Desktop.Poller.Session.{count-run-le}
use stock_dashboard.Desktop.Store.{JsonStore, Disk, Fault, none_at_all}
use stock_dashboard.Desktop.Store

abbrev alert : String → String → Alert
alert key severity = record {
  dedup_key = key;
  ticker = "TSLA";
  title = "Volume spike";
  message = "";
  severity = severity;
  is_read = false;
}

abbrev first_run : PollStore
first_run = record { seen_keys = []; seeded = false; notify_high_severity = true }

abbrev spike : List Alert
spike = alert "volume|TSLA|2024-05-01" "high" ∷ []

abbrev session : List Response
session = received [] 0 ∷ failed (some 401) ∷ received spike 1 ∷ received spike 1 ∷ []

-- The alert that appears after the silent first poll is announced once.
session_toasts : toasted (Poller.run true session first_run).1 ≡ "volume|TSLA|2024-05-01" ∷ []
unfolding Poller.run Poller.poll diff_new push_seen announce Poller.notify
session_toasts = refl

badge_runs : (badge_text 0 ≡ Badge.blank) × (badge_text 100 ≡ Badge.over_99)
unfolding badge_text
badge_runs = (refl, refl)

count-run-le_example :
    count "volume|TSLA|2024-05-01"
      (toasted (Poller.run true (received spike 1 ∷ received spike 1 ∷ []) first_run).1)
    ≤ 1
count-run-le_example =
    count-run-le true "volume|TSLA|2024-05-01" (received spike 1 ∷ received spike 1 ∷ []) first_run
      ((refl, (refl, tt), omega arith), ((refl, (refl, tt), omega arith), tt))

diff_new-push_seen_example : diff_new (push_seen ("older" ∷ []) (keys_of spike) 1) spike ≡ []
diff_new-push_seen_example = diff_new-push_seen ("older" ∷ []) spike 1 (omega arith)

-- A settings file whose text is the object itself.
abbrev settings : Object Bool
settings = entry "seeded" false

abbrev store : JsonStore (Object Bool) Bool
store = record {
  defaults = settings;
  contents = settings;
  disk = record { file = none; tmp = none };
}

-- What the store returns for a key, and what one that is created anew on its disk does.
abbrev now_gets : JsonStore (Object Bool) Bool → String → Option Bool
now_gets s key = Store.get (λ raw. some raw) (λ d. d) s key

abbrev restarted : JsonStore (Object Bool) Bool → JsonStore (Object Bool) Bool
restarted s = Store.create (λ raw. some raw) (λ d. d) settings s.disk

abbrev patched : Fault (Object Bool) → JsonStore (Object Bool) Bool
patched fault = Store.set (λ raw. some raw) (λ d. d) fault store (entry "seeded" true)
