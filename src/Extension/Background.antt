-- ===== src/Extension/Background.antt =====
-- extension/src/background/index.js: the background worker's storage, its poll, the messages that it
-- answers and what a change of the settings resets. Replies and the clock are inputs.
pub mod Handle
pub mod Laws
pub mod SameAsDesktop
use stock_dashboard.Prelude.{
  ℕ, ◌-◌, ◌*◌, min, max, String, Bool, true, false, not, ◌&&◌, Option, none, some, List, [], ◌∷◌,
  ◌++◌, map, ltb, ◌==◌, if◌then◌else◌, str_eq, length, take, filter,
}
use stock_dashboard.Desktop.Seen.{Alert, Badge, seen_cap, diff_new, push_seen, keys_of, badge_text}
use stock_dashboard.Extension.Api.{
  Status, permission_denied, network, http, Message, ApiError, Reply, ok, err,
}
use stock_dashboard.Extension.Cache.{Entry, read_cache, write_cache}

pub data AuthState : Type 0 where
  unknown signed_in signed_out no_permission unreachable : AuthState

-- A page of GET /api/alerts.
pub record Page : Type 0 where
  pub alerts : List Alert
  pub unread : ℕ

-- A row of the boom scores.
pub record Score : Type 0 where
  pub ticker : String
  pub score : ℕ

-- The keys of the local storage.
pub record Local : Type 0 where
  pub auth_state : AuthState
  pub last_error : Option Message
  pub cached_alerts : Option Page
  pub last_poll : Option ℕ
  pub seen_keys : List String
  pub seeded : Bool
  pub boom : Option (Entry (List Score))
  pub symbols : Option (Entry (List String))

pub record Settings : Type 0 where
  -- the normalized address, if there is one
  pub api_base : Option String
  pub poll_minutes : ℕ
  pub notify_high_severity : Bool
  pub is_enabled : String → Bool

-- The badge: its text, or "!" and "?" for the errors, with the message behind "?".
pub data Effect : Type 0 where
  badge : Badge → Effect
  badge_signed_out badge_no_permission : Effect
  badge_unreachable : Message → Effect
  notification : Alert → Effect
  summary : ℕ → Effect
  set_alarm : ℕ → Effect
  open_tab : String → Effect

abbrev pub max_notifications_per_poll : ℕ
max_notifications_per_poll = 3

abbrev pub scores_ttl_ms : ℕ
scores_ttl_ms = 120000

abbrev pub symbols_ttl_ms : ℕ
symbols_ttl_ms = 24 * 60 * 60 * 1000

abbrev pub failure : ApiError → Status → Local → Local × List Effect
failure e permission_denied s =
    (record s { auth_state = no_permission; last_error = some e.message }, badge_no_permission ∷ [])
failure e network s = (
  record s { auth_state = unreachable; last_error = some e.message },
  badge_unreachable e.message ∷ [],
)
failure e (http status) s =
    if status == 401
    then (record s { auth_state = signed_out; last_error = none }, badge_signed_out ∷ [])
    else (
      record s { auth_state = unreachable; last_error = some e.message },
      badge_unreachable e.message ∷ [],
    )

unfoldable pub reflect_error : ApiError → Local → Local × List Effect
reflect_error e s = failure e e.status s

-- `boomScores`, by default not forced, and `symbols`: the cache, or the server and then the cache.
unfoldable pub boom_scores : ℕ → Reply (List Score) → Local → Local × Reply (List Score)
boom_scores now reply s = elim (read_cache now scores_ttl_ms s.boom) [
  | some rows ↦ (s, ok rows)
  | none ↦ elim reply [
    | err e ↦ (s, err e)
    | ok rows ↦ (record s { boom = write_cache now rows }, ok rows)
  ]
]

unfoldable pub symbols_of : ℕ → Reply (List String) → Local → Local × Reply (List String)
symbols_of now reply s = elim (read_cache now symbols_ttl_ms s.symbols) [
  | some names ↦ (s, ok names)
  | none ↦ elim reply [
    | err e ↦ (s, err e)
    | ok names ↦ (record s { symbols = write_cache now names }, ok names)
  ]
]

abbrev pub is_urgent : Alert → Bool
is_urgent a = str_eq a.severity "high" && not a.is_read

unfoldable pub announce : List Alert → List Effect
announce high =
    let shown = take max_notifications_per_poll high in
    let rest = length high - length shown in
    map notification shown ++ (if ltb 0 rest then summary rest ∷ [] else [])

unfoldable pub received : ℕ → Settings → Page → Local → Local × List Effect
received now settings page s =
    let keys = keys_of page.alerts in
    let here = record s {
      auth_state = signed_in;
      last_error = none;
      cached_alerts = some page;
      last_poll = some now;
    } in
    let shown = badge (badge_text page.unread) in
    if s.seeded
    then (let high = filter is_urgent (diff_new s.seen_keys page.alerts) in
        let stored = record here { seen_keys = push_seen s.seen_keys keys seen_cap } in
        if settings.notify_high_severity
        then (stored, shown ∷ announce high)
        else (stored, shown ∷ []))
    else (record here { seen_keys = push_seen [] keys seen_cap; seeded = true }, shown ∷ [])

unfoldable pub poll : ℕ → Settings → Reply Page → Local → Local × List Effect
poll now settings (err e) s = reflect_error e s
poll now settings (ok page) s = received now settings page s

-- `ensureAlarm`: `Number(pollMinutes) || DEFAULTS.pollMinutes`, held between 1 and 15.
unfoldable pub ensure_alarm : Settings → List Effect
ensure_alarm settings =
    let minutes = (if settings.poll_minutes == 0 then 3 else settings.poll_minutes) in
    set_alarm (min 15 (max 1 minutes)) ∷ []

-- A new address forgets every cache and the history of keys.
unfoldable pub forget : Local → Local
forget s = record s {
  boom = none;
  symbols = none;
  seen_keys = [];
  seeded = false;
  auth_state = unknown;
}

-- `storage.onChanged` for the synced settings.
unfoldable pub on_changed : Bool → Bool → ℕ → Settings → Reply Page → Local → Local × List Effect
on_changed base_changed minutes_changed now settings reply s =
    let (s', effects) = (if base_changed then poll now settings reply (forget s) else (s, [])) in
    (s', effects ++ (if minutes_changed then ensure_alarm settings else []))
