-- ===== src/Frontend/Dashboard.antt =====
-- frontend/src/hooks/useDashboardData.js: the data behind every panel. Refresh has the refresh of
-- named sources.
pub mod Refresh
pub mod Workers
pub mod Laws
mod Tests
use stock_dashboard.Prelude.{
  String, Bool, true, false, Option, none, some, List, [], ◌∷◌, if◌then◌else◌, str_eq, find?,
  Object, no_keys, entry, spread,
}

-- What a fetch of `Promise.allSettled` came to: its value, or the message of its reason.
pub data Settled (V : Type 0) : Type 0 where
  fulfilled : V → Settled V
  rejected : String → Settled V

pub record Endpoint : Type 0 where
  pub key : String
  -- the initial value is an empty list, and null otherwise
  pub starts_empty : Bool
  -- the connectivity probe
  pub probe : Bool
  -- its payload { alerts, unread } feeds two keys
  pub feeds_unread : Bool

abbrev pub panel : String → Endpoint
panel key = record { key = key; starts_empty = true; probe = false; feeds_unread = false }

abbrev pub nullable : String → Endpoint
nullable key = record (panel key) { starts_empty = false }

abbrev pub endpoints : List Endpoint
endpoints =
    panel "contracts"
    ∷ record (panel "sources") { probe = true }
    ∷ panel "news"
    ∷ panel "trades"
    ∷ panel "watchlist"
    ∷ panel "yieldCurve"
    ∷ panel "signals"
    ∷ panel "fearGreed"
    ∷ panel "vix"
    ∷ panel "aaii"
    ∷ panel "putCall"
    ∷ panel "marginDebt"
    ∷ nullable "sentiment"
    ∷ panel "congressTrades"
    ∷ nullable "investors"
    ∷ panel "shortInterest"
    ∷ panel "social"
    ∷ panel "analyst"
    ∷ panel "boomScores"
    ∷ panel "fundamentals"
    ∷ panel "seasonality"
    ∷ panel "portfolio"
    ∷ panel "cash"
    ∷ nullable "suggestions"
    ∷ record (panel "alerts") { feeds_unread = true }
    ∷ panel "analyses"
    ∷ panel "econCalendar"
    ∷ panel "xPosts"
    ∷ []

pub record Dashboard (V : Type 0) : Type 0 where
  pub contents : Object V
  pub loading : Bool
  pub busy : Bool
  pub error : Option String

-- The payloads, as far as they are made or taken apart: `[]`, `null`, `0`, `value.alerts` and
-- `value.unread`.
pub record Payloads (V : Type 0) : Type 0 where
  pub empty : V
  pub null : V
  pub no_unread : V
  pub alerts_of : V → V
  pub unread_of : V → V

module _ {V : Type 0} (p : Payloads V) where
  abbrev pub initial_of : Endpoint → Object V
  initial_of e =
      spread (entry e.key (if e.starts_empty then p.empty else p.null))
        (if e.feeds_unread then entry "unreadAlerts" p.no_unread else no_keys)

  abbrev pub initial_data : List Endpoint → Object V
  initial_data [] = no_keys
  initial_data (e ∷ es) = spread (initial_of e) (initial_data es)

  abbrev pub initial : Dashboard V
  initial = record { contents = initial_data endpoints; loading = true; busy = false; error = none }

  -- What one result adds to the patch.
  abbrev pub applied : Endpoint → Settled V → Object V
  applied e (rejected message) = no_keys
  applied e (fulfilled value) =
      if e.feeds_unread
      then spread (entry "alerts" (p.alerts_of value)) (entry "unreadAlerts" (p.unread_of value))
      else entry e.key value

  unfoldable pub patch_of : List Endpoint → (String → Settled V) → Object V
  patch_of [] results = no_keys
  patch_of (e ∷ es) results = spread (applied e (results e.key)) (patch_of es results)

  abbrev pub outage : Settled V → Option String
  outage (fulfilled value) = none
  outage (rejected message) = some (if str_eq message "" then "backend unreachable" else message)

  abbrev pub probe_error : Option Endpoint → (String → Settled V) → Option String
  probe_error none results = none
  probe_error (some e) results = outage (results e.key)

  abbrev pub patch : Object V → Dashboard V → Dashboard V
  patch next s = record s { contents = spread s.contents next }

  -- `load`, given what each endpoint answers.
  unfoldable pub load : (String → Settled V) → Dashboard V → Dashboard V
  unfolding patch_of
  load results s = record s {
    contents = spread s.contents (patch_of endpoints results);
    error = probe_error (find? (λ e. e.probe) endpoints) results;
    loading = false;
  }

-- The actions, with what their requests came to: one request whose reply becomes a panel, a
-- holding that is bought or sold, perhaps with the cash fetched after it, and the marking of
-- alerts.
pub data Action (V : Type 0) : Type 0 where
  replace_watchlist : Settled V → Action V
  replace_portfolio : Settled V → Action V
  replace_cash : Settled V → Action V
  trade : Settled V → Option (Settled V) → Action V
  mark_alerts_read : Settled V → Action V

module _ {V : Type 0} (p : Payloads V) where
  -- A request that is rejected throws before anything is patched.
  abbrev pub replace : String → Settled V → Dashboard V → Dashboard V
  replace key (rejected message) s = s
  replace key (fulfilled value) s = patch p (entry key value) s

  abbrev pub trade_with : Settled V → Option (Settled V) → Dashboard V → Dashboard V
  trade_with (rejected message) cash s = s
  trade_with (fulfilled list) none s = patch p (entry "portfolio" list) s
  trade_with (fulfilled list) (some (rejected message)) s = s
  trade_with (fulfilled list) (some (fulfilled cash)) s =
      patch p (spread (entry "portfolio" list) (entry "cash" cash)) s

  abbrev pub marked : Settled V → Dashboard V → Dashboard V
  marked (rejected message) s = s
  marked (fulfilled value) s =
      patch p
        (spread (entry "alerts" (p.alerts_of value)) (entry "unreadAlerts" (p.unread_of value))) s

  unfoldable pub act : Action V → Dashboard V → Dashboard V
  act (replace_watchlist reply) s = replace "watchlist" reply s
  act (replace_portfolio reply) s = replace "portfolio" reply s
  act (replace_cash reply) s = replace "cash" reply s
  act (trade reply cash) s = trade_with reply cash s
  act (mark_alerts_read reply) s = marked reply s
