-- ===== src/Extension/Background/Handle.antt =====
-- The message broker of extension/src/background/index.js.
pub mod Laws
use stock_dashboard.Prelude.{
  ℕ, String, Bool, true, false, Option, none, some, List, [], ◌∷◌, ◌==◌, if◌then◌else◌, contains,
  Object, no_keys, entry, spread,
}
use stock_dashboard.Desktop.Seen.{badge_text}
use stock_dashboard.Extension.Api.{
  Status, permission_denied, network, http, Message, ApiError, Reply, ok, err, fail,
}
use stock_dashboard.Extension.Background.{
  AuthState, signed_out, no_permission, Page, Score, Local, Settings, Effect, badge, open_tab,
  reflect_error, boom_scores, symbols_of, poll,
}

-- The messages; the payloads of `analyze` and `addWatch` replies are texts.
pub data Msg : Type 0 where
  scores : List String → Msg
  symbols : Msg
  analyze : String → Msg
  add_watch : String → Msg
  open_ticker : String → Msg
  site_enabled : String → Msg
  snapshot mark_read poll_now : Msg
  other : Msg

-- What the server answers if it is asked.
pub record Server : Type 0 where
  pub now : ℕ
  pub quotes : Reply String
  pub boom : Reply (List Score)
  pub names : Reply (List String)
  pub page : Reply Page
  pub marked : Reply Page
  pub analysis : String → Reply String
  pub watched : String → Reply String
  pub stock_url : String → String → String

pub record Snapshot : Type 0 where
  pub quotes : Option String
  pub boom : Option (List Score)
  pub alerts : Option Page
  pub auth_state : AuthState
  pub error : Option Message

pub data Answer : Type 0 where
  score_rows : Object Score → Answer
  symbol_names : Option (List String) → Answer
  payload : String → Answer
  opened : Bool → Answer
  enabled : Bool → Answer
  snapshot_of : Snapshot → Answer
  page_of : Page → Answer
  polled : Answer

abbrev pub value_of : {A : Type 0} → Reply A → Option A
value_of (ok a) = some a
value_of (err e) = none

abbrev pub error_of : {A : Type 0} → Reply A → Option ApiError
error_of (ok a) = none
error_of (err e) = some e

-- A rejection with status 401, or for a missing permission.
abbrev pub denies : Status → Bool
denies permission_denied = true
denies network = false
denies (http status) = status == 401

abbrev pub denial : Option ApiError → Option ApiError
denial none = none
denial (some e) = if denies e.status then some e else none

abbrev pub first_of_two {ℓ} : {A : Type ℓ} → Option A → Option A → Option A
first_of_two none b = b
first_of_two (some a) b = some a

abbrev pub message_of : Option ApiError → Option Message
message_of none = none
message_of (some e) = some e.message

abbrev pub state_of : Status → AuthState
state_of (http status) = if status == 401 then signed_out else no_permission
state_of _ = no_permission

abbrev pub surface : Option ApiError → Local → Local × List Effect
surface none s = (s, [])
surface (some e) s = reflect_error e s

abbrev pub auth_after : Option ApiError → Local → AuthState
auth_after none s = s.auth_state
auth_after (some e) s = state_of e.status

unfoldable pub take_snapshot : Server → Local → Local × List Effect × Reply Answer
take_snapshot server s =
    let (s', boom) = boom_scores server.now server.boom s in
    let denied =
      first_of_two (denial (error_of server.quotes))
        (first_of_two (denial (error_of boom)) (denial (error_of server.page))) in
    let (s'', effects) = surface denied s' in
    (
      s'',
      effects,
      ok (
          snapshot_of (record {
            quotes = value_of server.quotes;
            boom = value_of boom;
            alerts = value_of server.page;
            auth_state = auth_after denied s';
            error =
                first_of_two (message_of (error_of server.quotes))
                  (message_of (error_of server.page));
          })),
    )

-- `scores[row.ticker] = row` for the rows that are wanted: the last row of a ticker stays.
unfoldable pub wanted : List String → List Score → Object Score
wanted tickers [] = no_keys
wanted tickers (row ∷ rows) =
    spread (if contains row.ticker tickers then entry row.ticker row else no_keys)
      (wanted tickers rows)

-- `handle(msg)`; the tickers of `scores` are in upper case.
unfoldable pub handle : Server → Settings → Msg → Local → Local × List Effect × Reply Answer
handle server settings (scores tickers) s =
    let (s', reply) = boom_scores server.now server.boom s in
    (s', [], elim reply [ err e ↦ err e | ok rows ↦ ok (score_rows (wanted tickers rows)) ])
handle server settings symbols s =
    let (s', reply) = symbols_of server.now server.names s in
    (s', [], ok (symbol_names (value_of reply)))
handle server settings (analyze ticker) s =
    (s, [], elim (server.analysis ticker) [ err e ↦ err e | ok a ↦ ok (payload a) ])
handle server settings (add_watch ticker) s =
    (s, [], elim (server.watched ticker) [ err e ↦ err e | ok a ↦ ok (payload a) ])
handle server settings (open_ticker ticker) s = elim settings.api_base [
  | none ↦ (s, [], ok (opened false))
  | some base ↦ (s, open_tab (server.stock_url base ticker) ∷ [], ok (opened true))
]
handle server settings (site_enabled host) s = (s, [], ok (enabled (settings.is_enabled host)))
handle server settings snapshot s = take_snapshot server s
handle server settings mark_read s = elim server.marked [
  | err e ↦ (s, [], err e)
  | ok page ↦ (
    record s { cached_alerts = some page },
    badge (badge_text page.unread) ∷ [],
    ok (page_of page),
  )
]
handle server settings poll_now s =
    let (s', effects) = poll server.now settings server.page s in (s', effects, ok polled)
handle server settings other s = (s, [], fail Message.unknown_message network)
