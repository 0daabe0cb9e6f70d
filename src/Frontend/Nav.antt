-- ===== src/Frontend/Nav.antt =====
-- frontend/src/lib/nav.js and routes.js: routes as paths of the History API. Texts are lists of
-- character codes, without lone surrogates.
pub mod Paths
pub mod Laws
pub mod Alerts
mod Tests
use stock_dashboard.Prelude.{
  ℕ, ◌+◌, ◌-◌, String, Bool, true, false, not, ◌&&◌, ◌||◌, Option, none, some, List, [], ◌∷◌, ◌++◌,
  map, leb, ◌==◌, if◌then◌else◌, length, filter, any,
}
use stock_dashboard.Desktop.Window.{codes, same_codes, strip_prefix}

abbrev pub views : List String
views =
    "sentiment" ∷ "overview" ∷ "contracts" ∷ "trades" ∷ "news" ∷ "watchlist" ∷ "yield-curve"
    ∷ "econ-calendar" ∷ "signals" ∷ "fear-greed" ∷ "congress" ∷ "investors" ∷ "boom-score" ∷ "short"
    ∷ "social" ∷ "analyst" ∷ "fundamentals" ∷ "seasonality" ∷ "suggestions" ∷ "suggestion-history"
    ∷ "portfolio" ∷ "trading-bot" ∷ "x" ∷ "earnings" ∷ "info" ∷ "settings" ∷ "server" ∷ []

abbrev pub view_keys : List (List ℕ)
view_keys = map codes views

abbrev pub default_view : List ℕ
default_view = codes "sentiment"

abbrev pub is_view_key : List ℕ → Bool
is_view_key key = any (λ k. same_codes key k) view_keys

abbrev pub is_nil : List ℕ → Bool
is_nil [] = true
is_nil (c ∷ cs) = false

-- `[A-Za-z0-9.-]`
abbrev pub is_ticker_char : ℕ → Bool
is_ticker_char c =
    (leb b'A' c && leb c b'Z')
    || (leb b'a' c && leb c b'z')
    || (leb b'0' c && leb c b'9')
    || c == b'.'
    || c == b'-'

abbrev pub every : (ℕ → Bool) → List ℕ → Bool
every p [] = true
every p (c ∷ cs) = p c && every p cs

-- `TICKER_RE.test`
abbrev pub is_ticker : List ℕ → Bool
is_ticker t = every is_ticker_char t && leb 1 (length t) && leb (length t) 10

-- `toUpperCase` of a ticker
abbrev pub upper : List ℕ → List ℕ
upper t = map (λ c. if leb b'a' c && leb c b'z' then c - 32 else c) t

abbrev pub slash : ℕ
slash = b'/'

abbrev pub question : ℕ
question = b'?'

abbrev pub onto_first : ℕ → List (List ℕ) → List (List ℕ)
onto_first c [] = (c ∷ []) ∷ []
onto_first c (s ∷ ss) = (c ∷ s) ∷ ss

-- `pathname.split("/")`, and `.filter(Boolean)` after it
abbrev pub split : List ℕ → List (List ℕ)
split [] = [] ∷ []
split (c ∷ cs) = if c == slash then [] ∷ split cs else onto_first c (split cs)

abbrev pub segments : List ℕ → List (List ℕ)
segments pathname = filter (λ s. not (is_nil s)) (split pathname)

pub record Location : Type 0 where
  pub pathname : List ℕ
  pub search : List ℕ

-- What the platform offers: `decodeURIComponent`, which may throw, `encodeURIComponent`, `get` of
-- the `URLSearchParams` of a search, `toString` of one that was set, and the location after
-- `pushState` with a path.
pub record Platform : Type 0 where
  pub decode : List ℕ → Option (List ℕ)
  pub encode : List ℕ → List ℕ
  pub get : List ℕ → List ℕ → Option (List ℕ)
  pub to_string : List (List ℕ × List ℕ) → List ℕ
  pub locate : List ℕ → Location

pub data Route : Type 0 where
  -- the ticker, `alertKey` and `from`
  stock : List ℕ → Option (List ℕ) → Option (List ℕ) → Route
  -- the view, `known` and `tab`
  view : List ℕ → Bool → Option (List ℕ) → Route

-- A text that counts as true.
abbrev pub truthy : Option (List ℕ) → Option (List ℕ)
truthy none = none
truthy (some t) = if is_nil t then none else some t

abbrev pub view_or_none : Option (List ℕ) → Option (List ℕ)
view_or_none none = none
view_or_none (some from) = if is_view_key from then some from else none

abbrev pub params_of : Option (List ℕ) → Option (List ℕ) → List (List ℕ × List ℕ)
params_of none none = []
params_of none (some from) = (codes "from", from) ∷ []
params_of (some alert) none = (codes "alert", alert) ∷ []
params_of (some alert) (some from) = (codes "alert", alert) ∷ (codes "from", from) ∷ []

module _ (p : Platform) where
  abbrev pub view_route : List ℕ → List ℕ → Route
  view_route first search =
      view (if is_view_key first then first else default_view) (is_view_key first)
        (p.get search (codes "tab"))

  abbrev pub stock_route : List ℕ → List ℕ → Route
  stock_route raw search =
      stock (upper raw) (p.get search (codes "alert"))
        (view_or_none (truthy (p.get search (codes "from"))))

  abbrev pub parse_segments : List (List ℕ) → List ℕ → Option Route
  parse_segments [] search = some (view default_view true (p.get search (codes "tab")))
  parse_segments (first ∷ []) search = some (view_route first search)
  parse_segments (first ∷ second ∷ rest) search =
      if same_codes first (codes "stock")
      then elim (p.decode second) [
        | none ↦ none
        | some raw ↦
            some (if is_ticker raw then stock_route raw search else view_route first search)
      ]
      else some (view_route first search)

  -- `parseRoute`; none when it throws
  unfoldable pub parse_route : Location → Option Route
  parse_route here = parse_segments (segments here.pathname) here.search

  abbrev pub query : List ℕ → List ℕ
  query q = if is_nil q then [] else question ∷ q

  abbrev pub tab_query : Option (List ℕ) → List ℕ
  tab_query none = []
  tab_query (some tab) = codes "?tab=" ++ p.encode tab

  unfoldable pub route_to_path : Route → List ℕ
  route_to_path (stock ticker alert from) =
      codes "/stock/"
      ++ p.encode ticker
      ++ query (p.to_string (params_of (truthy alert) (truthy from)))
  route_to_path (view key known tab) =
      (if same_codes key default_view then slash ∷ [] else slash ∷ key) ++ tab_query (truthy tab)

pub record Tab : Type 0 where
  pub here : Location
  -- the history behind it
  pub back : List Location
  -- how often `NAV_EVENT` was dispatched
  pub navigated : ℕ
  -- `window.close()` was called
  pub closing : Bool

module _ (p : Platform) where
  unfoldable pub navigate_to : Route → Bool → Tab → Tab
  unfolding route_to_path
  navigate_to route replace tab =
      let path = route_to_path p route in
      if same_codes path (tab.here.pathname ++ tab.here.search)
      then tab
      else if replace
      then record tab { here = p.locate path; navigated = tab.navigated + 1 }
      else record tab {
        here = p.locate path;
        back = tab.here ∷ tab.back;
        navigated = tab.navigated + 1;
      }

  -- `leaveStock`, up to its timer, and the timer, which runs where the tab could not be closed
  unfoldable pub leave_stock : Option (List ℕ) → Tab → Tab
  unfolding navigate_to
  leave_stock from tab = elim (view_or_none (truthy from)) [
    | none ↦ record tab { closing = true }
    | some key ↦ navigate_to (view key true none) true tab
  ]

  abbrev pub close_refused : Route → Tab → Tab
  close_refused fallback tab = navigate_to fallback true tab

  -- `migrateHashUrl`, given the location's hash
  unfoldable pub migrate_hash_url : List ℕ → Tab → Tab × Bool
  unfolding route_to_path
  migrate_hash_url hash tab = elim (strip_prefix (codes "#/stock/") hash) [
    | none ↦ (tab, false)
    | some ticker ↦
        if is_ticker ticker
        then (
          record tab { here = p.locate (route_to_path p (stock (upper ticker) none none)) },
          true,
        )
        else (tab, false)
  ]
