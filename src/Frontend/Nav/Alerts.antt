-- ===== src/Frontend/Nav/Alerts.antt =====
-- The links that the desktop's notifications open, as the application reads them.
use stock_dashboard.Prelude.{
  ℕ, ◌≡◌, refl, ap, ◌∙◌, Bool, true, false, Option, none, some, List, [], ◌∷◌, ◌++◌, arith,
  if◌then◌else◌, get_elem?,
}
use stock_dashboard.Desktop.Window.{codes, same_codes}
use stock_dashboard.Desktop.Poller.Click.{
  every_symbol_char, is_symbol, parts, ticker_from_key, clicked_path,
}
use stock_dashboard.Frontend.Nav.{
  Location, Platform, stock, every, is_ticker_char, is_ticker, upper, parse_route, view_or_none,
  truthy,
}
use stock_dashboard.Frontend.Nav.Paths.{path, is_plain, AllPlain}
use stock_dashboard.Frontend.Nav.Laws.{IsPlatform, parse_located, parse_stock, stock_path}

abbrev pub alert_query : Platform → List ℕ → List ℕ
alert_query p key = codes "?alert=" ++ p.encode key

-- The platform's documented behaviour for a location whose search is one encoded parameter: the path
-- stays, and the parameter is decoded, however the location writes it.
pub record IsAlertPlatform (p : Platform) : Type 0 where
  pub routes : IsPlatform p
  pub path_alert :
      (ss : List (List ℕ)) (key : List ℕ)
      → AllPlain ss
      → (p.locate (path ss ++ alert_query p key)).pathname ≡ path ss
  pub search_alert :
      (ss : List (List ℕ)) (key k : List ℕ)
      → AllPlain ss
      → p.get (p.locate (path ss ++ alert_query p key)).search k
        ≡ (if same_codes k (codes "alert") then some key else none)

symbol-ticker :
    (t : List ℕ) → every_symbol_char t ≡ true → (every is_ticker_char t ≡ true) × (upper t ≡ t)
symbol-ticker [] h = (refl, refl)
symbol-ticker (c ∷ cs) h = go (symbol-ticker cs (ground (arith, h)))
  where
    go :
        (every is_ticker_char cs ≡ true) × (upper cs ≡ cs)
        → (every is_ticker_char (c ∷ cs) ≡ true) × (upper (c ∷ cs) ≡ c ∷ cs)
    go (e, u) = (ground (arith, h, e), ground (arith, h, u))

found_symbol :
    (o : Option (List ℕ)) (ticker : List ℕ)
    → elim o as (λ o. Option (List ℕ)) [
      | none ↦ none
      | some candidate ↦ if is_symbol candidate then some candidate else none
    ]
      ≡ some ticker
    → is_symbol ticker ≡ true
found_symbol none ticker e = absurd (cc)
found_symbol (some candidate) ticker e = go (is_symbol candidate) refl e
  where
    go :
        (b : Bool)
        → is_symbol candidate ≡ b
        → (if b then some candidate else none) ≡ some ticker
        → is_symbol ticker ≡ true
    go true q e = ap is_symbol {x = ticker} {y = candidate} (cc) ∙ q
    go false q e = absurd (cc)

ticker_from_key-symbol :
    (key ticker : List ℕ) → ticker_from_key key ≡ some ticker → is_symbol ticker ≡ true
unfolding ticker_from_key
ticker_from_key-symbol key ticker e = found_symbol (get_elem? (parts key) 1) ticker e

-- The link of an alert with a ticker that is not a dot segment leads to the page of that ticker with
-- the alert's key, as the poller wrote it.
pub parse_route-clicked_path :
    (p : Platform)
    → IsAlertPlatform p
    → (key ticker : List ℕ) → ticker_from_key key ≡ some ticker
    → is_plain ticker ≡ true
    → parse_route p (p.locate (clicked_path p.encode key)) ≡ some (stock ticker (some key) none)
unfolding clicked_path
parse_route-clicked_path p law key ticker e plain =
    ap (λ o. parse_route p (p.locate (opened o))) e
    ∙ ap (λ l. parse_route p (p.locate l)) written
    ∙ parse_located p law.routes ss here all_plain (law.path_alert ss key all_plain)
    ∙ parse_stock p law.routes ticker here.search is_stock
    ∙ ap some (
        ap
          (λ t.
            stock t (p.get here.search (codes "alert")) (from (p.get here.search (codes "from"))))
          (symbol-ticker ticker symbols).1
        ∙ ap (λ a. stock ticker a (from (p.get here.search (codes "from"))))
            (law.search_alert ss key (codes "alert") all_plain)
        ∙ ap (λ f. stock ticker (some key) (from f))
            (law.search_alert ss key (codes "from") all_plain))
  where
    opened : Option (List ℕ) → List ℕ
    opened o = elim o [ none ↦ codes "/" | some t ↦ codes "/stock/" ++ t ++ alert_query p key ]

    from : Option (List ℕ) → Option (List ℕ)
    from o = view_or_none (truthy o)

    ss : List (List ℕ)
    ss = codes "stock" ∷ ticker ∷ []

    here : Location
    here = p.locate (path ss ++ alert_query p key)

    all_plain : AllPlain ss
    all_plain = (refl, (plain, tt))

    written : codes "/stock/" ++ ticker ++ alert_query p key ≡ path ss ++ alert_query p key
    written = stock_path p law.routes ticker (alert_query p key)

    symbols : every_symbol_char ticker ≡ true
    symbols = ground (arith, ticker_from_key-symbol key ticker e)

    is_stock : is_ticker ticker ≡ true
    is_stock = ground (arith, ticker_from_key-symbol key ticker e, (symbol-ticker ticker symbols).0)
