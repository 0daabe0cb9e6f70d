-- ===== src/Frontend/Nav/Laws.antt =====
-- A route that is printed as a path is read back from the location.
use stock_dashboard.Prelude.{
  ℕ, ◌≡◌, refl, sym, ap, ◌∙◌, Bool, true, false, Option, none, some, List, [], ◌∷◌, ◌++◌, arith,
  if◌then◌else◌,
}
use mathlib.Core.Bool.{true≢false}
use mathlib.Core.List.{append-nil}
use stock_dashboard.Desktop.Window.{codes, same_codes}
use stock_dashboard.Frontend.Nav.{
  Location, view_keys, default_view, is_view_key, is_nil, is_ticker_char, every, is_ticker, upper,
  slash, question, Platform, Route, stock, view, truthy, view_or_none, params_of, view_route,
  stock_route, parse_segments, parse_route, query, tab_query, route_to_path, Tab, migrate_hash_url,
}
use stock_dashboard.Frontend.Nav.Paths.{
  path, is_plain, AllPlain, segments-path, any_plain, same_codes_eq, upper-upper, upper-is_ticker,
}

abbrev pub value_of : List ℕ → List (List ℕ × List ℕ) → Option (List ℕ)
value_of k [] = none
value_of k (x ∷ xs) = if same_codes x.0 k then some x.1 else value_of k xs

-- The platform's documented behaviour, as far as routes need it.
pub record IsPlatform (p : Platform) : Type 0 where
  pub decode_plain : (t : List ℕ) → every is_ticker_char t ≡ true → p.decode t ≡ some t
  pub encode_plain : (t : List ℕ) → every is_ticker_char t ≡ true → p.encode t ≡ t
  pub no_params : p.to_string [] ≡ []
  pub some_params :
      (x : List ℕ × List ℕ) (xs : List (List ℕ × List ℕ)) → is_nil (p.to_string (x ∷ xs)) ≡ false
  pub get_none : (k : List ℕ) → p.get [] k ≡ none
  pub get_params :
      (k : List ℕ) (x : List ℕ × List ℕ) (xs : List (List ℕ × List ℕ))
      → p.get (question ∷ p.to_string (x ∷ xs)) k ≡ value_of k (x ∷ xs)
  pub locate_path :
      (ss : List (List ℕ))
      → AllPlain ss
      → p.locate (path ss) ≡ record { pathname = path ss; search = [] }
  pub locate_params :
      (ss : List (List ℕ)) (x : List ℕ × List ℕ) (xs : List (List ℕ × List ℕ))
      → AllPlain ss
      → p.locate (path ss ++ question ∷ p.to_string (x ∷ xs))
        ≡ record { pathname = path ss; search = question ∷ p.to_string (x ∷ xs) }
  -- The search of a location may escape more than `encodeURIComponent` did, such as an apostrophe; it
  -- is decoded all the same.
  pub path_tab :
      (ss : List (List ℕ)) (t : List ℕ)
      → AllPlain ss
      → (p.locate (path ss ++ tab_query p (some t))).pathname ≡ path ss
  pub search_tab :
      (ss : List (List ℕ)) (t : List ℕ)
      → AllPlain ss
      → p.get (p.locate (path ss ++ tab_query p (some t))).search (codes "tab") ≡ some t

-- What `parseRoute` gives and `routeToPath` takes: a ticker in upper case that is not a dot segment,
-- with texts that are not empty and a view that is known.
abbrev pub IsRoute : Route → Type 0
IsRoute (stock ticker alert from) =
    (is_ticker ticker ≡ true)
    × (is_plain ticker ≡ true)
    × (upper ticker ≡ ticker)
    × (truthy alert ≡ alert)
    × (truthy from ≡ from)
    × (view_or_none from ≡ from)
IsRoute (view key known tab) = (is_view_key key ≡ true) × (known ≡ true) × (truthy tab ≡ tab)

module _ (p : Platform) (law : IsPlatform p) where
  query_none : query p (p.to_string []) ≡ []
  query_none = ap (query p) law.no_params

  query_some :
      (x : List ℕ × List ℕ) (xs : List (List ℕ × List ℕ))
      → query p (p.to_string (x ∷ xs)) ≡ question ∷ p.to_string (x ∷ xs)
  query_some x xs =
      ap (λ b. if b then [] else question ∷ p.to_string (x ∷ xs)) (law.some_params x xs)

  locate_query :
      (ss : List (List ℕ)) (params : List (List ℕ × List ℕ))
      → AllPlain ss
      → p.locate (path ss ++ query p (p.to_string params))
        ≡ record { pathname = path ss; search = query p (p.to_string params) }
  locate_query ss [] h = rw (query_none, append-nil (path ss)) (law.locate_path ss h)
  locate_query ss (x ∷ xs) h = rw (query_some x xs) (law.locate_params ss x xs h)

  get_query :
      (k : List ℕ) (params : List (List ℕ × List ℕ))
      → p.get (query p (p.to_string params)) k ≡ value_of k params
  get_query k [] = ap (λ q. p.get q k) query_none ∙ law.get_none k
  get_query k (x ∷ xs) = ap (λ q. p.get q k) (query_some x xs) ∙ law.get_params k x xs

  value_of_alert :
      (alert from : Option (List ℕ)) → value_of (codes "alert") (params_of alert from) ≡ alert
  value_of_alert none none = refl
  value_of_alert none (some from) = refl
  value_of_alert (some alert) none = refl
  value_of_alert (some alert) (some from) = refl

  value_of_from :
      (alert from : Option (List ℕ)) → value_of (codes "from") (params_of alert from) ≡ from
  value_of_from none none = refl
  value_of_from none (some from) = refl
  value_of_from (some alert) none = refl
  value_of_from (some alert) (some from) = refl

  path_of_tab :
      (ss : List (List ℕ)) (tab : Option (List ℕ))
      → AllPlain ss
      → (p.locate (path ss ++ tab_query p tab)).pathname ≡ path ss
  path_of_tab ss none h =
      ap (λ q. (p.locate q).pathname) (append-nil (path ss))
      ∙ ap (λ (l : Location). l.pathname) (law.locate_path ss h)
  path_of_tab ss (some tab) h = law.path_tab ss tab h

  search_of_tab :
      (ss : List (List ℕ)) (tab : Option (List ℕ))
      → AllPlain ss
      → p.get (p.locate (path ss ++ tab_query p tab)).search (codes "tab") ≡ tab
  search_of_tab ss none h =
      ap (λ q. p.get (p.locate q).search (codes "tab")) (append-nil (path ss))
      ∙ ap (λ (l : Location). p.get l.search (codes "tab")) (law.locate_path ss h)
      ∙ law.get_none (codes "tab")
  search_of_tab ss (some tab) h = law.search_tab ss tab h

  -- A location of plain segments is parsed by them.
  pub parse_path :
      (ss : List (List ℕ)) (search : List ℕ)
      → AllPlain ss
      → parse_route p (record { pathname = path ss; search = search }) ≡ parse_segments p ss search
  unfolding parse_route
  parse_path ss search h = ap (λ xs. parse_segments p xs search) (segments-path ss h)

  pub parse_located :
      (ss : List (List ℕ)) (l : Location)
      → AllPlain ss
      → l.pathname ≡ path ss
      → parse_route p l ≡ parse_segments p ss l.search
  parse_located ss l h e =
      ap (λ t. parse_route p (record { pathname = t; search = l.search })) e
      ∙ parse_path ss l.search h

  pub stock_path :
      (ticker q : List ℕ) → codes "/stock/" ++ ticker ++ q ≡ path (codes "stock" ∷ ticker ∷ []) ++ q
  stock_path ticker q = ap (λ t. codes "/stock/" ++ t ++ q) (sym (append-nil ticker))

  pub parse_stock :
      (ticker search : List ℕ)
      → is_ticker ticker ≡ true
      → parse_segments p (codes "stock" ∷ ticker ∷ []) search ≡ some (stock_route p ticker search)
  parse_stock ticker search t =
      ap
        (λ o. elim o as (λ o. Option Route) [
          | none ↦ none
          | some raw ↦ some (
              if is_ticker raw
              then stock_route p raw search
              else view_route p (codes "stock") search)
        ])
        (law.decode_plain ticker (ground (arith, t)))
      ∙ ap
          (λ b.
            some (if b then stock_route p ticker search else view_route p (codes "stock") search))
          t

  parse_view :
      (key search : List ℕ)
      → is_view_key key ≡ true
      → parse_segments p (key ∷ []) search ≡ some (view key true (p.get search (codes "tab")))
  parse_view key search k = rw k refl

  printed_stock :
      (ticker : List ℕ) (alert from : Option (List ℕ))
      → IsRoute (stock ticker alert from)
      → route_to_path p (stock ticker alert from)
        ≡ path (codes "stock" ∷ ticker ∷ []) ++ query p (p.to_string (params_of alert from))
  unfolding route_to_path
  printed_stock ticker alert from (t, plain, up, a, f, v) =
      ap
        (λ e.
          codes "/stock/" ++ e ++ query p (p.to_string (params_of (truthy alert) (truthy from))))
        (law.encode_plain ticker (ground (arith, t)))
      ∙ ap (λ x. codes "/stock/" ++ ticker ++ query p (p.to_string (params_of x (truthy from)))) a
      ∙ ap (λ x. codes "/stock/" ++ ticker ++ query p (p.to_string (params_of alert x))) f
      ∙ stock_path ticker (query p (p.to_string (params_of alert from)))

  abbrev view_segments : List ℕ → List (List ℕ)
  view_segments key = if same_codes key default_view then [] else key ∷ []

  printed_view :
      (key : List ℕ) (known : Bool) (tab : Option (List ℕ))
      → truthy tab ≡ tab
      → route_to_path p (view key known tab) ≡ path (view_segments key) ++ tab_query p tab
  unfolding route_to_path
  printed_view key known tab t =
      ap (λ x. (if same_codes key default_view then slash ∷ [] else slash ∷ key) ++ tab_query p x) t
      ∙ go (same_codes key default_view)
    where
      go :
          (b : Bool)
          → (if b then slash ∷ [] else slash ∷ key) ++ tab_query p tab
            ≡ path (if b then [] else key ∷ []) ++ tab_query p tab
      go true = refl
      go false = ap (λ k. (slash ∷ k) ++ tab_query p tab) (sym (append-nil key))

  view-plain : (key : List ℕ) → is_view_key key ≡ true → AllPlain (view_segments key)
  view-plain key k = go (same_codes key default_view)
    where
      go : (b : Bool) → AllPlain (if b then [] else key ∷ [])
      go true = tt
      go false = (any_plain key view_keys refl k, tt)

  parse_view_segments :
      (key search : List ℕ)
      → is_view_key key ≡ true
      → parse_segments p (view_segments key) search
        ≡ some (view key true (p.get search (codes "tab")))
  parse_view_segments key search k = go (same_codes key default_view) refl
    where
      go :
          (b : Bool)
          → same_codes key default_view ≡ b
          → parse_segments p (if b then [] else key ∷ []) search
            ≡ some (view key true (p.get search (codes "tab")))
      go true q =
          ap (λ v. some (view v true (p.get search (codes "tab"))))
            (sym (same_codes_eq key default_view q))
      go false q = parse_view key search k

  pub parse_route-route_to_path :
      (r : Route) → IsRoute r → parse_route p (p.locate (route_to_path p r)) ≡ some r
  parse_route-route_to_path (stock ticker alert from) (t, plain, up, a, f, v) =
      ap (λ l. parse_route p (p.locate l)) (printed_stock ticker alert from (t, plain, up, a, f, v))
      ∙ ap (parse_route p) (locate_query ss (params_of alert from) all_plain)
      ∙ parse_path ss search all_plain
      ∙ parse_stock ticker search t
      ∙ ap some (
          ap
            (λ u.
              stock u (p.get search (codes "alert"))
                (view_or_none (truthy (p.get search (codes "from")))))
            up
          ∙ ap (λ x. stock ticker x (view_or_none (truthy (p.get search (codes "from")))))
              (get_query (codes "alert") (params_of alert from) ∙ value_of_alert alert from)
          ∙ ap (λ x. stock ticker alert (view_or_none (truthy x)))
              (get_query (codes "from") (params_of alert from) ∙ value_of_from alert from)
          ∙ ap (λ x. stock ticker alert (view_or_none x)) f
          ∙ ap (stock ticker alert) v)
    where
      ss : List (List ℕ)
      ss = codes "stock" ∷ ticker ∷ []

      all_plain : AllPlain ss
      all_plain = (refl, (plain, tt))

      search : List ℕ
      search = query p (p.to_string (params_of alert from))
  parse_route-route_to_path (view key known tab) (k, n, t) =
      ap (λ l. parse_route p (p.locate l)) (printed_view key known tab t)
      ∙ parse_located (view_segments key) here (view-plain key k)
          (path_of_tab (view_segments key) tab (view-plain key k))
      ∙ parse_view_segments key here.search k
      ∙ ap (λ x. some (view key true x)) (search_of_tab (view_segments key) tab (view-plain key k))
      ∙ ap (λ b. some (view key b tab)) (sym n)
    where
      here : Location
      here = p.locate (path (view_segments key) ++ tab_query p tab)

  -- An old bookmark with a hash leads to its stock: the location it is rewritten to is read as the
  -- page of its ticker, in upper case, in a tab of its own.
  pub parse_route-migrate_hash_url :
      (t : List ℕ) (tab : Tab)
      → is_ticker t ≡ true
      → is_plain (upper t) ≡ true
      → parse_route p (migrate_hash_url p (codes "#/stock/" ++ t) tab).0.here
        ≡ some (stock (upper t) none none)
  unfolding migrate_hash_url
  parse_route-migrate_hash_url t tab h plain =
      ap (λ r. parse_route p r.0.here) (rewritten (is_ticker t) h)
      ∙ parse_route-route_to_path (stock (upper t) none none)
          (upper-is_ticker t h, plain, upper-upper t, refl, refl, refl)
    where
      moved : Tab × Bool
      moved = (record tab { here = p.locate (route_to_path p (stock (upper t) none none)) }, true)

      rewritten : (b : Bool) → b ≡ true → (if b then moved else (tab, false)) ≡ moved
      rewritten true e = refl
      rewritten false e = absurd (true≢false (sym e))
