-- ===== src/Frontend/Nav/Tests.antt =====
-- A platform that keeps the laws, by an encoding of its own, and the routes' theorems on it.
use stock_dashboard.Prelude.{
  ℕ, zero, suc, ◌≡◌, refl, sym, ap, ◌∙◌, true, false, Option, none, some, List, [], ◌∷◌, ◌++◌,
  arith, ◌==◌, if◌then◌else◌, length,
}
use mathlib.Core.List.{append-nil}
use stock_dashboard.Desktop.Window.{codes, same_codes, strip_prefix}
use stock_dashboard.Frontend.Nav.{
  Location, Platform, Route, stock, question, slash, Tab, parse_route, every, is_ticker_char,
}
use stock_dashboard.Frontend.Nav.Paths.{slashes, path, AllPlain}
use stock_dashboard.Desktop.Poller.Click.{clicked_path, ticker_from_key}
use stock_dashboard.Frontend.Nav.Alerts.{IsAlertPlatform, parse_route-clicked_path}
use stock_dashboard.Frontend.Nav.Laws.{value_of, IsPlatform}

-- Each character after a 1, and a 0 at the end.
abbrev encoded : List ℕ → List ℕ
encoded [] = 0 ∷ []
encoded (c ∷ cs) = 1 ∷ c ∷ encoded cs

abbrev take_text : List ℕ → List ℕ × List ℕ
take_text [] = ([], [])
take_text (zero ∷ s) = ([], s)
take_text (suc n ∷ []) = ([], [])
take_text (suc n ∷ c ∷ s) = let (t, rest) = take_text s in (c ∷ t, rest)

abbrev body : List (List ℕ × List ℕ) → List ℕ
body [] = []
body (x ∷ xs) = encoded x.0 ++ (encoded x.1 ++ body xs)

abbrev to_string : List (List ℕ × List ℕ) → List ℕ
to_string [] = []
to_string (x ∷ xs) = 0 ∷ length xs ∷ body (x ∷ xs)

abbrev lookup : ℕ → List ℕ → List ℕ → Option (List ℕ)
lookup zero s k = none
lookup (suc n) s k =
    let name = take_text s in
    let value = take_text name.1 in if same_codes name.0 k then some value.0 else lookup n value.1 k

abbrev counted : List ℕ → List ℕ → Option (List ℕ)
counted [] k = none
counted (n ∷ s) k = lookup (suc n) s k

abbrev get : List ℕ → List ℕ → Option (List ℕ)
get s k = elim (strip_prefix (question ∷ 0 ∷ []) s) [
  | some rest ↦ counted rest k
  | none ↦ elim (strip_prefix (codes "?tab=") s) [
    | some t ↦ if same_codes k (codes "tab") then some t else none
    | none ↦ elim (strip_prefix (codes "?alert=") s) [
      | some t ↦ if same_codes k (codes "alert") then some t else none
      | none ↦ none
    ]
  ]
]

abbrev onto_path : ℕ → Location → Location
onto_path c l = record l { pathname = c ∷ l.pathname }

abbrev locate : List ℕ → Location
locate [] = record { pathname = []; search = [] }
locate (c ∷ cs) =
    let rest = locate cs in
    if c == question then record { pathname = []; search = c ∷ cs } else onto_path c rest

abbrev platform : Platform
platform = record {
  decode = λ t. some t;
  encode = λ t. t;
  get = get;
  to_string = to_string;
  locate = locate;
}

take_text-encoded : (t s : List ℕ) → take_text (encoded t ++ s) ≡ (t, s)
take_text-encoded [] s = refl
take_text-encoded (c ∷ cs) s = ap (λ r. (c ∷ r.0, r.1)) (take_text-encoded cs s)

lookup-body :
    (k : List ℕ) (xs : List (List ℕ × List ℕ)) → lookup (length xs) (body xs) k ≡ value_of k xs
lookup-body k [] = refl
lookup-body k (x ∷ xs) =
    ap (λ r. one r.0 (take_text r.1)) (take_text-encoded x.0 (encoded x.1 ++ body xs))
    ∙ ap (one x.0) (take_text-encoded x.1 (body xs))
    ∙ ap (λ o. if same_codes x.0 k then some x.1 else o) (lookup-body k xs)
  where
    one : List ℕ → List ℕ × List ℕ → Option (List ℕ)
    one name value = if same_codes name k then some value.0 else lookup (length xs) value.1 k

-- What stands before a question mark.
IsPath : List ℕ → Type 0
IsPath s =
    (q : List ℕ) → locate (s ++ q) ≡ record (locate q) { pathname = s ++ (locate q).pathname }

locate-plain :
    (s : List ℕ) (rest : List ℕ) → every is_ticker_char s ≡ true → IsPath rest → IsPath (s ++ rest)
unfolding IsPath
locate-plain [] rest h r = r
locate-plain (c ∷ cs) rest h r = λ q.
    ap
      (λ b.
        if b
        then record { pathname = []; search = c ∷ cs ++ rest ++ q }
        else onto_path c (locate (cs ++ rest ++ q)))
      {x = c == question} {y = false} (ground (arith, h))
    ∙ ap (onto_path c) (locate-plain cs rest (ground (arith, h)) r q)

locate-slashes : (ss : List (List ℕ)) → AllPlain ss → IsPath (slashes ss)
unfolding IsPath
locate-slashes [] h = λ q. refl
locate-slashes (s ∷ ss) h = λ q.
    ap (onto_path slash)
      (locate-plain s (slashes ss) (ground (arith, h.0)) (locate-slashes ss h.1) q)

locate-path :
    (ss : List (List ℕ))
    → AllPlain ss
    → (q : List ℕ)
    → locate (path ss ++ question ∷ q) ≡ record { pathname = path ss; search = question ∷ q }
unfolding IsPath
locate-path [] h q = refl
locate-path (s ∷ ss) h q =
    locate-slashes (s ∷ ss) h (question ∷ q)
    ∙ ap (λ t. record { pathname = t; search = question ∷ q }) (append-nil (slashes (s ∷ ss)))

locate-path_alone :
    (ss : List (List ℕ))
    → AllPlain ss
    → locate (path ss) ≡ record { pathname = path ss; search = [] }
unfolding IsPath
locate-path_alone [] h = refl
locate-path_alone (s ∷ ss) h =
    ap locate (sym (append-nil (slashes (s ∷ ss))))
    ∙ locate-slashes (s ∷ ss) h []
    ∙ ap (λ t. record { pathname = t; search = [] }) (append-nil (slashes (s ∷ ss)))

platform-IsPlatform : IsPlatform platform
platform-IsPlatform = record {
  decode_plain = λ t h. refl;
  encode_plain = λ t h. refl;
  no_params = refl;
  some_params = λ x xs. refl;
  get_none = λ k. refl;
  get_params = λ k x xs. lookup-body k (x ∷ xs);
  locate_path = locate-path_alone;
  locate_params = λ ss x xs h. locate-path ss h (0 ∷ length xs ∷ body (x ∷ xs));
  path_tab = λ ss t h. ap (λ (l : Location). l.pathname) (locate-path ss h (codes "tab=" ++ t));
  search_tab = λ ss t h.
      ap (λ (l : Location). get l.search (codes "tab")) (locate-path ss h (codes "tab=" ++ t));
}

abbrev berkshire : Route
berkshire = stock (codes "BRK.B") (some (codes "rsi:low")) (some (codes "watchlist"))

abbrev at_home : Tab
at_home = record {
  here = record { pathname = slash ∷ []; search = [] };
  back = [];
  navigated = 0;
  closing = false;
}

platform-IsAlertPlatform : IsAlertPlatform platform
platform-IsAlertPlatform = record {
  routes = platform-IsPlatform;
  path_alert =
      λ ss key h. ap (λ (l : Location). l.pathname) (locate-path ss h (codes "alert=" ++ key));
  search_alert = λ ss key k h.
      ap (λ (l : Location). get l.search k) (locate-path ss h (codes "alert=" ++ key));
}

abbrev alert_key : List ℕ
alert_key = codes "price|NVDA|2025-01-02"

key_found : ticker_from_key alert_key ≡ some (codes "NVDA")
unfolding ticker_from_key
key_found = refl

parse_route-clicked_path_example :
    parse_route platform (locate (clicked_path (λ t. t) alert_key))
    ≡ some (stock (codes "NVDA") (some alert_key) none)
parse_route-clicked_path_example =
    parse_route-clicked_path platform platform-IsAlertPlatform alert_key (codes "NVDA") key_found
      refl
