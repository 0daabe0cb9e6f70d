-- ===== src/Desktop/Poller/Click.antt =====
-- desktop/src/alerts/seen.js and poller.js: the link that a click on an alert's notification opens.
use stock_dashboard.Prelude.{
  ℕ, Bool, true, ◌&&◌, ◌||◌, Option, none, some, List, [], ◌∷◌, ◌++◌, leb, ◌==◌, if◌then◌else◌,
  length, get_elem?,
}
use stock_dashboard.Desktop.Window.{codes}

-- `key.split("|")`
abbrev pub onto_part : ℕ → List (List ℕ) → List (List ℕ)
onto_part c [] = (c ∷ []) ∷ []
onto_part c (s ∷ ss) = (c ∷ s) ∷ ss

abbrev pub parts : List ℕ → List (List ℕ)
parts [] = [] ∷ []
parts (c ∷ cs) = if c == b'|' then [] ∷ parts cs else onto_part c (parts cs)

-- `[A-Z0-9.-]`
abbrev pub is_symbol_char : ℕ → Bool
is_symbol_char c =
    (leb b'A' c && leb c b'Z') || (leb b'0' c && leb c b'9') || c == b'.' || c == b'-'

abbrev pub every_symbol_char : List ℕ → Bool
every_symbol_char [] = true
every_symbol_char (c ∷ cs) = is_symbol_char c && every_symbol_char cs

abbrev pub is_symbol : List ℕ → Bool
is_symbol t = every_symbol_char t && leb 1 (length t) && leb (length t) 10

unfoldable pub ticker_from_key : List ℕ → Option (List ℕ)
ticker_from_key key = elim (get_elem? (parts key) 1) [
  | none ↦ none
  | some candidate ↦ if is_symbol candidate then some candidate else none
]

-- The path given to `onOpen`, with `encodeURIComponent` as a parameter.
unfoldable pub clicked_path : (List ℕ → List ℕ) → List ℕ → List ℕ
unfolding ticker_from_key
clicked_path encode key = elim (ticker_from_key key) [
  | none ↦ codes "/"
  | some ticker ↦ codes "/stock/" ++ ticker ++ (codes "?alert=" ++ encode key)
]
