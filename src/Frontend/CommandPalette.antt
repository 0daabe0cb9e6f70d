-- ===== src/Frontend/CommandPalette.antt =====
-- frontend/src/components/CommandPalette.jsx: the jump menu with its search of the market. A text is
-- the list of its codes; `trim` and `toLowerCase` are parameters. Each run of the search effect has
-- a number, and its `alive` is that the number is the last one.
pub mod Laws
mod Tests
use stock_dashboard.Prelude.{
  ℕ, ◌+◌, Bool, true, false, not, ◌&&◌, ◌||◌, Option, none, some, List, [], ◌∷◌, ◌++◌, map, ◌==◌,
  if◌then◌else◌, length, get_elem?, filter,
}
use stock_dashboard.Desktop.Window.{same_codes}
use stock_dashboard.Prelude.Int.{ℤ, pos, negsuc, ◌+ℤ◌, ◌-ℤ◌, min_ℤ, max_ℤ}

abbrev pub Text : Type 0
Text = List ℕ

pub data Market : Type 0 where
  all us tase : Market

abbrev pub same_market : Market → Market → Bool
same_market Market.all Market.all = true
same_market Market.us Market.us = true
same_market Market.tase Market.tase = true
same_market _ _ = false

pub record Platform : Type 0 where
  pub trim : Text → Text
  pub lower : Text → Text

pub record Item : Type 0 where
  pub label : Text
  pub hint : Option Text

-- S is a stock that the search finds; what a search asks for is its text and market.
abbrev pub Asked : Type 0
Asked = Text × Market

pub data Entry (S : Type 0) : Type 0 where
  command : Item → Entry S
  stock : S → Entry S

pub record Palette (S : Type 0) : Type 0 where
  pub query : Text
  pub active : ℤ
  pub stocks : List S
  -- what the stocks on screen were asked for with
  pub found_for : Asked
  pub market : Market
  -- the number of the last run of the effect, whether its timer runs, and the searches in flight
  pub last_run : ℕ
  pub timer : Bool
  pub searching : List (ℕ × Asked)
  -- the entries that were run, the last first
  pub ran : List (Entry S)

pub data Event (S : Type 0) : Type 0 where
  typed : Text → Event S
  choose_market : Market → Event S
  timer_fires : Event S
  -- the answer to a run's search; `none` where it failed
  answered : ℕ → Option (List S) → Event S
  arrow_down arrow_up enter : Event S
  -- the pointer moves onto an entry, or presses it
  hovered : ℕ → Event S
  clicked : ℕ → Event S

abbrev pub is_empty : Text → Bool
is_empty [] = true
is_empty (c ∷ cs) = false

abbrev pub starts_with : Text → Text → Bool
starts_with [] h = true
starts_with (p ∷ ps) [] = false
starts_with (p ∷ ps) (c ∷ cs) = p == c && starts_with ps cs

abbrev pub includes : Text → Text → Bool
includes q [] = is_empty q
includes q (c ∷ cs) = starts_with q (c ∷ cs) || includes q cs

abbrev pub find_search : ℕ → List (ℕ × Asked) → Option Asked
find_search i [] = none
find_search i (p ∷ ps) = if p.0 == i then some p.1 else find_search i ps

abbrev pub without_search : ℕ → List (ℕ × Asked) → List (ℕ × Asked)
without_search i ps = filter (λ p. not (p.0 == i)) ps

module _ {S : Type 0} where
  -- The effect that searches runs again, after its clean-up.
  abbrev pub search_effect : Palette S → Palette S
  search_effect s = record s { last_run = s.last_run + 1; timer = true }

  abbrev pub put_stocks : List S → Asked → Palette S → Palette S
  put_stocks rows key s = record s { stocks = rows; found_for = key }

  abbrev pub rows_or_none : Option (List S) → List S
  rows_or_none none = []
  rows_or_none (some rows) = rows

  unfoldable pub answer : Option Asked → ℕ → Option (List S) → Palette S → Palette S
  answer none i rows s = s
  answer (some key) i rows s =
      let s' = record s { searching = without_search i s.searching } in
      if i == s.last_run then put_stocks (rows_or_none rows) key s' else s'

  abbrev pub entry_at : ℤ → List (Entry S) → Option (Entry S)
  entry_at (pos n) es = get_elem? es n
  entry_at (negsuc n) es = none

  abbrev pub run_entry : Option (Entry S) → Palette S → Palette S
  run_entry none s = s
  run_entry (some e) s = record s { ran = e ∷ s.ran }

module _ (platform : Platform) where
  abbrev pub hint_includes : Text → Option Text → Bool
  hint_includes q none = false
  hint_includes q (some h) = includes q (platform.lower h)

  unfoldable pub commands : List Item → Text → List Item
  commands items q =
      if is_empty q
      then items
      else filter (λ it. includes q (platform.lower it.label) || hint_includes q it.hint) items

  module _ {S : Type 0} where
    abbrev pub asked : Palette S → Asked
    asked s = (platform.trim s.query, s.market)

    -- The list on screen.
    unfoldable pub filtered : List Item → Palette S → List (Entry S)
    unfolding commands
    filtered items s =
        let q = platform.lower (platform.trim s.query) in
        map Entry.command (commands items q)
        ++ (if is_empty q then [] else map Entry.stock s.stocks)

    unfoldable pub fire : Palette S → Palette S
    fire s =
        let s' = record s { timer = false } in
        if is_empty (platform.trim s.query)
        then put_stocks [] (asked s) s'
        else record s' { searching = s.searching ++ (s.last_run, asked s) ∷ [] }

    -- The palette on a page that can open a ticker.
    unfoldable pub step : List Item → Event S → Palette S → Palette S
    unfolding filtered fire answer
    step items (Event.typed q) s =
        let s' = record s { query = q; active = pos 0 } in
        if same_codes q s.query then s' else search_effect s'
    step items (Event.choose_market m) s =
        let s' = record s { market = m; active = pos 0 } in
        if same_market m s.market then s' else search_effect s'
    step items Event.timer_fires s = if s.timer then fire s else s
    step items (Event.answered i rows) s = answer (find_search i s.searching) i rows s
    step items Event.arrow_down s = record s {
      active = min_ℤ (s.active +ℤ pos 1) (pos (length (filtered items s)) -ℤ pos 1);
    }
    step items Event.arrow_up s = record s { active = max_ℤ (s.active -ℤ pos 1) (pos 0) }
    step items Event.enter s = run_entry (entry_at s.active (filtered items s)) s
    step items (Event.hovered i) s = record s { active = pos i }
    step items (Event.clicked i) s = run_entry (get_elem? (filtered items s) i) s

    unfoldable pub run : List Item → List (Event S) → Palette S → Palette S
    unfolding step
    run items [] s = s
    run items (e ∷ es) s = run items es (step items e s)

    -- The first render, whose effect runs.
    abbrev pub initial : Market → Palette S
    initial m = record {
      query = [];
      active = pos 0;
      stocks = [];
      found_for = (platform.trim [], m);
      market = m;
      last_run = 1;
      timer = true;
      searching = [];
      ran = [];
    }
